-- ===== src/Net/Address.antt =====
-- crates/net/src/address.rs: classes of addresses, with the tests of `std::net` that it calls.
pub mod Table
pub mod Embedded
use ai_kernel.Prelude.{
  Text, codes, ℕ, ◌+◌, ◌*◌, ◌/◌, ◌%◌, ◌^◌, ◌==◌, leb, ltb, Bool, true, false, not, ◌&&◌, ◌||◌,
  if◌then◌else◌, Option, none, some,
}

pub data AddressClass : Type 0 where
  global : AddressClass
  local refused : Text → AddressClass

unfoldable pub is_reachable : AddressClass → Bool → Bool
is_reachable global allow_local = true
is_reachable (local range) allow_local = allow_local
is_reachable (refused range) allow_local = false

unfoldable pub range : AddressClass → Text
range global = codes "a global address"
range (local name) = name
range (refused name) = name

-- The octets of an `Ipv4Addr`, and the segments of an `Ipv6Addr`.
pub record Ipv4Addr : Type 0 where
  pub a : ℕ
  pub b : ℕ
  pub c : ℕ
  pub d : ℕ

pub record Ipv6Addr : Type 0 where
  pub s0 : ℕ
  pub s1 : ℕ
  pub s2 : ℕ
  pub s3 : ℕ
  pub s4 : ℕ
  pub s5 : ℕ
  pub s6 : ℕ
  pub s7 : ℕ

pub data IpAddr : Type 0 where
  v4 : Ipv4Addr → IpAddr
  v6 : Ipv6Addr → IpAddr

-- The tests of `std::net::Ipv4Addr`.
abbrev pub is_unspecified4 : Ipv4Addr → Bool
is_unspecified4 x = (x.a == 0) && (x.b == 0) && (x.c == 0) && (x.d == 0)

abbrev pub is_broadcast : Ipv4Addr → Bool
is_broadcast x = (x.a == 255) && (x.b == 255) && (x.c == 255) && (x.d == 255)

abbrev pub is_multicast4 : Ipv4Addr → Bool
is_multicast4 x = leb 224 x.a && leb x.a 239

abbrev pub is_link_local : Ipv4Addr → Bool
is_link_local x = (x.a == 169) && (x.b == 254)

abbrev pub is_documentation : Ipv4Addr → Bool
is_documentation x =
    ((x.a == 192) && (x.b == 0) && (x.c == 2))
    || ((x.a == 198) && (x.b == 51) && (x.c == 100))
    || ((x.a == 203) && (x.b == 0) && (x.c == 113))

abbrev pub is_loopback4 : Ipv4Addr → Bool
is_loopback4 x = x.a == 127

abbrev pub is_private : Ipv4Addr → Bool
is_private x =
    (x.a == 10) || ((x.a == 172) && leb 16 x.b && leb x.b 31) || ((x.a == 192) && (x.b == 168))

unfoldable pub classify_v4 : Ipv4Addr → AddressClass
classify_v4 x =
    if is_unspecified4 x || (x.a == 0)
    then refused (codes "the \"this network\" range 0.0.0.0/8")
    else if is_broadcast x
    then refused (codes "the broadcast address")
    else if is_multicast4 x
    then refused (codes "the multicast range 224.0.0.0/4")
    else if is_link_local x
    then refused (codes "the link-local range 169.254.0.0/16")
    else if is_documentation x
    then refused (codes "a documentation range")
    else if (x.a == 192) && (x.b == 0) && (x.c == 0)
    then refused (codes "the IETF protocol assignment range 192.0.0.0/24")
    else if (x.a == 198) && ((x.b == 18) || (x.b == 19))
    then refused (codes "the benchmarking range 198.18.0.0/15")
    else if leb 240 x.a
    then refused (codes "the reserved range 240.0.0.0/4")
    else if is_loopback4 x
    then local (codes "the loopback range 127.0.0.0/8")
    else if is_private x
    then local (codes "a private range (RFC 1918)")
    else if (x.a == 100) && (leb 64 x.b && ltb x.b 128)
    then local (codes "the carrier-grade NAT range 100.64.0.0/10")
    else global

-- The tests of `std::net::Ipv6Addr`, and its views of an embedded IPv4 address.
abbrev pub is_unspecified6 : Ipv6Addr → Bool
is_unspecified6 x =
    (x.s0 == 0)
    && (x.s1 == 0)
    && (x.s2 == 0)
    && (x.s3 == 0)
    && (x.s4 == 0)
    && (x.s5 == 0)
    && (x.s6 == 0)
    && (x.s7 == 0)

abbrev pub is_loopback6 : Ipv6Addr → Bool
is_loopback6 x =
    (x.s0 == 0)
    && (x.s1 == 0)
    && (x.s2 == 0)
    && (x.s3 == 0)
    && (x.s4 == 0)
    && (x.s5 == 0)
    && (x.s6 == 0)
    && (x.s7 == 1)

abbrev pub is_multicast6 : Ipv6Addr → Bool
is_multicast6 x = x.s0 / 256 == 255

-- The octets of two segments.
abbrev pub octets : ℕ → ℕ → Ipv4Addr
octets high low = record { a = high / 256; b = high % 256; c = low / 256; d = low % 256 }

abbrev pub leads_zeros : Ipv6Addr → Bool
leads_zeros x = (x.s0 == 0) && (x.s1 == 0) && (x.s2 == 0) && (x.s3 == 0) && (x.s4 == 0)

unfoldable pub to_ipv4_mapped : Ipv6Addr → Option Ipv4Addr
to_ipv4_mapped x = if leads_zeros x && (x.s5 == 65535) then some (octets x.s6 x.s7) else none

abbrev pub has_ipv4 : Ipv6Addr → Bool
has_ipv4 x = leads_zeros x && ((x.s5 == 0) || (x.s5 == 65535))

-- `s & mask` for a mask whose set bits are the upper ones of a segment: the `n` low bits are cleared.
abbrev pub clear_low : ℕ → ℕ → ℕ
clear_low n s = s / 2 ^ n * 2 ^ n

-- The second half of `classify_v6`: no IPv4 address is mapped.
unfoldable pub classify_unmapped : Ipv6Addr → AddressClass
classify_unmapped x =
    if has_ipv4 x && not (is_unspecified6 x) && not (is_loopback6 x)
    then refused (codes "a deprecated IPv4-compatible address")
    else if is_unspecified6 x
    then refused (codes "the unspecified address ::")
    else if is_multicast6 x
    then refused (codes "the multicast range ff00::/8")
    else if clear_low 6 x.s0 == 65152
    then refused (codes "the link-local range fe80::/10")
    else if x.s0 == 8194
    then refused (codes "the 6to4 range 2002::/16")
    else if (x.s0 == 8193) && (x.s1 == 0)
    then refused (codes "the Teredo range 2001::/32")
    else if (x.s0 == 8193) && (x.s1 == 3512)
    then refused (codes "the documentation range 2001:db8::/32")
    else if (x.s0 == 256) && ((x.s1 == 0) && (x.s2 == 0) && (x.s3 == 0))
    then refused (codes "the discard-only range 100::/64")
    else if is_loopback6 x
    then local (codes "the loopback address ::1")
    else if clear_low 9 x.s0 == 64512
    then local (codes "the unique-local range fc00::/7")
    else global

classify_mapped : Option Ipv4Addr → Ipv6Addr → AddressClass
classify_mapped (some y) x = classify_v4 y
classify_mapped none x = classify_unmapped x

unfoldable pub classify_v6 : Ipv6Addr → AddressClass
unfolding classify_mapped to_ipv4_mapped
classify_v6 x = classify_mapped (to_ipv4_mapped x) x

unfoldable pub classify : IpAddr → AddressClass
classify (v4 x) = classify_v4 x
classify (v6 x) = classify_v6 x
