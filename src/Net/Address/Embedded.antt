-- ===== src/Net/Address/Embedded.antt =====
-- crates/net/src/address.rs: IPv6 addresses that carry an IPv4 address.
use ai_kernel.Prelude.{ℕ, ◌+◌, ◌*◌, ◌/◌, ◌%◌, ◌≡◌, refl, ap, arith, Bool, true}
use ai_kernel.Net.Address.{
  Ipv4Addr, Ipv6Addr, v4, v6, is_reachable, classify, classify_v6, classify_v4, classify_unmapped,
  classify_mapped, to_ipv4_mapped, octets,
}
use ai_kernel.Net.Address.Table.{IsAddress}

abbrev pub high : Ipv4Addr → ℕ
high x = x.a * 256 + x.b

abbrev pub low : Ipv4Addr → ℕ
low x = x.c * 256 + x.d

abbrev pub zeros_then : ℕ → ℕ → ℕ → Ipv6Addr
zeros_then s5 s6 s7 = record { s0 = 0; s1 = 0; s2 = 0; s3 = 0; s4 = 0; s5 = s5; s6 = s6; s7 = s7 }

-- The IPv6 forms that carry an IPv4 address: mapped, compatible, 6to4 and Teredo.
pub data Embeds : Ipv4Addr → Ipv6Addr → Type 0 where
  mapped : (x : Ipv4Addr) → Embeds x (zeros_then 65535 (high x) (low x))
  compatible : (x : Ipv4Addr) → Embeds x (zeros_then 0 (high x) (low x))
  six_to_four :
      (x : Ipv4Addr) (s3 s4 s5 s6 s7 : ℕ)
      → Embeds x (record {
        s0 = 8194;
        s1 = high x;
        s2 = low x;
        s3 = s3;
        s4 = s4;
        s5 = s5;
        s6 = s6;
        s7 = s7;
      })
  teredo :
      (x : Ipv4Addr) (s4 s5 s6 s7 : ℕ)
      → Embeds x (record {
        s0 = 8193;
        s1 = 0;
        s2 = high x;
        s3 = low x;
        s4 = s4;
        s5 = s5;
        s6 = s6;
        s7 = s7;
      })

-- 64:ff9b::/96, the prefix of the translation of RFC 6052.
abbrev pub translated : Ipv4Addr → Ipv6Addr
translated x = record {
  s0 = 100;
  s1 = 65435;
  s2 = 0;
  s3 = 0;
  s4 = 0;
  s5 = 0;
  s6 = high x;
  s7 = low x;
}

octets_of : (x : Ipv4Addr) → IsAddress x → octets (high x) (low x) ≡ x
octets_of x (ha, hb, hc, hd) =
    let a : high x / 256 ≡ x.a = omega arith in
    let b : high x % 256 ≡ x.b = omega arith in
    let c : low x / 256 ≡ x.c = omega arith in
    let d : low x % 256 ≡ x.d = omega arith in rw a (rw b (rw c (rw d refl)))

-- A mapped address is of the class of the IPv4 address that it carries.
pub classify-mapped :
    (x : Ipv4Addr)
    → IsAddress x
    → classify (v6 (zeros_then 65535 (high x) (low x))) ≡ classify (v4 x)
unfolding classify classify_v6 classify_mapped to_ipv4_mapped
classify-mapped x h = ap classify_v4 (octets_of x h)

-- An address under the prefix 64:ff9b::/96 is reachable, whatever IPv4 address it carries.
pub classify-translated :
    (x : Ipv4Addr) (allow_local : Bool)
    → is_reachable (classify (v6 (translated x))) allow_local ≡ true
unfolding classify classify_v6 classify_mapped to_ipv4_mapped classify_unmapped is_reachable
classify-translated x allow_local = refl
