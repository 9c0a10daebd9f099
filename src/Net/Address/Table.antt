-- ===== src/Net/Address/Table.antt =====
-- crates/net/src/address.rs: `classify_v4` against a table of address blocks.
use ai_kernel.Prelude.{
  codes, ℕ, ◌+◌, ◌*◌, ◌/◌, ◌^◌, ◌-◌, ◌<◌, ◌≡◌, refl, arith, ◌==◌, leb, ltb, Bool, ◌&&◌, ◌||◌,
  if◌then◌else◌, any, List, [], ◌∷◌,
}
use ai_kernel.Net.Address.{
  AddressClass, global, local, refused, Ipv4Addr, classify_v4, is_unspecified4, is_broadcast,
  is_multicast4, is_link_local, is_documentation, is_loopback4, is_private,
}

-- A block in the notation `a.b.c.d/bits`, and an address as a number of 32 bits.
abbrev pub number : Ipv4Addr → ℕ
number x = x.a * 16777216 + x.b * 65536 + x.c * 256 + x.d

pub record Block : Type 0 where
  pub base : Ipv4Addr
  pub bits : ℕ

abbrev pub ip : ℕ → ℕ → ℕ → ℕ → Ipv4Addr
ip a b c d = record { a = a; b = b; c = c; d = d }

infix 80 ◌/ᵇ◌
abbrev pub ◌/ᵇ◌ : Ipv4Addr → ℕ → Block
base /ᵇ bits = record { base = base; bits = bits }

-- The first `bits` bits agree.
abbrev pub in_block : ℕ → Block → Bool
in_block n block = n / 2 ^ (32 - block.bits) == number block.base / 2 ^ (32 - block.bits)

abbrev pub IsAddress : Ipv4Addr → Type 0
IsAddress x = (x.a < 256) × (x.b < 256) × (x.c < 256) × (x.d < 256)

-- The blocks and what an address in one of them is: the first row decides.
abbrev pub Row : Type 0
Row = List Block × AddressClass

abbrev pub this_network_blocks : List Block
this_network_blocks = ip 0 0 0 0 /ᵇ 8 ∷ []

abbrev pub documentation_blocks : List Block
documentation_blocks = ip 192 0 2 0 /ᵇ 24 ∷ ip 198 51 100 0 /ᵇ 24 ∷ ip 203 0 113 0 /ᵇ 24 ∷ []

abbrev pub private_blocks : List Block
private_blocks = ip 10 0 0 0 /ᵇ 8 ∷ ip 172 16 0 0 /ᵇ 12 ∷ ip 192 168 0 0 /ᵇ 16 ∷ []

abbrev pub table : List Row
table =
    (this_network_blocks, refused (codes "the \"this network\" range 0.0.0.0/8"))
    ∷ (ip 255 255 255 255 /ᵇ 32 ∷ [], refused (codes "the broadcast address"))
    ∷ (ip 224 0 0 0 /ᵇ 4 ∷ [], refused (codes "the multicast range 224.0.0.0/4"))
    ∷ (ip 169 254 0 0 /ᵇ 16 ∷ [], refused (codes "the link-local range 169.254.0.0/16"))
    ∷ (documentation_blocks, refused (codes "a documentation range"))
    ∷ (ip 192 0 0 0 /ᵇ 24 ∷ [], refused (codes "the IETF protocol assignment range 192.0.0.0/24"))
    ∷ (ip 198 18 0 0 /ᵇ 15 ∷ [], refused (codes "the benchmarking range 198.18.0.0/15"))
    ∷ (ip 240 0 0 0 /ᵇ 4 ∷ [], refused (codes "the reserved range 240.0.0.0/4"))
    ∷ (ip 127 0 0 0 /ᵇ 8 ∷ [], local (codes "the loopback range 127.0.0.0/8"))
    ∷ (private_blocks, local (codes "a private range (RFC 1918)"))
    ∷ (ip 100 64 0 0 /ᵇ 10 ∷ [], local (codes "the carrier-grade NAT range 100.64.0.0/10"))
    ∷ []

abbrev pub look_up : List Row → ℕ → AddressClass
look_up [] n = global
look_up ((blocks, class) ∷ rows) n = if any (in_block n) blocks then class else look_up rows n

same_if :
    (class : AddressClass) {p q : Bool} {r s : AddressClass}
    → p ≡ q
    → r ≡ s
    → (if p then class else r) ≡ (if q then class else s)
same_if class h k = rw h (rw k refl)

module _ (x : Ipv4Addr) (ha : x.a < 256) (hb : x.b < 256) (hc : x.c < 256) (hd : x.d < 256) where
  this_network : (is_unspecified4 x || (x.a == 0)) ≡ any (in_block (number x)) (this_network_blocks)
  this_network = ground arith

  broadcast : is_broadcast x ≡ any (in_block (number x)) (ip 255 255 255 255 /ᵇ 32 ∷ [])
  broadcast = ground arith

  multicast : is_multicast4 x ≡ any (in_block (number x)) (ip 224 0 0 0 /ᵇ 4 ∷ [])
  multicast = ground arith

  link_local : is_link_local x ≡ any (in_block (number x)) (ip 169 254 0 0 /ᵇ 16 ∷ [])
  link_local = ground arith

  documentation : is_documentation x ≡ any (in_block (number x)) (documentation_blocks)
  documentation = ground arith

  assignments :
      ((x.a == 192) && (x.b == 0) && (x.c == 0))
      ≡ any (in_block (number x)) (ip 192 0 0 0 /ᵇ 24 ∷ [])
  assignments = ground arith

  benchmarking :
      ((x.a == 198) && ((x.b == 18) || (x.b == 19)))
      ≡ any (in_block (number x)) (ip 198 18 0 0 /ᵇ 15 ∷ [])
  benchmarking = ground arith

  reserved : leb 240 x.a ≡ any (in_block (number x)) (ip 240 0 0 0 /ᵇ 4 ∷ [])
  reserved = ground arith

  loopback : is_loopback4 x ≡ any (in_block (number x)) (ip 127 0 0 0 /ᵇ 8 ∷ [])
  loopback = ground arith

  private : is_private x ≡ any (in_block (number x)) (private_blocks)
  private = ground arith

  carrier_grade :
      ((x.a == 100) && (leb 64 x.b && ltb x.b 128))
      ≡ any (in_block (number x)) (ip 100 64 0 0 /ᵇ 10 ∷ [])
  carrier_grade = ground arith

-- An IPv4 address is of the class that the first block of the table with it has, and global where no
-- block has it.
pub classify_v4-table : (x : Ipv4Addr) → IsAddress x → classify_v4 x ≡ look_up table (number x)
unfolding classify_v4
classify_v4-table x (ha, hb, hc, hd) = same_if _ (this_network x ha hb hc hd) (
    same_if _ (broadcast x ha hb hc hd) (
      same_if _ (multicast x ha hb hc hd) (
        same_if _ (link_local x ha hb hc hd) (
          same_if _ (documentation x ha hb hc hd) (
            same_if _ (assignments x ha hb hc hd) (
              same_if _ (benchmarking x ha hb hc hd) (
                same_if _ (reserved x ha hb hc hd) (
                  same_if _ (loopback x ha hb hc hd) (
                    same_if _ (private x ha hb hc hd)
                      (same_if _ (carrier_grade x ha hb hc hd) refl))))))))))
