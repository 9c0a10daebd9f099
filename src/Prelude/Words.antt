-- ===== src/Prelude/Words.antt =====
-- `u64` and `u32` arithmetic as the code writes it. Subtraction on the numbers stops at 0, which is
-- what `saturating_sub` does.
use Prim.Native.Nat.{ℕ, ◌+◌, ◌*◌, ◌%◌, min}

abbrev pub u64_size : ℕ
u64_size = 18446744073709551616

abbrev pub u64_max : ℕ
u64_max = 18446744073709551615

abbrev pub u32_max : ℕ
u32_max = 4294967295

abbrev pub saturating_add : ℕ → ℕ → ℕ
saturating_add a b = min (a + b) u64_max

abbrev pub saturating_mul : ℕ → ℕ → ℕ
saturating_mul a b = min (a * b) u64_max

abbrev pub saturating_add32 : ℕ → ℕ → ℕ
saturating_add32 a b = min (a + b) u32_max

abbrev pub wrapping_add : ℕ → ℕ → ℕ
wrapping_add a b = (a + b) % u64_size

abbrev pub wrapping_mul : ℕ → ℕ → ℕ
wrapping_mul a b = (a * b) % u64_size
