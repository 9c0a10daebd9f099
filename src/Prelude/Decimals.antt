-- ===== src/Prelude/Decimals.antt =====
-- `{n}` in a format string: the decimal digits of a number.
use Prim.Native.Nat.{ℕ, zero, suc, ◌+◌, ◌/◌, ◌%◌, ◌<◌}
use mathlib.Core.Path.{◌≡◌, refl}
use mathlib.Core.Bool.{Bool, true}
use mathlib.Core.Logic.{inl, inr}
use mathlib.Core.List.{[], ◌∷◌}
use native.Mathlib.Omega.{arith}
use ai_kernel.Prelude.Lists.{all}
use ai_kernel.Prelude.Tests.{ltb, Bool-cases, if◌then◌else◌}
use ai_kernel.Prelude.Texts.{Text}

-- The digits of `n` in front of `rest`. A number has fewer digits than its successor is large.
digits_from : ℕ → ℕ → Text → Text
digits_from zero n rest = rest
digits_from (suc fuel) n rest =
    let more = digits_from fuel (n / 10) ((48 + n % 10) ∷ rest) in
    if ltb n 10 then (48 + n) ∷ rest else more

unfoldable pub decimal : ℕ → Text
unfolding digits_from
decimal n = digits_from (suc n) n []

-- What holds of every digit holds of all the characters of a number.
module _ (p : ℕ → Bool) (digit : (d : ℕ) → d < 10 → p (48 + d) ≡ true) where
  digits_from-all :
      (fuel n : ℕ) (rest : Text) → all p rest ≡ true → all p (digits_from fuel n rest) ≡ true
  unfolding digits_from
  digits_from-all zero n rest h = h
  digits_from-all (suc fuel) n rest h = elim (Bool-cases (ltb n 10)) [
    | inl e ↦ rw e (rw (digit n (ground (arith, e))) h)
    | inr e ↦
        rw e (
          digits_from-all fuel (n / 10) ((48 + n % 10) ∷ rest)
            (rw (digit (n % 10) (omega arith)) h))
  ]

  pub decimal-all : (n : ℕ) → all p (decimal n) ≡ true
  unfolding decimal
  decimal-all n = digits_from-all (suc n) n [] refl
