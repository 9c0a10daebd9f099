-- ===== src/Context/Elision/Truncate.antt =====
-- crates/context/src/window.rs: the binary search of `truncate_to_tokens`.
use ai_kernel.Prelude.{
  Text, take, length, ℕ, zero, suc, ◌+◌, ◌-◌, ◌/◌, ◌≤◌, ◌<◌, ◌≡◌, ◌⊎◌, refl, sym, length-take, inl,
  inr, true, false, List, [], ◌∷◌, arith, leb, ltb, ◌==◌, ap, if_elim, ltb-false, leb-false, ltb→lt,
  leb→le,
}
use ai_kernel.Context.Elision.{truncate_to_tokens, search_prefix}

take-length {ℓ} : {A : Type ℓ} (xs : List A) (n : ℕ) → length xs ≤ n → take n xs ≡ xs
take-length [] zero h = refl
take-length [] (suc n) h = refl
take-length (x ∷ xs) zero h = ground arith
take-length (x ∷ xs) (suc n) h = ap (◌∷◌ x) (take-length xs n (omega arith))

between :
    (low high : ℕ)
    → low + 1 < high
    → (low < low + (high - low) / 2) × (low + (high - low) / 2 < high)
between low high h = omega arith

-- Where the search ends, one character more would not fit.
abbrev IsEdge : (Text → ℕ) → Text → ℕ → ℕ → ℕ → Type 0
IsEdge count t limit high n =
    (count (take n t) ≤ limit) × (limit < count (take (n + 1) t)) × (n < high)

le_or_lt : (m n : ℕ) → (m ≤ n) ⊎ (n + 1 ≤ m)
le_or_lt m n = omega arith

module _ (count : Text → ℕ) (t : Text) (limit : ℕ) where
  search_prefix-IsEdge :
      (fuel low high : ℕ)
      → low < high
      → high ≤ low + fuel
      → count (take low t) ≤ limit
      → limit < count (take high t)
      → IsEdge count t limit high (search_prefix count t limit fuel low high)
  unfolding search_prefix
  search_prefix-IsEdge zero low high p q fits over = omega arith
  search_prefix-IsEdge (suc fuel) low high p q fits over =
      if_elim (IsEdge count t limit high) (ltb (low + 1) high)
        (λ wide.
          let (above, below) = between low high (ltb→lt (low + 1) high wide) in
          if_elim (IsEdge count t limit high) (leb (count (take (low + (high - low) / 2) t)) limit)
            (λ e.
              search_prefix-IsEdge fuel (low + (high - low) / 2) high below (omega arith)
                (leb→le _ _ e) over)
            (λ e.
              let (a, b, c) =
                search_prefix-IsEdge fuel low (low + (high - low) / 2) above (omega arith) fits
                  (leb-false _ _ e) in
              (a, b, omega arith)))
        (λ narrow.
          let last : high ≡ low + 1 = omega (arith, ltb-false (low + 1) high narrow) in
          (fits, rw (sym last) over, p))

  over-length : leb (count t) limit ≡ false → limit < count (take (length t) t)
  over-length h =
      let whole : take (length t) t ≡ t = take-length t (length t) (omega arith) in
      rw whole (leb-false _ _ h)

-- How the longest prefix of a text that fits a limit compares with a prefix of `m` characters that fits.
abbrev pub IsLongest : (Text → ℕ) → Text → ℕ → ℕ → Text → Type 0
IsLongest count t limit m kept =
    (count kept ≤ limit) × (kept ≡ take (length kept) t) × (m ≤ length kept)

edge-IsLongest :
    (count : Text → ℕ) (t : Text) (limit m n : ℕ)
    → ((i j : ℕ) → i ≤ j → count (take i t) ≤ count (take j t))
    → m ≤ length t
    → count (take m t) ≤ limit
    → IsEdge count t limit (length t) n
    → IsLongest count t limit m (take n t)
edge-IsLongest count t limit m n mono h fits (a, b, c) =
    let size : length (take n t) ≡ n = omega (arith, length-take n t) in
    (
      a,
      rw size refl,
      rw size (elim (le_or_lt m n) [ inl p ↦ p | inr p ↦ omega (arith, mono (n + 1) m p) ]),
    )

empty-over :
    (count : Text → ℕ) (t : Text) (limit m : ℕ)
    → (length t == 0) ≡ true
    → count (take m t) ≤ limit
    → leb (count t) limit ≡ true
empty-over count [] limit zero h fits = ground arith
empty-over count [] limit (suc m) h fits = ground arith
empty-over count (x ∷ t) limit m h fits = ground arith

-- A text is cut down to the longest of its prefixes that fits the limit, where the count of a prefix
-- does not exceed the count of a longer one: what is left is a prefix, it fits, and no prefix of the
-- text that fits is longer.
pub truncate_to_tokens-IsLongest :
    (count : Text → ℕ) (t : Text) (limit m : ℕ)
    → ((i j : ℕ) → i ≤ j → count (take i t) ≤ count (take j t))
    → m ≤ length t
    → count (take m t) ≤ limit
    → IsLongest count t limit m (truncate_to_tokens count t limit)
unfolding truncate_to_tokens
truncate_to_tokens-IsLongest count t limit m mono h fits =
    if_elim (IsLongest count t limit m) (leb (count t) limit)
      (λ e. (leb→le _ _ e, sym (take-length t (length t) (omega arith)), h))
      (λ e.
        if_elim (IsLongest count t limit m) (length t == 0)
          (λ z. ground (arith, e, empty-over count t limit m z fits))
          (λ z. edge-IsLongest count t limit m _ mono h fits (
            search_prefix-IsEdge count t limit (length t) 0 (length t) (ground (arith, z))
              (omega arith) (omega (arith, mono 0 m (omega arith))) (over-length count t limit e))))
