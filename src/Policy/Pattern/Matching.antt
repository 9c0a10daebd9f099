-- ===== src/Policy/Pattern/Matching.antt =====
-- What a pattern written in a document matches, crates/policy/src/pattern.rs.
use ai_kernel.Prelude.{
  Text, text_eq, text_eq_iff, text_eq_refl, starts_with-append, starts_with-split, strip_suffix,
  strip_suffix-some, strip_suffix-append, Bool-cases, Option-cases, [], ◌∷◌, ◌++◌, ◌≡◌, ◌≢◌, ◌↔◌,
  refl, inl, inr, arith, true,
}
use ai_kernel.Policy.Pattern.{star, parse, matches}

-- The documented reading of a pattern's text: a text that ends in `*` covers all that begins with
-- what stands before the star, any other text covers itself only.
pub data Covers (t v : Text) : Type 0 where
  by_prefix : (p r : Text) → t ≡ p ++ star ∷ [] → v ≡ p ++ r → Covers t v
  by_name : ((p : Text) → t ≢ p ++ star ∷ []) → v ≡ t → Covers t v

matches-Covers : (t v : Text) → matches (parse t) v ≡ true → Covers t v
unfolding matches parse
matches-Covers t v h = elim (Bool-cases (text_eq t (star ∷ []))) [
  | inl e ↦ by_prefix [] v ((text_eq_iff t (star ∷ [])).0 e) refl
  | inr e ↦ elim (Option-cases (strip_suffix star t)) [
    | inl n ↦
        by_name (λ p q. ground (arith, n, strip_suffix-append star p, q))
          ((text_eq_iff v t).0 (rw (e, n) at h))
    | inr (p, s) ↦
        let (r, q) = starts_with-split p v (rw (e, s) at h) in
        by_prefix p r (strip_suffix-some star t p s) q
  ]
]

Covers-matches : (t v : Text) → Covers t v → matches (parse t) v ≡ true
unfolding matches parse
Covers-matches t v (by_prefix p r e q) = elim (Bool-cases (text_eq t (star ∷ []))) [
  | inl s ↦ rw s
  | inr s ↦ rw (s, e, strip_suffix-append star p, q) (starts_with-append p r)
]
Covers-matches t v (by_name h e) = elim (Bool-cases (text_eq t (star ∷ []))) [
  | inl s ↦ rw s
  | inr s ↦ elim (Option-cases (strip_suffix star t)) [
    | inl n ↦ rw (s, n, e) (text_eq_refl t)
    | inr (p, q) ↦ absurd (h p (strip_suffix-some star t p q))
  ]
]

-- A pattern parsed from a text matches exactly the values that the text covers: a text that ends
-- in `*` covers what begins with the part before the star, any other text covers itself.
pub matches-parse : (t v : Text) → (matches (parse t) v ≡ true) ↔ Covers t v
matches-parse t v = (matches-Covers t v, Covers-matches t v)
