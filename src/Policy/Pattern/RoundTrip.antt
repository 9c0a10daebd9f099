-- ===== src/Policy/Pattern/RoundTrip.antt =====
-- Printing and parsing of patterns, crates/policy/src/pattern.rs.
use ai_kernel.Prelude.{
  Text, text_eq, text_eq_iff, strip_suffix, strip_suffix-some, Bool-cases, Option-cases, [], ◌∷◌,
  ◌≡◌, sym, inl, inr,
}
use ai_kernel.Policy.Pattern.{star, parse, display}

-- Displaying a parsed pattern gives back the text that was parsed, whatever it is.
pub display-parse : (t : Text) → display (parse t) ≡ t
unfolding display parse
display-parse t = elim (Bool-cases (text_eq t (star ∷ []))) [
  | inl e ↦ rw e (sym ((text_eq_iff t (star ∷ [])).0 e))
  | inr e ↦ rw e (elim (Option-cases (strip_suffix star t)) [
    | inl n ↦ rw n
    | inr (p, s) ↦ rw s (sym (strip_suffix-some star t p s))
  ])
]
