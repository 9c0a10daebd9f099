-- ===== src/Summary/Excerpt/Neutral.antt =====
-- crates/summary/src/excerpt.rs: what `neutralise` leaves.
use mathlib.Core.Path.{subst}
use ai_kernel.Prelude.{
  Text, ℕ, zero, suc, ◌-◌, ◌≡◌, refl, ap, ◌∙◌, arith, ◌==◌, Bool, Bool-cases, Option-cases, inl,
  inr, true, false, ◌&&◌, ◌||◌, if◌then◌else◌, none, some, [], ◌∷◌, ◌++◌, all, not,
}
use ai_kernel.Summary.Excerpt.{
  transcript_open, transcript_close, neutralised_tag, to_lower, starts_ignoring_case, tag_at,
  neutralise_from, emit,
}

-- A tag stands somewhere in a text, in any case.
abbrev pub is_tag : Text → Bool
is_tag t = starts_ignoring_case transcript_close t || starts_ignoring_case transcript_open t

abbrev pub has_tag : Text → Bool
has_tag [] = false
has_tag (x ∷ t) = is_tag (x ∷ t) || has_tag t

-- A text in which no tag can start.
abbrev pub no_bracket : Text → Bool
no_bracket t = all (λ c. not (c == 60)) t

pub has_tag-append_plain : (a b : Text) → no_bracket a ≡ true → has_tag (a ++ b) ≡ has_tag b
unfolding starts_ignoring_case
has_tag-append_plain [] b h = refl
has_tag-append_plain (x ∷ a) b h = ground (arith, has_tag-append_plain a b (ground arith))

neutralise_from-none :
    (x : ℕ) (t : Text) → tag_at (x ∷ t) ≡ none → neutralise_from 0 (x ∷ t) ≡ x ∷ neutralise_from 0 t
unfolding neutralise_from emit
neutralise_from-none x t e = ap (λ o. emit o x (λ k. neutralise_from k t)) e

neutralise_from-some :
    (x n : ℕ) (t : Text)
    → tag_at (x ∷ t) ≡ some n
    → neutralise_from 0 (x ∷ t) ≡ neutralised_tag ++ neutralise_from (n - 1) t
unfolding neutralise_from emit
neutralise_from-some x n t e = ap (λ o. emit o x (λ k. neutralise_from k t)) e

nothing_starts :
    (c : ℕ) (p : Text)
    → starts_ignoring_case (c ∷ p) (neutralise_from 0 []) ≡ true
    → starts_ignoring_case (c ∷ p) [] ≡ true
unfolding neutralise_from
nothing_starts c p h = h

-- Without the bracket that the replacement starts with, a pattern that starts the output starts the input.
starts-neutralise :
    (p t : Text)
    → all (λ c. not (to_lower c == 40)) p ≡ true
    → starts_ignoring_case p (neutralise_from 0 t) ≡ true
    → starts_ignoring_case p t ≡ true
unfolding starts_ignoring_case
starts-neutralise [] t h k = refl
starts-neutralise (c ∷ p) [] h k = nothing_starts c p k
starts-neutralise (c ∷ p) (x ∷ t) h k = elim (Option-cases (tag_at (x ∷ t))) [
  | inl e ↦
      let k' : ((to_lower c == to_lower x) && starts_ignoring_case p (neutralise_from 0 t)) ≡ true =
        subst (λ out. starts_ignoring_case (c ∷ p) out ≡ true) (neutralise_from-none x t e) k in
      ground (arith, starts-neutralise p t (ground arith))
  | inr (n, e) ↦
      let k' : starts_ignoring_case (c ∷ p) (neutralised_tag ++ neutralise_from (n - 1) t) ≡ true =
        subst (λ out. starts_ignoring_case (c ∷ p) out ≡ true) (neutralise_from-some x n t e) k in
      ground arith
]

both_false :
    (a b : Bool) (m n : ℕ)
    → (if a then some m else if b then some n else none) ≡ none
    → (a ≡ false) × (b ≡ false)
both_false true b m n h = cc
both_false false true m n h = cc
both_false false false m n h = (refl, refl)

stays_false :
    (p t : Text)
    → all (λ c. not (to_lower c == 40)) p ≡ true
    → starts_ignoring_case p t ≡ false
    → starts_ignoring_case p (neutralise_from 0 t) ≡ false
stays_false p t h k = elim (Bool-cases (starts_ignoring_case p (neutralise_from 0 t))) [
  | inl e ↦ let found = starts-neutralise p t h e in cc
  | inr e ↦ e
]

is_tag-neutralise : (t : Text) → tag_at t ≡ none → is_tag (neutralise_from 0 t) ≡ false
unfolding tag_at
is_tag-neutralise t h =
    let (closes, opens) =
      both_false (starts_ignoring_case transcript_close t) (starts_ignoring_case transcript_open t)
        13 12 h in
    rw (stays_false transcript_close t refl closes)
      (rw (stays_false transcript_open t refl opens) refl)

-- What `neutralise` leaves has no tag, in any case and at any position.
pub has_tag-neutralise : (n : ℕ) (t : Text) → has_tag (neutralise_from n t) ≡ false
unfolding neutralise_from
has_tag-neutralise n [] = refl
has_tag-neutralise (suc n) (x ∷ t) = has_tag-neutralise n t
has_tag-neutralise zero (x ∷ t) = elim (Option-cases (tag_at (x ∷ t))) [
  | inl e ↦
      let kept = neutralise_from-none x t e in
      let start : is_tag (x ∷ neutralise_from 0 t) ≡ false =
        subst (λ out. is_tag out ≡ false) kept (is_tag-neutralise (x ∷ t) e) in
      rw kept (rw start (has_tag-neutralise 0 t))
  | inr (n, e) ↦ rw (neutralise_from-some x n t e) (
      has_tag-append_plain neutralised_tag (neutralise_from (n - 1) t) refl
      ∙ has_tag-neutralise (n - 1) t)
]

or_false : (a b : Bool) → (a || b) ≡ false → (a ≡ false) × (b ≡ false)
or_false false false h = (refl, refl)
or_false false true h = cc
or_false true b h = cc

-- A character that is in no tag keeps the tags of two texts apart.
module _ (d : ℕ) where
  starts-separated :
      (p a b : Text)
      → all (λ c. not (to_lower c == to_lower d)) p ≡ true
      → starts_ignoring_case p (a ++ (d ∷ b)) ≡ true
      → starts_ignoring_case p a ≡ true
  unfolding starts_ignoring_case
  starts-separated [] a b h k = refl
  starts-separated (c ∷ p) [] b h k = ground arith
  starts-separated (c ∷ p) (x ∷ a) b h k = ground (arith, starts-separated p a b (ground arith))

  separated_false :
      (p a b : Text)
      → all (λ c. not (to_lower c == to_lower d)) p ≡ true
      → starts_ignoring_case p a ≡ false
      → starts_ignoring_case p (a ++ (d ∷ b)) ≡ false
  separated_false p a b h k = elim (Bool-cases (starts_ignoring_case p (a ++ (d ∷ b)))) [
    | inl e ↦ let found = starts-separated p a b h e in cc
    | inr e ↦ e
  ]

  pub has_tag-separated :
      (a b : Text)
      → all (λ c. not (to_lower c == to_lower d)) transcript_close ≡ true
      → all (λ c. not (to_lower c == to_lower d)) transcript_open ≡ true
      → has_tag a ≡ false
      → has_tag (d ∷ b) ≡ false
      → has_tag (a ++ (d ∷ b)) ≡ false
  has_tag-separated [] b hc ho h k = k
  has_tag-separated (x ∷ a) b hc ho h k =
      let (here, later) = or_false (is_tag (x ∷ a)) (has_tag a) h in
      let (closes, opens) =
        or_false (starts_ignoring_case transcript_close (x ∷ a))
          (starts_ignoring_case transcript_open (x ∷ a)) here in
      rw (separated_false transcript_close (x ∷ a) b hc closes) (
        rw (separated_false transcript_open (x ∷ a) b ho opens)
          (has_tag-separated a b hc ho later k))
