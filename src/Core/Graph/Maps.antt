-- ===== src/Core/Graph/Maps.antt =====
-- crates/core/src/graph.rs: what the operations on its maps and sets do to a key.
use ai_kernel.Prelude.{
  Text, text_eq, text_eq_iff, text_eq_refl, length, length-keep_if-le, ℕ, suc, ◌<◌, ◌≡◌, refl, sym,
  ap, ◌∙◌, arith, inl, inr, ◌⊎◌, Bool, Bool-cases, true, false, not, if◌then◌else◌, none, some, [],
  ◌∷◌,
}
use ai_kernel.Core.Graph.{Counts, lookup, insert, set_count, remove, place, text_lt}

-- Two texts are one or they are apart.
pub text-cases : (s t : Text) → (s ≡ t) ⊎ (text_eq s t ≡ false)
text-cases s t = elim (Bool-cases (text_eq s t)) [
  | inl e ↦ inl ((text_eq_iff s t).0 e)
  | inr e ↦ inr e
]

pub text_eq_sym : (s t : Text) → text_eq s t ≡ text_eq t s
text_eq_sym s t = elim (text-cases s t) [
  | inl e ↦ rw e refl
  | inr e ↦ elim (text-cases t s) [ inl f ↦ rw f refl | inr f ↦ rw e (sym f) ]
]

pub same-text : (k y : Text) → k ≡ y → text_eq k y ≡ true
same-text k y e = (text_eq_iff k y).1 e

pub if_same {ℓ} : {A : Type ℓ} (b : Bool) (x : A) → (if b then x else x) ≡ x
if_same true x = refl
if_same false x = refl

pub lookup-set_count-same :
    (k : Text) (c b : ℕ) (m : Counts) → lookup k m ≡ some b → lookup k (set_count k c m) ≡ some c
unfolding lookup set_count
lookup-set_count-same k c b [] h = cc
lookup-set_count-same k c b ((x, a) ∷ m) h = elim (Bool-cases (text_eq k x)) [
  | inl e ↦ rw e (rw e refl)
  | inr e ↦ rw e (rw e (lookup-set_count-same k c b m (rw e at h)))
]

pub lookup-set_count-other :
    (k x : Text) (c : ℕ) (m : Counts)
    → text_eq x k ≡ false
    → lookup x (set_count k c m) ≡ lookup x m
unfolding lookup set_count
lookup-set_count-other k x c [] h = refl
lookup-set_count-other k x c ((y, a) ∷ m) h = elim (text-cases k y) [
  | inl e ↦ let apart : text_eq x y ≡ false = rw (sym e) h in rw (same-text k y e) (rw apart refl)
  | inr e ↦ rw e (ap (λ o. if text_eq x y then some a else o) (lookup-set_count-other k x c m h))
]

pub lookup-remove :
    (k x : Text) (m : Counts) → lookup x (remove k m) ≡ (if text_eq x k then none else lookup x m)
unfolding lookup remove
lookup-remove k x [] = sym (if_same (text_eq x k) none)
lookup-remove k x ((y, a) ∷ m) = elim (text-cases k y) [
  | inl e ↦ elim (Bool-cases (text_eq x k)) [
    | inl q ↦
        let gone : lookup x (remove k m) ≡ none = rw q at (lookup-remove k x m) in
        rw (same-text k y e) (rw q gone)
    | inr q ↦
        let apart : text_eq x y ≡ false = rw (sym e) q in
        let kept : lookup x (remove k m) ≡ lookup x m = rw q at (lookup-remove k x m) in
        rw (same-text k y e) (rw q (rw apart kept))
  ]
  | inr e ↦ elim (Bool-cases (text_eq x k)) [
    | inl q ↦
        let apart : text_eq x y ≡ false = rw ((text_eq_iff x k).0 q) e in
        let gone : lookup x (remove k m) ≡ none = rw q at (lookup-remove k x m) in
        rw e (rw q (rw apart gone))
    | inr q ↦
        let kept : lookup x (remove k m) ≡ lookup x m = rw q at (lookup-remove k x m) in
        rw e (rw q (ap (λ o. if text_eq x y then some a else o) kept))
  ]
]

pub lookup_here :
    (k y : Text) (a : ℕ) (m : Counts) → text_eq k y ≡ true → lookup k ((y, a) ∷ m) ≡ some a
unfolding lookup
lookup_here k y a m e = rw e refl

pub lookup_later :
    (k y : Text) (a : ℕ) (m : Counts) → text_eq k y ≡ false → lookup k ((y, a) ∷ m) ≡ lookup k m
unfolding lookup
lookup_later k y a m e = rw e refl

lookup_apart :
    (k y : Text) (a : ℕ) (m : Counts)
    → lookup k ((y, a) ∷ m) ≡ none
    → (text_eq k y ≡ false) × (lookup k m ≡ none)
unfolding lookup
lookup_apart k y a m h = elim (Bool-cases (text_eq k y)) [
  | inl e ↦ let found : some a ≡ none = rw e at h in cc
  | inr e ↦ (e, rw e at h)
]

lookup-place :
    (k x : Text) (c : ℕ) (m : Counts)
    → lookup k m ≡ none
    → lookup x (place k c m) ≡ (if text_eq x k then some c else lookup x m)
unfolding lookup place
lookup-place k x c [] h = refl
lookup-place k x c ((y, a) ∷ m) h =
    let (e, fresh) = lookup_apart k y a m h in
    elim (Bool-cases (text_lt k y)) [
      | inl l ↦ rw l refl
      | inr l ↦ elim (Bool-cases (text_eq x k)) [
        | inl q ↦
            let apart : text_eq x y ≡ false = rw ((text_eq_iff x k).0 q) e in
            let found : lookup x (place k c m) ≡ some c = rw q at (lookup-place k x c m fresh) in
            rw l (rw q (rw apart found))
        | inr q ↦
            let kept : lookup x (place k c m) ≡ lookup x m = rw q at (lookup-place k x c m fresh) in
            rw l (rw q (ap (λ o. if text_eq x y then some a else o) kept))
      ]
    ]

remove_gone : (k : Text) (m : Counts) → lookup k (remove k m) ≡ none
remove_gone k m = lookup-remove k k m ∙ rw (text_eq_refl k) refl

pub lookup-insert :
    (k x : Text) (c : ℕ) (m : Counts)
    → lookup x (insert k c m) ≡ (if text_eq x k then some c else lookup x m)
unfolding insert
lookup-insert k x c m = elim (Bool-cases (text_eq x k)) [
  | inl q ↦ lookup-place k x c (remove k m) (remove_gone k m) ∙ rw q refl
  | inr q ↦
      let kept : lookup x (remove k m) ≡ lookup x m = rw q at (lookup-remove k x m) in
      lookup-place k x c (remove k m) (remove_gone k m) ∙ rw q kept
]

-- No key stands twice.
abbrev pub IsMap : Counts → Type 0
IsMap [] = Unit
IsMap ((y, a) ∷ m) = (lookup y m ≡ none) × IsMap m

place-IsMap : (k : Text) (c : ℕ) (m : Counts) → lookup k m ≡ none → IsMap m → IsMap (place k c m)
unfolding place lookup
place-IsMap k c [] h w = (refl, tt)
place-IsMap k c ((y, a) ∷ m) h (fresh, w) =
    let (e, none_there) = lookup_apart k y a m h in
    elim (Bool-cases (text_lt k y)) [
      | inl l ↦ rw l (h, (fresh, w))
      | inr l ↦
          let other : text_eq y k ≡ false = text_eq_sym y k ∙ e in
          rw l ((lookup-place k y c m none_there ∙ rw other fresh), place-IsMap k c m none_there w)
    ]

remove-IsMap : (k : Text) (m : Counts) → IsMap m → IsMap (remove k m)
unfolding remove
remove-IsMap k [] w = tt
remove-IsMap k ((y, a) ∷ m) (fresh, w) = elim (Bool-cases (text_eq k y)) [
  | inl e ↦ rw e (remove-IsMap k m w)
  | inr e ↦
      let other : text_eq y k ≡ false = text_eq_sym y k ∙ e in
      rw e ((lookup-remove k y m ∙ rw other fresh), remove-IsMap k m w)
]

pub insert-IsMap : (k : Text) (c : ℕ) (m : Counts) → IsMap m → IsMap (insert k c m)
unfolding insert
insert-IsMap k c m w = place-IsMap k c (remove k m) (remove_gone k m) (remove-IsMap k m w)

-- The map gets shorter when one of its keys is removed.
pub length-remove :
    (k : Text) (c : ℕ) (m : Counts) → lookup k m ≡ some c → length (remove k m) < length m
unfolding lookup remove
length-remove k c [] h = cc
length-remove k c ((y, a) ∷ m) h = elim (Bool-cases (text_eq k y)) [
  | inl e ↦ rw e (omega (arith, length-keep_if-le (λ z. not (text_eq k z.0)) m))
  | inr e ↦ rw e (omega (arith, length-remove k c m (rw e at h)))
]

pub length-set_count : (k : Text) (c : ℕ) (m : Counts) → length (set_count k c m) ≡ length m
unfolding set_count
length-set_count k c [] = refl
length-set_count k c ((y, a) ∷ m) = elim (Bool-cases (text_eq k y)) [
  | inl e ↦ rw e refl
  | inr e ↦ rw e (ap suc (length-set_count k c m))
]
