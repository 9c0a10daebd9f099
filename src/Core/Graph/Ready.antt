-- ===== src/Core/Graph/Ready.antt =====
-- crates/core/src/graph.rs: what the operations on the set of the ready components do to its members.
use ai_kernel.Prelude.{
  Text, text_eq, text_eq_iff, text_eq_refl, ◌≡◌, refl, sym, ap, ◌∙◌, arith, inl, inr, ◌⊎◌,
  Bool-cases, true, false, ◌||◌, if◌then◌else◌, none, some, List, [], ◌∷◌, ◌==◌,
}
use ai_kernel.Core.Graph.{Counts, lookup, member, insert_id, remove_id, text_lt, ready_ids}
use ai_kernel.Core.Graph.Maps.{text-cases, same-text, if_same, lookup_here, lookup_later, IsMap}

pub member-insert_id-other :
    (k x : Text) (ids : List Text) → text_eq x k ≡ false → member x (insert_id k ids) ≡ member x ids
unfolding member insert_id
member-insert_id-other k x [] h = rw h refl
member-insert_id-other k x (y ∷ ids) h = elim (Bool-cases (text_eq k y)) [
  | inl e ↦ rw e refl
  | inr e ↦ elim (Bool-cases (text_lt k y)) [
    | inl l ↦ rw e (rw l (rw h refl))
    | inr l ↦ rw e (rw l (ap (λ b. text_eq x y || b) (member-insert_id-other k x ids h)))
  ]
]

pub member-insert_id :
    (k x : Text) (ids : List Text)
    → member x (insert_id k ids) ≡ true
    → (x ≡ k) ⊎ (member x ids ≡ true)
member-insert_id k x ids h = elim (text-cases x k) [
  | inl e ↦ inl e
  | inr e ↦ inr (sym (member-insert_id-other k x ids e) ∙ h)
]

pub member-remove_id-eq :
    (k x : Text) (ids : List Text)
    → member x (remove_id k ids) ≡ (if text_eq x k then false else member x ids)
unfolding member remove_id
member-remove_id-eq k x [] = sym (if_same (text_eq x k) false)
member-remove_id-eq k x (y ∷ ids) = elim (text-cases k y) [
  | inl e ↦ elim (Bool-cases (text_eq x k)) [
    | inl q ↦
        let gone : member x (remove_id k ids) ≡ false = rw q at (member-remove_id-eq k x ids) in
        rw (same-text k y e) (rw q gone)
    | inr q ↦
        let apart : text_eq x y ≡ false = rw (sym e) q in
        let kept : member x (remove_id k ids) ≡ member x ids =
          rw q at (member-remove_id-eq k x ids) in
        rw (same-text k y e) (rw q (rw apart kept))
  ]
  | inr e ↦ elim (Bool-cases (text_eq x k)) [
    | inl q ↦
        let apart : text_eq x y ≡ false = rw ((text_eq_iff x k).0 q) e in
        let gone : member x (remove_id k ids) ≡ false = rw q at (member-remove_id-eq k x ids) in
        rw e (rw q (rw apart gone))
    | inr q ↦
        let kept : member x (remove_id k ids) ≡ member x ids =
          rw q at (member-remove_id-eq k x ids) in
        rw e (rw q (ap (λ b. text_eq x y || b) kept))
  ]
]

pub member-remove_id :
    (k x : Text) (ids : List Text)
    → member x (remove_id k ids) ≡ true
    → (text_eq x k ≡ false) × (member x ids ≡ true)
member-remove_id k x ids h = elim (Bool-cases (text_eq x k)) [
  | inl q ↦
      let gone : member x (remove_id k ids) ≡ false = rw q at (member-remove_id-eq k x ids) in cc
  | inr q ↦
      let kept : member x (remove_id k ids) ≡ member x ids =
        rw q at (member-remove_id-eq k x ids) in
      (q, sym kept ∙ h)
]

-- What is ready at first has no dependencies left.
pub member-ready_ids :
    (k : Text) (m : Counts) → IsMap m → member k (ready_ids m) ≡ true → lookup k m ≡ some 0
unfolding member ready_ids
member-ready_ids k [] w h = cc
member-ready_ids k ((y, a) ∷ m) (fresh, w) h = elim (Bool-cases (a == 0)) [
  | inl z ↦ elim (Bool-cases (text_eq k y)) [
    | inl e ↦ lookup_here k y a m e ∙ ap some (ground (arith, z))
    | inr e ↦ lookup_later k y a m e ∙ member-ready_ids k m w (rw e at (rw z at h))
  ]
  | inr z ↦
      let later = member-ready_ids k m w (rw z at h) in
      elim (text-cases k y) [
        | inl e ↦ let gone : lookup k m ≡ none = rw e fresh in cc
        | inr e ↦ lookup_later k y a m e ∙ later
      ]
]

pub member-insert_id-same : (k : Text) (ids : List Text) → member k (insert_id k ids) ≡ true
unfolding member insert_id
member-insert_id-same k [] = rw (text_eq_refl k) refl
member-insert_id-same k (y ∷ ids) = elim (Bool-cases (text_eq k y)) [
  | inl e ↦ rw e (rw e refl)
  | inr e ↦ elim (Bool-cases (text_lt k y)) [
    | inl l ↦ rw e (rw l (rw (text_eq_refl k) refl))
    | inr l ↦ rw e (rw l (rw e (member-insert_id-same k ids)))
  ]
]

pub ready_ids-member : (k : Text) (m : Counts) → lookup k m ≡ some 0 → member k (ready_ids m) ≡ true
unfolding member ready_ids lookup
ready_ids-member k [] h = cc
ready_ids-member k ((y, a) ∷ m) h = elim (Bool-cases (text_eq k y)) [
  | inl e ↦
      let here : some a ≡ some 0 = rw e at h in
      let zero_here : (a == 0) ≡ true = ground (arith, here) in rw zero_here (rw e refl)
  | inr e ↦
      let later = ready_ids-member k m (rw e at h) in
      elim (Bool-cases (a == 0)) [ inl z ↦ rw z (rw e later) | inr z ↦ rw z later ]
]
