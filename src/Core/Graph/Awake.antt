-- ===== src/Core/Graph/Awake.antt =====
-- crates/core/src/graph.rs: in the loop of `resolve_order`, the ready set holds all that waits for nothing.
use ai_kernel.Prelude.{
  Text, text_eq_refl, ℕ, ◌-◌, ◌≡◌, refl, sym, ◌∙◌, arith, inl, inr, ◌==◌, Bool, true, false,
  if◌then◌else◌, Option, none, some, List, [], ◌∷◌, u64_max,
}
use ai_kernel.Core.Graph.{
  Counts, lookup, remove, remove_id, insert_id, set_count, member, release, release_found,
  release_all,
}
use ai_kernel.Core.Graph.Maps.{
  text-cases, lookup-set_count-same, lookup-set_count-other, lookup-remove,
}
use ai_kernel.Core.Graph.Ready.{member-insert_id-other, member-insert_id-same, member-remove_id-eq}
use ai_kernel.Core.Graph.Order.{none_apart, number_of}
use ai_kernel.Core.Graph.Loop.{removed_other}

-- Whatever waits for nothing is ready.
abbrev pub IsAwake : Counts → List Text → Type 0
IsAwake remaining ready = (k : Text) → lookup k remaining ≡ some 0 → member k ready ≡ true

now_member :
    (k id : Text) (b : Bool) (ready : List Text)
    → member k ready ≡ true
    → member k (if b then insert_id id ready else ready) ≡ true
now_member k id true ready h = elim (text-cases k id) [
  | inl e ↦ rw e (member-insert_id-same id ready)
  | inr e ↦ member-insert_id-other id k ready e ∙ h
]
now_member k id false ready h = h

set_count-IsAwake :
    (id : Text) (left count : ℕ) (remaining : Counts) (ready : List Text)
    → lookup id remaining ≡ some count
    → IsAwake remaining ready
    → IsAwake (set_count id left remaining) (if left == 0 then insert_id id ready else ready)
set_count-IsAwake id left count remaining ready e awake k h = elim (text-cases k id) [
  | inl f ↦
      let now : lookup k (set_count id left remaining) ≡ some left =
        rw f (lookup-set_count-same id left count remaining e) in
      let nil : (left == 0) ≡ true =
        ground (arith, number_of (lookup k (set_count id left remaining)) left 0 now h) in
      rw nil (rw f (member-insert_id-same id ready))
  | inr f ↦
      now_member k id (left == 0) ready
        (awake k (sym (lookup-set_count-other id k left remaining f) ∙ h))
]

release_found-IsAwake :
    (id : Text) (o : Option ℕ) (remaining : Counts) (ready : List Text)
    → lookup id remaining ≡ o
    → IsAwake remaining ready
    → let (after, now) = release_found id o remaining ready in IsAwake after now
unfolding release_found
release_found-IsAwake id none remaining ready e awake = awake
release_found-IsAwake id (some count) remaining ready e awake =
    set_count-IsAwake id (if count == 0 then u64_max else count - 1) count remaining ready e awake

pub release_all-IsAwake :
    (pending : List Text) (remaining : Counts) (ready : List Text)
    → IsAwake remaining ready
    → let (after, now) = release_all pending remaining ready in IsAwake after now
unfolding release_all release
release_all-IsAwake [] remaining ready awake = awake
release_all-IsAwake (id ∷ pending) remaining ready awake =
    release_all-IsAwake pending (release_found id (lookup id remaining) remaining ready).0
      (release_found id (lookup id remaining) remaining ready).1
      (release_found-IsAwake id (lookup id remaining) remaining ready refl awake)

pub next-IsAwake :
    (next : Text) (remaining : Counts) (ready : List Text)
    → IsAwake remaining (next ∷ ready)
    → IsAwake (remove next remaining) (remove_id next (next ∷ ready))
next-IsAwake next remaining ready awake k h = elim (text-cases k next) [
  | inl f ↦ absurd (
      none_apart (lookup k (remove next remaining)) 0
        (lookup-remove next k remaining ∙ rw f (rw (text_eq_refl next) refl)) h)
  | inr f ↦
      member-remove_id-eq next k (next ∷ ready)
      ∙ rw f (awake k (sym (removed_other next k remaining f) ∙ h))
]
