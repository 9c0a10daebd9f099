-- ===== src/Core/Graph/Stuck.antt =====
-- crates/core/src/graph.rs: the loop of `resolve_order` ends, and what it reports is a cycle.
use mathlib.Core.Path.{subst}
use ai_kernel.Prelude.{
  or_true, Text, text_eq, text_eq_refl, length, ℕ, zero, suc, ◌+◌, ◌≤◌, ◌≡◌, refl, sym, ap, ◌∙◌,
  arith, inl, inr, Bool, Bool-cases, true, false, some, List, [], ◌∷◌, map, Result, err, ◌>>=◌,
  Result-cases,
}
use ai_kernel.Errors.{Error}
use ai_kernel.Core.Graph.{
  ComponentDescriptor, Counts, Dependents, lookup, remove, remove_id, member, scan, drain,
  ready_ids, release_all, finish_order, resolve_order,
}
use ai_kernel.Core.Graph.Maps.{text-cases, length-remove}
use ai_kernel.Core.Graph.Ready.{ready_ids-member}
use ai_kernel.Core.Graph.Order.{occ, has, present_in, present, IsCounted, release_all-IsReleased}
use ai_kernel.Core.Graph.Loop.{next-IsCounted, next_free}
use ai_kernel.Core.Graph.Edges.{deps_of, ids_of, scan-IsGraph}
use ai_kernel.Core.Graph.Sorted.{none_or_some, scanned_law, scanned-IsCounted}
use ai_kernel.Core.Graph.Awake.{IsAwake, release_all-IsAwake, next-IsAwake}
use ai_kernel.Core.Graph.Cycle.{err_injective, scan-cycle}

some_left :
    (keys : Text → Bool) (xs : List Text)
    → 1 ≤ present_in keys xs
    → (e : Text) × (member e xs ≡ true) × (keys e ≡ true)
unfolding present_in member
some_left keys [] h = absurd (omega (arith, h))
some_left keys (x ∷ xs) h = elim (Bool-cases (keys x)) [
  | inl k ↦ (x, rw (text_eq_refl x) refl, k)
  | inr k ↦
      let more : 1 ≤ 0 + present_in keys xs = rw k at h in
      let (e, m, l) = some_left keys xs (omega (arith, more)) in
      (e, rw m (or_true (text_eq e x)), l)
]

abbrev keys_of : Counts → List Text
keys_of m = map (λ x. x.0) m

keys_of-has :
    (k : Text) (m : Counts) → member k (keys_of m) ≡ true → (c : ℕ) × (lookup k m ≡ some c)
unfolding member lookup
keys_of-has k [] h = cc
keys_of-has k ((y, a) ∷ m) h = elim (Bool-cases (text_eq k y)) [
  | inl e ↦ (a, rw e refl)
  | inr e ↦ let (c, f) = keys_of-has k m (rw e at h) in (c, rw e f)
]

has-keys_of : (k : Text) (m : Counts) → has m k ≡ true → member k (keys_of m) ≡ true
unfolding member lookup
has-keys_of k [] h = cc
has-keys_of k ((y, a) ∷ m) h = elim (Bool-cases (text_eq k y)) [
  | inl e ↦ rw e refl
  | inr e ↦ rw e (has-keys_of k m (rw e at h))
]

cycle_of_order :
    (r : Result Error (List Text)) (xs ys : List Text)
    → r ≡ err (Error.dependency_cycle xs)
    → r ≡ err (Error.dependency_cycle ys)
    → xs ≡ ys
cycle_of_order r xs ys h k = cc

module _ (deps : Text → List Text) where
  -- What is left waits for something that is left.
  abbrev IsStuck : Counts → Type 0
  IsStuck left = (k : Text) (c : ℕ) → lookup k left ≡ some c → (c ≡ present left (deps k)) × (1 ≤ c)

  drain-IsStuck :
      (dependents : Dependents) (fuel : ℕ) (ready : List Text) (remaining : Counts)
      → ((k e : Text) → occ k (dependents e) ≡ occ e (deps k))
      → IsCounted deps [] remaining ready
      → IsAwake remaining ready
      → length remaining ≤ fuel
      → IsStuck (drain fuel dependents ready remaining).0
  unfolding drain lookup occ member
  drain-IsStuck dependents zero ready [] law good awake enough = λ k c h. cc
  drain-IsStuck dependents zero ready (x ∷ remaining) law good awake enough =
      λ k c h. absurd (omega (arith, enough))
  drain-IsStuck dependents (suc fuel) [] remaining law (counts, waits) awake enough = λ k c h.
      elim (none_or_some c) [
        | inl z ↦ let nobody : false ≡ true = awake k (h ∙ ap some z) in cc
        | inr p ↦ (omega (arith, counts k c h), p)
      ]
  drain-IsStuck dependents (suc fuel) (next ∷ ready) remaining law good awake enough =
      let (zero_left, free) = next_free deps next remaining ready good in
      let counted =
        next-IsCounted deps next (dependents next) remaining ready (λ k. law k next) good in
      let (met, keys, size) =
        release_all-IsReleased deps (dependents next) (remove next remaining)
          (remove_id next (next ∷ ready)) counted in
      drain-IsStuck dependents fuel
        (release_all (dependents next) (remove next remaining) (remove_id next (next ∷ ready))).1
        (release_all (dependents next) (remove next remaining) (remove_id next (next ∷ ready))).0
        law met
        (release_all-IsAwake (dependents next) (remove next remaining)
          (remove_id next (next ∷ ready)) (next-IsAwake next remaining ready awake))
        (omega (arith, size, length-remove next 0 remaining zero_left, enough))

-- A cycle, or a part of the graph that holds one: every id in it has a dependency in it.
abbrev pub IsCyclic : (Text → List Text) → List Text → Type 0
IsCyclic deps ids =
    (1 ≤ length ids)
    × ((k : Text)
        → member k ids ≡ true
        → (e : Text) × (member e (deps k) ≡ true) × (member e ids ≡ true))

IsStuck-IsCyclic :
    (deps : Text → List Text) (x : Text × ℕ) (left : Counts)
    → IsStuck deps (x ∷ left)
    → IsCyclic deps (keys_of (x ∷ left))
IsStuck-IsCyclic deps x left stuck = (
  omega arith,
  λ k m.
      let (c, found) = keys_of-has k (x ∷ left) m in
      let (count, positive) = stuck k c found in
      let (e, d, h) = some_left (has (x ∷ left)) (deps k) (omega arith) in
      (e, d, has-keys_of e (x ∷ left) h),
)

finish-IsCyclic :
    (deps : Text → List Text) (left : Counts) (ordered ids : List Text)
    → IsStuck deps left
    → finish_order (left, ordered) ≡ err (Error.dependency_cycle ids)
    → IsCyclic deps ids
unfolding finish_order
finish-IsCyclic deps [] ordered ids stuck h = cc
finish-IsCyclic deps (x ∷ left) ordered ids stuck h =
    subst (IsCyclic deps)
      (cycle_of_order (finish_order (x ∷ left, ordered)) (keys_of (x ∷ left)) ids refl h)
      (IsStuck-IsCyclic deps x left stuck)

own-IsCyclic :
    (deps : Text → List Text) (id : Text) → member id (deps id) ≡ true → IsCyclic deps (id ∷ [])
unfolding member
own-IsCyclic deps id h = (
  omega arith,
  λ k m. elim (text-cases k id) [
    | inl f ↦ (id, rw f h, rw (text_eq_refl id) refl)
    | inr f ↦ let nobody : false ≡ true = rw f at m in cc
  ],
)

-- Where no two components have the same id, the ids of a reported cycle are at least one, and each of
-- them has a dependency among them.
pub resolve_order-IsCyclic :
    (cs : List ComponentDescriptor) (ids : List Text)
    → ((k : Text) → occ k (ids_of cs) ≤ 1)
    → resolve_order cs ≡ err (Error.dependency_cycle ids)
    → IsCyclic (deps_of (ids_of cs) cs) ids
unfolding resolve_order member
resolve_order-IsCyclic cs ids distinct h = elim (Result-cases (scan (ids_of cs) cs (λ x. []) [])) [
  | inl (graph, e) ↦
      let is_graph = scan-IsGraph (ids_of cs) cs (λ x. []) [] graph e tt in
      let drained = drain (length graph.1) graph.0 (ready_ids graph.1) graph.1 in
      let stuck =
        drain-IsStuck (deps_of (ids_of cs) cs) graph.0 (length graph.1) (ready_ids graph.1) graph.1
          (scanned_law cs distinct graph.0 graph.1 is_graph)
          (scanned-IsCounted cs distinct graph.0 graph.1 is_graph)
          (λ k z. ready_ids-member k graph.1 z) (omega arith) in
      finish-IsCyclic (deps_of (ids_of cs) cs) drained.0 drained.1 ids stuck (rw e at h)
  | inr (x, e) ↦
      let after : Dependents × Counts → Result Error (List Text) =
        λ graph. finish_order (drain (length graph.1) graph.0 (ready_ids graph.1) graph.1) in
      let failed : (err x >>= after) ≡ err (Error.dependency_cycle ids) = rw e at h in
      let (id, same, own) =
        scan-cycle (ids_of cs) cs (λ y. []) [] ids
          (e
            ∙ ap err
                (err_injective (err x >>= after) x (Error.dependency_cycle ids) refl failed)) in
      subst (IsCyclic (deps_of (ids_of cs) cs)) (sym same)
        (own-IsCyclic (deps_of (ids_of cs) cs) id own)
]
