-- ===== src/Core/Graph/Sorted.antt =====
-- crates/core/src/graph.rs: what `resolve_order` answers.
use mathlib.Core.Path.{subst}
use ai_kernel.Prelude.{
  or_true, Text, text_eq, text_eq_refl, length, ℕ, ◌≤◌, ◌≡◌, refl, ap, arith, inl, inr, ◌⊎◌, Bool,
  Bool-cases, true, false, not, ◌&&◌, none, some, List, [], ◌∷◌, ◌++◌, ok, bind-ok, ok_injective,
}
use ai_kernel.Core.Graph.{
  Dependency, ComponentDescriptor, Counts, Dependents, lookup, member, scan, drain, ready_ids,
  finish_order, resolve_order,
}
use ai_kernel.Core.Graph.Maps.{text-cases}
use ai_kernel.Core.Graph.Ready.{member-ready_ids}
use ai_kernel.Core.Graph.Order.{
  occ, occ-same, occ-other, is_some, has, present_in, IsCounted, none_apart, number_of,
}
use ai_kernel.Core.Graph.Loop.{IsOrdered, IsOrdered-Before, IsOrdered-occ, Before, drain-IsDrained}
use ai_kernel.Core.Graph.Edges.{known_ids, deps_of, ids_of, IsGraph, scan-IsGraph}

present_in-full :
    (keys : Text → Bool) (xs : List Text)
    → ((e : Text) → member e xs ≡ true → keys e ≡ true)
    → present_in keys xs ≡ length xs
unfolding present_in member
present_in-full keys [] h = refl
present_in-full keys (x ∷ xs) h =
    let here : keys x ≡ true = h x (rw (text_eq_refl x) refl) in
    let rest = present_in-full keys xs (λ e m. h e (rw m (or_true (text_eq e x)))) in
    rw here (omega (arith, rest))

occ-member : (k : Text) (xs : List Text) → member k xs ≡ true → 1 ≤ occ k xs
unfolding member
occ-member k [] h = cc
occ-member k (x ∷ xs) h = elim (Bool-cases (text_eq k x)) [
  | inl e ↦ omega (arith, occ-same k x xs e)
  | inr e ↦ omega (arith, occ-other k x xs e, occ-member k xs (rw e at h))
]

member-occ : (k : Text) (xs : List Text) → 1 ≤ occ k xs → member k xs ≡ true
unfolding member occ
member-occ k [] h = absurd (omega (arith, h))
member-occ k (x ∷ xs) h = elim (Bool-cases (text_eq k x)) [
  | inl e ↦ rw e refl
  | inr e ↦ rw e (member-occ k xs (omega (arith, h, occ-other k x xs e)))
]

pub none_or_some : (n : ℕ) → (n ≡ 0) ⊎ (1 ≤ n)
none_or_some n = omega arith

occ-absent : (k : Text) (xs : List Text) → member k xs ≡ false → occ k xs ≡ 0
occ-absent k xs h = elim (none_or_some (occ k xs)) [
  | inl z ↦ z
  | inr p ↦ let found = member-occ k xs p in cc
]

-- A list of which no element stands twice.
abbrev pub all_different : List Text → Bool
all_different [] = true
all_different (x ∷ xs) = not (member x xs) && all_different xs

first_of : (a b : Bool) → (not a && b) ≡ true → (a ≡ false) × (b ≡ true)
first_of true b h = cc
first_of false b h = (refl, h)

pub all_different-occ : (k : Text) (xs : List Text) → all_different xs ≡ true → occ k xs ≤ 1
unfolding occ
all_different-occ k [] h = omega arith
all_different-occ k (x ∷ xs) h =
    let (fresh, rest) = first_of (member x xs) (all_different xs) h in
    elim (text-cases k x) [
      | inl e ↦
          let gone : occ k xs ≡ 0 = rw e (occ-absent x xs fresh) in
          let same : text_eq k x ≡ true = rw e (text_eq_refl x) in
          omega (arith, occ-same k x xs same, gone)
      | inr e ↦ omega (arith, occ-other k x xs e, all_different-occ k xs rest)
    ]

known_ids-member :
    (known : List Text) (ds : List Dependency) (e : Text)
    → member e (known_ids known ds) ≡ true
    → member e known ≡ true
unfolding member
known_ids-member known [] e h = cc
known_ids-member known (d ∷ ds) e h = elim (Bool-cases (member d.id known)) [
  | inr b ↦ known_ids-member known ds e (rw b at h)
  | inl b ↦ elim (text-cases e d.id) [
    | inl f ↦ rw f b
    | inr f ↦ known_ids-member known ds e (rw f at (rw b at h))
  ]
]

pub member-append :
    (e : Text) (xs ys : List Text)
    → member e (xs ++ ys) ≡ true
    → (member e xs ≡ true) ⊎ (member e ys ≡ true)
unfolding member
member-append e [] ys h = inr h
member-append e (x ∷ xs) ys h = elim (Bool-cases (text_eq e x)) [
  | inl f ↦ inl (rw f refl)
  | inr f ↦ elim (member-append e xs ys (rw f at h)) [
    | inl m ↦ inl (rw m (or_true (text_eq e x)))
    | inr m ↦ inr m
  ]
]

deps_of-member :
    (known : List Text) (cs : List ComponentDescriptor) (k e : Text)
    → member e (deps_of known cs k) ≡ true
    → (member e known ≡ true) × (member k (ids_of cs) ≡ true)
unfolding member
deps_of-member known [] k e h = cc
deps_of-member known (c ∷ cs) k e h = elim (Bool-cases (text_eq k c.id)) [
  | inl q ↦
      elim (member-append e (known_ids known c.dependencies) (deps_of known cs k) (rw q at h)) [
        | inl m ↦ (known_ids-member known c.dependencies e m, rw q refl)
        | inr m ↦ ((deps_of-member known cs k e m).0, rw q refl)
      ]
  | inr q ↦
      let (there, id) = deps_of-member known cs k e (rw q at h) in
      (there, rw id (or_true (text_eq k c.id)))
]

finish-ok :
    (r : Counts × List Text) (out : List Text) → finish_order r ≡ ok out → (r.0 ≡ []) × (r.1 ≡ out)
unfolding finish_order
finish-ok ([], ordered) out h = (refl, ok_injective (ok ordered) ordered out refl h)
finish-ok (e ∷ left, ordered) out h = cc

nothing_left : (m : Counts) (k : Text) → m ≡ [] → has m k ≡ false
unfolding lookup
nothing_left m k h = rw h refl

module _ (cs : List ComponentDescriptor) (distinct : (k : Text) → occ k (ids_of cs) ≤ 1) where
  abbrev deps : Text → List Text
  deps = deps_of (ids_of cs) cs

  scanned-has :
      (g : Dependents) (n : Counts) (k : Text)
      → IsGraph (ids_of cs) cs (λ x. []) [] (g, n)
      → member k (ids_of cs) ≡ true
      → lookup k n ≡ some (length (deps k))
  scanned-has g n k (w, edges, others, counted) m =
      counted k (omega (arith, distinct k, occ-member k (ids_of cs) m))

  scanned_none :
      (g : Dependents) (n : Counts) (k : Text)
      → IsGraph (ids_of cs) cs (λ x. []) [] (g, n)
      → member k (ids_of cs) ≡ false
      → lookup k n ≡ none
  unfolding lookup
  scanned_none g n k (w, edges, others, counted) m = others k (occ-absent k (ids_of cs) m)

  pub scanned-IsCounted :
      (g : Dependents) (n : Counts)
      → IsGraph (ids_of cs) cs (λ x. []) [] (g, n)
      → IsCounted deps [] n (ready_ids n)
  unfolding occ
  scanned-IsCounted g n graph = (
    λ k c h. elim (Bool-cases (member k (ids_of cs))) [
      | inl m ↦
          let all =
            present_in-full (has n) (deps k) (λ e d.
              ap is_some (scanned-has g n e graph (deps_of-member (ids_of cs) cs k e d).0)) in
          let size = number_of (lookup k n) c (length (deps k)) h (scanned-has g n k graph m) in
          omega (arith, all, size)
      | inr m ↦ absurd (none_apart (lookup k n) c (scanned_none g n k graph m) h)
    ],
    λ k m. member-ready_ids k n graph.0 m,
  )

  pub scanned_law :
      (g : Dependents) (n : Counts)
      → IsGraph (ids_of cs) cs (λ x. []) [] (g, n)
      → (k e : Text) → occ k (g e) ≡ occ e (deps k)
  unfolding occ
  scanned_law g n (w, edges, others, counted) k e = omega (arith, edges k e)

  -- What an order of all the components is: each one stands in it once, and after its dependencies.
  IsResolved : List Text → Dependents × Counts → Type 0
  IsResolved out (g, n) =
      IsGraph (ids_of cs) cs (λ x. []) [] (g, n)
      × IsOrdered deps (has n) out
      × ((k : Text) → has n k ≡ true → member k out ≡ true)

  resolve_order-IsResolved :
      (out : List Text)
      → resolve_order cs ≡ ok out
      → (graph : Dependents × Counts) × IsResolved out graph
  unfolding resolve_order IsResolved
  resolve_order-IsResolved out h =
      let (graph, e, f) =
        bind-ok (scan (ids_of cs) cs (λ x. []) [])
          (λ graph. finish_order (drain (length graph.1) graph.0 (ready_ids graph.1) graph.1)) out
          h in
      let is_graph = scan-IsGraph (ids_of cs) cs (λ x. []) [] graph e tt in
      let drained = drain (length graph.1) graph.0 (ready_ids graph.1) graph.1 in
      let (empty, same) = finish-ok drained out f in
      let (ordered, all) =
        drain-IsDrained deps graph.0 (length graph.1) (ready_ids graph.1) graph.1
          (scanned_law graph.0 graph.1 is_graph) (scanned-IsCounted graph.0 graph.1 is_graph) in
      (
        graph,
        (
          is_graph,
          subst (IsOrdered deps (has graph.1)) same ordered,
          λ k p. elim (all k p) [
            | inl left ↦ let gone = nothing_left drained.0 k empty in cc
            | inr m ↦ subst (λ o. member k o ≡ true) same m
          ],
        ),
      )

  -- Where no two components have the same id, a dependency that is registered stands in the order before
  -- the component that needs it.
  pub resolve_order-Before :
      (out : List Text) (k e : Text)
      → resolve_order cs ≡ ok out
      → member e (deps_of (ids_of cs) cs k) ≡ true
      → Before e k out
  unfolding IsResolved
  resolve_order-Before out k e h d =
      let (graph, resolved) = resolve_order-IsResolved out h in
      let (is_graph, ordered, all) = resolved in
      let (there, id) = deps_of-member (ids_of cs) cs k e d in
      IsOrdered-Before deps (has graph.1) out k e ordered
        (all k (ap is_some (scanned-has graph.0 graph.1 k is_graph id)))
        (ap is_some (scanned-has graph.0 graph.1 e is_graph there)) d

  -- Where no two components have the same id, the order holds every component once and nothing else.
  pub resolve_order-occ :
      (out : List Text) (k : Text) → resolve_order cs ≡ ok out → occ k out ≡ occ k (ids_of cs)
  unfolding IsResolved
  resolve_order-occ out k h =
      let (graph, resolved) = resolve_order-IsResolved out h in
      let (is_graph, ordered, all) = resolved in
      let most = IsOrdered-occ deps (has graph.1) out k ordered in
      elim (Bool-cases (member k (ids_of cs))) [
        | inl m ↦
            let there : has graph.1 k ≡ true =
              ap is_some (scanned-has graph.0 graph.1 k is_graph m) in
            let one : occ k out ≤ 1 = rw there at most in
            omega
              (arith, one, occ-member k out (all k there), distinct k, occ-member k (ids_of cs) m)
        | inr m ↦
            let gone : has graph.1 k ≡ false =
              ap is_some (scanned_none graph.0 graph.1 k is_graph m) in
            let none_out : occ k out ≤ 0 = rw gone at most in
            omega (arith, none_out, occ-absent k (ids_of cs) m)
      ]
