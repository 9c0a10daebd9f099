-- ===== src/Core/Graph/Cycle.antt =====
-- crates/core/src/graph.rs: a dependency on itself that `resolve_order` reports while it scans.
use ai_kernel.Prelude.{
  or_true, Text, text_eq, text_eq_iff, text_eq_refl, ℕ, ◌+◌, ◌≡◌, ◌≢◌, refl, sym, ap, ◌∙◌, inl, inr,
  Bool-cases, true, List, [], ◌∷◌, ◌++◌, Result, err, ◌>>=◌, Result-cases,
}
use ai_kernel.Errors.{Error}
use ai_kernel.Core.Graph.{
  Dependency, ComponentDescriptor, Counts, Dependents, member, scan, count_edges, add_dependent,
  insert,
}
use ai_kernel.Core.Graph.Edges.{known_ids, deps_of}

not_missing :
    (r : Result Error (Dependents × ℕ)) (c d : Text) (ids : List Text)
    → r ≡ err (Error.missing_dependency c d)
    → r ≢ err (Error.dependency_cycle ids)
not_missing r c d ids h k = cc

cycle_injective :
    (r : Result Error (Dependents × ℕ)) (xs ys : List Text)
    → r ≡ err (Error.dependency_cycle xs)
    → r ≡ err (Error.dependency_cycle ys)
    → xs ≡ ys
cycle_injective r xs ys h k = cc

pub err_injective {ℓ} :
    {A : Type ℓ} (r : Result Error A) (x y : Error) → r ≡ err x → r ≡ err y → x ≡ y
err_injective r x y h k = cc

member_left : (e : Text) (xs ys : List Text) → member e xs ≡ true → member e (xs ++ ys) ≡ true
unfolding member
member_left e [] ys h = cc
member_left e (x ∷ xs) ys h = elim (Bool-cases (text_eq e x)) [
  | inl f ↦ rw f refl
  | inr f ↦ rw f (member_left e xs ys (rw f at h))
]

member_right : (e : Text) (xs ys : List Text) → member e ys ≡ true → member e (xs ++ ys) ≡ true
unfolding member
member_right e [] ys h = h
member_right e (x ∷ xs) ys h = rw (member_right e xs ys h) (or_true (text_eq e x))

deps_of-later :
    (known : List Text) (c : ComponentDescriptor) (cs : List ComponentDescriptor) (k e : Text)
    → member e (deps_of known cs k) ≡ true
    → member e (deps_of known (c ∷ cs) k) ≡ true
deps_of-later known c cs k e h = elim (Bool-cases (text_eq k c.id)) [
  | inl q ↦ rw q (member_right e (known_ids known c.dependencies) (deps_of known cs k) h)
  | inr q ↦ rw q h
]

count_edges-cycle :
    (known : List Text) (id : Text) (ds : List Dependency) (f : Dependents) (n : ℕ)
    (ids : List Text)
    → count_edges known id ds f n ≡ err (Error.dependency_cycle ids)
    → (ids ≡ id ∷ []) × (member id (known_ids known ds) ≡ true)
unfolding count_edges member
count_edges-cycle known id [] f n ids h = cc
count_edges-cycle known id (d ∷ ds) f n ids h = elim (Bool-cases (member d.id known)) [
  | inr unknown ↦ elim (Bool-cases d.optional) [
    | inl o ↦ rw unknown (count_edges-cycle known id ds f n ids (rw o at (rw unknown at h)))
    | inr o ↦ absurd (
        not_missing (err (Error.missing_dependency id d.id)) id d.id ids refl
          (rw o at (rw unknown at h)))
  ]
  | inl there ↦ elim (Bool-cases (text_eq d.id id)) [
    | inl own ↦
        let same =
          cycle_injective (err (Error.dependency_cycle (id ∷ []))) (id ∷ []) ids refl
            (rw own at (rw there at h)) in
        (sym same, rw there (rw ((text_eq_iff d.id id).0 own) (rw (text_eq_refl id) refl)))
    | inr other ↦
        let (e, m) =
          count_edges-cycle known id ds (add_dependent d.id id f) (n + 1) ids
            (rw other at (rw there at h)) in
        (e, rw there (rw m (or_true (text_eq id d.id))))
  ]
]

pub scan-cycle :
    (known : List Text) (cs : List ComponentDescriptor) (f : Dependents) (m : Counts)
    (ids : List Text)
    → scan known cs f m ≡ err (Error.dependency_cycle ids)
    → (id : Text) × (ids ≡ id ∷ []) × (member id (deps_of known cs id) ≡ true)
unfolding scan member
scan-cycle known [] f m ids h = cc
scan-cycle known (c ∷ cs) f m ids h =
    elim (Result-cases (count_edges known c.id c.dependencies f 0)) [
      | inl (edges, e) ↦
          let (id, same, there) =
            scan-cycle known cs edges.0 (insert c.id edges.1 m) ids (rw e at h) in
          (id, same, deps_of-later known c cs id id there)
      | inr (x, e) ↦
          let failed : (err x
                >>= (λ (edges : Dependents × ℕ). scan known cs edges.0 (insert c.id edges.1 m)))
              ≡ err (Error.dependency_cycle ids) =
            rw e at h in
          let (same, there) = count_edges-cycle known c.id c.dependencies f 0 ids (
            e
            ∙ ap err (
                err_injective
                  (err x
                    >>= (λ (edges : Dependents × ℕ). scan known cs edges.0 (insert c.id edges.1 m)))
                  x (Error.dependency_cycle ids) refl failed)) in
          (
            c.id,
            same,
            rw (text_eq_refl c.id)
                (member_left c.id (known_ids known c.dependencies) (deps_of known cs c.id) there),
          )
    ]
