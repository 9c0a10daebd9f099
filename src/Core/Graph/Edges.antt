-- ===== src/Core/Graph/Edges.antt =====
-- crates/core/src/graph.rs: the edges and the counts that the first loop of `resolve_order` collects.
use mathlib.Core.Path.{subst}
use ai_kernel.Prelude.{
  Text, text_eq, length, length-append, ℕ, zero, ◌+◌, ◌≡◌, ◌≢◌, refl, sym, ap, ◌∙◌, arith, inl, inr,
  Bool, Bool-cases, true, false, if◌then◌else◌, some, List, [], ◌∷◌, ◌++◌, map, ok, err, bind-ok,
  ok_injective,
}
use ai_kernel.Errors.{Error}
use ai_kernel.Core.Graph.{
  Dependency, ComponentDescriptor, Counts, Dependents, lookup, insert, member, add_dependent,
  count_edges, scan,
}
use ai_kernel.Core.Graph.Maps.{lookup-insert, IsMap, insert-IsMap}
use ai_kernel.Core.Graph.Order.{occ, occ-same, occ-other}

-- The dependencies of a component that are registered, and those of all components with an id.
abbrev pub known_ids : List Text → List Dependency → List Text
known_ids known [] = []
known_ids known (d ∷ ds) =
    if member d.id known then d.id ∷ known_ids known ds else known_ids known ds

abbrev pub deps_of : List Text → List ComponentDescriptor → Text → List Text
deps_of known [] k = []
deps_of known (c ∷ cs) k =
    if text_eq k c.id
    then known_ids known c.dependencies ++ deps_of known cs k
    else deps_of known cs k

abbrev pub ids_of : List ComponentDescriptor → List Text
ids_of cs = map (λ d. d.id) cs

zero_either : (b : Bool) → (if b then zero else zero) ≡ zero
zero_either true = refl
zero_either false = refl

occ-append : (k : Text) (xs ys : List Text) → occ k (xs ++ ys) ≡ occ k xs + occ k ys
unfolding occ
occ-append k [] ys = omega arith
occ-append k (x ∷ xs) ys = omega (arith, occ-append k xs ys)

occ-add_dependent :
    (dependency dependent k e : Text) (f : Dependents)
    → occ k (add_dependent dependency dependent f e)
      ≡ occ k (f e) + (if text_eq k dependent then (if text_eq e dependency then 1 else 0) else 0)
unfolding add_dependent occ
occ-add_dependent dependency dependent k e f = elim (Bool-cases (text_eq e dependency)) [
  | inl h ↦ rw h (omega (arith, occ-append k (f e) (dependent ∷ [])))
  | inr h ↦ rw h (omega (arith, zero_either (text_eq k dependent)))
]

-- What the edges of one component add.
abbrev IsScanned : List Text → Text → List Dependency → Dependents → ℕ → Dependents × ℕ → Type 0
IsScanned known id ds f n (g, m) =
    (m ≡ n + length (known_ids known ds))
    × ((k e : Text)
        → occ k (g e) ≡ occ k (f e) + (if text_eq k id then occ e (known_ids known ds) else 0))

err_apart {ℓ} : {A : Type ℓ} (e : Error) (r : A) → err e ≢ ok r
err_apart e r h = cc

one_more :
    (b : Bool) (now before added more one : ℕ)
    → now ≡ added + (if b then more else 0)
    → added ≡ before + (if b then one else 0)
    → now ≡ before + (if b then one + more else 0)
one_more true now before added more one h k = omega (arith, h, k)
one_more false now before added more one h k = omega (arith, h, k)

count_edges-IsScanned :
    (known : List Text) (id : Text) (ds : List Dependency) (f : Dependents) (n : ℕ)
    (r : Dependents × ℕ)
    → count_edges known id ds f n ≡ ok r
    → IsScanned known id ds f n r
unfolding count_edges occ
count_edges-IsScanned known id [] f n r h =
    let same : (f, n) ≡ r = ok_injective (ok (f, n)) (f, n) r refl h in
    (
      omega (arith, ap (λ p. p.1) same),
      λ k e. omega (arith, ap (λ p. occ k (p.0 e)) same, zero_either (text_eq k id)),
    )
count_edges-IsScanned known id (d ∷ ds) f n r h = elim (Bool-cases (member d.id known)) [
  | inr unknown ↦ elim (Bool-cases d.optional) [
    | inl o ↦ rw unknown (count_edges-IsScanned known id ds f n r (rw o at (rw unknown at h)))
    | inr o ↦ absurd (err_apart (Error.missing_dependency id d.id) r (rw o at (rw unknown at h)))
  ]
  | inl there ↦ elim (Bool-cases (text_eq d.id id)) [
    | inl own ↦ absurd (err_apart (Error.dependency_cycle (id ∷ [])) r (rw own at (rw there at h)))
    | inr other ↦
        let (total, edges) =
          count_edges-IsScanned known id ds (add_dependent d.id id f) (n + 1) r
            (rw other at (rw there at h)) in
        rw there (
          omega (arith, total),
          λ k e. one_more (text_eq k id) _ _ _ _ _ (edges k e) (occ-add_dependent d.id id k e f),
        )
  ]
]

absent_deps :
    (known : List Text) (cs : List ComponentDescriptor) (k : Text)
    → occ k (ids_of cs) ≡ 0
    → deps_of known cs k ≡ []
absent_deps known [] k h = refl
absent_deps known (c ∷ cs) k h = elim (Bool-cases (text_eq k c.id)) [
  | inl e ↦ absurd (omega (arith, h, occ-same k c.id (ids_of cs) e))
  | inr e ↦ rw e (absent_deps known cs k (sym (occ-other k c.id (ids_of cs) e) ∙ h))
]

-- The graph that is scanned: the edges in both directions, and the number of them for every key.
abbrev pub IsGraph :
    List Text → List ComponentDescriptor → Dependents → Counts → Dependents × Counts → Type 0
IsGraph known cs f m (g, n) =
    IsMap n
    × ((k e : Text) → occ k (g e) ≡ occ k (f e) + occ e (deps_of known cs k))
    × ((k : Text) → occ k (ids_of cs) ≡ 0 → lookup k n ≡ lookup k m)
    × ((k : Text) → occ k (ids_of cs) ≡ 1 → lookup k n ≡ some (length (deps_of known cs k)))

scan_edges :
    (b : Bool) (now before added : ℕ) (k e : Text) (xs ys : List Text)
    → now ≡ added + occ e ys
    → added ≡ before + (if b then occ e xs else 0)
    → now ≡ before + occ e (if b then xs ++ ys else ys)
scan_edges true now before added k e xs ys h g = omega (arith, h, g, occ-append e xs ys)
scan_edges false now before added k e xs ys h g = omega (arith, h, g)

pub scan-IsGraph :
    (known : List Text) (cs : List ComponentDescriptor) (f : Dependents) (m : Counts)
    (r : Dependents × Counts)
    → scan known cs f m ≡ ok r
    → IsMap m
    → IsGraph known cs f m r
unfolding scan occ
scan-IsGraph known [] f m r h w =
    let same : (f, m) ≡ r = ok_injective (ok (f, m)) (f, m) r refl h in
    subst (IsGraph known [] f m) same
      (w, λ k e. omega arith, λ k z. refl, λ k z. absurd (omega (arith, z)))
scan-IsGraph known (c ∷ cs) f m r h w =
    let (edges, e, rest) =
      bind-ok (count_edges known c.id c.dependencies f 0)
        (λ x. scan known cs x.0 (insert c.id x.1 m)) r h in
    let (total, added) = count_edges-IsScanned known c.id c.dependencies f 0 edges e in
    let (map_now, all_edges, others, counted) =
      scan-IsGraph known cs edges.0 (insert c.id edges.1 m) r rest
        (insert-IsMap c.id edges.1 m w) in
    (
      map_now,
      λ k x.
          scan_edges (text_eq k c.id) (occ k (r.0 x)) (occ k (f x)) (occ k (edges.0 x)) k x
            (known_ids known c.dependencies) (deps_of known cs k) (all_edges k x) (added k x),
      λ k z. elim (Bool-cases (text_eq k c.id)) [
        | inl q ↦ absurd (omega (arith, z, occ-same k c.id (ids_of cs) q))
        | inr q ↦
            others k (sym (occ-other k c.id (ids_of cs) q) ∙ z)
            ∙ lookup-insert c.id k edges.1 m
            ∙ rw q refl
      ],
      λ k z. elim (Bool-cases (text_eq k c.id)) [
        | inl q ↦
            let no_more : occ k (ids_of cs) ≡ 0 = omega (arith, z, occ-same k c.id (ids_of cs) q) in
            let size = length-append (known_ids known c.dependencies) [] in
            others k no_more
            ∙ lookup-insert c.id k edges.1 m
            ∙ rw q (ap some (rw (absent_deps known cs k no_more) (omega (arith, total, size))))
        | inr q ↦ rw q (counted k (sym (occ-other k c.id (ids_of cs) q) ∙ z))
      ],
    )
