-- ===== src/Core/Tests.antt =====
-- A store that a scheduler and an agent need, and an agent that needs the scheduler.
use ai_kernel.Prelude.{Text, text_eq, codes, ◌≡◌, refl, true, false, List, [], ◌∷◌, ok, err}
use ai_kernel.Errors.{Error}
use ai_kernel.Core.Graph.{
  Dependency, ComponentDescriptor, resolve_order, member, lookup, insert, add_dependent, release,
  release_all, set_count, insert_id, remove_id,
}
use ai_kernel.Core.Graph.Order.{occ}
use ai_kernel.Core.Graph.Loop.{Before}
use ai_kernel.Core.Graph.Edges.{deps_of, ids_of}
use ai_kernel.Core.Graph.Sorted.{
  all_different, all_different-occ, resolve_order-Before, resolve_order-occ,
}
use ai_kernel.Core.Graph.Stuck.{IsCyclic, resolve_order-IsCyclic}

abbrev needs : Text → Dependency
needs id = record { id = id; optional = false }

abbrev component : Text → List Dependency → ComponentDescriptor
component id dependencies = record { id = id; dependencies = dependencies }

abbrev system : List ComponentDescriptor
system =
    component (codes "a") (needs (codes "c") ∷ needs (codes "s") ∷ [])
    ∷ component (codes "c") (needs (codes "s") ∷ record { id = codes "x"; optional = true } ∷ [])
    ∷ component (codes "s") []
    ∷ []

abbrev circle : List ComponentDescriptor
circle =
    component (codes "a") (needs (codes "b") ∷ [])
    ∷ component (codes "b") (needs (codes "a") ∷ [])
    ∷ []

system_order : resolve_order system ≡ ok (codes "s" ∷ codes "c" ∷ codes "a" ∷ [])
unfolding resolve_order text_eq member insert release_all add_dependent release lookup set_count
    insert_id remove_id
system_order = refl

circle_order : resolve_order circle ≡ err (Error.dependency_cycle (codes "a" ∷ codes "b" ∷ []))
unfolding resolve_order text_eq member insert
circle_order = refl

system_differs : all_different (ids_of system) ≡ true
unfolding member text_eq
system_differs = refl

circle_differs : all_different (ids_of circle) ≡ true
unfolding member text_eq
circle_differs = refl

needs_store : member (codes "s") (deps_of (ids_of system) system (codes "a")) ≡ true
unfolding member text_eq
needs_store = refl

resolve_order-Before_example :
    Before (codes "s") (codes "a") (codes "s" ∷ codes "c" ∷ codes "a" ∷ [])
resolve_order-Before_example =
    resolve_order-Before system (λ k. all_different-occ k (ids_of system) system_differs)
      (codes "s" ∷ codes "c" ∷ codes "a" ∷ []) (codes "a") (codes "s") system_order needs_store

resolve_order-occ_example :
    occ (codes "c") (codes "s" ∷ codes "c" ∷ codes "a" ∷ []) ≡ occ (codes "c") (ids_of system)
resolve_order-occ_example =
    resolve_order-occ system (λ k. all_different-occ k (ids_of system) system_differs)
      (codes "s" ∷ codes "c" ∷ codes "a" ∷ []) (codes "c") system_order

resolve_order-IsCyclic_example :
    IsCyclic (deps_of (ids_of circle) circle) (codes "a" ∷ codes "b" ∷ [])
resolve_order-IsCyclic_example =
    resolve_order-IsCyclic circle (codes "a" ∷ codes "b" ∷ [])
      (λ k. all_different-occ k (ids_of circle) circle_differs) circle_order
