-- ===== src/Core/Graph.antt =====
-- crates/core/src/graph.rs: dependency resolution. A `BTreeMap` and a `BTreeSet` are lists in the order
-- of their keys, the map of the dependents is a function; a `usize` that counts edges wraps below zero.
pub mod Maps
pub mod Ready
pub mod Edges
pub mod Order
pub mod Loop
pub mod Sorted
pub mod Awake
pub mod Cycle
pub mod Stuck
use ai_kernel.Prelude.{
  Text, text_eq, length, ℕ, zero, suc, ◌+◌, ◌-◌, ◌==◌, ltb, Bool, true, false, not, ◌||◌, any,
  if◌then◌else◌, Option, none, some, List, [], ◌∷◌, ◌++◌, map, keep_if, Result, ok, err, ◌>>=◌,
  u64_max,
}
use ai_kernel.Errors.{Error}

pub record Dependency : Type 0 where
  pub id : Text
  pub optional : Bool

pub record ComponentDescriptor : Type 0 where
  pub id : Text
  pub dependencies : List Dependency

-- `<` on texts: the order of their code points is the order of their bytes.
unfoldable pub text_lt : Text → Text → Bool
text_lt t [] = false
text_lt [] (y ∷ t) = true
text_lt (x ∷ s) (y ∷ t) = if ltb x y then true else if ltb y x then false else text_lt s t

abbrev pub Counts : Type 0
Counts = List (Text × ℕ)

unfoldable pub lookup : Text → Counts → Option ℕ
lookup k [] = none
lookup k ((x, c) ∷ m) = if text_eq k x then some c else lookup k m

unfoldable pub remove : Text → Counts → Counts
remove k m = keep_if (λ e. not (text_eq k e.0)) m

place : Text → ℕ → Counts → Counts
unfolding text_lt
place k c [] = (k, c) ∷ []
place k c ((x, b) ∷ m) =
    let rest = place k c m in if text_lt k x then (k, c) ∷ (x, b) ∷ m else (x, b) ∷ rest

-- The entry of a key is replaced.
unfoldable pub insert : Text → ℕ → Counts → Counts
unfolding place remove
insert k c m = place k c (remove k m)

unfoldable pub set_count : Text → ℕ → Counts → Counts
set_count k c [] = []
set_count k c ((x, b) ∷ m) =
    let rest = set_count k c m in if text_eq k x then (x, c) ∷ m else (x, b) ∷ rest

unfoldable pub member : Text → List Text → Bool
member k ids = any (text_eq k) ids

unfoldable pub insert_id : Text → List Text → List Text
unfolding text_lt
insert_id k [] = k ∷ []
insert_id k (x ∷ ids) =
    let rest = insert_id k ids in
    if text_eq k x then x ∷ ids else if text_lt k x then k ∷ x ∷ ids else x ∷ rest

unfoldable pub remove_id : Text → List Text → List Text
remove_id k ids = keep_if (λ x. not (text_eq k x)) ids

abbrev pub Dependents : Type 0
Dependents = Text → List Text

unfoldable pub add_dependent : Text → Text → Dependents → Dependents
add_dependent dependency dependent dependents k =
    if text_eq k dependency then dependents k ++ (dependent ∷ []) else dependents k

-- The inner loop over the dependencies of one component: the edges, and how many there are.
unfoldable pub count_edges :
    List Text → Text → List Dependency → Dependents → ℕ → Result Error (Dependents × ℕ)
count_edges known id [] dependents count = ok (dependents, count)
count_edges known id (d ∷ ds) dependents count =
    if not (member d.id known)
    then (if d.optional
        then count_edges known id ds dependents count
        else err (Error.missing_dependency id d.id))
    else if text_eq d.id id
    then err (Error.dependency_cycle (id ∷ []))
    else count_edges known id ds (add_dependent d.id id dependents) (count + 1)

unfoldable pub scan :
    List Text → List ComponentDescriptor → Dependents → Counts → Result Error (Dependents × Counts)
unfolding count_edges
scan known [] dependents remaining = ok (dependents, remaining)
scan known (c ∷ cs) dependents remaining =
    count_edges known c.id c.dependencies dependents 0 >>= λ edges.
    scan known cs edges.0 (insert c.id edges.1 remaining)

-- A dependency of `id` is met.
release_found : Text → Option ℕ → Counts → List Text → Counts × List Text
release_found id none remaining ready = (remaining, ready)
release_found id (some count) remaining ready =
    let left = if count == 0 then u64_max else count - 1 in
    (set_count id left remaining, if left == 0 then insert_id id ready else ready)

unfoldable pub release : Text → Counts → List Text → Counts × List Text
unfolding release_found
release id remaining ready = release_found id (lookup id remaining) remaining ready

unfoldable pub release_all : List Text → Counts → List Text → Counts × List Text
release_all [] remaining ready = (remaining, ready)
release_all (id ∷ ids) remaining ready =
    let (after, now) = release id remaining ready in release_all ids after now

-- What is left, and the order.
unfoldable pub drain : ℕ → Dependents → List Text → Counts → Counts × List Text
drain zero dependents ready remaining = (remaining, [])
drain (suc fuel) dependents [] remaining = (remaining, [])
drain (suc fuel) dependents (next ∷ ready) remaining =
    let (after, now) =
      release_all (dependents next) (remove next remaining) (remove_id next (next ∷ ready)) in
    let (left, ordered) = drain fuel dependents now after in (left, next ∷ ordered)

unfoldable pub ready_ids : Counts → List Text
ready_ids remaining = map (λ e. e.0) (keep_if (λ e. e.1 == 0) remaining)

finish_order : Counts × List Text → Result Error (List Text)
finish_order ([], ordered) = ok ordered
finish_order (e ∷ left, ordered) = err (Error.dependency_cycle (map (λ x. x.0) (e ∷ left)))

-- Every round takes a component out of the map: it has as many entries as there are rounds at most.
unfoldable pub resolve_order : List ComponentDescriptor → Result Error (List Text)
unfolding scan drain finish_order ready_ids
resolve_order descriptors = scan (map (λ d. d.id) descriptors) descriptors (λ k. []) [] >>= λ graph.
    finish_order (drain (length graph.1) graph.0 (ready_ids graph.1) graph.1)
