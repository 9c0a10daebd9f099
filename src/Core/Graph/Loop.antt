-- ===== src/Core/Graph/Loop.antt =====
-- crates/core/src/graph.rs: the rounds of the loop, and the order that they give.
use ai_kernel.Prelude.{
  or_true, Text, text_eq, text_eq_refl, ℕ, zero, suc, ◌+◌, ◌≤◌, ◌≡◌, refl, sym, ap, ◌∙◌, arith, inl,
  inr, ◌⊎◌, Bool, Bool-cases, true, false, if◌then◌else◌, some, List, [], ◌∷◌, ◌++◌,
}
use ai_kernel.Core.Graph.{Counts, Dependents, lookup, remove, member, remove_id, release_all, drain}
use ai_kernel.Core.Graph.Maps.{text-cases, lookup-remove}
use ai_kernel.Core.Graph.Ready.{member-remove_id}
use ai_kernel.Core.Graph.Order.{
  occ, is_some, has, present_in, present, present-remove, IsCounted, release_all-IsReleased,
  none_apart,
}

-- The keys without one of them.
abbrev pub without : Text → (Text → Bool) → Text → Bool
without n keys k = if text_eq k n then false else keys k

member_head : (next : Text) (ready : List Text) → member next (next ∷ ready) ≡ true
unfolding member
member_head next ready = rw (text_eq_refl next) refl

pub member_tail :
    (k next : Text) (ids : List Text) → member k ids ≡ true → member k (next ∷ ids) ≡ true
unfolding member
member_tail k next ids h = rw h (or_true (text_eq k next))

pub removed_other :
    (n k : Text) (m : Counts) → text_eq k n ≡ false → lookup k (remove n m) ≡ lookup k m
removed_other n k m f = lookup-remove n k m ∙ rw f refl

has-remove : (n k : Text) (m : Counts) → has (remove n m) k ≡ without n (has m) k
has-remove n k m = elim (Bool-cases (text_eq k n)) [
  | inl e ↦ rw (lookup-remove n k m) (rw e refl)
  | inr e ↦ rw (lookup-remove n k m) (rw e refl)
]

next_or_later :
    (next k : Text) (remaining after : Counts) (drained : Counts × List Text)
    → ((x : Text) → has after x ≡ without next (has remaining) x)
    → has remaining k ≡ true
    → (has after k ≡ true → (has drained.0 k ≡ true) ⊎ (member k drained.1 ≡ true))
    → (has drained.0 k ≡ true) ⊎ (member k (next ∷ drained.1) ≡ true)
next_or_later next k remaining after drained same h all = elim (text-cases k next) [
  | inl e ↦ inr (rw e (member_head next drained.1))
  | inr e ↦ elim (all (same k ∙ rw e h)) [
    | inl left ↦ inl left
    | inr m ↦ inr (member_tail k next drained.1 m)
  ]
]

absent_here : (b : Bool) (n : ℕ) → (if b then 1 else 0) + n ≡ 0 → b ≡ false
absent_here true n h = absurd (omega (arith, h))
absent_here false n h = refl

-- One id stands in a list somewhere before another one.
abbrev pub Before : Text → Text → List Text → Type 0
Before e k out =
    (pre : List Text) × (post : List Text) × (out ≡ pre ++ (k ∷ post)) × (member e pre ≡ true)

Before-tail : (n e k : Text) (out : List Text) → Before e k out → Before e k (n ∷ out)
Before-tail n e k out (pre, post, h, m) = (n ∷ pre, post, ap (◌∷◌ n) h, member_tail e n pre m)

split_at :
    (k : Text) (out : List Text)
    → member k out ≡ true
    → (pre : List Text) × (post : List Text) × (out ≡ pre ++ (k ∷ post))
unfolding member
split_at k [] m = cc
split_at k (x ∷ out) m = elim (text-cases k x) [
  | inl f ↦ ([], out, rw f refl)
  | inr f ↦ let (pre, post, h) = split_at k out (rw f at m) in (x ∷ pre, post, ap (◌∷◌ x) h)
]

first-Before : (n e k : Text) (out : List Text) → e ≡ n → member k out ≡ true → Before e k (n ∷ out)
first-Before n e k out g m =
    let (pre, post, h) = split_at k out m in (n ∷ pre, post, ap (◌∷◌ n) h, rw g (member_head n pre))

module _ (deps : Text → List Text) where
  -- Every id is a key that is left, none of its dependencies is left, and then it goes.
  abbrev pub IsOrdered : (Text → Bool) → List Text → Type 0
  IsOrdered keys [] = Unit
  IsOrdered keys (n ∷ out) =
      (keys n ≡ true) × (present_in keys (deps n) ≡ 0) × IsOrdered (without n keys) out

  present_in-same :
      (f g : Text → Bool) (xs : List Text)
      → ((k : Text) → f k ≡ g k)
      → present_in f xs ≡ present_in g xs
  unfolding present_in
  present_in-same f g [] h = refl
  present_in-same f g (x ∷ xs) h =
      rw (h x) (ap (λ n. (if g x then 1 else 0) + n) (present_in-same f g xs h))

  IsOrdered-same :
      (f g : Text → Bool) (out : List Text)
      → ((k : Text) → f k ≡ g k)
      → IsOrdered f out
      → IsOrdered g out
  IsOrdered-same f g [] h o = tt
  IsOrdered-same f g (n ∷ out) h (left, free, o) = (
    sym (h n) ∙ left,
    sym (present_in-same f g (deps n) h) ∙ free,
    IsOrdered-same (without n f) (without n g) out
        (λ k. ap (λ b. if text_eq k n then false else b) (h k)) o,
  )

  pub next-IsCounted :
      (next : Text) (dependents : List Text) (remaining : Counts) (ready : List Text)
      → ((k : Text) → occ k dependents ≡ occ next (deps k))
      → IsCounted deps [] remaining (next ∷ ready)
      → IsCounted deps dependents (remove next remaining) (remove_id next (next ∷ ready))
  unfolding occ
  next-IsCounted next dependents remaining ready law (counts, waits) =
      let zero_left : lookup next remaining ≡ some 0 = waits next (member_head next ready) in
      (
        λ k c h. elim (text-cases k next) [
          | inl f ↦ absurd (
              none_apart (lookup k (remove next remaining)) c
                (lookup-remove next k remaining ∙ rw f (rw (text_eq_refl next) refl)) h)
          | inr f ↦
              let kept = removed_other next k remaining f in
              omega (
                arith,
                counts k c (sym kept ∙ h),
                present-remove next 0 remaining (deps k) zero_left,
                law k,
              )
        ],
        λ k h.
            let (f, m) = member-remove_id next k (next ∷ ready) h in
            removed_other next k remaining f ∙ waits k m,
      )

  pub next_free :
      (next : Text) (remaining : Counts) (ready : List Text)
      → IsCounted deps [] remaining (next ∷ ready)
      → (lookup next remaining ≡ some 0) × (present remaining (deps next) ≡ 0)
  unfolding occ
  next_free next remaining ready (counts, waits) =
      let zero_left : lookup next remaining ≡ some 0 = waits next (member_head next ready) in
      (zero_left, omega (arith, counts next 0 zero_left))

  -- What `drain` makes of a map: an order of keys, and what is left of the map.
  abbrev pub IsDrained : Counts → Counts × List Text → Type 0
  IsDrained remaining (left, ordered) =
      IsOrdered (has remaining) ordered
      × ((k : Text) → has remaining k ≡ true → (has left k ≡ true) ⊎ (member k ordered ≡ true))

  pub drain-IsDrained :
      (dependents : Dependents) (fuel : ℕ) (ready : List Text) (remaining : Counts)
      → ((k e : Text) → occ k (dependents e) ≡ occ e (deps k))
      → IsCounted deps [] remaining ready
      → IsDrained remaining (drain fuel dependents ready remaining)
  unfolding drain
  drain-IsDrained dependents zero ready remaining law good = (tt, λ k h. inl h)
  drain-IsDrained dependents (suc fuel) [] remaining law good = (tt, λ k h. inl h)
  drain-IsDrained dependents (suc fuel) (next ∷ ready) remaining law good =
      let (zero_left, free) = next_free next remaining ready good in
      let round =
        release_all (dependents next) (remove next remaining) (remove_id next (next ∷ ready)) in
      let (met, keys, size) =
        release_all-IsReleased deps (dependents next) (remove next remaining)
          (remove_id next (next ∷ ready))
          (next-IsCounted next (dependents next) remaining ready (λ k. law k next) good) in
      let (ordered, all) = drain-IsDrained dependents fuel round.1 round.0 law met in
      let same : (k : Text) → has round.0 k ≡ without next (has remaining) k =
        λ k. keys k ∙ has-remove next k remaining in
      (
        (
          ap is_some zero_left,
          free,
          IsOrdered-same (has round.0) (without next (has remaining))
              (drain fuel dependents round.1 round.0).1 same ordered,
        ),
        λ k h.
            next_or_later next k remaining round.0 (drain fuel dependents round.1 round.0) same h
              (all k),
      )

  counted_absent :
      (keys : Text → Bool) (e : Text) (xs : List Text)
      → present_in keys xs ≡ 0
      → member e xs ≡ true
      → keys e ≡ false
  unfolding present_in member
  counted_absent keys e [] h m = cc
  counted_absent keys e (x ∷ xs) h m = elim (text-cases e x) [
    | inl f ↦ rw f (absent_here (keys x) (present_in keys xs) h)
    | inr f ↦ counted_absent keys e xs (omega (arith, h)) (rw f at m)
  ]

  pub IsOrdered-Before :
      (keys : Text → Bool) (out : List Text) (k e : Text)
      → IsOrdered keys out
      → member k out ≡ true
      → keys e ≡ true
      → member e (deps k) ≡ true
      → Before e k out
  unfolding member
  IsOrdered-Before keys [] k e o m h d = cc
  IsOrdered-Before keys (n ∷ out) k e (left, free, o) m h d = elim (text-cases k n) [
    | inl f ↦ let gone = counted_absent keys e (deps n) free (rw f at d) in cc
    | inr f ↦
        let later : member k out ≡ true = rw f at m in
        elim (text-cases e n) [
          | inl g ↦ first-Before n e k out g later
          | inr g ↦
              Before-tail n e k out (IsOrdered-Before (without n keys) out k e o later (rw g h) d)
        ]
  ]

  pub IsOrdered-occ :
      (keys : Text → Bool) (out : List Text) (k : Text)
      → IsOrdered keys out
      → occ k out ≤ (if keys k then 1 else 0)
  unfolding occ
  IsOrdered-occ keys [] k o = omega arith
  IsOrdered-occ keys (n ∷ out) k (left, free, o) = elim (text-cases k n) [
    | inl f ↦
        let same : text_eq k n ≡ true = rw f (text_eq_refl n) in
        let there : keys k ≡ true = rw f left in
        let gone : occ k out ≤ 0 = rw same at (IsOrdered-occ (without n keys) out k o) in
        rw same (rw there (omega (arith, gone)))
    | inr f ↦
        let rest : occ k out ≤ (if keys k then 1 else 0) =
          rw f at (IsOrdered-occ (without n keys) out k o) in
        rw f (omega (arith, rest))
  ]
