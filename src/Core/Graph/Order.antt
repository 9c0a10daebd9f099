-- ===== src/Core/Graph/Order.antt =====
-- crates/core/src/graph.rs: the loop of `resolve_order`, over any graph of which both directions agree.
use ai_kernel.Prelude.{
  Text, text_eq, text_eq_refl, length, ℕ, ◌+◌, ◌-◌, ◌≡◌, ◌≢◌, refl, sym, ap, ◌∙◌, arith, inl, inr,
  ◌==◌, Bool, Bool-cases, true, false, if◌then◌else◌, Option, none, some, List, [], ◌∷◌, u64_max,
}
use ai_kernel.Core.Graph.{
  Counts, lookup, set_count, remove, member, insert_id, release, release_found, release_all,
}
use ai_kernel.Core.Graph.Maps.{
  text-cases, text_eq_sym, lookup-set_count-same, lookup-set_count-other, lookup-remove,
  length-set_count,
}
use ai_kernel.Core.Graph.Ready.{member-insert_id}

-- How often an id stands in a list, and how many of a list's ids are still in the map.
unfoldable pub occ : Text → List Text → ℕ
occ k [] = 0
occ k (x ∷ xs) = (if text_eq k x then 1 else 0) + occ k xs

abbrev pub is_some : Option ℕ → Bool
is_some none = false
is_some (some c) = true

pub occ-same : (k x : Text) (xs : List Text) → text_eq k x ≡ true → occ k (x ∷ xs) ≡ 1 + occ k xs
unfolding occ
occ-same k x xs h = rw h refl

pub occ-other : (k x : Text) (xs : List Text) → text_eq k x ≡ false → occ k (x ∷ xs) ≡ occ k xs
unfolding occ
occ-other k x xs h = rw h (omega arith)

-- The keys of a map.
abbrev pub has : Counts → Text → Bool
has remaining k = is_some (lookup k remaining)

unfoldable pub present_in : (Text → Bool) → List Text → ℕ
present_in keys [] = 0
present_in keys (x ∷ xs) = (if keys x then 1 else 0) + present_in keys xs

abbrev pub present : Counts → List Text → ℕ
present remaining xs = present_in (has remaining) xs

pub present-remove :
    (next : Text) (c : ℕ) (remaining : Counts) (xs : List Text)
    → lookup next remaining ≡ some c
    → present remaining xs ≡ present (remove next remaining) xs + occ next xs
unfolding present_in occ
present-remove next c remaining [] h = refl
present-remove next c remaining (x ∷ xs) h =
    let rest = present-remove next c remaining xs h in
    elim (text-cases x next) [
      | inl e ↦
          let here : lookup x remaining ≡ some c = rw e h in
          let gone : lookup x (remove next remaining) ≡ none =
            lookup-remove next x remaining ∙ rw e (rw (text_eq_refl next) refl) in
          let same : text_eq next x ≡ true = rw e (text_eq_refl next) in
          rw here (rw gone (rw same (omega arith)))
      | inr e ↦
          let kept : lookup x (remove next remaining) ≡ lookup x remaining =
            lookup-remove next x remaining ∙ rw e refl in
          let apart : text_eq next x ≡ false = text_eq_sym next x ∙ e in
          rw kept (rw apart (omega arith))
    ]

-- Replacing a count keeps the keys.
is_some-set_count :
    (k x : Text) (c b : ℕ) (remaining : Counts)
    → lookup k remaining ≡ some b
    → is_some (lookup x (set_count k c remaining)) ≡ is_some (lookup x remaining)
is_some-set_count k x c b remaining h = elim (text-cases x k) [
  | inl e ↦ rw e (rw (lookup-set_count-same k c b remaining h) (rw h refl))
  | inr e ↦ rw (lookup-set_count-other k x c remaining e) refl
]

present-set_count :
    (k : Text) (c b : ℕ) (remaining : Counts) (xs : List Text)
    → lookup k remaining ≡ some b
    → present (set_count k c remaining) xs ≡ present remaining xs
unfolding present_in
present-set_count k c b remaining [] h = refl
present-set_count k c b remaining (x ∷ xs) h = rw (is_some-set_count k x c b remaining h) (
    ap (λ n. (if is_some (lookup x remaining) then 1 else 0) + n)
      (present-set_count k c b remaining xs h))

pub number_of : (o : Option ℕ) (c n : ℕ) → o ≡ some c → o ≡ some n → c ≡ n
number_of o c n h k = cc

pub none_apart : (o : Option ℕ) (c : ℕ) → o ≡ none → o ≢ some c
none_apart o c h k = cc

zero_apart : (n : ℕ) (o : Option ℕ) → o ≡ some (n + 1) → o ≢ some 0
zero_apart n o h k = omega (arith, number_of o (n + 1) 0 h k)

module _ (deps : Text → List Text) where
  -- While `pending` is still to be met: a count is the number of edges from what is left and from
  -- what is pending, and what is ready waits for nothing.
  abbrev pub IsCounted : List Text → Counts → List Text → Type 0
  IsCounted pending remaining ready =
      ((k : Text) (c : ℕ)
        → lookup k remaining ≡ some c
        → c ≡ present remaining (deps k) + occ k pending)
      × ((k : Text) → member k ready ≡ true → lookup k remaining ≡ some 0)

  -- A step that keeps the keys of the map.
  abbrev pub IsReleased : List Text → Counts → Counts × List Text → Type 0
  IsReleased pending remaining (after, now) =
      IsCounted pending after now
      × ((k : Text) → is_some (lookup k after) ≡ is_some (lookup k remaining))
      × (length after ≡ length remaining)

  counts_after :
      (id : Text) (pending : List Text) (n : ℕ) (remaining : Counts) (ready : List Text)
      → lookup id remaining ≡ some (n + 1)
      → IsCounted (id ∷ pending) remaining ready
      → (k : Text) (c : ℕ) → lookup k (set_count id n remaining) ≡ some c
      → c ≡ present (set_count id n remaining) (deps k) + occ k pending
  unfolding occ
  counts_after id pending n remaining ready e (counts, waits) k c h =
      let same = present-set_count id n (n + 1) remaining (deps k) e in
      elim (text-cases k id) [
        | inl f ↦
            let now : lookup k (set_count id n remaining) ≡ some n =
              rw f (lookup-set_count-same id n (n + 1) remaining e) in
            let value : c ≡ n = number_of (lookup k (set_count id n remaining)) c n h now in
            let before = counts k (n + 1) (rw f e) in
            let one : text_eq k id ≡ true = rw f (text_eq_refl id) in
            let before1 : n + 1 ≡ present remaining (deps k) + (1 + occ k pending) =
              rw one at before in
            omega (arith, same, value, before1)
        | inr f ↦
            let before = counts k c (sym (lookup-set_count-other id k n remaining f) ∙ h) in
            let before0 : c ≡ present remaining (deps k) + (0 + occ k pending) = rw f at before in
            omega (arith, same, before0)
      ]

  waits_after :
      (id : Text) (pending : List Text) (n : ℕ) (remaining : Counts) (ready : List Text)
      → lookup id remaining ≡ some (n + 1)
      → IsCounted (id ∷ pending) remaining ready
      → (k : Text) → member k ready ≡ true
      → lookup k (set_count id n remaining) ≡ some 0
  waits_after id pending n remaining ready e (counts, waits) k h = elim (text-cases k id) [
    | inl f ↦ absurd (zero_apart n (lookup k remaining) (rw f e) (waits k h))
    | inr f ↦ lookup-set_count-other id k n remaining f ∙ waits k h
  ]

  now_waits :
      (id : Text) (pending : List Text) (n : ℕ) (remaining : Counts) (ready : List Text)
      → lookup id remaining ≡ some (n + 1)
      → IsCounted (id ∷ pending) remaining ready
      → (k : Text) → member k (if n == 0 then insert_id id ready else ready) ≡ true
      → lookup k (set_count id n remaining) ≡ some 0
  now_waits id pending n remaining ready e good k h = elim (Bool-cases (n == 0)) [
    | inl z ↦ elim (member-insert_id id k ready (rw z at h)) [
      | inl f ↦ rw f (lookup-set_count-same id n (n + 1) remaining e ∙ ap some (ground (arith, z)))
      | inr m ↦ waits_after id pending n remaining ready e good k m
    ]
    | inr z ↦ waits_after id pending n remaining ready e good k (rw z at h)
  ]

  release-IsReleased :
      (id : Text) (pending : List Text) (o : Option ℕ) (remaining : Counts) (ready : List Text)
      → lookup id remaining ≡ o
      → IsCounted (id ∷ pending) remaining ready
      → IsReleased pending remaining (release_found id o remaining ready)
  unfolding release_found occ
  release-IsReleased id pending none remaining ready e (counts, waits) = (
    (
      λ k c h. elim (text-cases k id) [
        | inl f ↦ absurd (none_apart (lookup k remaining) c (rw f e) h)
        | inr f ↦
            let before0 : c ≡ present remaining (deps k) + (0 + occ k pending) =
              rw f at (counts k c h) in
            omega (arith, before0)
      ],
      waits,
    ),
    λ k. refl,
    refl,
  )
  release-IsReleased id pending (some count) remaining ready e good =
      let n = present remaining (deps id) + occ id pending in
      let before : count ≡ present remaining (deps id) + (1 + occ id pending) =
        rw (text_eq_refl id) at (good.0 id count e) in
      let total : count ≡ n + 1 = omega (arith, before) in
      let left : (if count == 0 then u64_max else count - 1) ≡ n = ground (arith, total) in
      let found : lookup id remaining ≡ some (n + 1) = rw (sym total) e in
      rw left (
        (
          counts_after id pending n remaining ready found good,
          now_waits id pending n remaining ready found good,
        ),
        λ k. is_some-set_count id k n (n + 1) remaining found,
        length-set_count id n remaining,
      )

  pub release_all-IsReleased :
      (pending : List Text) (remaining : Counts) (ready : List Text)
      → IsCounted pending remaining ready
      → IsReleased [] remaining (release_all pending remaining ready)
  unfolding release_all release
  release_all-IsReleased [] remaining ready good = (good, λ k. refl, refl)
  release_all-IsReleased (id ∷ pending) remaining ready good =
      let (met, keys, size) =
        release-IsReleased id pending (lookup id remaining) remaining ready refl good in
      let (all_met, all_keys, all_size) =
        release_all-IsReleased pending (release_found id (lookup id remaining) remaining ready).0
          (release_found id (lookup id remaining) remaining ready).1 met in
      (all_met, λ k. all_keys k ∙ keys k, all_size ∙ size)
