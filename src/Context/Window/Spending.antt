-- ===== src/Context/Window/Spending.antt =====
-- crates/context/src/window.rs: what the records that `assemble` keeps cost.
use ai_kernel.Prelude.{
  ℕ, ◌+◌, ◌≤◌, ◌<◌, ◌≡◌, refl, sym, true, false, Bool, not, Option, some, none, List, [], ◌∷◌, map,
  keep_if, length, if_elim, if◌then◌else◌, ltb, leb, wrapping_add, arith, inl, inr, Bool-cases,
  u64_size, max, ltb-false, leb-false,
}
use ai_kernel.Context.Message.{Values, ContextBudget, sum}
use ai_kernel.Context.Window.{
  Prepared, Taking, reached, consider, select, mark, allowance, pinned_count, pinned_tokens,
  selected,
}

abbrev IsWithin : Option ℕ → ℕ → Type 0
IsWithin none n = Unit
IsWithin (some limit) n = n ≤ limit

records-IsWithin :
    (ra : Option ℕ) (n : ℕ) → reached ra (λ limit. leb limit n) ≡ false → IsWithin ra (n + 1)
unfolding reached
records-IsWithin none n h = tt
records-IsWithin (some limit) n h = omega (arith, leb-false limit n h)

tokens-IsWithin :
    (ta : Option ℕ) (n : ℕ) → reached ta (λ limit. ltb limit n) ≡ false → IsWithin ta n
unfolding reached
tokens-IsWithin none n h = tt
tokens-IsWithin (some limit) n h = ltb-false limit n h

start-IsWithin : (limit : Option ℕ) → IsWithin limit 0
start-IsWithin none = tt
start-IsWithin (some n) = omega arith

module _ {v : Values} where
  -- What records cost, without wrapping.
  abbrev pub cost : List (Prepared v) → ℕ
  cost [] = 0
  cost (p ∷ ps) = p.tokens + cost ps

  abbrev pub pinned_ones : List (Prepared v) → List (Prepared v)
  pinned_ones ps = keep_if (λ p. p.pinned) ps

  cost-pinned-le : (ps : List (Prepared v)) → cost (pinned_ones ps) ≤ cost ps
  cost-pinned-le [] = omega arith
  cost-pinned-le (p ∷ ps) =
      if_elim (λ xs. cost xs ≤ p.tokens + cost ps) p.pinned (λ _. omega (arith, cost-pinned-le ps))
        (λ _. omega (arith, cost-pinned-le ps))

  sum-cost : (ps : List (Prepared v)) → cost ps < u64_size → sum (map (λ p. p.tokens) ps) ≡ cost ps
  unfolding sum
  sum-cost [] h = refl
  sum-cost (p ∷ ps) h = ground (arith, sum-cost ps (omega arith))

  abbrev added : Prepared v → Bool → ℕ
  added p kept = if p.pinned then 0 else if kept then p.tokens else 0

  abbrev counted : Prepared v → Bool → ℕ
  counted p kept = if p.pinned then 0 else if kept then 1 else 0

  -- One step adds what it keeps and stays within both limits.
  abbrev IsSpent : Option ℕ → Option ℕ → Prepared v → Taking → Bool × Taking → Type 0
  IsSpent ra ta p before (kept, after) =
      (p.pinned ≡ true → kept ≡ true)
      × (after.used_tokens ≡ before.used_tokens + added p kept)
      × (after.used_records ≡ before.used_records + counted p kept)
      × (IsWithin ra before.used_records → IsWithin ra after.used_records)
      × (IsWithin ta before.used_tokens → IsWithin ta after.used_tokens)

  consider-IsSpent :
      (ra ta : Option ℕ) (p : Prepared v) (before : Taking)
      → before.used_tokens + p.tokens < u64_size
      → IsSpent ra ta p before (consider ra ta p before)
  unfolding consider
  consider-IsSpent ra ta p before fits =
      if_elim (IsSpent ra ta p before) p.pinned
        (λ e. (λ _. refl, rw e (omega arith), rw e (omega arith), λ w. w, λ w. w))
        (λ e.
          if_elim (IsSpent ra ta p before) (not before.accepting)
            (λ c. (λ w. cc, rw e (omega arith), rw e (omega arith), λ w. w, λ w. w))
            (λ c.
              if_elim (IsSpent ra ta p before) (reached ra (λ limit. leb limit before.used_records))
                (λ _. (λ w. cc, rw e (omega arith), rw e (omega arith), λ w. w, λ w. w))
                (λ r.
                  if_elim (IsSpent ra ta p before)
                    (reached ta (λ limit. ltb limit (wrapping_add before.used_tokens p.tokens)))
                    (λ _. (λ w. cc, rw e (omega arith), rw e (omega arith), λ w. w, λ w. w))
                    (λ t. (
                      λ _. refl,
                      rw e (omega (arith, fits)),
                      rw e (omega arith),
                      λ _. records-IsWithin ra _ r,
                      λ _. tokens-IsWithin ta _ t,
                    )))))

  abbrev chosen : Option ℕ → Option ℕ → List (Prepared v) → List (Prepared v)
  chosen ra ta ps = selected (select ra ta ps).0

  -- What one more candidate adds to the cost and to the number of the chosen ones.
  abbrev IsAdded : Prepared v → List (Prepared v) → List (Prepared v × Bool) → Bool → Type 0
  IsAdded p ps marked kept =
      (cost (selected ((p, kept) ∷ marked)) + cost (pinned_ones ps)
        ≡ cost (pinned_ones (p ∷ ps)) + added p kept + cost (selected marked))
      × (length (selected ((p, kept) ∷ marked)) + length (pinned_ones ps)
          ≡ length (pinned_ones (p ∷ ps)) + counted p kept + length (selected marked))
      × (cost (selected ((p, kept) ∷ marked)) ≤ p.tokens + cost (selected marked))

  selected-cons :
      (p : Prepared v) (ps : List (Prepared v)) (marked : List (Prepared v × Bool)) (kept : Bool)
      → (p.pinned ≡ true → kept ≡ true)
      → IsAdded p ps marked kept
  unfolding selected
  selected-cons p ps marked true h = elim (Bool-cases p.pinned) [
    | inl e ↦ rw e (omega arith)
    | inr e ↦ rw e (omega arith)
  ]
  selected-cons p ps marked false h = elim (Bool-cases p.pinned) [
    | inl e ↦ ground (arith, h e)
    | inr e ↦ rw e (omega arith)
  ]

  abbrev IsTally : Option ℕ → Option ℕ → List (Prepared v) → Type 0
  IsTally ra ta ps =
      (cost (chosen ra ta ps) ≡ cost (pinned_ones ps) + (select ra ta ps).1.used_tokens)
      × (length (chosen ra ta ps) ≡ length (pinned_ones ps) + (select ra ta ps).1.used_records)
      × (cost (chosen ra ta ps) ≤ cost ps)
      × IsWithin ra (select ra ta ps).1.used_records
      × IsWithin ta (select ra ta ps).1.used_tokens

  select-IsTally :
      (ra ta : Option ℕ) (ps : List (Prepared v)) → cost ps < u64_size → IsTally ra ta ps
  unfolding select selected
  select-IsTally ra ta [] h = (refl, refl, omega arith, start-IsWithin ra, start-IsWithin ta)
  select-IsTally ra ta (p ∷ ps) h =
      let (c, l, le, wr, wt) = select-IsTally ra ta ps (omega arith) in
      let (pin, tokens, records, kr, kt) =
        consider-IsSpent ra ta p (select ra ta ps).1 (omega (arith, h)) in
      let (ec, el, ele) =
        selected-cons p ps (select ra ta ps).0 (consider ra ta p (select ra ta ps).1).0 pin in
      (omega arith, omega arith, omega arith, kr wr, kt wt)

  -- What is kept is within the limit, or it is what the pinned records take.
  abbrev pub IsAfforded :
      Option ℕ → (List (Prepared v) → ℕ) → List (Prepared v) → List (Prepared v) → Type 0
  IsAfforded none measure prepared kept = Unit
  IsAfforded (some limit) measure prepared kept =
      measure kept ≤ max limit (measure (pinned_ones prepared))

  within-IsAfforded :
      (o : Option ℕ) (measure : List (Prepared v) → ℕ) (prepared kept : List (Prepared v)) (n : ℕ)
      → IsWithin (allowance o (measure (pinned_ones prepared))) n
      → measure kept ≡ measure (pinned_ones prepared) + n
      → IsAfforded o measure prepared kept
  unfolding allowance
  within-IsAfforded none measure prepared kept n h e = tt
  within-IsAfforded (some limit) measure prepared kept n h e = omega (arith, h, e)

  -- Where the costs of the records do not wrap, the number of the kept ones is at most the larger of
  -- `max_records` and the number of the pinned ones, and their cost is at most the larger of
  -- `max_tokens` and the cost of the pinned ones; a limit that is absent bounds nothing.
  pub mark-IsAfforded :
      (budget : ContextBudget) (prepared : List (Prepared v))
      → cost prepared < u64_size
      → IsAfforded budget.max_records length prepared (selected (mark budget prepared))
        × IsAfforded budget.max_tokens cost prepared (selected (mark budget prepared))
  unfolding mark pinned_tokens pinned_count
  mark-IsAfforded budget prepared h =
      let paid : pinned_tokens prepared ≡ cost (pinned_ones prepared) =
        sum-cost (pinned_ones prepared) (omega (arith, cost-pinned-le prepared)) in
      let ra = allowance budget.max_records (pinned_count prepared) in
      let ta = allowance budget.max_tokens (pinned_tokens prepared) in
      let (c, l, le, wr, wt) = select-IsTally ra ta prepared h in
      (
        within-IsAfforded budget.max_records length prepared (chosen ra ta prepared)
            (select ra ta prepared).1.used_records wr l,
        within-IsAfforded budget.max_tokens cost prepared (chosen ra ta prepared)
            (select ra ta prepared).1.used_tokens (rw (sym paid) wt) c,
      )
