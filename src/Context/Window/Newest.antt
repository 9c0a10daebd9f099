-- ===== src/Context/Window/Newest.antt =====
-- crates/context/src/window.rs: which records the newest-first loop of `assemble` keeps.
use ai_kernel.Prelude.{
  ℕ, ◌≡◌, refl, true, false, Bool, not, Option, List, [], ◌∷◌, All, if_elim, ltb, leb, wrapping_add,
  arith,
}
use ai_kernel.Context.Message.{Values, ContextBudget}
use ai_kernel.Context.Window.{
  Prepared, Taking, reached, consider, select, mark, allowance, pinned_count, pinned_tokens,
}

module _ {v : Values} where
  -- A pinned record is kept, and every record newer than a kept one that is not pinned is kept.
  abbrev pub IsNewestFirst : List (Prepared v × Bool) → Type 0
  IsNewestFirst [] = Unit
  IsNewestFirst ((p, kept) ∷ newer) =
      (p.pinned ≡ true → kept ≡ true)
      × (p.pinned ≡ false → kept ≡ true → All (λ q. q.1 ≡ true) newer)
      × IsNewestFirst newer

  -- A candidate that is not pinned is kept only while the loop accepts, and then it still does.
  abbrev IsStep : Prepared v → Taking → Bool × Taking → Type 0
  IsStep p before (kept, after) =
      (p.pinned ≡ true → kept ≡ true)
      × (p.pinned ≡ false → kept ≡ true → before.accepting ≡ true)
      × (after.accepting ≡ true → (before.accepting ≡ true) × (kept ≡ true))

  consider-IsStep :
      (ra ta : Option ℕ) (p : Prepared v) (before : Taking)
      → IsStep p before (consider ra ta p before)
  unfolding consider
  consider-IsStep ra ta p before =
      if_elim (IsStep p before) p.pinned (λ e. (λ _. refl, λ n _. cc, λ a. (a, refl)))
        (λ e.
          if_elim (IsStep p before) (not before.accepting)
            (λ c. (λ w. cc, λ w k. cc, λ a. ground arith))
            (λ c.
              if_elim (IsStep p before) (reached ra (λ limit. leb limit before.used_records))
                (λ _. (λ w. cc, λ w k. cc, λ a. cc))
                (λ _.
                  if_elim (IsStep p before)
                    (reached ta (λ limit. ltb limit (wrapping_add before.used_tokens p.tokens)))
                    (λ _. (λ w. cc, λ w k. cc, λ a. cc))
                    (λ _. (λ _. refl, λ _ _. ground arith, λ a. (a, refl))))))

  select-IsNewestFirst :
      (ra ta : Option ℕ) (ps : List (Prepared v))
      → IsNewestFirst (select ra ta ps).0
        × ((select ra ta ps).1.accepting ≡ true → All (λ q. q.1 ≡ true) (select ra ta ps).0)
  unfolding select
  select-IsNewestFirst ra ta [] = (tt, λ _. tt)
  select-IsNewestFirst ra ta (p ∷ ps) =
      let (rest, all) = select-IsNewestFirst ra ta ps in
      let (pinned, before, after) = consider-IsStep ra ta p (select ra ta ps).1 in
      ((pinned, λ n k. all (before n k), rest), λ a. let (b, k) = after a in (k, all b))

  -- Every pinned record is kept, and the kept records that are not pinned have no gap: every record
  -- newer than one of them is kept.
  pub mark-IsNewestFirst :
      (budget : ContextBudget) (prepared : List (Prepared v)) → IsNewestFirst (mark budget prepared)
  unfolding mark
  mark-IsNewestFirst budget prepared =
      (select-IsNewestFirst (allowance budget.max_records (pinned_count prepared))
        (allowance budget.max_tokens (pinned_tokens prepared)) prepared).0
