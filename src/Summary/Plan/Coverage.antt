-- ===== src/Summary/Plan/Coverage.antt =====
-- crates/summary/src/plan.rs: a round removes what it summarised, and leaves enough.
use mathlib.Core.Path.{subst}
use ai_kernel.Prelude.{
  Text, length, length-take, take, ℕ, zero, suc, ◌+◌, ◌-◌, ◌≤◌, ◌≡◌, refl, sym, ap, ◌∙◌, arith, inl,
  inr, ◌⊎◌, min, leb, ltb, ltb-false, leb→le, Bool, Option-cases, true, false, ◌&&◌, if◌then◌else◌,
  Option, none, some, List, [], ◌∷◌, map, keep_if, saturating_add,
}
use ai_kernel.Context.Message.{Values, ContextRecord, ContextBudget, sum, byte_length}
use ai_kernel.Summary.Excerpt.{render_record, wrap}
use ai_kernel.Summary.Plan.{
  SummarySettings, Plan, Progress, retained, append_record, covered, cover, go_on, cover_all,
  unpinned_of, candidates_of, plan, is_empty_text, start, plan_of,
}

if_none {ℓ} : {A : Type ℓ} (b : Bool) (x : A) → (if b then none else some x) ≡ none → b ≡ true
if_none true x h = refl
if_none false x h = cc

if_some {ℓ} :
    {A : Type ℓ} (b : Bool) (o : Option A) (x : A)
    → (if b then none else o) ≡ some x
    → (b ≡ false) × (o ≡ some x)
if_some true o x h = cc
if_some false o x h = (refl, h)

some_injective {ℓ} : {A : Type ℓ} (o : Option A) (x y : A) → o ≡ some x → o ≡ some y → x ≡ y
some_injective o x y h k = cc

second : (a b : Bool) → (a && b) ≡ true → b ≡ true
second true b h = h
second false b h = cc

abbrev pub add_rendered : Text → Option Text → Text
add_rendered body none = body
add_rendered body (some rendered) = append_record body rendered

later : {n m : ℕ} {P : Type 0} → (n ≡ m) ⊎ P → (suc n ≡ suc m) ⊎ P
later (inl h) = inl (ap suc h)
later (inr h) = inr h

module _ {v : Values} (settings : SummarySettings) where
  -- The records rendered one after the other, and what they cost.
  unfoldable pub transcript : Text → List (ContextRecord v) → Text
  transcript body [] = body
  transcript body (r ∷ rs) =
      transcript (add_rendered body (render_record r settings.max_part_chars)) rs

  unfoldable pub reclaimed : ℕ → List (ContextRecord v) → ℕ
  reclaimed tokens [] = tokens
  reclaimed tokens (r ∷ rs) = reclaimed (saturating_add tokens r.tokens) rs

  -- `after` is `before` with the first `n` of the candidates, which are all or enough.
  abbrev IsCovered : List (ContextRecord v) → Progress → Progress → ℕ → Type 0
  IsCovered candidates before after n =
      (after.summarised_records ≡ before.summarised_records + n)
      × (n ≤ length candidates)
      × (after.body ≡ transcript before.body (take n candidates))
      × (after.reclaimed_tokens ≡ reclaimed before.reclaimed_tokens (take n candidates))
      × ((n ≡ length candidates) ⊎ (settings.min_summarised_records ≤ after.summarised_records))

  cover-stops :
      (r : ContextRecord v) (o : Option Text) (progress : Progress)
      → cover settings r o progress ≡ none
      → settings.min_summarised_records ≤ progress.summarised_records
  unfolding cover
  cover-stops r none progress h = cc
  cover-stops r (some rendered) progress h =
      let would_be = byte_length progress.body + byte_length rendered + 1 in
      let full =
        if_none
          (ltb settings.max_excerpt_chars would_be
            && leb settings.min_summarised_records progress.summarised_records)
          (covered r (append_record progress.body rendered) progress) h in
      leb→le settings.min_summarised_records progress.summarised_records
        (second (ltb settings.max_excerpt_chars would_be) _ full)

  cover-some :
      (r : ContextRecord v) (o : Option Text) (progress after : Progress)
      → cover settings r o progress ≡ some after
      → after ≡ covered r (add_rendered progress.body o) progress
  unfolding cover
  cover-some r none progress after h = cc
  cover-some r (some rendered) progress after h =
      let would_be = byte_length progress.body + byte_length rendered + 1 in
      let next = covered r (append_record progress.body rendered) progress in
      let (room, done) =
        if_some
          (ltb settings.max_excerpt_chars would_be
            && leb settings.min_summarised_records progress.summarised_records)
          (some next) after h in
      sym (some_injective (some next) next after refl done)

  cover_all-stopped :
      (r : ContextRecord v) (rs : List (ContextRecord v)) (progress : Progress)
      → cover settings r (render_record r settings.max_part_chars) progress ≡ none
      → cover_all settings (r ∷ rs) progress ≡ progress
  unfolding cover_all go_on
  cover_all-stopped r rs progress h = ap (λ o. go_on progress o (λ p. cover_all settings rs p)) h

  cover_all-next :
      (r : ContextRecord v) (rs : List (ContextRecord v)) (progress after : Progress)
      → cover settings r (render_record r settings.max_part_chars) progress ≡ some after
      → cover_all settings (r ∷ rs) progress ≡ cover_all settings rs after
  unfolding cover_all go_on
  cover_all-next r rs progress after h = ap (λ o. go_on progress o (λ p. cover_all settings rs p)) h

  IsCovered-later :
      (r : ContextRecord v) (rs : List (ContextRecord v)) (before next after : Progress) (n : ℕ)
      → next ≡ covered r (add_rendered before.body (render_record r settings.max_part_chars)) before
      → IsCovered rs next after n
      → IsCovered (r ∷ rs) before after (suc n)
  unfolding transcript reclaimed covered
  IsCovered-later r rs before next after n same (total, bound, body, tokens, enough) =
      let count : next.summarised_records ≡ before.summarised_records + 1 =
        ap (λ p. p.summarised_records) same in
      (
        omega arith,
        omega arith,
        body ∙ ap (λ b. transcript b (take n rs)) (ap (λ p. p.body) same),
        tokens ∙ ap (λ b. reclaimed b (take n rs)) (ap (λ p. p.reclaimed_tokens) same),
        later enough,
      )

  cover_all-IsCovered :
      (candidates : List (ContextRecord v)) (before : Progress)
      → (n : ℕ) × IsCovered candidates before (cover_all settings candidates before) n
  unfolding transcript reclaimed covered cover_all
  cover_all-IsCovered [] before = (0, (omega arith, omega arith, refl, refl, inl refl))
  cover_all-IsCovered (r ∷ rs) before =
      elim (Option-cases (cover settings r (render_record r settings.max_part_chars) before)) [
        | inl e ↦ (
          0,
          subst (λ p. IsCovered (r ∷ rs) before p 0) (sym (cover_all-stopped r rs before e))
              (
                omega arith,
                omega arith,
                refl,
                refl,
                inr (cover-stops r (render_record r settings.max_part_chars) before e),
              ),
        )
        | inr (after, e) ↦
            let (n, good) = cover_all-IsCovered rs after in
            let same = cover-some r (render_record r settings.max_part_chars) before after e in
            (
              suc n,
              subst (λ p. IsCovered (r ∷ rs) before p (suc n))
                  (sym (cover_all-next r rs before after e))
                  (IsCovered-later r rs before after (cover_all settings rs after) n same good),
            )
      ]

  retained-bounds :
      (unpinned : List (ContextRecord v)) (pinned_records pinned_tokens : ℕ)
      (budget : ContextBudget)
      → (min settings.min_retained_records (length unpinned)
          ≤ retained unpinned pinned_records pinned_tokens budget settings)
        × (retained unpinned pinned_records pinned_tokens budget settings ≤ length unpinned)
  unfolding retained
  retained-bounds unpinned pinned_records pinned_tokens budget = omega arith

  length-candidates_of :
      (records : List (ContextRecord v)) (budget : ContextBudget)
      → let unpinned = unpinned_of records in
        (m : ℕ) × (candidates_of records budget settings ≡ take m unpinned)
        × (length (candidates_of records budget settings) ≡ m)
        × (m + min settings.min_retained_records (length unpinned) ≤ length unpinned)
  unfolding candidates_of
  length-candidates_of records budget =
      let unpinned = unpinned_of records in
      let pinned = keep_if (λ r. r.pinned) records in
      let (low, high) =
        retained-bounds unpinned (length pinned) (sum (map (λ r. r.tokens) pinned)) budget in
      (
        _,
        refl,
        omega (
          arith,
          length-take
              (length unpinned
                - retained unpinned (length pinned) (sum (map (λ r. r.tokens) pinned)) budget
                    settings)
              unpinned,
        ),
        omega arith,
      )

  take-take : (k m : ℕ) (xs : List (ContextRecord v)) → k ≤ m → take k (take m xs) ≡ take k xs
  take-take zero m xs h = refl
  take-take (suc k) zero xs h = ground arith
  take-take (suc k) (suc m) [] h = refl
  take-take (suc k) (suc m) (x ∷ xs) h = ap (◌∷◌ x) (take-take k m xs (omega arith))

  -- What a plan says of the oldest records that are not pinned.
  abbrev pub IsCoverage : List (ContextRecord v) → Plan → Type 0
  IsCoverage unpinned p =
      (p.summarised_records + min settings.min_retained_records (length unpinned) ≤ length unpinned)
      × (settings.min_summarised_records ≤ p.summarised_records)
      × (p.excerpt ≡ wrap (transcript [] (take p.summarised_records unpinned)))
      × (p.reclaimed_tokens ≡ reclaimed 0 (take p.summarised_records unpinned))

  IsCovered-IsCoverage :
      (records : List (ContextRecord v)) (budget : ContextBudget) (n : ℕ) (end : Progress)
      (pinned : ℕ)
      → settings.min_summarised_records ≤ length (candidates_of records budget settings)
      → IsCovered (candidates_of records budget settings) start end n
      → IsCoverage (unpinned_of records) (plan_of end pinned)
  IsCovered-IsCoverage records budget n end pinned many (total, bound, body, tokens, enough) =
      let (m, cut, size, room) = length-candidates_of records budget in
      let count : end.summarised_records ≡ n = omega (arith, total) in
      let oldest : take n (candidates_of records budget settings)
          ≡ take end.summarised_records (unpinned_of records) =
        ap (take n) cut
        ∙ take-take n m (unpinned_of records) (omega arith)
        ∙ ap (λ k. take k (unpinned_of records)) (sym count) in
      (
        omega arith,
        elim enough [ inl e ↦ omega arith | inr e ↦ e ],
        ap wrap (body ∙ ap (transcript []) oldest),
        tokens ∙ ap (reclaimed 0) oldest,
      )

  -- A plan covers at least `min_summarised_records` of the oldest records that are not pinned and leaves
  -- at least `min_retained_records` of them, or all where there are fewer; its excerpt is the rendering
  -- of exactly the records that it covers, and its tokens are what these cost.
  pub plan-IsCoverage :
      (records : List (ContextRecord v)) (budget : ContextBudget) (p : Plan)
      → plan records budget settings ≡ some p
      → IsCoverage (unpinned_of records) p
  unfolding plan
  plan-IsCoverage records budget p h =
      let candidates = candidates_of records budget settings in
      let end = cover_all settings candidates start in
      let pinned = length (keep_if (λ r. r.pinned) records) in
      let planned = if is_empty_text end.body then none else some (plan_of end pinned) in
      let (many, h1) =
        if_some (ltb (length candidates) settings.min_summarised_records) planned p h in
      let (full, h2) = if_some (is_empty_text end.body) (some (plan_of end pinned)) p h1 in
      let same : plan_of end pinned ≡ p =
        some_injective (some (plan_of end pinned)) (plan_of end pinned) p refl h2 in
      let (n, good) = cover_all-IsCovered candidates start in
      subst (IsCoverage (unpinned_of records)) same (
        IsCovered-IsCoverage records budget n end pinned
          (ltb-false (length candidates) settings.min_summarised_records many) good)
