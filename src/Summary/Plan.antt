-- ===== src/Summary/Plan.antt =====
-- crates/summary/src/plan.rs: what one round of compaction covers.
pub mod Coverage
pub mod Section
use ai_kernel.Prelude.{
  Text, codes, length, take, ℕ, suc, ◌+◌, ◌-◌, ◌*◌, ◌/◌, min, max, ◌==◌, leb, ltb, Bool, true,
  false, not, ◌&&◌, if◌then◌else◌, Option, none, some, List, [], ◌∷◌, ◌++◌, map, keep_if,
  saturating_add, saturating_mul,
}
use ai_kernel.Context.Message.{Values, ContextRecord, ContextBudget, sum, byte_length}
use ai_kernel.Summary.Excerpt.{render_record, wrap}

-- The settings that a plan reads.
pub record SummarySettings : Type 0 where
  pub keep_recent_records : ℕ
  pub min_retained_records : ℕ
  pub min_summarised_records : ℕ
  pub retain_percent : ℕ
  pub max_part_chars : ℕ
  pub max_excerpt_chars : ℕ

pub record Plan : Type 0 where
  pub summarised_records : ℕ
  pub reclaimed_tokens : ℕ
  pub pinned_records : ℕ
  pub excerpt : Text

-- The loop of `plan` over the candidates: what has been rendered, and of how many records.
pub record Progress : Type 0 where
  pub body : Text
  pub summarised_records : ℕ
  pub reclaimed_tokens : ℕ

within_records : Option ℕ → ℕ → ℕ → ℕ
within_records none pinned_records keep = keep
within_records (some max_records) pinned_records keep = min keep (max_records - pinned_records)

unfoldable pub append_record : Text → Text → Text
append_record [] rendered = rendered
append_record (c ∷ body) rendered = (c ∷ body) ++ (codes "\n" ++ rendered)

go_on : Progress → Option Progress → (Progress → Progress) → Progress
go_on before none next = before
go_on before (some after) next = next after

is_empty_text : Text → Bool
is_empty_text [] = true
is_empty_text (c ∷ t) = false

abbrev pub start : Progress
start = record { body = []; summarised_records = 0; reclaimed_tokens = 0 }

abbrev pub plan_of : Progress → ℕ → Plan
plan_of progress pinned_records = record {
  summarised_records = progress.summarised_records;
  reclaimed_tokens = progress.reclaimed_tokens;
  pinned_records = pinned_records;
  excerpt = wrap progress.body;
}

module _ {v : Values} where
  -- How many of the newest records cost no more than the allowance; the newest one is the first here.
  unfoldable pub fitting : ℕ → ℕ → List (ContextRecord v) → ℕ
  fitting allowance spent [] = 0
  fitting allowance spent (r ∷ older) =
      let now = saturating_add spent r.tokens in
      let more = fitting allowance now older in if ltb allowance now then 0 else more + 1

  reversed : List (ContextRecord v) → List (ContextRecord v) → List (ContextRecord v)
  reversed [] acc = acc
  reversed (r ∷ rs) acc = reversed rs (r ∷ acc)

  within_tokens : Option ℕ → ℕ → SummarySettings → List (ContextRecord v) → ℕ → ℕ
  unfolding fitting reversed
  within_tokens none pinned_tokens settings unpinned keep = keep
  within_tokens (some max_tokens) pinned_tokens settings unpinned keep =
      let allowance = saturating_mul (max_tokens - pinned_tokens) settings.retain_percent / 100 in
      min keep (fitting allowance 0 (reversed unpinned []))

  unfoldable pub retained : List (ContextRecord v) → ℕ → ℕ → ContextBudget → SummarySettings → ℕ
  unfolding within_records within_tokens
  retained unpinned pinned_records pinned_tokens budget settings =
      let keep = min settings.keep_recent_records (length unpinned) in
      let keep = within_records budget.max_records pinned_records keep in
      let keep = within_tokens budget.max_tokens pinned_tokens settings unpinned keep in
      min (max keep settings.min_retained_records) (length unpinned)

  unfoldable pub covered : ContextRecord v → Text → Progress → Progress
  covered r body progress = record {
    body = body;
    summarised_records = progress.summarised_records + 1;
    reclaimed_tokens = saturating_add progress.reclaimed_tokens r.tokens;
  }

  -- One candidate: the loop goes on with the next one, or it stops.
  unfoldable pub cover :
      SummarySettings → ContextRecord v → Option Text → Progress → Option Progress
  unfolding append_record covered
  cover settings r none progress = some (covered r progress.body progress)
  cover settings r (some rendered) progress =
      let would_be = byte_length progress.body + byte_length rendered + 1 in
      if ltb settings.max_excerpt_chars would_be
        && leb settings.min_summarised_records progress.summarised_records
      then none
      else some (covered r (append_record progress.body rendered) progress)

  unfoldable pub cover_all : SummarySettings → List (ContextRecord v) → Progress → Progress
  unfolding cover go_on
  cover_all settings [] progress = progress
  cover_all settings (r ∷ rs) progress =
      go_on progress (cover settings r (render_record r settings.max_part_chars) progress)
        (λ p. cover_all settings rs p)

  unfoldable pub unpinned_of : List (ContextRecord v) → List (ContextRecord v)
  unpinned_of records = keep_if (λ r. not r.pinned) records

  unfoldable pub candidates_of :
      List (ContextRecord v) → ContextBudget → SummarySettings → List (ContextRecord v)
  unfolding retained unpinned_of sum
  candidates_of records budget settings =
      let pinned = keep_if (λ r. r.pinned) records in
      let unpinned = unpinned_of records in
      let keep =
        retained unpinned (length pinned) (sum (map (λ r. r.tokens) pinned)) budget settings in
      take (length unpinned - keep) unpinned

  unfoldable pub plan : List (ContextRecord v) → ContextBudget → SummarySettings → Option Plan
  unfolding candidates_of cover_all is_empty_text
  plan records budget settings =
      let candidates = candidates_of records budget settings in
      let progress = cover_all settings candidates start in
      if ltb (length candidates) settings.min_summarised_records
      then none
      else if is_empty_text progress.body
      then none
      else some (plan_of progress (length (keep_if (λ r. r.pinned) records)))
