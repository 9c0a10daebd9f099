-- ===== src/Context/Window.antt =====
-- crates/context/src/window.rs: a window of a transcript within a budget.
-- The counts of records and of parts are `usize` and no larger than what is counted, so they are plain
-- numbers here; counts of tokens are `u64`.
pub mod Newest
pub mod Spending
pub mod Orphans
pub mod Account
use ai_kernel.Prelude.{
  Text, text_eq, length, ℕ, ◌+◌, ◌-◌, Bool, true, false, not, ◌&&◌, ◌||◌, Option, none, some, List,
  [], ◌∷◌, ◌++◌, map, keep_if, any, wrapping_add, leb, ltb, ◌==◌, if◌then◌else◌,
}
use ai_kernel.Context.Message.{
  Values, ToolCall, ContentPart, text, blob, tool_call, tool_result, other, Message, ContextRecord,
  ContextBudget, ContextUsage, ContextWindow, sum, count_message,
}
use ai_kernel.Context.Elision.{elide_message}

pub record Prepared (v : Values) : Type 0 where
  pub id : Text
  pub pinned : Bool
  pub message : Message v
  pub original_tokens : ℕ
  pub tokens : ℕ
  pub elided_parts : ℕ

-- What the loop over the candidates carries from a newer record to the next older one.
pub record Taking : Type 0 where
  pub accepting : Bool
  pub used_tokens : ℕ
  pub used_records : ℕ

-- `drop_orphan_results`: the parts of one message, given the calls before it.
module _ {v : Values} where
  unfoldable pub keep_part : List Text → ContentPart v → Bool
  keep_part answered (tool_result call_id content is_error) = any (text_eq call_id) answered
  keep_part answered (text t) = true
  keep_part answered (blob mime_type data_text) = true
  keep_part answered (tool_call c) = true
  keep_part answered (other x) = true

  unfoldable pub note_call : ContentPart v → List Text → List Text
  note_call (tool_call c) answered = c.call_id ∷ answered
  note_call (text t) answered = answered
  note_call (blob mime_type data_text) answered = answered
  note_call (tool_result call_id content is_error) answered = answered
  note_call (other x) answered = answered

  -- The kept parts, the calls seen so far and how many parts were dropped.
  unfoldable pub drop_orphan_parts :
      List Text → List (ContentPart v) → List (ContentPart v) × List Text × ℕ
  unfolding keep_part note_call
  drop_orphan_parts answered [] = ([], answered, 0)
  drop_orphan_parts answered (part ∷ parts) =
      let (kept, seen, n) = drop_orphan_parts (note_call part answered) parts in
      if keep_part answered part then (part ∷ kept, seen, n) else (kept, seen, n + 1)

  unfoldable pub drop_orphan_results : List Text → List (Message v) → List (Message v) × ℕ
  unfolding drop_orphan_parts
  drop_orphan_results answered [] = ([], 0)
  drop_orphan_results answered (m ∷ ms) =
      let (kept, seen, n) = drop_orphan_parts answered m.content in
      let (rest, k) = drop_orphan_results seen ms in (record m { content = kept } ∷ rest, n + k)

-- A limit that is absent refuses nothing.
unfoldable pub reached : Option ℕ → (ℕ → Bool) → Bool
reached none test = false
reached (some limit) test = test limit

unfoldable pub allowance : Option ℕ → ℕ → Option ℕ
allowance none used = none
allowance (some limit) used = some (limit - used)

module _ {v : Values} where
  -- One step of the newest-first loop: whether the candidate is kept, and what the older ones see.
  unfoldable pub consider : Option ℕ → Option ℕ → Prepared v → Taking → Bool × Taking
  unfolding reached
  consider record_allowance token_allowance candidate taking =
      if candidate.pinned
      then (true, taking)
      else if not taking.accepting
      then (false, taking)
      else if reached record_allowance (λ limit. leb limit taking.used_records)
      then (false, record taking { accepting = false })
      else if reached token_allowance
          (λ limit. ltb limit (wrapping_add taking.used_tokens candidate.tokens))
      then (false, record taking { accepting = false })
      else (
        true,
        record taking {
          used_tokens = wrapping_add taking.used_tokens candidate.tokens;
          used_records = taking.used_records + 1;
        },
      )

  -- The loop visits the newest record first, which is the last one of the list.
  unfoldable pub select :
      Option ℕ → Option ℕ → List (Prepared v) → List (Prepared v × Bool) × Taking
  unfolding consider
  select record_allowance token_allowance [] =
      ([], record { accepting = true; used_tokens = 0; used_records = 0 })
  select record_allowance token_allowance (candidate ∷ newer) =
      let (marked, taking) = select record_allowance token_allowance newer in
      let (kept, after) = consider record_allowance token_allowance candidate taking in
      ((candidate, kept) ∷ marked, after)

  -- What the pinned records cost, and how many there are.
  unfoldable pub pinned_tokens : List (Prepared v) → ℕ
  unfolding sum
  pinned_tokens prepared = sum (map (λ p. p.tokens) (keep_if (λ p. p.pinned) prepared))

  unfoldable pub pinned_count : List (Prepared v) → ℕ
  pinned_count prepared = length (keep_if (λ p. p.pinned) prepared)

  unfoldable pub mark : ContextBudget → List (Prepared v) → List (Prepared v × Bool)
  unfolding select allowance pinned_tokens pinned_count
  mark budget prepared =
      let (marked, taking) =
        select (allowance budget.max_records (pinned_count prepared))
          (allowance budget.max_tokens (pinned_tokens prepared)) prepared in
      marked

  unfoldable pub selected : List (Prepared v × Bool) → List (Prepared v)
  selected [] = []
  selected ((candidate, true) ∷ marked) = candidate ∷ selected marked
  selected ((candidate, false) ∷ marked) = selected marked

  unfoldable pub drop_record : Prepared v → ContextUsage → ContextUsage
  drop_record candidate usage = record usage {
    dropped_records = usage.dropped_records + 1;
    dropped_tokens = wrapping_add usage.dropped_tokens candidate.original_tokens;
  }

  unfoldable pub drop_rest : List (Prepared v × Bool) → ContextUsage → ContextUsage
  unfolding drop_record
  drop_rest [] usage = usage
  drop_rest ((candidate, true) ∷ marked) usage = drop_rest marked usage
  drop_rest ((candidate, false) ∷ marked) usage = drop_rest marked (drop_record candidate usage)

unfoldable pub start_usage : ℕ → Bool → ContextUsage
start_usage orphans over_budget = record {
  included_records = 0;
  included_tokens = 0;
  dropped_records = 0;
  dropped_tokens = 0;
  elided_parts = orphans;
  elided_tokens = 0;
  over_budget = over_budget;
}

is_empty {ℓ} : {A : Type ℓ} → List A → Bool
is_empty [] = true
is_empty (x ∷ xs) = false

module _ {v : Values} (count_text : Text → ℕ) where
  unfoldable pub include_record : Prepared v → ℕ → ContextUsage → ContextUsage
  include_record candidate tokens usage = record usage {
    included_records = usage.included_records + 1;
    included_tokens = wrapping_add usage.included_tokens tokens;
    elided_parts = usage.elided_parts + candidate.elided_parts;
    elided_tokens = wrapping_add usage.elided_tokens (candidate.original_tokens - tokens);
  }

  -- The selected records with what is left of their messages: those with nothing left are dropped.
  unfoldable pub publish :
      List (Prepared v)
      → List (Message v)
      → ContextUsage
      → List (Message v) × List Text × ContextUsage
  unfolding is_empty include_record drop_record
  publish [] messages usage = ([], [], usage)
  publish (candidate ∷ candidates) [] usage = ([], [], usage)
  publish (candidate ∷ candidates) (m ∷ messages) usage =
      let empty = is_empty m.content in
      let next =
        if empty
        then drop_record candidate usage
        else include_record candidate (count_message v count_text m) usage in
      let (kept, ids, total) = publish candidates messages next in
      if empty then (kept, ids, total) else (m ∷ kept, candidate.id ∷ ids, total)

  elide_within : Option ℕ → ContextRecord v → Message v × ℕ
  unfolding elide_message
  elide_within none r = (r.message, 0)
  elide_within (some limit) r = elide_message count_text r.id limit r.message

  unfoldable pub prepare : Option ℕ → ContextRecord v → Prepared v
  unfolding elide_within
  prepare max_part_tokens r =
      let (message, elided_parts) = elide_within max_part_tokens r in
      record {
        id = r.id;
        pinned = r.pinned;
        message = message;
        original_tokens = r.tokens;
        tokens = if elided_parts == 0 then r.tokens else count_message v count_text message;
        elided_parts = elided_parts;
      }

  unfoldable pub assemble : List (ContextRecord v) → ContextBudget → ContextWindow v
  unfolding prepare mark selected drop_orphan_results publish drop_rest reached start_usage
  assemble records budget =
      let prepared = map (prepare budget.max_part_tokens) records in
      let marked = mark budget prepared in
      let (messages, orphans) = drop_orphan_results [] (map (λ p. p.message) (selected marked)) in
      let over_budget = reached budget.max_tokens (λ limit. ltb limit (pinned_tokens prepared)) in
      let usage = start_usage orphans over_budget in
      let (kept_messages, kept_ids, total) = publish (selected marked) messages usage in
      record { messages = kept_messages; records = kept_ids; usage = drop_rest marked total }
