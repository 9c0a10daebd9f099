-- ===== src/Context/Window/Account.antt =====
-- crates/context/src/window.rs: the usage that `assemble` reports.
use ai_kernel.Prelude.{
  ltb, length-map, Option, Bool-cases, inl, inr, Text, ℕ, ◌+◌, ◌≡◌, ◌∙◌, refl, ap, suc, true, false,
  Bool, List, [], ◌∷◌, map, length, arith,
}
use ai_kernel.Context.Message.{
  Values, Message, ContextBudget, ContextRecord, ContextUsage, count_message,
}
use ai_kernel.Context.Window.{
  Prepared, select, drop_orphan_results, drop_orphan_parts, publish, assemble, is_empty, mark,
  prepare, selected, include_record, drop_record, drop_rest, start_usage, reached, pinned_tokens,
}

abbrev counted : ContextUsage → ℕ
counted u = u.included_records + u.dropped_records

module _ {v : Values} where
  -- The usage after `n` more records, where `before` was the usage and the window grew to what is shown.
  abbrev IsCounted : ContextUsage → ℕ → List (Message v) × List Text × ContextUsage → Type 0
  IsCounted before n (messages, ids, usage) =
      (counted usage ≡ counted before + n)
      × (usage.included_records ≡ before.included_records + length messages)
      × (length ids ≡ length messages)

  pub length-drop_orphan_results :
      (calls : List Text) (ms : List (Message v))
      → length (drop_orphan_results calls ms).0 ≡ length ms
  unfolding drop_orphan_results
  length-drop_orphan_results calls [] = refl
  length-drop_orphan_results calls (m ∷ ms) =
      ap suc (length-drop_orphan_results (drop_orphan_parts calls m.content).1 ms)

  publish-IsCounted :
      (count_text : Text → ℕ) (ps : List (Prepared v)) (ms : List (Message v))
      (usage : ContextUsage)
      → length ms ≡ length ps
      → IsCounted usage (length ps) (publish count_text ps ms usage)
  unfolding publish is_empty include_record drop_record
  publish-IsCounted count_text [] ms usage h = (omega arith, omega arith, refl)
  publish-IsCounted count_text (p ∷ ps) [] usage h = ground arith
  publish-IsCounted count_text (p ∷ ps) (m ∷ ms) usage h = elim (Bool-cases (is_empty m.content)) [
    | inl e ↦
        let (a, b, c) = publish-IsCounted count_text ps ms (drop_record p usage) (omega arith) in
        rw e (omega arith, omega arith, c)
    | inr e ↦
        let (a, b, c) =
          publish-IsCounted count_text ps ms
            (include_record count_text p (count_message v count_text m) usage) (omega arith) in
        rw e (omega arith, omega arith, ap suc c)
  ]

  drop_rest-counted :
      (marked : List (Prepared v × Bool)) (usage : ContextUsage)
      → (counted (drop_rest marked usage) + length (selected marked)
          ≡ counted usage + length marked)
        × ((drop_rest marked usage).included_records ≡ usage.included_records)
  unfolding drop_rest selected drop_record
  drop_rest-counted [] usage = (refl, refl)
  drop_rest-counted ((p, true) ∷ marked) usage =
      let (a, b) = drop_rest-counted marked usage in (omega arith, b)
  drop_rest-counted ((p, false) ∷ marked) usage =
      let (a, b) = drop_rest-counted marked (drop_record p usage) in (omega arith, b)

  length-select :
      (ra ta : Option ℕ) (ps : List (Prepared v)) → length (select ra ta ps).0 ≡ length ps
  unfolding select
  length-select ra ta [] = refl
  length-select ra ta (p ∷ ps) = ap suc (length-select ra ta ps)

  length-mark :
      (budget : ContextBudget) (ps : List (Prepared v)) → length (mark budget ps) ≡ length ps
  unfolding mark
  length-mark budget ps = length-select _ _ ps

  drop_rest-IsCounted :
      (marked : List (Prepared v × Bool)) (n : ℕ) (before : ContextUsage)
      (shown : List (Message v) × List Text × ContextUsage)
      → length marked ≡ n
      → counted before ≡ 0
      → before.included_records ≡ 0
      → IsCounted before (length (selected marked)) shown
      → (counted (drop_rest marked shown.2) ≡ n)
        × ((drop_rest marked shown.2).included_records ≡ length shown.0)
        × (length shown.1 ≡ length shown.0)
  drop_rest-IsCounted marked n before shown size none_counted none_included (total, included, ids) =
      let (rest, same) = drop_rest-counted marked shown.2 in (omega arith, omega arith, ids)

  -- Every record is counted once in the usage of a window, as included or as dropped, and the included
  -- ones are as many as the messages and as the identifiers in the window.
  pub assemble-counts :
      (count_text : Text → ℕ) (records : List (ContextRecord v)) (budget : ContextBudget)
      → let window = assemble count_text records budget in
        (window.usage.included_records + window.usage.dropped_records ≡ length records)
        × (window.usage.included_records ≡ length window.messages)
        × (length window.records ≡ length window.messages)
  unfolding assemble
  assemble-counts count_text records budget =
      let prepared = map (prepare count_text budget.max_part_tokens) records in
      let marked = mark budget prepared in
      let messages = map (λ p. p.message) (selected marked) in
      let size = length-drop_orphan_results [] messages ∙ length-map _ (selected marked) in
      let usage =
        start_usage (drop_orphan_results [] messages).1
          (reached budget.max_tokens (λ limit. ltb limit (pinned_tokens prepared))) in
      drop_rest-IsCounted marked (length records) usage _
        (length-mark budget prepared
          ∙ length-map (prepare count_text budget.max_part_tokens) records)
        refl refl
        (publish-IsCounted count_text (selected marked) (drop_orphan_results [] messages).0 usage
          size)
