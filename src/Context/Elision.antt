-- ===== src/Context/Elision.antt =====
-- crates/context/src/window.rs: what a part of a message is cut down to, and what stands in for it.
pub mod Truncate
use ai_kernel.Prelude.{
  Text, text_eq, codes, decimal, take, length, ℕ, zero, suc, ◌+◌, ◌-◌, ◌/◌, Bool, true, false, not,
  ◌&&◌, ◌||◌, Option, none, some, List, [], ◌∷◌, ◌++◌, map, keep_if, any, wrapping_add, leb, ltb,
  ◌==◌, if◌then◌else◌,
}
use ai_kernel.Context.Message.{
  Values, ToolCall, ContentPart, text, blob, tool_call, tool_result, other, Message, ContextRecord,
  ContextBudget, ContextUsage, ContextWindow, sum, byte_length, count_part, count_message,
}

abbrev pub elision_marker : Text
elision_marker = codes "aik.elided"

unfoldable pub text_note : Text → ℕ → ℕ → Text
text_note record_id removed total =
    codes " ["
    ++ (elision_marker
        ++ (codes ": "
            ++ (decimal removed
                ++ (codes " of "
                    ++ (decimal total
                        ++ (codes " bytes removed; context record "
                            ++ (record_id ++ codes "]")))))))

-- The binary search of `truncate_to_tokens` over the lengths of prefixes, on fuel.
unfoldable pub search_prefix : (Text → ℕ) → Text → ℕ → ℕ → ℕ → ℕ → ℕ
search_prefix count t limit zero low high = low
search_prefix count t limit (suc fuel) low high =
    let middle = low + (high - low) / 2 in
    let lower = search_prefix count t limit fuel low middle in
    let upper = search_prefix count t limit fuel middle high in
    if ltb (low + 1) high then if leb (count (take middle t)) limit then upper else lower else low

-- `truncate_to_tokens`: the interval that is searched has the text's length, and shrinks.
unfoldable pub truncate_to_tokens : (Text → ℕ) → Text → ℕ → Text
unfolding search_prefix
truncate_to_tokens count t limit =
    if leb (count t) limit
    then t
    else if length t == 0
    then t
    else take (search_prefix count t limit (length t) 0 (length t)) t

elided_text : Text → Text → Text → Text
elided_text id t kept = kept ++ text_note id (byte_length t - byte_length kept) (byte_length t)

elided_value : (v : Values) → Text → ℕ → v.Value
elided_value v id bytes = v.object (
    (
      elision_marker,
      v.object ((codes "record", v.string id) ∷ (codes "bytes", v.number bytes) ∷ []),
    )
    ∷ [])

module _ {v : Values} (count_text : Text → ℕ) where
  replacement : Text → ℕ → ContentPart v → Option (ContentPart v)
  unfolding elided_text elided_value
  replacement id limit (text t) =
      some (text (elided_text id t (truncate_to_tokens count_text t limit)))
  replacement id limit (blob mime_type data_text) = some (
      text (
        codes "["
        ++ (elision_marker
            ++ (codes ": "
                ++ (mime_type
                    ++ (codes " payload of "
                        ++ (decimal (byte_length data_text)
                            ++ (codes " bytes removed; context record " ++ (id ++ codes "]")))))))))
  replacement id limit (tool_call c) = some (
      tool_call
        (record c { arguments = elided_value v id (byte_length (v.to_string c.arguments)) }))
  replacement id limit (tool_result call_id content is_error) =
      some (tool_result call_id (elided_value v id (byte_length (v.to_string content))) is_error)
  replacement id limit (other x) = none

  -- Eliding never costs more.
  cheaper : ContentPart v → Option (ContentPart v) → Option (ContentPart v)
  cheaper part none = none
  cheaper part (some r) =
      if ltb (count_part v count_text r) (count_part v count_text part) then some r else none

  unfoldable pub elide_part : Text → ℕ → ContentPart v → Option (ContentPart v)
  unfolding cheaper replacement
  elide_part id limit part = cheaper part (replacement id limit part)

  elided_or : ContentPart v → Option (ContentPart v) → ContentPart v × ℕ
  elided_or part none = (part, 0)
  elided_or part (some r) = (r, 1)

  unfoldable pub elide_parts : Text → ℕ → List (ContentPart v) → List (ContentPart v) × ℕ
  unfolding elided_or
  elide_parts id limit [] = ([], 0)
  elide_parts id limit (part ∷ parts) =
      let (rest, n) = elide_parts id limit parts in
      let (kept, m) =
        if leb (count_part v count_text part) limit
        then (part, 0)
        else elided_or part (elide_part id limit part) in
      (kept ∷ rest, m + n)

  unfoldable pub elide_message : Text → ℕ → Message v → Message v × ℕ
  unfolding elide_parts
  elide_message id limit m =
      let (content, n) = elide_parts id limit m.content in (record m { content = content }, n)
