-- ===== src/Summary/Excerpt.antt =====
-- crates/summary/src/excerpt.rs: the transcript that a summarising model is shown.
pub mod Neutral
pub mod Delimiter
use ai_kernel.Prelude.{
  Text, codes, decimal, is_blank, take, drop, length, ℕ, zero, suc, ◌+◌, ◌-◌, ◌==◌, leb, Bool, true,
  false, ◌&&◌, ◌||◌, if◌then◌else◌, Option, none, some, List, [], ◌∷◌, ◌++◌,
}
use ai_kernel.Context.Message.{
  Values, Role, ContentPart, text, blob, tool_call, tool_result, other, Message, ContextRecord,
}
use ai_kernel.Context.Elision.{elision_marker}

abbrev pub transcript_open : Text
transcript_open = codes "<transcript>"

abbrev pub transcript_close : Text
transcript_close = codes "</transcript>"

abbrev pub neutralised_tag : Text
neutralised_tag = codes "(transcript-tag)"

unfoldable pub role_label : Role → Text
role_label Role.system = codes "system"
role_label Role.user = codes "user"
role_label Role.assistant = codes "assistant"
role_label Role.tool = codes "tool"

unfoldable pub note_dropped : Text → ℕ → Text
note_dropped kept zero = kept
note_dropped kept (suc n) =
    kept
    ++ (codes " […" ++ (elision_marker ++ (codes " " ++ (decimal (suc n) ++ codes " characters]"))))

unfoldable pub truncate : Text → ℕ → Text
unfolding note_dropped
truncate t limit = note_dropped (take limit t) (length (drop limit t))

-- `eq_ignore_ascii_case`, and whether a text starts with a tag in this sense.
abbrev pub to_lower : ℕ → ℕ
to_lower c = if leb 65 c && leb c 90 then c + 32 else c

unfoldable pub starts_ignoring_case : Text → Text → Bool
starts_ignoring_case [] t = true
starts_ignoring_case (p ∷ ps) [] = false
starts_ignoring_case (p ∷ ps) (x ∷ xs) = (to_lower p == to_lower x) && starts_ignoring_case ps xs

-- The length of the tag that a text starts with.
unfoldable pub tag_at : Text → Option ℕ
unfolding starts_ignoring_case
tag_at t =
    if starts_ignoring_case transcript_close t
    then some (length transcript_close)
    else if starts_ignoring_case transcript_open t
    then some (length transcript_open)
    else none

-- One round of the loop of `neutralise`, `next` being the rounds after it.
emit : Option ℕ → ℕ → (ℕ → Text) → Text
emit none x next = x ∷ next 0
emit (some n) x next = neutralised_tag ++ next (n - 1)

-- The loop of `neutralise`: so many characters are passed over before the cursor.
unfoldable pub neutralise_from : ℕ → Text → Text
unfolding tag_at emit
neutralise_from n [] = []
neutralise_from (suc n) (x ∷ t) = neutralise_from n t
neutralise_from zero (x ∷ t) = emit (tag_at (x ∷ t)) x (λ k. neutralise_from k t)

unfoldable pub neutralise : Text → Text
unfolding neutralise_from
neutralise t = neutralise_from 0 t

-- The parts of a record, rendered line by line.
unfoldable pub join_lines : List Text → Text
join_lines [] = []
join_lines (line ∷ []) = line
join_lines (line ∷ more ∷ lines) = line ++ (codes "\n" ++ join_lines (more ∷ lines))

unfoldable pub lines_text : List Text → Option Text
unfolding join_lines
lines_text [] = none
lines_text (line ∷ lines) = some (join_lines (line ∷ lines))

add_line : Option Text → List Text → List Text
add_line none lines = lines
add_line (some line) lines = line ∷ lines

module _ {v : Values} where
  unfoldable pub render_part : Role → ContentPart v → ℕ → Option Text
  unfolding neutralise truncate role_label
  render_part role (text t) max_part_chars =
      if is_blank t
      then none
      else some (role_label role ++ (codes ": " ++ neutralise (truncate t max_part_chars)))
  render_part role (blob mime_type data_text) max_part_chars = some (
      role_label role
      ++ (codes ": ["
          ++ (elision_marker
              ++ (codes " "
                  ++ (mime_type
                      ++ (codes " attachment, "
                          ++ (decimal (length data_text) ++ codes " characters]")))))))
  render_part role (tool_call c) max_part_chars = some (
      role_label role
      ++ (codes " calls "
          ++ (c.name
              ++ (codes "("
                  ++ (neutralise (truncate (v.to_string c.arguments) max_part_chars)
                      ++ codes ")")))))
  render_part role (tool_result call_id content is_error) max_part_chars = some (
      codes "tool result"
      ++ ((if is_error then codes " (failed)" else [])
          ++ (codes ": " ++ neutralise (truncate (v.to_string content) max_part_chars))))
  render_part role (other x) max_part_chars =
      some (role_label role ++ (codes ": " ++ neutralise (truncate (v.to_string x) max_part_chars)))

  unfoldable pub render_parts : Role → List (ContentPart v) → ℕ → List Text
  unfolding add_line render_part
  render_parts role [] max_part_chars = []
  render_parts role (part ∷ parts) max_part_chars =
      add_line (render_part role part max_part_chars) (render_parts role parts max_part_chars)

  unfoldable pub render_record : ContextRecord v → ℕ → Option Text
  unfolding render_parts lines_text
  render_record r max_part_chars =
      lines_text (render_parts r.message.role r.message.content max_part_chars)

unfoldable pub wrap : Text → Text
wrap body = transcript_open ++ (codes "\n" ++ (body ++ (codes "\n" ++ transcript_close)))
