-- ===== src/Summary/Excerpt/Delimiter.antt =====
-- crates/summary/src/excerpt.rs: whether the data section of a prompt can be ended from inside.
use ai_kernel.Prelude.{
  Text, codes, if_elim, decimal, decimal-all, is_blank, ℕ, ◌≡◌, refl, ◌∙◌, arith, ◌==◌, Bool,
  Bool-cases, inl, inr, true, false, ◌||◌, Option, none, some, List, [], ◌∷◌, ◌++◌, All, not,
  length,
}
use ai_kernel.Context.Message.{
  Values, Role, ToolCall, ContentPart, text, blob, tool_call, tool_result, other, ContextRecord,
}
use ai_kernel.Context.Elision.{elision_marker}
use ai_kernel.Summary.Excerpt.{
  transcript_open, transcript_close, role_label, truncate, neutralise, starts_ignoring_case,
  render_part, render_parts, render_record, join_lines, lines_text, add_line,
}
use ai_kernel.Summary.Excerpt.Neutral.{
  has_tag-separated, has_tag, is_tag, no_bracket, has_tag-append_plain, has_tag-neutralise,
}

abbrev pub HasNoTag : Option Text → Type 0
HasNoTag none = Unit
HasNoTag (some t) = has_tag t ≡ false

neutralise-has_no_tag : (t : Text) → has_tag (neutralise t) ≡ false
unfolding neutralise
neutralise-has_no_tag t = has_tag-neutralise 0 t

pub plain_then : (a b : Text) → no_bracket a ≡ true → has_tag b ≡ false → has_tag (a ++ b) ≡ false
plain_then a b h k = has_tag-append_plain a b h ∙ k

role_label-plain : (role : Role) → no_bracket (role_label role) ≡ true
unfolding role_label
role_label-plain Role.system = refl
role_label-plain Role.user = refl
role_label-plain Role.assistant = refl
role_label-plain Role.tool = refl

labelled :
    (role : Role) (a b : Text)
    → no_bracket a ≡ true
    → has_tag b ≡ false
    → has_tag (role_label role ++ (a ++ b)) ≡ false
labelled role a b h k =
    plain_then (role_label role) (a ++ b) (role_label-plain role) (plain_then a b h k)

decimal-plain : (n : ℕ) → no_bracket (decimal n) ≡ true
decimal-plain n = decimal-all (λ c. not (c == 60)) (λ d h. ground arith) n

join_lines-has_no_tag :
    (lines : List Text)
    → All (λ line. has_tag line ≡ false) lines
    → has_tag (join_lines lines) ≡ false
unfolding join_lines
join_lines-has_no_tag [] h = refl
join_lines-has_no_tag (line ∷ []) (h, hs) = h
join_lines-has_no_tag (line ∷ more ∷ lines) (h, hs) =
    let rest = join_lines-has_no_tag (more ∷ lines) hs in
    has_tag-separated 10 line (join_lines (more ∷ lines)) refl refl h
      (plain_then (codes "\n") (join_lines (more ∷ lines)) refl rest)

lines_text-HasNoTag :
    (lines : List Text) → All (λ line. has_tag line ≡ false) lines → HasNoTag (lines_text lines)
unfolding lines_text
lines_text-HasNoTag [] h = tt
lines_text-HasNoTag (line ∷ lines) h = join_lines-has_no_tag (line ∷ lines) h

add_line-All :
    (o : Option Text) (lines : List Text)
    → HasNoTag o
    → All (λ line. has_tag line ≡ false) lines
    → All (λ line. has_tag line ≡ false) (add_line o lines)
unfolding add_line
add_line-All none lines h hs = hs
add_line-All (some line) lines h hs = (h, hs)

starts-append :
    (p a b : Text) → starts_ignoring_case p a ≡ true → starts_ignoring_case p (a ++ b) ≡ true
unfolding starts_ignoring_case
starts-append [] a b h = refl
starts-append (c ∷ p) [] b h = cc
starts-append (c ∷ p) (x ∷ a) b h = ground (arith, starts-append p a b (ground arith))

or_true : (a : Bool) → (a || true) ≡ true
or_true true = refl
or_true false = refl

only_first : (a b : Bool) → b ≡ false → (a || b) ≡ true → a ≡ true
only_first true b h k = refl
only_first false b h k = cc

is_tag-append : (a b : Text) → is_tag a ≡ true → is_tag (a ++ b) ≡ true
is_tag-append a b h = elim (Bool-cases (starts_ignoring_case transcript_close a)) [
  | inl e ↦ rw (starts-append transcript_close a b e) refl
  | inr e ↦
      let opens : starts_ignoring_case transcript_open a ≡ true = rw e at h in
      rw (starts-append transcript_open a b opens)
        (or_true (starts_ignoring_case transcript_close (a ++ b)))
]

tag_before : (a b : Text) → has_tag a ≡ true → has_tag (a ++ b) ≡ true
tag_before [] b h = cc
tag_before (x ∷ a) b h = elim (Bool-cases (has_tag a)) [
  | inl e ↦ rw (tag_before a b e) (or_true (is_tag (x ∷ (a ++ b))))
  | inr e ↦
      let here : is_tag (x ∷ a) ≡ true = only_first (is_tag (x ∷ a)) (has_tag a) e h in
      rw (is_tag-append (x ∷ a) b here) refl
]

tag_after : (a b : Text) → has_tag b ≡ true → has_tag (a ++ b) ≡ true
tag_after [] b h = h
tag_after (x ∷ a) b h = rw (tag_after a b h) (or_true (is_tag (x ∷ (a ++ b))))

-- What a part brings into the transcript as it is: a media type and a tool's name.
module _ {v : Values} where
  abbrev pub IsPlain : ContentPart v → Type 0
  IsPlain (text t) = Unit
  IsPlain (blob mime_type data_text) = no_bracket mime_type ≡ true
  IsPlain (tool_call c) = no_bracket c.name ≡ true
  IsPlain (tool_result call_id content is_error) = Unit
  IsPlain (other x) = Unit

  render_part-HasNoTag :
      (role : Role) (part : ContentPart v) (max_part_chars : ℕ)
      → IsPlain part
      → HasNoTag (render_part role part max_part_chars)
  unfolding render_part
  render_part-HasNoTag role (text t) max_part_chars h =
      if_elim HasNoTag (is_blank t) (λ e. tt)
        (λ e.
          labelled role (codes ": ") (neutralise (truncate t max_part_chars)) refl
            (neutralise-has_no_tag (truncate t max_part_chars)))
  render_part-HasNoTag role (blob mime_type data_text) max_part_chars h =
      labelled role (codes ": [aik.elided ") _ refl (
        plain_then mime_type _ h (
          plain_then (codes " attachment, ") (decimal (length data_text) ++ codes " characters]")
            refl
            (plain_then (decimal (length data_text)) (codes " characters]")
              (decimal-plain (length data_text)) refl)))
  render_part-HasNoTag role (tool_call c) max_part_chars h =
      labelled role (codes " calls ") _ refl (
        plain_then c.name _ h (
          plain_then (codes "(")
            (neutralise (truncate (v.to_string c.arguments) max_part_chars) ++ codes ")") refl
            (has_tag-separated 41 (neutralise (truncate (v.to_string c.arguments) max_part_chars))
              [] refl refl
              (neutralise-has_no_tag (truncate (v.to_string c.arguments) max_part_chars)) refl)))
  render_part-HasNoTag role (tool_result call_id content true) max_part_chars h =
      plain_then (codes "tool result (failed): ")
        (neutralise (truncate (v.to_string content) max_part_chars)) refl
        (neutralise-has_no_tag (truncate (v.to_string content) max_part_chars))
  render_part-HasNoTag role (tool_result call_id content false) max_part_chars h =
      plain_then (codes "tool result: ")
        (neutralise (truncate (v.to_string content) max_part_chars)) refl
        (neutralise-has_no_tag (truncate (v.to_string content) max_part_chars))
  render_part-HasNoTag role (other x) max_part_chars h =
      labelled role (codes ": ") (neutralise (truncate (v.to_string x) max_part_chars)) refl
        (neutralise-has_no_tag (truncate (v.to_string x) max_part_chars))

  render_parts-All :
      (role : Role) (parts : List (ContentPart v)) (max_part_chars : ℕ)
      → All IsPlain parts
      → All (λ line. has_tag line ≡ false) (render_parts role parts max_part_chars)
  unfolding render_parts
  render_parts-All role [] max_part_chars h = tt
  render_parts-All role (part ∷ parts) max_part_chars (h, hs) =
      add_line-All (render_part role part max_part_chars) (render_parts role parts max_part_chars)
        (render_part-HasNoTag role part max_part_chars h)
        (render_parts-All role parts max_part_chars hs)

  -- A record of which no media type and no tool name has the bracket of a tag is rendered without a
  -- tag, whatever else its parts carry.
  pub render_record-HasNoTag :
      (r : ContextRecord v) (max_part_chars : ℕ)
      → All IsPlain r.message.content
      → HasNoTag (render_record r max_part_chars)
  unfolding render_record
  render_record-HasNoTag r max_part_chars h =
      lines_text-HasNoTag (render_parts r.message.role r.message.content max_part_chars)
        (render_parts-All r.message.role r.message.content max_part_chars h)

  -- A tag in the media type of a blob, and in the name of a tool that is called, stands in the rendered
  -- part as it is.
  pub render_part-tag :
      (role : Role) (mime_type data_text : Text) (c : ToolCall v) (max_part_chars : ℕ)
      → has_tag mime_type ≡ true
      → has_tag c.name ≡ true
      → ((line : Text) × (render_part {v = v} role (blob mime_type data_text) max_part_chars
            ≡ some line)
          × (has_tag line ≡ true))
        × ((line : Text) × (render_part role (tool_call c) max_part_chars ≡ some line)
            × (has_tag line ≡ true))
  unfolding render_part
  render_part-tag role mime_type data_text c max_part_chars h k =
      let size = codes " attachment, " ++ (decimal (length data_text) ++ codes " characters]") in
      let arguments =
        codes "("
        ++ (neutralise (truncate (v.to_string c.arguments) max_part_chars) ++ codes ")") in
      (
        (
          _,
          refl,
          tag_after (role_label role)
              (codes ": [" ++ (elision_marker ++ (codes " " ++ (mime_type ++ size))))
              (tag_after (codes ": [") (elision_marker ++ (codes " " ++ (mime_type ++ size))) (
                tag_after elision_marker (codes " " ++ (mime_type ++ size))
                  (tag_after (codes " ") (mime_type ++ size) (tag_before mime_type size h)))),
        ),
        (
          _,
          refl,
          tag_after (role_label role) (codes " calls " ++ (c.name ++ arguments))
              (tag_after (codes " calls ") (c.name ++ arguments) (tag_before c.name arguments k)),
        ),
      )
