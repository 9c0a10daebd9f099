-- ===== src/Context/Message.antt =====
-- crates/api/src/model.rs and crates/api/src/context.rs: messages, records, budgets, and what they cost.
-- Of `serde_json::Value` the text, the string in it and three constructors are parameters. Token
-- counts are `u64`, and their sums wrap where overflow is not checked.
use ai_kernel.Prelude.{
  Text, ℕ, Bool, Option, none, some, List, [], ◌∷◌, map, wrapping_add, ltb, if◌then◌else◌, ◌+◌,
}
use ai_kernel.Clock.{Timestamp}

pub record Values : Type 1 where
  pub Value : Type 0
  pub to_string : Value → Text
  pub as_text : Value → Option Text
  pub object : List (Text × Value) → Value
  pub string : Text → Value
  pub number : ℕ → Value

pub data Role : Type 0 where
  system user assistant tool : Role

pub record ToolCall (v : Values) : Type 0 where
  pub call_id : Text
  pub name : Text
  pub arguments : v.Value

pub data ContentPart (v : Values) : Type 0 where
  text : Text → ContentPart v
  blob : Text → Text → ContentPart v
  tool_call : ToolCall v → ContentPart v
  tool_result : Text → v.Value → Bool → ContentPart v
  other : v.Value → ContentPart v

pub record Message (v : Values) : Type 0 where
  pub role : Role
  pub content : List (ContentPart v)
  pub name : Option Text

pub record ContextRecord (v : Values) : Type 0 where
  pub id : Text
  pub session : Text
  pub sequence : ℕ
  pub message : Message v
  pub pinned : Bool
  pub principal : Text
  pub created_at : Timestamp
  pub tokens : ℕ

pub record ContextBudget : Type 0 where
  pub max_tokens : Option ℕ
  pub max_records : Option ℕ
  pub max_part_tokens : Option ℕ

pub record ContextUsage : Type 0 where
  pub included_records : ℕ
  pub included_tokens : ℕ
  pub dropped_records : ℕ
  pub dropped_tokens : ℕ
  pub elided_parts : ℕ
  pub elided_tokens : ℕ
  pub over_budget : Bool

pub record ContextWindow (v : Values) : Type 0 where
  pub messages : List (Message v)
  pub records : List Text
  pub usage : ContextUsage

abbrev pub message_overhead_tokens : ℕ
message_overhead_tokens = 4

-- `sum()` of an iterator of `u64`.
unfoldable pub sum : List ℕ → ℕ
sum [] = 0
sum (n ∷ ns) = wrapping_add n (sum ns)

-- The length of a text in bytes, which UTF-8 gives it.
abbrev width : ℕ → ℕ
width c = if ltb c 128 then 1 else if ltb c 2048 then 2 else if ltb c 65536 then 3 else 4

unfoldable pub byte_length : Text → ℕ
byte_length [] = 0
byte_length (c ∷ t) = width c + byte_length t

-- The methods of `TokenCounter` that have a body, for a counter of texts.
module _ (v : Values) (count_text : Text → ℕ) where
  json_text : v.Value → Option Text → Text
  json_text x none = v.to_string x
  json_text x (some t) = t

  unfoldable pub count_json : v.Value → ℕ
  unfolding json_text
  count_json x = count_text (json_text x (v.as_text x))

  unfoldable pub count_part : ContentPart v → ℕ
  count_part (ContentPart.text t) = count_text t
  count_part (blob mime_type data_text) = wrapping_add (count_text mime_type) (count_text data_text)
  count_part (tool_call c) = wrapping_add (count_text c.name) (count_json c.arguments)
  count_part (tool_result call_id content is_error) = count_json content
  count_part (other x) = count_json x

  abbrev pub name_tokens : Option Text → ℕ
  name_tokens none = 0
  name_tokens (some t) = count_text t

  unfoldable pub count_message : Message v → ℕ
  unfolding sum count_part
  count_message m =
      wrapping_add (wrapping_add message_overhead_tokens (name_tokens m.name))
        (sum (map count_part m.content))
