-- ===== src/Context/Tests.antt =====
-- A session with a pinned system message, a call, its result and a question.
use ai_kernel.Prelude.{
  Text, text_eq, codes, decimal, take, length, length-take, ℕ, ◌≤◌, ◌≡◌, refl, true, false, Bool,
  none, some, List, [], ◌∷◌, ◌++◌, map, Memᴰ, arith,
}
use ai_kernel.Context.Message.{
  Values, Role, system, user, assistant, tool, ToolCall, ContentPart, text, tool_call, tool_result,
  ContextRecord, ContextBudget, count_part, count_json,
}
use ai_kernel.Context.Elision.{truncate_to_tokens}
use ai_kernel.Context.Elision.Truncate.{IsLongest, truncate_to_tokens-IsLongest}
use ai_kernel.Context.Window.{Prepared, prepare, mark, selected, assemble}
use ai_kernel.Context.Window.Newest.{IsNewestFirst, mark-IsNewestFirst}
use ai_kernel.Context.Window.Spending.{cost, IsAfforded, mark-IsAfforded}
use ai_kernel.Context.Window.Orphans.{parts_of, assemble-answers}

abbrev texts : Values
texts = record {
  Value = Text;
  to_string = λ t. t;
  as_text = λ t. some t;
  object = λ fields. codes "{}";
  string = λ t. t;
  number = decimal;
}

-- A character is a token.
abbrev count : Text → ℕ
count t = length t

count-take : (i j : ℕ) → i ≤ j → count (take i (codes "hello")) ≤ count (take j (codes "hello"))
count-take i j h = omega (arith, length-take i (codes "hello"), length-take j (codes "hello"))

truncate_to_tokens-IsLongest_example :
    IsLongest count (codes "hello") 3 2 (truncate_to_tokens count (codes "hello") 3)
truncate_to_tokens-IsLongest_example =
    truncate_to_tokens-IsLongest count (codes "hello") 3 2 count-take (omega arith) (omega arith)

abbrev entry : Text → Bool → Role → ContentPart texts → ℕ → ContextRecord texts
entry id pinned role part tokens = record {
  id = id;
  session = codes "s";
  sequence = 0;
  message = record { role = role; content = part ∷ []; name = none };
  pinned = pinned;
  principal = codes "alice";
  created_at = 0;
  tokens = tokens;
}

abbrev call : ToolCall texts
call = record { call_id = codes "c1"; name = codes "fs.read"; arguments = codes "a" }

abbrev session : List (ContextRecord texts)
session =
    entry (codes "0") true system (text (codes "rules")) 9
    ∷ entry (codes "1") false user (text (codes "old question")) 16
    ∷ entry (codes "2") false assistant (tool_call call) 12
    ∷ entry (codes "3") false tool (tool_result (codes "c1") (codes "data") false) 8
    ∷ []

abbrev budget : ContextBudget
budget = record { max_tokens = some 30; max_records = some 3; max_part_tokens = some 100 }

abbrev prepared : List (Prepared texts)
prepared = map (prepare count (some 100)) session

mark-IsNewestFirst_example : IsNewestFirst (mark budget prepared)
mark-IsNewestFirst_example = mark-IsNewestFirst budget prepared

prepared_costs : cost prepared ≡ 45
unfolding prepare count_part count_json
prepared_costs = refl

mark-IsAfforded_example :
    IsAfforded budget.max_records length prepared (selected (mark budget prepared))
    × IsAfforded budget.max_tokens cost prepared (selected (mark budget prepared))
mark-IsAfforded_example = mark-IsAfforded budget prepared (omega (arith, prepared_costs))

-- The pinned message, the call and the result fit; the old question does not.
abbrev shown_before : List (ContentPart texts)
shown_before = text (codes "rules") ∷ tool_call call ∷ []

session_window :
    parts_of (assemble count session budget).messages
    ≡ shown_before ++ tool_result (codes "c1") (codes "data") false ∷ []
unfolding assemble count_part count_json text_eq
session_window = refl

assemble-answers_example :
    (c : ToolCall texts) × (c.call_id ≡ codes "c1") × Memᴰ (tool_call c) shown_before
assemble-answers_example =
    assemble-answers count session budget shown_before [] (codes "c1") (codes "data") false
      session_window
