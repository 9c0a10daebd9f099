-- ===== src/Quota/Ledger.antt =====
-- crates/quota/src/ledger.rs: what has been spent. The `BTreeMap` of rows is the list of its entries.
pub mod Rows
use ai_kernel.Prelude.{
  Text, text_eq, codes, ℕ, Bool, true, false, not, ◌&&◌, List, [], ◌∷◌, if◌then◌else◌, ltb, ◌==◌,
  saturating_add as add64, keep_if,
}

-- crates/api/src/quota.rs.
pub data QuotaDimension : Type 0 where
  turns input_tokens output_tokens total_tokens cost_micros : QuotaDimension

-- crates/quota/src/period.rs.
pub data QuotaPeriod : Type 0 where
  hour day week month total : QuotaPeriod

unfoldable pub period_prefix : QuotaPeriod → Text
period_prefix QuotaPeriod.hour = codes "hour:"
period_prefix QuotaPeriod.day = codes "day:"
period_prefix QuotaPeriod.week = codes "week:"
period_prefix QuotaPeriod.month = codes "month:"
period_prefix QuotaPeriod.total = codes "total"

pub record Counters : Type 0 where
  pub turns : ℕ
  pub input_tokens : ℕ
  pub output_tokens : ℕ
  pub cost_micros : ℕ

abbrev pub nothing_spent : Counters
nothing_spent = record { turns = 0; input_tokens = 0; output_tokens = 0; cost_micros = 0 }

unfoldable pub saturating_add : Counters → Counters → Counters
saturating_add a b = record {
  turns = add64 a.turns b.turns;
  input_tokens = add64 a.input_tokens b.input_tokens;
  output_tokens = add64 a.output_tokens b.output_tokens;
  cost_micros = add64 a.cost_micros b.cost_micros;
}

unfoldable pub get : Counters → QuotaDimension → ℕ
get c QuotaDimension.turns = c.turns
get c QuotaDimension.input_tokens = c.input_tokens
get c QuotaDimension.output_tokens = c.output_tokens
get c QuotaDimension.total_tokens = add64 c.input_tokens c.output_tokens
get c QuotaDimension.cost_micros = c.cost_micros

-- `<` on strings.
unfoldable pub text_lt : Text → Text → Bool
text_lt s [] = false
text_lt [] (y ∷ t) = true
text_lt (x ∷ s) (y ∷ t) = let rest = text_lt s t in if x == y then rest else ltb x y

-- An entry of the map: the subject, the window and the counters.
pub record Row : Type 0 where
  pub subject : Text
  pub window : Text
  pub counters : Counters

unfoldable pub is_row : Text → Text → Row → Bool
is_row subject window r = text_eq r.subject subject && text_eq r.window window

-- `get(&key).copied().unwrap_or_default()`.
unfoldable pub read : List Row → Text → Text → Counters
unfolding is_row
read [] subject window = nothing_spent
read (r ∷ rows) subject window =
    if is_row subject window r then r.counters else read rows subject window

-- `rows.insert(key, counters)`.
unfoldable pub insert : List Row → Text → Text → Counters → List Row
unfolding is_row
insert [] subject window c = record { subject = subject; window = window; counters = c } ∷ []
insert (r ∷ rows) subject window c =
    if is_row subject window r
    then record r { counters = c } ∷ rows
    else r ∷ insert rows subject window c

-- Whether a row is of a window of the period that is over: in the range from the period's prefix to the
-- current window.
unfoldable pub is_closed : Text → QuotaPeriod → Text → Row → Bool
unfolding period_prefix text_lt
is_closed subject period window r =
    text_eq r.subject subject
    && not (text_lt r.window (period_prefix period))
    && text_lt r.window window

unfoldable pub add : List Row → Text → QuotaPeriod → Text → Counters → List Row
unfolding read insert is_closed
add rows subject period window delta =
    let updated = saturating_add (read rows subject window) delta in
    keep_if (λ r. not (is_closed subject period window r)) (insert rows subject window updated)
