-- ===== src/Quota/Document.antt =====
-- crates/quota/src/document.rs: the ceilings and the prices of a deployment.
use ai_kernel.Prelude.{
  Text, codes, text_eq, starts_with, is_blank, decimal, ℕ, suc, ◌+◌, ◌*◌, ◌/◌, min, Bool, true,
  false, Option, none, some, List, [], ◌∷◌, ◌++◌, length, leb, ◌==◌, if◌then◌else◌, Result, ok,
  ◌>>◌, refuse_if, map_err, u64_max,
}
use ai_kernel.Errors.{Error}
use ai_kernel.Errors
use ai_kernel.Policy.Pattern.{Pattern, any, prefix, exact, parse, is_vacuous}
use ai_kernel.Quota.Ledger.{QuotaDimension, QuotaPeriod}

-- crates/api/src/quota.rs.
pub record UsageCharge : Type 0 where
  pub model : Text
  pub turns : ℕ
  pub input_tokens : ℕ
  pub output_tokens : ℕ
  pub estimated : Bool

pub record ModelPrice : Type 0 where
  pub input_micros_per_million : ℕ
  pub output_micros_per_million : ℕ

abbrev u128_max : ℕ
u128_max = 340282366920938463463374607431768211455

unfoldable pub cost_micros : ModelPrice → UsageCharge → ℕ
cost_micros p charge =
    let cost =
      min
        (charge.input_tokens * p.input_micros_per_million
          + charge.output_tokens * p.output_micros_per_million)
        u128_max in
    min (cost / 1000000) u64_max

pub record QuotaRule : Type 0 where
  pub subject : Pattern
  pub period : QuotaPeriod
  pub max_turns : Option ℕ
  pub max_input_tokens : Option ℕ
  pub max_output_tokens : Option ℕ
  pub max_total_tokens : Option ℕ
  pub max_cost_micros : Option ℕ
  pub description : Option Text

-- The ceiling of a dimension in front of others, where there is one.
abbrev pub ceiling :
    QuotaDimension → Option ℕ → List (QuotaDimension × ℕ) → List (QuotaDimension × ℕ)
ceiling d none more = more
ceiling d (some limit) more = (d, limit) ∷ more

unfoldable pub ceilings : QuotaRule → List (QuotaDimension × ℕ)
ceilings r = ceiling QuotaDimension.turns r.max_turns (
    ceiling QuotaDimension.input_tokens r.max_input_tokens (
      ceiling QuotaDimension.output_tokens r.max_output_tokens (
        ceiling QuotaDimension.total_tokens r.max_total_tokens
          (ceiling QuotaDimension.cost_micros r.max_cost_micros []))))

unfoldable pub dimension_text : QuotaDimension → Text
dimension_text QuotaDimension.turns = codes "model turns"
dimension_text QuotaDimension.input_tokens = codes "input tokens"
dimension_text QuotaDimension.output_tokens = codes "output tokens"
dimension_text QuotaDimension.total_tokens = codes "tokens"
dimension_text QuotaDimension.cost_micros = codes "cost (micros)"

unfoldable pub key_for : QuotaDimension → Text
key_for QuotaDimension.turns = codes "max_turns"
key_for QuotaDimension.input_tokens = codes "max_input_tokens"
key_for QuotaDimension.output_tokens = codes "max_output_tokens"
key_for QuotaDimension.total_tokens = codes "max_total_tokens"
key_for QuotaDimension.cost_micros = codes "max_cost_micros"

abbrev pub is_empty : {A : Type 0} → List A → Bool
is_empty [] = true
is_empty (x ∷ xs) = false

abbrev blank_description : Option Text → Bool
blank_description none = false
blank_description (some t) = is_blank t

no_zero : List (QuotaDimension × ℕ) → Result Error (Unit {0})
no_zero [] = ok tt
no_zero ((d, limit) ∷ more) = do
  refuse_if (limit == 0) (
      Errors.config (key_for d) (
        codes "a ceiling of zero "
        ++ (dimension_text d
            ++ codes
                " would refuse every request from this subject; deny the action in the policy document instead")))
  no_zero more

-- `QuotaRule::validate`.
unfoldable pub validate : QuotaRule → Result Error (Unit {0})
unfolding no_zero ceilings
validate r = do
  refuse_if (is_vacuous r.subject) (
      Errors.config (codes "subject")
        (codes "an empty subject matches nothing; use `*` for every principal"))
  refuse_if (is_empty (ceilings r)) (
      Errors.config [] (
        codes
          "this rule sets no ceiling; give it at least one of max_turns, max_input_tokens, max_output_tokens, max_total_tokens or max_cost_micros"))
  no_zero (ceilings r)
  refuse_if (blank_description r.description)
      (Errors.config (codes "description") (codes "a blank description says nothing"))

-- The prices are the entries of the map, in the order of their keys.
pub record QuotaDocument : Type 0 where
  pub limits : List QuotaRule
  pub prices : List (Text × ModelPrice)

unfoldable pub is_empty_document : QuotaDocument → Bool
is_empty_document d = is_empty d.limits

unfoldable pub exact_price : Text → List (Text × ModelPrice) → Option ModelPrice
exact_price model [] = none
exact_price model ((key, price) ∷ prices) =
    if text_eq key model then some price else exact_price model prices

-- How long the match of a pattern is, where it is a pattern and matches.
abbrev pub match_length : Text → Pattern → Option ℕ
match_length model any = some 0
match_length model (prefix p) = if starts_with p model then some (length p + 1) else none
match_length model (exact t) = none

-- `max_by_key`: the last one of the longest.
abbrev pub longer : Option ℕ → ModelPrice → Option (ℕ × ModelPrice) → Option (ℕ × ModelPrice)
longer none price best = best
longer (some n) price none = some (n, price)
longer (some n) price (some (m, other)) = if leb m n then some (n, price) else some (m, other)

unfoldable pub best_price :
    Text → List (Text × ModelPrice) → Option (ℕ × ModelPrice) → Option (ℕ × ModelPrice)
best_price model [] best = best
best_price model ((key, price) ∷ prices) best =
    best_price model prices (longer (match_length model (parse key)) price best)

abbrev pub second : Option (ℕ × ModelPrice) → Option ModelPrice
second none = none
second (some (n, price)) = some price

abbrev pub or_best : Option ModelPrice → Option ModelPrice → Option ModelPrice
or_best none best = best
or_best (some price) best = some price

-- `QuotaDocument::price`.
unfoldable pub price : QuotaDocument → Text → Option ModelPrice
unfolding exact_price best_price
price d model = or_best (exact_price model d.prices) (second (best_price model d.prices none))

-- `join` and `prefix`.
unfoldable pub join : Text → Text → Text
join [] right = right
join (c ∷ left) [] = c ∷ left
join (c ∷ left) (d ∷ right) = (c ∷ left) ++ (codes "." ++ (d ∷ right))

unfoldable pub prefixed : Text → Error → Error
unfolding join
prefixed path (Error.config inner message) = Errors.config (join path inner) message
prefixed path e = e

limits_at : Text → ℕ → List QuotaRule → Result Error (Unit {0})
limits_at section index [] = ok tt
limits_at section index (r ∷ rules) = do
  map_err (prefixed (join section (codes "limits[" ++ (decimal index ++ codes "]")))) (validate r)
  limits_at section (suc index) rules

prices_at : Text → List (Text × ModelPrice) → Result Error (Unit {0})
prices_at section [] = ok tt
prices_at section ((model, p) ∷ prices) = do
  refuse_if (is_vacuous (parse model)) (
      Errors.config (join section (codes "prices"))
        (codes "a price keyed by the empty string matches no model; use `*` for every model"))
  prices_at section prices

unfoldable pub validate_at : Text → QuotaDocument → Result Error (Unit {0})
unfolding limits_at prices_at
validate_at section d = do limits_at section 0 d.limits; prices_at section d.prices
