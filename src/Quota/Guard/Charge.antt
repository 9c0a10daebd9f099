-- ===== src/Quota/Guard/Charge.antt =====
-- crates/quota/src/guard.rs: what a turn is charged to, in the in-memory ledger. A window that cannot be
-- told stops the charge, with what was added before.
pub mod Once
pub mod Windows
pub mod Everyone
pub mod Recorded
use ai_kernel.Prelude.{
  Text, ℕ, Bool, true, false, ◌||◌, Option, none, some, List, [], ◌∷◌, ◌==◌, keep_if, if◌then◌else◌,
  Result, ok, err,
}
use ai_kernel.Errors.{Error}
use ai_kernel.Policy.Permission.{Principal}
use ai_kernel.Quota.Ledger.{QuotaPeriod, Counters, Row, add}
use ai_kernel.Quota.Document.{
  QuotaRule, QuotaDocument, UsageCharge, ModelPrice, cost_micros, price, is_empty_document,
}
use ai_kernel.Quota.Guard.{Readings, window_now, subjects, rules_for}

-- The order of the periods.
unfoldable pub rank : QuotaPeriod → ℕ
rank QuotaPeriod.hour = 0
rank QuotaPeriod.day = 1
rank QuotaPeriod.week = 2
rank QuotaPeriod.month = 3
rank QuotaPeriod.total = 4

unfoldable pub has_period : QuotaPeriod → List QuotaRule → Bool
unfolding rank
has_period p [] = false
has_period p (r ∷ rules) = (rank r.period == rank p) || has_period p rules

-- The periods in order, each once.
abbrev pub all_periods : List QuotaPeriod
all_periods =
    QuotaPeriod.hour ∷ QuotaPeriod.day ∷ QuotaPeriod.week ∷ QuotaPeriod.month ∷ QuotaPeriod.total
    ∷ []

-- `periods_for`: the periods of the subject's rules, sorted and without repetitions.
unfoldable pub periods_for : QuotaDocument → Text → List QuotaPeriod
unfolding has_period
periods_for d subject = keep_if (λ p. has_period p (rules_for d subject)) all_periods

abbrev pub price_of : Option ModelPrice → UsageCharge → ℕ
price_of none charge = 0
price_of (some p) charge = cost_micros p charge

unfoldable pub charged : QuotaDocument → UsageCharge → Counters
charged d charge = record {
  turns = charge.turns;
  input_tokens = charge.input_tokens;
  output_tokens = charge.output_tokens;
  cost_micros = price_of (price d charge.model) charge;
}

module _ (readings : Readings) (delta : Counters) where
  unfoldable pub charge_periods :
      Text → List QuotaPeriod → List Row → List Row × Result Error (Unit {0})
  charge_periods subject [] rows = (rows, ok tt)
  charge_periods subject (p ∷ ps) rows = elim (window_now readings p) [
    | ok w ↦ charge_periods subject ps (add rows subject p w.key delta)
    | err e ↦ (rows, err e)
  ]

  unfoldable pub charge_subjects :
      QuotaDocument → List Text → List Row → List Row × Result Error (Unit {0})
  unfolding charge_periods periods_for
  charge_subjects d [] rows = (rows, ok tt)
  charge_subjects d (subject ∷ more) rows =
      let (rows', r) = charge_periods subject (periods_for d subject) rows in
      elim r [ ok u ↦ charge_subjects d more rows' | err e ↦ (rows', err e) ]

-- `LimitedQuotaGuard::record`.
unfoldable pub record_charge :
    Readings
    → QuotaDocument
    → UsageCharge
    → Principal
    → List Row
    → List Row × Result Error (Unit {0})
unfolding charge_subjects charged subjects
record_charge readings d charge p rows =
    if is_empty_document d
    then (rows, ok tt)
    else charge_subjects readings (charged d charge) d (subjects p) rows
