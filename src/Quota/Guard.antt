-- ===== src/Quota/Guard.antt =====
-- crates/quota/src/guard.rs: the ceilings, applied. During one check every row is read at most once and
-- kept, so what the ledger answers is a function of the row. The text of an instant is the
-- calendar library's.
pub mod Ceilings
pub mod Admission
pub mod Charge
use ai_kernel.Prelude.{
  Text, text_eq, codes, decimal, ℕ, Bool, true, false, not, ◌&&◌, Option, none, some, List, [], ◌∷◌,
  ◌++◌, keep_if, leb, if◌then◌else◌, Result, ok, err, ◌>>=◌, ◌>>◌, refuse_if,
}
use ai_kernel.Errors.{Error, permission_denied}
use ai_kernel.Clock.{Timestamp}
use ai_kernel.Policy.Permission.{Principal}
use ai_kernel.Policy.Pattern.{matches}
use ai_kernel.Quota.Ledger.{QuotaDimension, QuotaPeriod, Counters, get}
use ai_kernel.Quota.Period.{Chrono, Window, window}
use ai_kernel.Quota.Document.{
  QuotaRule, QuotaDocument, ModelPrice, ceilings, dimension_text, is_empty_document, price,
}

unfoldable pub period_text : QuotaPeriod → Text
period_text QuotaPeriod.hour = codes "hour"
period_text QuotaPeriod.day = codes "day"
period_text QuotaPeriod.week = codes "week"
period_text QuotaPeriod.month = codes "month"
period_text QuotaPeriod.total = codes "total"

-- What a check is given: the calendar and the clock, the rows of the ledger, and how an instant is shown.
pub record Readings : Type 1 where
  pub chrono : Chrono
  pub now : Timestamp
  pub row : Text → Text → Result Error Counters
  pub show : Timestamp → Text

-- The window of now.
abbrev pub window_now : Readings → QuotaPeriod → Result Error Window
window_now readings p = window readings.chrono p readings.now

abbrev pub other_owner : Text → Option Text → List Text
other_owner id none = []
other_owner id (some owner) = if text_eq owner id then [] else owner ∷ []

-- Who is charged: the actor, and whom it acts for.
unfoldable pub subjects : Principal → List Text
subjects p = p.id ∷ other_owner p.id p.on_behalf_of

unfoldable pub rules_for : QuotaDocument → Text → List QuotaRule
rules_for d subject = keep_if (λ (r : QuotaRule). matches r.subject subject) d.limits

abbrev pub is_some {ℓ} : {A : Type ℓ} → Option A → Bool
is_some none = false
is_some (some a) = true

abbrev pub tick : Text → Text
tick t = codes "`" ++ (t ++ codes "`")

described : Option Text → Text
described none = []
described (some t) = codes " (" ++ (t ++ codes ")")

module _ (readings : Readings) where
  resets : QuotaRule → Window → Option Timestamp → Text
  unfolding period_text
  resets rule w none = codes "; this ceiling is cumulative and does not reset"
  resets rule w (some ends) =
      codes "; the "
      ++ (period_text rule.period
          ++ (codes " window " ++ (tick w.key ++ (codes " resets at " ++ readings.show ends))))

  unfoldable pub exhausted : Text → QuotaRule → Window → QuotaDimension → ℕ → ℕ → Text
  unfolding resets described period_text dimension_text
  exhausted subject rule w d used limit =
      tick subject
      ++ (codes " has used "
          ++ (decimal used
              ++ (codes " of "
                  ++ (decimal limit
                      ++ (codes " "
                          ++ (dimension_text d
                              ++ (codes " for this "
                                  ++ (period_text rule.period
                                      ++ (described rule.description
                                          ++ resets rule w w.ends)))))))))

  check_ceilings :
      Text → QuotaRule → Window → Counters → List (QuotaDimension × ℕ) → Result Error (Unit {0})
  check_ceilings subject rule w counters [] = ok tt
  check_ceilings subject rule w counters ((d, limit) ∷ more) = do
    refuse_if (leb limit (get counters d))
        (permission_denied (exhausted subject rule w d (get counters d) limit))
    check_ceilings subject rule w counters more

  module _ (document : QuotaDocument) (model : Text) where
    check_rule : Text → QuotaRule → Result Error (Unit {0})
    unfolding check_ceilings
    check_rule subject rule = do
      refuse_if (is_some rule.max_cost_micros && not (is_some (price document model))) (
          permission_denied (
            tick subject
            ++ (codes " has a cost ceiling but "
                ++ (tick model
                    ++ codes
                        " has no price, so what a turn would cost is unknown; add it under `prices` (a model that is genuinely free is priced at zero)"))))
      w ← window_now readings rule.period
      counters ← readings.row subject w.key
      check_ceilings subject rule w counters (ceilings rule)

    check_rules : Text → List QuotaRule → Result Error (Unit {0})
    unfolding check_rule
    check_rules subject [] = ok tt
    check_rules subject (rule ∷ rules) = do check_rule subject rule; check_rules subject rules

    check_subjects : List Text → Result Error (Unit {0})
    unfolding check_rules
    check_subjects [] = ok tt
    check_subjects (subject ∷ more) = do
      check_rules subject (rules_for document subject)
      check_subjects more

    -- `LimitedQuotaGuard::check`.
    unfoldable pub check : Principal → Result Error (Unit {0})
    unfolding check_subjects check_rules check_rule check_ceilings
    check p = if is_empty_document document then ok tt else check_subjects (subjects p)
