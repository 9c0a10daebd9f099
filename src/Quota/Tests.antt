-- ===== src/Quota/Tests.antt =====
-- One rule: two model turns a day for everybody.
use ai_kernel.Prelude.{
  Text, codes, ℕ, ◌+◌, ◌-◌, ◌*◌, ◌==◌, ◌≡◌, ◌↔◌, ◌⊎◌, refl, Bool, true, false, none, some, List, [],
  ◌∷◌, ◌++◌, ok, ◌&&◌, if◌then◌else◌, arith,
}
use ai_kernel.Policy.Permission.{Principal, PrincipalKind}
use ai_kernel.Policy.Pattern.{any}
use ai_kernel.Quota.Ledger.{QuotaPeriod, Counters, Row, read, nothing_spent}
use ai_kernel.Quota.Period.{Chrono, Window, window}
use ai_kernel.Quota.Document.{QuotaRule, QuotaDocument, UsageCharge}
use ai_kernel.Quota.Guard.{Readings, check}
use ai_kernel.Quota.Guard.Charge.{record_charge}
use ai_kernel.Quota.Guard.Charge.Windows.{Copies, AreKnown}
use ai_kernel.Quota.Guard.Charge.Recorded.{is_party, is_counted, with_turn, record_charge_once}
use ai_kernel.Quota.Guard.Admission.{AdmitsSubject, AdmitsOwner, check-Admits}

abbrev one_turn : Counters
one_turn = record nothing_spent { turns = 1 }

abbrev today : Text
today = codes "day:2026-08-28"

abbrev rows : List Row
rows =
    record { subject = codes "alice"; window = codes "day:2026-08-27"; counters = one_turn }
    ∷ record { subject = codes "alice"; window = today; counters = one_turn }
    ∷ []

abbrev twice_a_day : QuotaRule
twice_a_day = record {
  subject = any;
  period = QuotaPeriod.day;
  max_turns = some 2;
  max_input_tokens = none;
  max_output_tokens = none;
  max_total_tokens = none;
  max_cost_micros = none;
  description = none;
}

abbrev document : QuotaDocument
document = record { limits = twice_a_day ∷ []; prices = [] }

-- A calendar of one day, 2026-08-28, at 14:35:12.
abbrev item : ℕ → Text
item x =
    if x == b'Y'
    then codes "2026"
    else if x == b'm'
    then codes "08"
    else if x == b'd'
    then codes "28"
    else if x == b'H'
    then codes "14"
    else if x == b'G'
    then codes "2026"
    else codes "35"

abbrev formatted : Bool → Text → Text
formatted is_item [] = []
formatted true (x ∷ t) = item x ++ formatted false t
formatted false (x ∷ t) = let rest = formatted (x == 37) t in if x == 37 then rest else x ∷ rest

abbrev friday : Chrono
friday = record {
  DateTime = ℕ;
  Date = ℕ;
  from_timestamp_millis = λ t. some t;
  timestamp_millis = λ d. some d;
  format = λ t d. formatted false t;
  with_minute = λ d n. some (d - 2100000);
  with_second = λ d n. some (d - 12000);
  with_nanosecond = λ d n. some d;
  date_naive = λ d. 20693;
  at_midnight = λ n. n * 86400000;
  num_days_from_monday = λ d. 4;
  checked_sub_days = λ n k. some (n - k);
  with_day = λ n k. some 20666;
  checked_add_hours = λ d n. some (d + n * 3600000);
  checked_add_days = λ d n. some (d + n * 86400000);
  checked_add_months = λ d n. some (d + n * 2678400000);
}

friday-Copies : Copies friday
friday-Copies x t d h = let off : (x == 37) ≡ false = ground (arith, h) in rw off refl

abbrev readings : Readings
readings = record {
  chrono = friday;
  now = 1787927712000;
  row = λ subject window. ok (read rows subject window);
  show = λ t. [];
}

abbrev of_day : Window
of_day = record { key = today; ends = some 1787961600000 }

day_window : window friday QuotaPeriod.day readings.now ≡ ok of_day
unfolding window
day_window = refl

abbrev alice : Principal
alice = record { id = codes "alice"; kind = PrincipalKind.user; on_behalf_of = none }

check-Admits_example : (check readings document (codes "llama") alice ≡ ok tt) ↔ (
    AdmitsSubject readings document (codes "llama") (codes "alice")
    × AdmitsOwner readings document (codes "llama") none)
check-Admits_example = check-Admits readings document (codes "llama") alice

known : AreKnown readings
unfolding window
known QuotaPeriod.hour = (_, refl)
known QuotaPeriod.day = (_, refl)
known QuotaPeriod.week = (_, refl)
known QuotaPeriod.month = (_, refl)
known QuotaPeriod.total = (_, refl)

abbrev turn : UsageCharge
turn = record {
  model = codes "llama";
  turns = 1;
  input_tokens = 100;
  output_tokens = 20;
  estimated = false;
}

record_charge_once_example :
    ((record_charge readings document turn alice rows).1 ≡ ok tt)
    × (read
          (record_charge readings document turn alice rows).0
          (codes "alice")
          (known QuotaPeriod.day).0.key
        ≡ (if is_party alice (codes "alice") && is_counted document (codes "alice") QuotaPeriod.day
            then with_turn document turn (read rows (codes "alice") (known QuotaPeriod.day).0.key)
            else read rows (codes "alice") (known QuotaPeriod.day).0.key))
    × ((is_party alice (codes "alice") ≡ true)
        ⊎ (read
              (record_charge readings document turn alice rows).0
              (codes "alice")
              (codes "day:2026-08-27")
            ≡ read rows (codes "alice") (codes "day:2026-08-27")))
record_charge_once_example =
    record_charge_once readings friday-Copies known document turn alice rows (codes "alice")
      QuotaPeriod.day (codes "day:2026-08-27")
