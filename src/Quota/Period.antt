-- ===== src/Quota/Period.antt =====
-- crates/quota/src/period.rs: the windows that a ceiling is measured over. The calendar library chrono is
-- a parameter: its date-times, its dates, and what the code asks of them.
use ai_kernel.Prelude.{
  Text, codes, decimal, ℕ, Option, none, some, ◌++◌, Result, ok, err, ◌>>=◌, ltb, if◌then◌else◌,
  u64_max,
}
use ai_kernel.Errors.{Error}
use ai_kernel.Clock.{Timestamp}
use ai_kernel.Quota.Ledger.{QuotaPeriod, period_prefix}

-- `timestamp_millis` answers nothing for an instant before the epoch, which no u64 shows.
pub record Chrono : Type 1 where
  pub DateTime : Type 0
  pub Date : Type 0
  pub from_timestamp_millis : ℕ → Option DateTime
  pub timestamp_millis : DateTime → Option ℕ
  pub format : Text → DateTime → Text
  pub with_minute : DateTime → ℕ → Option DateTime
  pub with_second : DateTime → ℕ → Option DateTime
  pub with_nanosecond : DateTime → ℕ → Option DateTime
  pub date_naive : DateTime → Date
  pub at_midnight : Date → DateTime
  pub num_days_from_monday : DateTime → ℕ
  pub checked_sub_days : Date → ℕ → Option Date
  pub with_day : Date → ℕ → Option Date
  pub checked_add_hours : DateTime → ℕ → Option DateTime
  pub checked_add_days : DateTime → ℕ → Option DateTime
  pub checked_add_months : DateTime → ℕ → Option DateTime

pub record Window : Type 0 where
  pub key : Text
  pub ends : Option Timestamp

abbrev pub or_else {ℓ} : {A : Type ℓ} → Option A → A → A
or_else none a = a
or_else (some b) a = b

abbrev pub and_then {ℓ} : {A : Type ℓ} → Option A → (A → Option A) → Option A
and_then none f = none
and_then (some a) f = f a

abbrev pub ok_or_else {ℓ} : {A : Type ℓ} → Option A → Error → Result Error A
ok_or_else none e = err e
ok_or_else (some a) e = ok a

abbrev i64_max : ℕ
i64_max = 9223372036854775807

-- `Debug` of a period.
abbrev pub debug_text : QuotaPeriod → Text
debug_text QuotaPeriod.hour = codes "Hour"
debug_text QuotaPeriod.day = codes "Day"
debug_text QuotaPeriod.week = codes "Week"
debug_text QuotaPeriod.month = codes "Month"
debug_text QuotaPeriod.total = codes "Total"

module _ (c : Chrono) where
  unfoldable pub utc : Timestamp → Result Error c.DateTime
  utc t = ok_or_else (if ltb i64_max t then none else c.from_timestamp_millis t) (
      Error.other (
        codes "the clock reported "
        ++ (decimal t ++ codes "ms since the epoch, which is not a representable instant")))

  unfoldable pub timestamp : c.DateTime → Timestamp
  timestamp d = or_else (c.timestamp_millis d) u64_max

  unfoldable pub truncate_to_hour : c.DateTime → c.DateTime
  truncate_to_hour d =
      or_else
        (and_then (and_then (c.with_minute d 0) (λ e. c.with_second e 0))
          (λ e. c.with_nanosecond e 0))
        d

  unfoldable pub start_of_day : c.DateTime → c.DateTime
  start_of_day d = c.at_midnight (c.date_naive d)

  unfoldable pub start_of_week : c.DateTime → c.DateTime
  start_of_week d =
      c.at_midnight
        (or_else (c.checked_sub_days (c.date_naive d) (c.num_days_from_monday d)) (c.date_naive d))

  unfoldable pub start_of_month : c.DateTime → c.DateTime
  start_of_month d = c.at_midnight (or_else (c.with_day (c.date_naive d) 1) (c.date_naive d))

  -- The key and the end of the window that holds a date-time; a total has no end.
  unfoldable pub bounds : QuotaPeriod → c.DateTime → Text × Option c.DateTime
  unfolding truncate_to_hour start_of_day start_of_week start_of_month
  bounds QuotaPeriod.hour d =
      (c.format (codes "hour:%Y-%m-%dT%H") d, c.checked_add_hours (truncate_to_hour d) 1)
  bounds QuotaPeriod.day d =
      (c.format (codes "day:%Y-%m-%d") d, c.checked_add_days (start_of_day d) 1)
  bounds QuotaPeriod.week d =
      (c.format (codes "week:%G-W%V") d, c.checked_add_days (start_of_week d) 7)
  bounds QuotaPeriod.month d =
      (c.format (codes "month:%Y-%m") d, c.checked_add_months (start_of_month d) 1)
  bounds QuotaPeriod.total d = (codes "total", none)

  unfoldable pub bounded : QuotaPeriod → Timestamp → Result Error Window
  unfolding utc timestamp bounds
  bounded p t = utc t >>= λ d.
      ok_or_else (bounds p d).1 (
        Error.other (
          codes "the end of the "
          ++ (debug_text p
              ++ (codes " window containing " ++ (decimal t ++ codes "ms is not representable")))))
      >>= λ ends. ok (record { key = (bounds p d).0; ends = some (timestamp ends) })

  -- `QuotaPeriod::window`.
  unfoldable pub window : QuotaPeriod → Timestamp → Result Error Window
  unfolding bounded period_prefix
  window QuotaPeriod.total t = ok (record { key = period_prefix QuotaPeriod.total; ends = none })
  window p t = bounded p t
