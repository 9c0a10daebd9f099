-- ===== src/Scheduler/Cron/Search.antt =====
-- crates/scheduler/src/cron.rs: the search for the next occurrence. A `DateTime<Utc>` is its
-- milliseconds since the epoch; years, months and days of the month are the calendar library's. Where an
-- addition of a day or a minute passes the last date that chrono represents, in the year 262142, the code
-- panics; the search of the model goes on.
pub mod Later
use ai_kernel.Prelude.{
  ℕ, zero, suc, ◌+◌, ◌-◌, ◌*◌, ◌/◌, ◌%◌, Bool, true, false, not, Option, none, some, leb, ltb,
  if◌then◌else◌, Result, ok, err,
}
use ai_kernel.Clock.{Timestamp}
use ai_kernel.Scheduler.Cron.{CronSchedule, contains, day_matches}

-- What is used of `chrono`: which timestamps have a date, its fields, and the start of the month after.
pub record Chrono : Type 0 where
  pub is_representable : ℕ → Bool
  pub year : ℕ → ℕ
  pub month : ℕ → ℕ
  pub day : ℕ → ℕ
  pub next_month : ℕ → Option ℕ

abbrev pub minute_ms : ℕ
minute_ms = 60000

abbrev pub hour_ms : ℕ
hour_ms = 3600000

abbrev pub day_ms : ℕ
day_ms = 86400000

-- The epoch was a Thursday.
abbrev pub weekday : ℕ → ℕ
weekday t = (t / day_ms + 4) % 7

abbrev pub hour : ℕ → ℕ
hour t = t / hour_ms % 24

abbrev pub minute : ℕ → ℕ
minute t = t / minute_ms % 60

-- `truncate_to_minute`, `start_of_hour` and `start_of_day`.
abbrev pub start_of : ℕ → ℕ → ℕ
start_of unit t = t - t % unit

abbrev pub i64_max : ℕ
i64_max = 9223372036854775807

abbrev pub search_horizon_years : ℕ
search_horizon_years = 8

-- What one round of the loop does with a candidate.
pub data Round : Type 0 where
  found gives_up : Round
  moves : ℕ → Round

abbrev to_month : Option ℕ → Round
to_month none = gives_up
to_month (some t) = moves t

unfoldable pub round : Chrono → CronSchedule → ℕ → ℕ → Round
round c s horizon t =
    if ltb horizon (c.year t)
    then gives_up
    else if not (contains s.month (c.month t))
    then to_month (c.next_month t)
    else if not (day_matches s (c.day t) (weekday t))
    then moves (start_of day_ms t + day_ms)
    else if not (contains s.hour (hour t))
    then moves (start_of hour_ms t + hour_ms)
    else if not (contains s.minute (minute t))
    then moves (t + minute_ms)
    else found

-- The loop, on fuel: `none` is a loop that has not ended.
unfoldable pub search : Chrono → CronSchedule → ℕ → ℕ → ℕ → Option (Option Timestamp)
search c s horizon zero t = none
search c s horizon (suc fuel) t = elim (round c s horizon t) [
  | found ↦ some (some t)
  | gives_up ↦ some none
  | moves u ↦ search c s horizon fuel u
]

-- Nine years of 366 days: the candidate grows in every round and passes the horizon before.
abbrev pub search_fuel : ℕ
search_fuel = 284601600001

abbrev pub finished : Option (Option Timestamp) → Option Timestamp
finished none = none
finished (some r) = r

-- `CronSchedule::next_after`.
unfoldable pub next_after : Chrono → CronSchedule → Timestamp → Option Timestamp
unfolding search
next_after c s after =
    if not (leb after i64_max)
    then none
    else if not (c.is_representable after)
    then none
    else finished (
        search c s (c.year after + search_horizon_years) search_fuel
          (start_of minute_ms after + minute_ms))
