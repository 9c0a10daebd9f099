-- ===== src/Scheduler/Cron/Search/Later.antt =====
-- The search ends, and what it finds, crates/scheduler/src/cron.rs.
use native.Mathlib.Nat.{mod-lt}
use mathlib.Core.Path.{subst}
use ai_kernel.Prelude.{
  ℕ, zero, suc, ◌+◌, ◌-◌, ◌≤◌, ◌<◌, ◌≡◌, ◌≢◌, refl, ap, Bool, true, false, not, Option, none, some,
  arith, ltb, leb, if◌then◌else◌, inl, inr,
}
use ai_kernel.Clock.{Timestamp}
use ai_kernel.Scheduler.Cron.Fields.{ltb-cases}
use ai_kernel.Scheduler.Cron.{CronSchedule, contains, day_matches}
use ai_kernel.Scheduler.Cron.Search.{
  Chrono, minute_ms, hour_ms, day_ms, weekday, hour, minute, start_of, Round, found, gives_up,
  moves, round, search, search_fuel, search_horizon_years, finished, next_after, i64_max, to_month,
}

-- The behaviour of the calendar that the search relies on: the month after starts later, and nine
-- years of 366 days after a moment the year is more than eight years later.
pub record IsCalendar (c : Chrono) : Type 0 where
  pub next_later : (t u : ℕ) → c.next_month t ≡ some u → t < u
  pub years_pass : (t u : ℕ) → t + 284601600000 ≤ u → c.year t + 8 < c.year u

-- The moment is one that the schedule asks for.
pub record Matches (c : Chrono) (s : CronSchedule) (t : ℕ) : Type 0 where
  pub in_month : contains s.month (c.month t) ≡ true
  pub on_day : day_matches s (c.day t) (weekday t) ≡ true
  pub in_hour : contains s.hour (hour t) ≡ true
  pub at_minute : contains s.minute (minute t) ≡ true

start_of-later : (unit t : ℕ) → 0 < unit → t < start_of unit t + unit
start_of-later unit t h = omega (arith, mod-lt t h)

module _ (c : Chrono) (s : CronSchedule) (horizon : ℕ) (cal : IsCalendar c) where
  -- A round that moves on does so to a later moment, before the horizon.
  abbrev RoundOf : ℕ → Round → Type 0
  RoundOf t found = Matches c s t
  RoundOf t gives_up = Unit
  RoundOf t (moves u) = (t < u) × (c.year t ≤ horizon)

  jump-RoundOf :
      (t : ℕ) (o : Option ℕ) → c.next_month t ≡ o → c.year t ≤ horizon → RoundOf t (to_month o)
  jump-RoundOf t none e below = tt
  jump-RoundOf t (some u) e below = (cal.next_later t u e, below)

  tests-RoundOf :
      (t : ℕ) (m d h n : Bool)
      → c.year t ≤ horizon
      → contains s.month (c.month t) ≡ m
      → day_matches s (c.day t) (weekday t) ≡ d
      → contains s.hour (hour t) ≡ h
      → contains s.minute (minute t) ≡ n
      → RoundOf t (
          if not m
          then to_month (c.next_month t)
          else if not d
          then moves (start_of day_ms t + day_ms)
          else if not h
          then moves (start_of hour_ms t + hour_ms)
          else if not n
          then moves (t + minute_ms)
          else found)
  tests-RoundOf t false d h n below i j k l = jump-RoundOf t (c.next_month t) refl below
  tests-RoundOf t true false h n below i j k l = (start_of-later day_ms t (omega arith), below)
  tests-RoundOf t true true false n below i j k l = (start_of-later hour_ms t (omega arith), below)
  tests-RoundOf t true true true false below i j k l = (omega arith, below)
  tests-RoundOf t true true true true below i j k l = record {
    in_month = i;
    on_day = j;
    in_hour = k;
    at_minute = l;
  }

  horizon-RoundOf :
      (t : ℕ) (past : Bool) (r : Round)
      → ltb horizon (c.year t) ≡ past
      → (c.year t ≤ horizon → RoundOf t r)
      → RoundOf t (if past then gives_up else r)
  horizon-RoundOf t true r e h = tt
  horizon-RoundOf t false r e h = h (ground arith)

  round-RoundOf : (t : ℕ) → RoundOf t (round c s horizon t)
  unfolding round
  round-RoundOf t =
      horizon-RoundOf t (ltb horizon (c.year t)) _ refl
        (λ below. tests-RoundOf t _ _ _ _ below refl refl refl refl)

  -- What a search from `t` on ends with.
  abbrev Found : ℕ → Option (Option Timestamp) → Type 0
  Found t none = Unit
  Found t (some none) = Unit
  Found t (some (some u)) = (t ≤ u) × Matches c s u

  Found-earlier : (t u : ℕ) (r : Option (Option Timestamp)) → t < u → Found u r → Found t r
  Found-earlier t u none h f = tt
  Found-earlier t u (some none) h f = tt
  Found-earlier t u (some (some v)) h f = (omega (arith, f.0), f.1)

  round-Found :
      (t : ℕ) (r : Round) (next : ℕ → Option (Option Timestamp))
      → RoundOf t r
      → ((u : ℕ) → Found u (next u))
      → Found t (elim r [ found ↦ some (some t) | gives_up ↦ some none | moves u ↦ next u ])
  round-Found t found next m h = (omega arith, m)
  round-Found t gives_up next m h = tt
  round-Found t (moves u) next m h = Found-earlier t u (next u) m.0 (h u)

  search-Found : (fuel t : ℕ) → Found t (search c s horizon fuel t)
  unfolding search
  search-Found zero t = tt
  search-Found (suc fuel) t =
      round-Found t (round c s horizon t) (search c s horizon fuel) (round-RoundOf t)
        (search-Found fuel)

-- The time that the search has before the horizon is nine years from `start`.
module _ (c : Chrono) (s : CronSchedule) (start : ℕ) (cal : IsCalendar c) where
  abbrev horizon_year : ℕ
  horizon_year = c.year start + search_horizon_years

  before_horizon : (t : ℕ) → c.year t ≤ horizon_year → t < start + 284601600000
  before_horizon t h = elim (ltb-cases t (start + 284601600000)) [
    | inl early ↦ early
    | inr late ↦ absurd (years_apart t late h)
  ]
    where
      years_apart : (t : ℕ) → start + 284601600000 ≤ t → c.year t ≤ horizon_year → ⊥
      years_apart t late h = omega (arith, cal.years_pass start t late)

  round-ends :
      (t fuel : ℕ) (r : Round) (next : ℕ → Option (Option Timestamp))
      → RoundOf c s horizon_year cal t r
      → start + 284601600000 - t < suc fuel
      → ((u : ℕ) → start + 284601600000 - u < fuel → next u ≢ none)
      → elim r as (λ _. Option (Option Timestamp)) [
        | found ↦ some (some t)
        | gives_up ↦ some none
        | moves u ↦ next u
      ]
        ≢ none
  round-ends t fuel found next m enough h = λ e. cc
  round-ends t fuel gives_up next m enough h = λ e. cc
  round-ends t fuel (moves u) next m enough h = h u (omega (arith, m.0, before_horizon t m.1))

  search-ends :
      (fuel t : ℕ) → start + 284601600000 - t < fuel → search c s horizon_year fuel t ≢ none
  unfolding search
  search-ends zero t enough = absurd (omega arith)
  search-ends (suc fuel) t enough =
      round-ends t fuel (round c s horizon_year t) (search c s horizon_year fuel)
        (round-RoundOf c s horizon_year cal t) enough (search-ends fuel)

-- The search for the next occurrence ends, within the fuel, for every schedule, also for one that no
-- date satisfies.
pub next_after_ends :
    (c : Chrono) (s : CronSchedule) (after : Timestamp)
    → IsCalendar c
    → search c s
        (c.year after + search_horizon_years)
        search_fuel
        (start_of minute_ms after + minute_ms)
      ≢ none
next_after_ends c s after cal =
    let later = start_of-later minute_ms after (omega arith) in
    search-ends c s after cal search_fuel (start_of minute_ms after + minute_ms)
      (omega (arith, later))

some-Found :
    (c : Chrono) (s : CronSchedule) (horizon t u : ℕ) (cal : IsCalendar c)
    (r : Option (Option Timestamp))
    → Found c s horizon cal t r
    → finished r ≡ some u
    → (t ≤ u) × Matches c s u
some-Found c s horizon t u cal none f e = cc
some-Found c s horizon t u cal (some none) f e = cc
some-Found c s horizon t u cal (some (some v)) f e =
    subst (λ n. (t ≤ n) × Matches c s n) (ap (λ o. elim o [ none ↦ v | some n ↦ n ]) e) f

passes :
    (a b : Bool) (o : Option Timestamp) (u : Timestamp)
    → (if not a then none else if not b then none else o) ≡ some u
    → o ≡ some u
passes true true o u e = e
passes true false o u e = cc
passes false b o u e = cc

-- The next occurrence of a schedule is strictly later than the moment asked about, and is in a month,
-- on a day, in an hour and at a minute of the schedule.
pub next_after-Matches :
    (c : Chrono) (s : CronSchedule) (after u : Timestamp)
    → IsCalendar c
    → next_after c s after ≡ some u
    → (after < u) × Matches c s u
unfolding next_after
next_after-Matches c s after u cal e =
    let first = start_of minute_ms after + minute_ms in
    let horizon = c.year after + search_horizon_years in
    let r = search c s horizon search_fuel first in
    let (later, matches) =
      some-Found c s horizon first u cal r (search-Found c s horizon cal search_fuel first)
        (passes (leb after i64_max) (c.is_representable after) (finished r) u e) in
    (omega (arith, start_of-later minute_ms after (omega arith), later), matches)
