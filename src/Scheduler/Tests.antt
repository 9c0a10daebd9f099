-- ===== src/Scheduler/Tests.antt =====
-- A schedule that fires every minute, a job that repeats every ten milliseconds, and a calendar of
-- months of 31 days and years of 366.
use ai_kernel.Prelude.{
  Text, codes, ℕ, ◌+◌, ◌-◌, ◌*◌, ◌/◌, ◌%◌, ◌<◌, ◌≡◌, ◌≢◌, ◌↔◌, refl, true, false, none, some, Bool,
  List, [], ◌∷◌, arith, ok, text_eq,
}
use ai_kernel.Clock.{from_millis}
use ai_kernel.Policy.Permission.{PrincipalKind}
use ai_kernel.Scheduler.Cron.{
  u32_size, Field, CronSchedule, repeat, get, set_true, contains, include, parse_field, parse_part,
  parse_u32, split, split_once, day_matches,
}
use ai_kernel.Scheduler.Cron.Fields.{AsksOneOf, AllFit, parse_field-AsksOneOf}
use ai_kernel.Scheduler.Cron.Wrapping.{include-wraps}
use ai_kernel.Scheduler.Cron.Search.{
  Chrono, round, search, search_fuel, search_horizon_years, start_of, minute_ms, next_after,
}
use ai_kernel.Scheduler.Cron.Search.Later.{IsCalendar, Matches, next_after_ends, next_after-Matches}
use ai_kernel.Scheduler.State.{every, JobSpec, JobState, validate, next_run, recover, pending}
use ai_kernel.Scheduler.State.Advance.{recover_once}

abbrev quarters : Text
quarters = codes "1-2/3"

abbrev quarter_bits : List Bool
quarter_bits = false ∷ true ∷ false ∷ false ∷ []

parsed : parse_field quarters 0 3 ≡ ok (record { included = quarter_bits; is_wildcard = false })
unfolding parse_field parse_part parse_u32 split split_once text_eq set_true
parsed = refl

fits : AllFit 0 3 (split 44 quarters)
unfolding parse_part parse_u32 split split_once text_eq
fits = (omega arith, tt)

parse_field-AsksOneOf_example :
    (contains (record { included = quarter_bits; is_wildcard = false }) 1 ≡ true)
    ↔ AsksOneOf 0 3 (split 44 quarters) 1
parse_field-AsksOneOf_example =
    parse_field-AsksOneOf quarters 0 3 1 (record { included = quarter_bits; is_wildcard = false })
      fits parsed

include-wraps_example : get (include 2 3 3 (u32_size - 2) (repeat 4)) 1 ≡ true
include-wraps_example =
    include-wraps 0 3 3 2 (repeat 4) (omega arith) (omega arith) (omega arith) (omega arith)
      (omega arith)

abbrev months : Chrono
months = record {
  is_representable = λ t. true;
  year = λ t. t / 31622400000;
  month = λ t. 1 + t / 2678400000 % 12;
  day = λ t. 1 + t / 86400000 % 31;
  next_month = λ t. some ((t / 2678400000 + 1) * 2678400000);
}

some_later : (t u : ℕ) → some ((t / 2678400000 + 1) * 2678400000) ≡ some u → t < u
some_later t u e = ground arith

calendar : IsCalendar months
calendar = record { next_later = some_later; years_pass = λ t u h. omega arith }

abbrev all_five : Field
all_five = record { included = true ∷ true ∷ true ∷ true ∷ true ∷ []; is_wildcard = true }

abbrev minutely : CronSchedule
minutely = record {
  minute = all_five;
  hour = all_five;
  day_of_month = all_five;
  month = all_five;
  day_of_week = all_five;
}

next_after_ends_example :
    search months minutely
      (months.year 0 + search_horizon_years)
      search_fuel
      (start_of minute_ms 0 + minute_ms)
    ≢ none
next_after_ends_example = next_after_ends months minutely 0 calendar

in_a_minute : next_after months minutely 0 ≡ some 60000
unfolding next_after round contains day_matches
in_a_minute = refl

next_after-Matches_example : (0 < 60000) × Matches months minutely 60000
next_after-Matches_example = next_after-Matches months minutely 0 60000 calendar in_a_minute

abbrev every_ten : JobSpec
every_ten = record {
  id = codes "job";
  trigger = every (from_millis 10);
  handler = codes "handler";
  persistent = false;
}

valid : validate (λ d. []) every_ten false ≡ ok tt
unfolding validate
valid = refl

abbrev job : JobState
job = record {
  spec = every_ten;
  owner = record { id = codes "alice"; kind = PrincipalKind.user; on_behalf_of = none };
  next_run = some 5;
  last_run = none;
}

recover_once_example :
    recover months
      (record job { next_run = next_run months every_ten.trigger 5 37 })
      37
      (from_millis 1)
    ≡ pending
recover_once_example =
    recover_once (λ d. []) months calendar job false 5 37 (from_millis 1) valid (omega arith)
