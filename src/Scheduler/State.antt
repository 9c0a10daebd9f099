-- ===== src/Scheduler/State.antt =====
-- crates/scheduler/src/state.rs: when a job runs. Of a job's specification the payload, the retries and
-- the timeout are left out, which nothing here reads; how a duration is shown is a parameter.
pub mod Occurrence
pub mod Advance
use ai_kernel.Prelude.{
  Text, codes, ℕ, ◌+◌, ◌-◌, ◌*◌, ◌/◌, min, max, Bool, true, false, not, ◌&&◌, Option, none, some,
  ◌++◌, leb, ltb, ◌==◌, if◌then◌else◌, Result, ok, err, ◌>>=◌, ◌>>◌, refuse_if, u64_max,
  saturating_add as add64, saturating_mul,
}
use ai_kernel.Errors.{Error, invalid_argument, unsupported}
use ai_kernel.Clock.{Timestamp, Duration, from_millis, as_millis, saturating_add, saturating_since}
use ai_kernel.Policy.Permission.{Principal}
use ai_kernel.Scheduler.Cron.{CronSchedule, parse}
use ai_kernel.Scheduler.Cron.Search.{Chrono, next_after}

-- crates/api/src/scheduler.rs.
pub data Trigger : Type 0 where
  at : Timestamp → Trigger
  after every : Duration → Trigger
  cron on_event : Text → Trigger

pub record JobSpec : Type 0 where
  pub id : Text
  pub trigger : Trigger
  pub handler : Text
  pub persistent : Bool

pub record JobState : Type 0 where
  pub spec : JobSpec
  pub owner : Principal
  pub next_run : Option Timestamp
  pub last_run : Option Timestamp

unfoldable pub is_event_driven : JobState → Bool
is_event_driven s = elim s.spec.trigger [ on_event e ↦ true | _ ↦ false ]

unfoldable pub awaited_event : JobState → Option Text
awaited_event s = elim s.spec.trigger [ on_event e ↦ some e | _ ↦ none ]

abbrev job_message : Text → Text → Text
job_message id rest = codes "job `" ++ (id ++ (codes "` " ++ rest))

module _ (show : Duration → Text) where
  cron_result : Text → Text → Result Text CronSchedule → Result Error (Unit {0})
  cron_result id expression (ok s) = ok tt
  cron_result id expression (err reason) = err (
      invalid_argument (
        job_message id (
          codes "uses the cron expression `"
          ++ (expression ++ (codes "`, which this scheduler's dialect rejects: " ++ reason)))))

  validate_trigger : Text → Trigger → Result Error (Unit {0})
  unfolding cron_result
  validate_trigger id (every interval) = refuse_if (as_millis interval == 0) (
      invalid_argument (
        job_message id (
          codes "asks to repeat every "
          ++ (show interval
              ++ codes
                  ", which is below the one-millisecond resolution the kernel clock keeps and would fire without ever advancing"))))
  validate_trigger id (cron expression) = cron_result id expression (parse expression)
  validate_trigger id (at t) = ok tt
  validate_trigger id (after d) = ok tt
  validate_trigger id (on_event e) = ok tt

  unfoldable pub validate : JobSpec → Bool → Result Error (Unit {0})
  unfolding validate_trigger
  validate spec persistence = do
    refuse_if (spec.persistent && not persistence) (
        unsupported (
          job_message spec.id (
            codes
              "asks to be persistent, but this scheduler keeps its schedule in memory only; wire the persistent scheduler component instead")))
    validate_trigger spec.id spec.trigger

-- `.ok().and_then(|schedule| schedule.next_after(now))`.
cron_after : Chrono → Result Text CronSchedule → Timestamp → Option Timestamp
cron_after c (ok s) now = next_after c s now
cron_after c (err reason) now = none

unfoldable pub first_run : Chrono → Trigger → Timestamp → Option Timestamp
unfolding cron_after
first_run c (at t) now = some t
first_run c (after delay) now = some (saturating_add now delay)
first_run c (every interval) now = some (saturating_add now interval)
first_run c (cron expression) now = cron_after c (parse expression) now
first_run c (on_event e) now = none

unfoldable pub next_occurrence : Timestamp → Duration → Timestamp → Timestamp
next_occurrence anchor interval now =
    let interval_ms = max (min (as_millis interval) u64_max) 1 in
    let steps = add64 ((now - anchor) / interval_ms) 1 in
    if ltb now anchor then anchor else add64 anchor (saturating_mul steps interval_ms)

unfoldable pub next_run : Chrono → Trigger → Timestamp → Timestamp → Option Timestamp
unfolding cron_after
next_run c (every interval) fired_for now = some (next_occurrence fired_for interval now)
next_run c (cron expression) fired_for now = cron_after c (parse expression) now
next_run c (at t) fired_for now = none
next_run c (after d) fired_for now = none
next_run c (on_event e) fired_for now = none

pub data Recovery : Type 0 where
  pending : Recovery
  overdue : Timestamp → Recovery
  expired : Timestamp → Option Timestamp → Recovery

recover_due : Chrono → Trigger → Option Timestamp → Timestamp → Duration → Recovery
recover_due c t none now window = pending
recover_due c t (some due) now window =
    if ltb now due
    then pending
    else if leb (saturating_since now due) window
    then overdue due
    else expired due (next_run c t due now)

unfoldable pub recover : Chrono → JobState → Timestamp → Duration → Recovery
unfolding recover_due
recover c s now window = recover_due c s.spec.trigger s.next_run now window
