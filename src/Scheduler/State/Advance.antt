-- ===== src/Scheduler/State/Advance.antt =====
-- A job that has come due moves on, crates/scheduler/src/state.rs.
use ai_kernel.Prelude.{
  Text, ◌+◌, ◌≤◌, ◌<◌, ◌≡◌, refl, ◌==◌, Bool, true, false, not, ◌&&◌, Option, none, some, arith,
  Result, ok, err, refuse_if, refuse_if-ok, u64_max, lt→ltb,
}
use ai_kernel.Errors.{Error}
use ai_kernel.Clock.{Timestamp, Duration, as_millis}
use ai_kernel.Scheduler.Cron.{CronSchedule, parse}
use ai_kernel.Scheduler.Cron.Search.{Chrono, next_after}
use ai_kernel.Scheduler.Cron.Search.Later.{IsCalendar, next_after-Matches}
use ai_kernel.Scheduler.State.{
  Trigger, at, after, every, cron, on_event, JobSpec, JobState, validate, validate_trigger,
  next_run, cron_after, pending, recover, recover_due,
}
use ai_kernel.Scheduler.State.Occurrence.{next_occurrence-first}

-- A period leaves room between now and the largest timestamp.
abbrev pub HasRoom : Trigger → Timestamp → Type 0
HasRoom (at t) now = Unit
HasRoom (after d) now = Unit
HasRoom (every interval) now = now + as_millis interval ≤ u64_max
HasRoom (cron expression) now = Unit
HasRoom (on_event e) now = Unit

-- The next firing is still to come.
abbrev pub IsLater : Timestamp → Option Timestamp → Type 0
IsLater now none = Unit
IsLater now (some t) = now < t

found-IsLater :
    (c : Chrono) (s : CronSchedule) (now : Timestamp)
    → IsCalendar c
    → (o : Option Timestamp) → next_after c s now ≡ o
    → IsLater now o
found-IsLater c s now cal none e = tt
found-IsLater c s now cal (some u) e = (next_after-Matches c s now u cal e).0

accepted : (bad : Bool) (e : Error) → refuse_if bad e ≡ ok tt → bad ≡ false
accepted true e h = cc
accepted false e h = refl

cron-IsLater :
    (c : Chrono) (r : Result Text CronSchedule) (now : Timestamp)
    → IsCalendar c
    → IsLater now (cron_after c r now)
unfolding cron_after
cron-IsLater c (err reason) now cal = tt
cron-IsLater c (ok s) now cal = found-IsLater c s now cal (next_after c s now) refl

module _ (show : Duration → Text) (c : Chrono) (cal : IsCalendar c) where
  trigger-IsLater :
      (id : Text) (t : Trigger) (fired_for now : Timestamp)
      → validate_trigger show id t ≡ ok tt
      → HasRoom t now
      → IsLater now (next_run c t fired_for now)
  unfolding validate_trigger next_run
  trigger-IsLater id (at t) fired_for now valid room = tt
  trigger-IsLater id (after d) fired_for now valid room = tt
  trigger-IsLater id (every interval) fired_for now valid room =
      let not_zero = accepted (as_millis interval == 0) _ valid in
      (next_occurrence-first fired_for now interval (ground arith) room).0
  trigger-IsLater id (cron expression) fired_for now valid room =
      cron-IsLater c (parse expression) now cal
  trigger-IsLater id (on_event e) fired_for now valid room = tt

  -- A job that the scheduler accepted never goes to a time that is not after now: where its trigger has
  -- a next firing, whatever firing it moves on from, that is strictly later than now.
  pub next_run-IsLater :
      (spec : JobSpec) (persistence : Bool) (fired_for now : Timestamp)
      → validate show spec persistence ≡ ok tt
      → HasRoom spec.trigger now
      → IsLater now (next_run c spec.trigger fired_for now)
  unfolding validate
  next_run-IsLater spec persistence fired_for now valid room =
      let (_, valid') =
        refuse_if-ok (spec.persistent && not persistence) _
          (validate_trigger show spec.id spec.trigger) tt valid in
      trigger-IsLater spec.id spec.trigger fired_for now valid' room

  due-pending :
      (t : Trigger) (next : Option Timestamp) (now : Timestamp) (window : Duration)
      → IsLater now next
      → recover_due c t next now window ≡ pending
  unfolding recover_due
  due-pending t none now window h = refl
  due-pending t (some due) now window h = rw (lt→ltb now due h) refl

  -- A job whose spec passes validation, and whose interval, where its trigger is one, still fits into a
  -- timestamp after now, catches up, by a calendar that keeps the documented laws, on at most one firing of what it missed: once it has moved on from a
  -- firing, fired or skipped, it is pending, so that nothing of its backlog is due.
  pub recover_once :
      (s : JobState) (persistence : Bool) (due now : Timestamp) (window : Duration)
      → validate show s.spec persistence ≡ ok tt
      → HasRoom s.spec.trigger now
      → recover c (record s { next_run = next_run c s.spec.trigger due now }) now window ≡ pending
  unfolding recover
  recover_once s persistence due now window valid room =
      due-pending s.spec.trigger (next_run c s.spec.trigger due now) now window
        (next_run-IsLater s.spec persistence due now valid room)
