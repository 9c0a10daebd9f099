-- ===== src/Resilience/Retry.antt =====
-- crates/resilience/src/provider.rs: the retry loop. One call shares its breaker and its jitter with
-- all others of the provider: what they do to the two at each await is part of the attempt's inputs.
pub mod Attempts
pub mod Answer
use ai_kernel.Prelude.{
  Text, ℕ, zero, suc, ◌+◌, ◌%◌, Bool, true, false, Option, none, some, List, [], ◌∷◌, ltb,
  if◌then◌else◌, Result, ok, err, u64_size,
}
use ai_kernel.Clock.{Timestamp, Duration, as_millis, saturating_since}
use ai_kernel.Resilience.Failure.{Error, TransientFailure, cancelled, transient_failure}
use ai_kernel.Resilience.Breaker.{
  State, CircuitBreaker, Outcome, admit, record_success, record_failure,
}
use ai_kernel.Resilience.Backoff.{Backoff, BackoffSchedule, wait, exhausted, max_attempts}
use ai_kernel.Resilience.Backoff
use ai_kernel.Resilience.Limit.{Permit}

pub record ProviderRetryScheduled : Type 0 where
  pub correlation : Text
  pub timestamp : Timestamp
  pub provider : Text
  pub model : Text
  pub attempt : ℕ
  pub delay_ms : ℕ
  pub honoured_retry_after : Bool

-- The part of `ExecutionContext` that the loop reads.
pub record Context : Type 0 where
  pub correlation : Text
  pub deadline : Option Timestamp

pub record ResilientProvider : Type 0 where
  pub schedule : BackoffSchedule
  pub breaker : CircuitBreaker
  pub events : Bool

-- What one attempt meets: the other callers before it and while it runs, the clock's readings, the
-- slot, the inner provider's answer, and whether the wait is cancelled.
pub record Attempt (T : Type 0) : Type 0 where
  pub before : State → State
  pub admit_at : Timestamp
  pub acquired : Result Error Permit
  pub during : State → State
  pub outcome : Result Error T
  pub recorded_at : Timestamp
  pub jitter : ℕ → ℕ
  pub affordable_at : Timestamp
  pub announced_at : Timestamp
  pub is_cancelled : Bool

pub data Turn (T : Type 0) : Type 0 where
  stop : ResilientProvider → Result Error T → Turn T
  retry : ResilientProvider → Option ProviderRetryScheduled → Turn T
  panics : Turn T

abbrev pub shared_state : ResilientProvider → (State → State) → ResilientProvider
shared_state p f = record p { breaker = record p.breaker { state = f p.breaker.state } }

abbrev pub shared_jitter : ResilientProvider → (ℕ → ℕ) → ResilientProvider
shared_jitter p f = record p { schedule = record p.schedule { jitter = f p.schedule.jitter } }

abbrev pub set_breaker : ResilientProvider → CircuitBreaker → ResilientProvider
set_breaker p b = record p { breaker = b }

unfoldable pub affordable : Option Timestamp → Duration → Timestamp → Bool
unfolding saturating_since
affordable none delay now = true
affordable (some deadline) delay now = ltb delay (saturating_since deadline now)

unfoldable pub announce_retry :
    ResilientProvider
    → Text
    → Context
    → ℕ
    → Duration
    → Bool
    → Timestamp
    → Option ProviderRetryScheduled
announce_retry p model cx attempt delay honoured at =
    if p.events
    then some (record {
      correlation = cx.correlation;
      timestamp = at;
      provider = p.breaker.provider;
      model = model;
      attempt = attempt;
      delay_ms = as_millis delay % u64_size;
      honoured_retry_after = honoured;
    })
    else none

module _ {T : Type 0} (model : Text) (cx : Context) (number : ℕ) (a : Attempt T) where
  -- From the decision of the schedule on.
  backed_off : ResilientProvider → Error → Option (BackoffSchedule × Backoff) → Turn T
  backed_off p e none = panics
  backed_off p e (some (s, exhausted)) = stop (record p { schedule = s }) (err e)
  backed_off p e (some (s, wait delay honoured)) =
      let q = record p { schedule = s } in
      if affordable cx.deadline delay a.affordable_at
      then if a.is_cancelled
        then stop q (err cancelled)
        else retry q (announce_retry q model cx number delay honoured a.announced_at)
      else stop q (err e)

  -- A failed attempt.
  failed : ResilientProvider → Error → Option TransientFailure → Turn T
  unfolding backed_off
  failed p e none = stop p (err e)
  failed p e (some f) =
      let q =
        shared_jitter (set_breaker p (record_failure p.breaker a.recorded_at).breaker) a.jitter in
      backed_off q e (Backoff.after q.schedule number f.retry_after)

  -- The inner provider's answer.
  answered : ResilientProvider → Result Error T → Turn T
  unfolding failed
  answered p (ok value) =
      stop (set_breaker p (record_success p.breaker a.recorded_at).breaker) (ok value)
  answered p (err e) = failed p e (transient_failure e)

  slotted : ResilientProvider → Result Error Permit → Turn T
  unfolding answered
  slotted p (err e) = stop p (err e)
  slotted p (ok permit) = answered (shared_state p a.during) a.outcome

  admitted : ResilientProvider → Result Error (Unit {0}) → Turn T
  unfolding slotted
  admitted p (err e) = stop p (err e)
  admitted p (ok u) = slotted p a.acquired

  -- The body of the loop, for attempt `number`.
  unfoldable pub attempt_once : ResilientProvider → Turn T
  unfolding admitted
  attempt_once p =
      let q = shared_state p a.before in
      let o = admit q.breaker a.admit_at in admitted (set_breaker q o.breaker) o.result

-- How a call ends, with the number of attempts it took and the retries it announced.
pub data Final (T : Type 0) : Type 0 where
  returned : ResilientProvider → Result Error T → ℕ → Final T
  panicked : ℕ → Final T

module _ {T : Type 0} (model : Text) (cx : Context) (world : ℕ → Attempt T) where
  -- The loop after `number` attempts, with fuel; `none` means that the fuel ran out.
  unfoldable pub loop : ℕ → ℕ → ResilientProvider → Option (Final T)
  loop zero number p = none
  loop (suc fuel) number p = elim (attempt_once model cx (suc number) (world (suc number)) p) [
    | stop q r ↦ some (returned q r (suc number))
    | retry q e ↦ loop fuel (suc number) q
    | panics ↦ some (panicked (suc number))
  ]

  unfoldable pub with_retries : ResilientProvider → Option (Final T)
  unfolding loop
  with_retries p = loop (max_attempts p.schedule.settings) 0 p
