-- ===== src/Resilience/Tests.antt =====
-- A provider whose breaker opens after two failures for ten milliseconds.
use ai_kernel.Prelude.{
  codes, ℕ, ◌-◌, ◌*◌, ◌^◌, ◌≤◌, ◌<◌, ◌≡◌, ◌↔◌, refl, max, true, false, Option, none, some, [], ◌∷◌,
  arith, ok, err, if◌then◌else◌, ltb, decimal, u64_max,
}
use ai_kernel.Clock.{Duration, from_millis, as_millis, saturating_add}
use ai_kernel.Resilience.Failure.{TransientFailure, transient, other, transient_failure}
use ai_kernel.Resilience.Breaker.{
  BreakerSettings, CircuitBreaker, closed, opened, admit, record_failure, record_success,
}
use ai_kernel.Resilience.Breaker.History.{fails, step}
use ai_kernel.Resilience.Breaker.Invariant.{Inv, step-Inv}
use ai_kernel.Resilience.Backoff.{
  Backoff, RetrySettings, BackoffSchedule, wait, exhausted, max_attempts, ceiling,
}
use ai_kernel.Resilience.Backoff
use ai_kernel.Resilience.Backoff.Delay.{after_bounds, after-panics}
use ai_kernel.Resilience.Limit.{
  ConcurrencyLimit, sleep, acquire, wait_for, remaining_budget, unlimited,
}
use ai_kernel.Resilience.Retry
use ai_kernel.Resilience.Retry.{Context, ResilientProvider, Attempt, Final, returned, with_retries}
use ai_kernel.Resilience.Retry.Attempts.{attempts, with_retries_total}
use ai_kernel.Resilience.Retry.Answer.{EndsAt, with_retries-Answers}

abbrev settings : BreakerSettings
settings = record { failure_threshold = 2; cooldown_ms = 10 }

abbrev breaker : CircuitBreaker
breaker = record {
  provider = codes "model.test";
  settings = settings;
  events = true;
  state = record { circuit = closed; consecutive_failures = 1; opened_until = 0 };
}

abbrev tripped : CircuitBreaker
tripped = record breaker {
  state = record { circuit = opened; consecutive_failures = 2; opened_until = 15 };
}

trips : (record_failure breaker 5).breaker ≡ tripped
unfolding record_failure saturating_add
trips = refl

step-Inv_example : Inv (step breaker (5, fails)).breaker
step-Inv_example = step-Inv breaker (5, fails) (omega arith) (ground arith)

abbrev off : CircuitBreaker
off = record breaker { settings = record { failure_threshold = 0; cooldown_ms = 10 } }

trips_open : (record_failure breaker 5).breaker.circuit ≡ opened
unfolding record_failure
trips_open = refl

abbrev retries : RetrySettings
retries = record {
  max_attempts = 3;
  base_delay_ms = 500;
  max_delay_ms = 8000;
  max_retry_after_ms = 60000;
}

abbrev schedule : BackoffSchedule
schedule = record { settings = retries; jitter = 1 }

after_bounds_example :
    (c : BackoffSchedule) × (d : Duration) × (Backoff.after schedule 2 none
      ≡ some (c, wait d false))
    × (as_millis d ≤ 8000)
    × (as_millis d ≤ 500 * 2 ^ (2 - 1))
unfolding max_attempts ceiling
after_bounds_example = after_bounds schedule 2 (omega arith) (omega arith)

after-panics_example : (Backoff.after schedule 2 none ≡ none) ↔ (
    (2 < max_attempts retries)
    × ◌≡◌ {A = Option Duration} none none
    × (ceiling retries 2 ≡ u64_max))
after-panics_example = after-panics schedule 2 none

abbrev limit : ConcurrencyLimit
limit = record { semaphore = true; acquire_timeout = from_millis 30 }

abbrev slow : TransientFailure
slow = record { detail = codes "no slot became free within 30ms"; retry_after = none }

slot_timeout :
    acquire limit false none 0 sleep
    ≡ err (other (codes "waiting for a model provider slot") (transient slow ∷ []))
unfolding acquire wait_for remaining_budget decimal
slot_timeout = refl

-- The first attempt fails transiently, the second returns 7.
abbrev world : ℕ → Attempt ℕ
world n = record {
  before = λ s. s;
  admit_at = 10 * n;
  acquired = ok unlimited;
  during = λ s. s;
  outcome = if ltb n 2 then err (other (codes "busy") (transient slow ∷ [])) else ok 7;
  recorded_at = 10 * n;
  jitter = λ j. j;
  affordable_at = 10 * n;
  announced_at = 10 * n;
  is_cancelled = false;
}

abbrev anyone : Context
anyone = record { correlation = codes "c"; deadline = none }

abbrev provider : ResilientProvider
provider = record {
  schedule = schedule;
  breaker = record breaker { state = record breaker.state { consecutive_failures = 0 } };
  events = false;
}

with_retries_total_example :
    (f : Final ℕ) × (with_retries (codes "m") anyone world provider ≡ some f)
    × (attempts f ≤ max 3 1)
with_retries_total_example = with_retries_total (codes "m") anyone world provider

abbrev afterwards : ResilientProvider
afterwards = record provider { schedule = record schedule { jitter = 0x9E3779B97F4A7C16 } }

second_answer : with_retries (codes "m") anyone world provider ≡ some (returned afterwards (ok 7) 2)
unfolding with_retries Retry.attempt_once admit record_failure record_success saturating_add
    Backoff.after max_attempts ceiling Backoff.next_up_to transient_failure Retry.affordable
    Retry.announce_retry Backoff.mix
second_answer = refl

with_retries-Answers_example : EndsAt (codes "m") anyone world provider (ok 7) 2
with_retries-Answers_example =
    with_retries-Answers (codes "m") anyone world provider afterwards (ok 7) 2 second_answer
