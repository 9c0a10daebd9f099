-- ===== src/Resilience/Breaker.antt =====
-- crates/resilience/src/breaker.rs: the circuit breaker. A method takes the clock's reading and
-- returns the breaker that it leaves, with the event that it publishes.
pub mod Invariant
pub mod Cooldown
pub mod History
use ai_kernel.Prelude.{
  Text, codes, decimal, ℕ, ◌+◌, ◌||◌, Bool, true, false, not, Option, none, some, ◌++◌, leb, ltb,
  if◌then◌else◌, Result, ok, err, saturating_add32,
}
use ai_kernel.Clock.{
  Timestamp, Duration, epoch, from_millis, as_millis, saturating_add, saturating_since,
}
use ai_kernel.Resilience.Failure
use ai_kernel.Resilience.Failure.{Error}

-- crates/api/src/resilience.rs.
pub data CircuitState : Type 0 where
  closed opened half_open : CircuitState

pub record ProviderCircuitChanged : Type 0 where
  pub timestamp : Timestamp
  pub provider : Text
  pub from : CircuitState
  pub to : CircuitState
  pub consecutive_failures : ℕ

-- crates/resilience/src/settings.rs.
pub record BreakerSettings : Type 0 where
  pub failure_threshold : ℕ  -- u32
  pub cooldown_ms : ℕ  -- u64

pub record State : Type 0 where
  pub circuit : CircuitState
  pub consecutive_failures : ℕ  -- u32
  pub opened_until : Timestamp

-- `events` tells whether a bus is attached.
pub record CircuitBreaker : Type 0 where
  pub provider : Text
  pub settings : BreakerSettings
  pub events : Bool
  pub state : State
  pub open state use *

unfoldable pub new : Text → BreakerSettings → CircuitBreaker
new provider settings = record {
  provider = provider;
  settings = settings;
  events = false;
  state = record { circuit = closed; consecutive_failures = 0; opened_until = epoch };
}

unfoldable pub with_events : CircuitBreaker → CircuitBreaker
with_events b = record b { events = true }

abbrev pub is_enabled : CircuitBreaker → Bool
is_enabled b = ltb 0 b.settings.failure_threshold

abbrev pub is_closed : CircuitState → Bool
is_closed closed = true
is_closed _ = false

abbrev pub is_half_open : CircuitState → Bool
is_half_open half_open = true
is_half_open _ = false

unfoldable pub announce :
    CircuitBreaker → Timestamp → CircuitState → CircuitState → ℕ → Option ProviderCircuitChanged
announce b at was now failures =
    if b.events
    then some (record {
      timestamp = at;
      provider = b.provider;
      from = was;
      to = now;
      consecutive_failures = failures;
    })
    else none

-- The refusal of an open circuit.
unfoldable pub refusal : CircuitBreaker → Timestamp → Error
unfolding Failure.new Failure.after Failure.wrapped saturating_since
refusal b now =
    let remaining = saturating_since b.opened_until now in
    Failure.wrapped
      (Failure.after
        (Failure.new (
          codes "the circuit for provider `"
          ++ (b.provider
              ++ (codes "` is open for another "
                  ++ (decimal (as_millis remaining) ++ codes "ms")))))
        remaining)
      (codes "calling model provider `" ++ (b.provider ++ codes "`"))

-- What a method leaves behind.
pub record Outcome : Type 0 where
  pub breaker : CircuitBreaker
  pub result : Result Error (Unit {0})
  pub event : Option ProviderCircuitChanged

abbrev unchanged : CircuitBreaker → Result Error (Unit {0}) → Outcome
unchanged b r = record { breaker = b; result = r; event = none }

-- The match on the circuit in `admit`.
admit_in : CircuitState → CircuitBreaker → Timestamp → Outcome
unfolding announce
admit_in closed b now = unchanged b (ok tt)
admit_in half_open b now = unchanged b (ok tt)
admit_in opened b now =
    if leb b.opened_until now
    then (record {
      breaker = record b { state = record b.state { circuit = half_open } };
      result = ok tt;
      event = announce b now opened half_open b.consecutive_failures;
    })
    else unchanged b (err (refusal b now))

unfoldable pub admit : CircuitBreaker → Timestamp → Outcome
unfolding admit_in
admit b now = if is_enabled b then admit_in b.circuit b now else unchanged b (ok tt)

unfoldable pub record_success : CircuitBreaker → Timestamp → Outcome
unfolding announce
record_success b now =
    if is_enabled b
    then (record {
      breaker = record b { state = record b.state { consecutive_failures = 0; circuit = closed } };
      result = ok tt;
      event = if is_closed b.circuit then none else announce b now b.circuit closed 0;
    })
    else unchanged b (ok tt)

unfoldable pub record_failure : CircuitBreaker → Timestamp → Outcome
unfolding announce saturating_add
record_failure b now =
    let failures = saturating_add32 b.consecutive_failures 1 in
    let counted = record b { state = record b.state { consecutive_failures = failures } } in
    let should_open = is_half_open b.circuit || leb b.settings.failure_threshold failures in
    if not (is_enabled b)
    then unchanged b (ok tt)
    else if should_open
    then (record {
      breaker = record counted {
        state = record counted.state {
          circuit = opened;
          opened_until = saturating_add now (from_millis b.settings.cooldown_ms);
        };
      };
      result = ok tt;
      event = announce b now b.circuit opened failures;
    })
    else unchanged counted (ok tt)
