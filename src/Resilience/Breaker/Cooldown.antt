-- ===== src/Resilience/Breaker/Cooldown.antt =====
-- How long an open circuit refuses, and what it announces, crates/resilience/src/breaker.rs.
use ai_kernel.Prelude.{
  ℕ, suc, ◌+◌, ◌-◌, ◌≤◌, ◌<◌, ◌≡◌, ◌≢◌, refl, false, Option, some, none, List, [], ◌∷◌, arith,
  Result, ok, err, length, u64_max, u32_max, if◌then◌else◌, ltb, ap, ◌⊎◌,
}
use ai_kernel.Clock.{Timestamp, from_millis, saturating_add}
use ai_kernel.Resilience.Failure.{TransientFailure, Error, transient_failure}
use ai_kernel.Resilience.Breaker.{
  CircuitBreaker, ProviderCircuitChanged, opened, half_open, refusal, admit, record_success,
  record_failure, announce,
}
use ai_kernel.Resilience.Breaker.History.{Call, admits, succeeds, fails, step}

-- When an error asks the caller to try again.
abbrev pub retry_after_of : Option TransientFailure → Option ℕ
retry_after_of none = none
retry_after_of (some f) = f.retry_after

-- After a failure opens the circuit, a call before the cooldown's end is refused and changes
-- nothing, with a transient error that names the rest of the cooldown; a call from then on is
-- admitted and leaves the circuit half-open. (The cooldown and its end fit a u64.)
pub admit-record_failure :
    (b : CircuitBreaker) (now later : Timestamp)
    → 0 < b.settings.failure_threshold
    → now + b.settings.cooldown_ms ≤ u64_max
    → b.circuit ≢ opened
    → (record_failure b now).breaker.circuit ≡ opened
    → let q = (record_failure b now).breaker in
      let ends = now + b.settings.cooldown_ms in
      let waits = ltb later ends in
      ((admit q later).result ≡ (if waits then err (refusal q later) else ok tt))
      × (retry_after_of (transient_failure (refusal q later)) ≡ some (from_millis (ends - later)))
      × ((admit q later).breaker
          ≡ (if waits then q else record q { state = record q.state { circuit = half_open } }))
unfolding record_failure admit refusal transient_failure
admit-record_failure b now later on fits n o = (ground arith, ground arith, ground arith)

abbrev add_ok : Result Error (Unit {0}) → ℕ → ℕ
add_ok (ok u) n = suc n
add_ok (err e) n = n

-- How many calls at these times are admitted, with no outcome recorded in between.
unfoldable pub admitted : CircuitBreaker → List Timestamp → ℕ
admitted b [] = 0
admitted b (t ∷ ts) = add_ok (admit b t).result (admitted (admit b t).breaker ts)

admit-half_open :
    (b : CircuitBreaker) (t : Timestamp)
    → b.circuit ≡ half_open
    → ((admit b t).result ≡ ok tt) × ((admit b t).breaker ≡ b)
unfolding admit
admit-half_open b t h = ground arith

admitted-half_open :
    (b : CircuitBreaker) (ts : List Timestamp) → b.circuit ≡ half_open → admitted b ts ≡ length ts
unfolding admitted
admitted-half_open b [] h = refl
admitted-half_open b (t ∷ ts) h =
    let (fine, same) = admit-half_open b t h in rw (fine, same) (ap suc (admitted-half_open b ts h))

admit-probe :
    (b : CircuitBreaker) (t : Timestamp)
    → 0 < b.settings.failure_threshold
    → b.circuit ≡ opened
    → b.opened_until ≤ t
    → ((admit b t).result ≡ ok tt) × ((admit b t).breaker.circuit ≡ half_open)
unfolding admit
admit-probe b t on o over = ground arith

-- Once the cooldown of an open circuit is over, every call is admitted until an outcome comes in,
-- however many there are: the half-open state does not stop at one probe.
pub admitted-open :
    (b : CircuitBreaker) (t : Timestamp) (ts : List Timestamp)
    → 0 < b.settings.failure_threshold
    → b.circuit ≡ opened
    → b.opened_until ≤ t
    → admitted b (t ∷ ts) ≡ suc (length ts)
unfolding admitted
admitted-open b t ts on o over =
    let (fine, half) = admit-probe b t on o over in
    rw fine (ap suc (admitted-half_open (admit b t).breaker ts half))

abbrev pub TellsTheTruth :
    CircuitBreaker → Timestamp → CircuitBreaker → Option ProviderCircuitChanged → Type 0
TellsTheTruth b now q none = (b.events ≡ false) ⊎ (q.circuit ≡ b.circuit)
TellsTheTruth b now q (some e) =
    (e.timestamp ≡ now)
    × (e.provider ≡ b.provider)
    × (e.from ≡ b.circuit)
    × (e.to ≡ q.circuit)
    × (e.consecutive_failures ≡ q.consecutive_failures)

-- With a bus attached every change of the circuit is announced, and an announcement names the time,
-- the provider, the circuit before and after the call and the failures that are counted then.
pub step-TellsTheTruth :
    (b : CircuitBreaker) (now : Timestamp) (c : Call)
    → TellsTheTruth b now (step b (now, c)).breaker (step b (now, c)).event
unfolding step admit record_success record_failure
step-TellsTheTruth b now admits = ground arith
step-TellsTheTruth b now succeeds = ground arith
step-TellsTheTruth b now fails = ground arith

-- A failure that is reported while the circuit is already open starts the cooldown anew, and is
-- announced as a change from open to open.
pub record_failure-opened :
    (b : CircuitBreaker) (now : Timestamp)
    → 0 < b.settings.failure_threshold
    → b.settings.failure_threshold ≤ b.consecutive_failures
    → b.consecutive_failures < u32_max
    → b.circuit ≡ opened
    → ((record_failure b now).breaker.opened_until
        ≡ saturating_add now (from_millis b.settings.cooldown_ms))
      × ((record_failure b now).event ≡ announce b now opened opened (suc b.consecutive_failures))
unfolding record_failure announce
record_failure-opened b now on t m o = (ground arith, ground arith)
