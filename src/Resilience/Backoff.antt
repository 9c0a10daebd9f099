-- ===== src/Resilience/Backoff.antt =====
-- crates/resilience/src/backoff.rs: the jitter generator and the retry schedule. The shared atomic
-- state of the generator is passed through; `none` is a panic.
pub mod Delay
use Prim.Native.Nat.{bit_xor}
use ai_kernel.Prelude.{
  ℕ, zero, suc, ◌+◌, ◌-◌, ◌*◌, ◌/◌, ◌%◌, ◌^◌, min, max, Bool, true, false, Option, none, some, leb,
  ◌==◌, if◌then◌else◌, u64_max, saturating_mul, wrapping_add, wrapping_mul,
}
use ai_kernel.Clock.{Duration, from_millis}

-- crates/resilience/src/settings.rs.
pub record RetrySettings : Type 0 where
  pub max_attempts : ℕ  -- u32
  pub base_delay_ms : ℕ  -- u64
  pub max_delay_ms : ℕ  -- u64
  pub max_retry_after_ms : ℕ  -- u64

abbrev golden : ℕ
golden = 0x9E3779B97F4A7C15

-- `z ^ (z >> k)`.
fold_down : ℕ → ℕ → ℕ
fold_down k z = bit_xor z (z / 2 ^ k)

-- SplitMix64's output for a state that has been advanced.
unfoldable pub mix : ℕ → ℕ
unfolding fold_down
mix z =
    let a = wrapping_mul (fold_down 30 z) 0xBF58476D1CE4E5B9 in
    let b = wrapping_mul (fold_down 27 a) 0x94D049BB133111EB in fold_down 31 b

-- The draw from a state that is not at the bound 0. `bound + 1` overflows at the largest u64: the
-- addition panics where overflow is checked, and the remainder by 0 panics elsewhere.
unfoldable pub draw : ℕ → ℕ → Option (ℕ × ℕ)
draw state bound =
    let advanced = wrapping_add state golden in
    if bound == u64_max then none else some (advanced, mix advanced % (bound + 1))

-- `Jitter::next_up_to`: the generator's next state and a value in `0..=bound`.
unfoldable pub next_up_to : ℕ → ℕ → Option (ℕ × ℕ)
unfolding draw
next_up_to state bound = if bound == 0 then some (state, 0) else draw state bound

pub data Backoff : Type 0 where
  wait : Duration → Bool → Backoff
  exhausted : Backoff

pub record BackoffSchedule : Type 0 where
  pub settings : RetrySettings
  pub jitter : ℕ

-- `BackoffSchedule::new`.
unfoldable pub new : RetrySettings → ℕ → BackoffSchedule
new settings seed = record { settings = settings; jitter = seed }

unfoldable pub max_attempts : RetrySettings → ℕ
max_attempts s = max s.max_attempts 1

-- The delay's ceiling after attempt `attempt`.
unfoldable pub ceiling : RetrySettings → ℕ → ℕ
ceiling s attempt =
    let exponent = min (attempt - 1) 16 in
    min (saturating_mul s.base_delay_ms (2 ^ exponent)) s.max_delay_ms

drawn : BackoffSchedule → Option (ℕ × ℕ) → Option (BackoffSchedule × Backoff)
drawn b none = none
drawn b (some (state, value)) = some (record b { jitter = state }, wait (from_millis value) false)

delay : BackoffSchedule → ℕ → Option Duration → Option (BackoffSchedule × Backoff)
unfolding drawn
delay b attempt (some requested) =
    some (b, wait (min requested (from_millis b.settings.max_retry_after_ms)) true)
delay b attempt none = drawn b (next_up_to b.jitter (ceiling b.settings attempt))

-- `BackoffSchedule::after`.
unfoldable pub after : BackoffSchedule → ℕ → Option Duration → Option (BackoffSchedule × Backoff)
unfolding delay
after b attempt retry_after =
    if leb (max_attempts b.settings) attempt
    then some (b, exhausted)
    else delay b attempt retry_after
