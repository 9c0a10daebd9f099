-- ===== src/Resilience/Backoff/Delay.antt =====
-- How long a retry waits, crates/resilience/src/backoff.rs.
use ai_kernel.Prelude.{
  ℕ, ◌+◌, ◌-◌, ◌*◌, ◌%◌, ◌^◌, ◌≤◌, ◌<◌, ◌≡◌, refl, min, false, Option, none, some, arith, u64_max,
  Bool-cases, inl, inr, ◌==◌, wrapping_add, ◌↔◌,
}
use native.Mathlib.Nat.{pow-le-pow_right, mul-le-mul_left}
use ai_kernel.Clock.{Duration, from_millis, as_millis}
use ai_kernel.Resilience.Backoff.{
  RetrySettings, wait, BackoffSchedule, mix, next_up_to, max_attempts, ceiling, after,
}

-- A draw is at most its bound, and it comes about for every bound but the largest u64.
next_up_to_bounds :
    (state bound : ℕ)
    → bound < u64_max
    → (s v : ℕ) × (next_up_to state bound ≡ some (s, v)) × (v ≤ bound)
unfolding next_up_to
next_up_to_bounds state bound h = elim (Bool-cases (bound == 0)) [
  | inl z ↦ (state, 0, rw z, omega arith)
  | inr z ↦
      let advanced : ℕ = wrapping_add state 0x9E3779B97F4A7C15 in
      (advanced, mix advanced % (bound + 1), ground arith, omega arith)
]

next_up_to-panics : (state bound : ℕ) → (next_up_to state bound ≡ none) ↔ (bound ≡ u64_max)
unfolding next_up_to
next_up_to-panics state bound = (λ h. ground arith, λ h. ground arith)

pow-min-le : (n k : ℕ) → 2 ^ min n k ≤ 2 ^ n
pow-min-le n k = pow-le-pow_right (omega arith) (omega arith)

ceiling_bounds :
    (s : RetrySettings) (attempt : ℕ)
    → (ceiling s attempt ≤ s.max_delay_ms)
      × (ceiling s attempt ≤ s.base_delay_ms * 2 ^ (attempt - 1))
unfolding ceiling
ceiling_bounds s attempt =
    (omega arith, grind (arith, mul-le-mul_left s.base_delay_ms (pow-min-le (attempt - 1) 16)))

-- A retry that the service gave no time for waits at most the configured maximum, and at most the
-- base delay doubled once for each attempt before: the schedule always answers while attempts are
-- left and the ceiling is below the largest u64.
pub after_bounds :
    (b : BackoffSchedule) (attempt : ℕ)
    → attempt < max_attempts b.settings
    → ceiling b.settings attempt < u64_max
    → (c : BackoffSchedule) × (d : Duration) × (after b attempt none ≡ some (c, wait d false))
      × (as_millis d ≤ b.settings.max_delay_ms)
      × (as_millis d ≤ b.settings.base_delay_ms * 2 ^ (attempt - 1))
unfolding after
after_bounds b attempt left fits =
    let (s, v, drawn, le) = next_up_to_bounds b.jitter (ceiling b.settings attempt) fits in
    let (most, doubled) = ceiling_bounds b.settings attempt in
    (
      record b { jitter = s },
      from_millis v,
      ground (arith, drawn),
      omega (arith, le),
      omega (arith, le),
    )

-- The schedule panics exactly when attempts are left, the service gave no time, and the ceiling is
-- the largest u64, where the generator's `bound + 1` overflows.
pub after-panics :
    (b : BackoffSchedule) (attempt : ℕ) (retry_after : Option Duration)
    → (after b attempt retry_after ≡ none) ↔ (
        (attempt < max_attempts b.settings)
        × (retry_after ≡ none)
        × (ceiling b.settings attempt ≡ u64_max))
unfolding after
after-panics b attempt (some r) = (λ h. absurd (ground arith), λ h. absurd (ground arith))
after-panics b attempt none =
    let (forth, back) = next_up_to-panics b.jitter (ceiling b.settings attempt) in
    (λ h. (ground arith, refl, forth (ground arith)), λ h. ground (arith, back h.2))
