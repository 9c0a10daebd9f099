-- ===== src/Resilience/Breaker/Invariant.antt =====
-- What holds of a breaker between two calls, crates/resilience/src/breaker.rs.
use ai_kernel.Prelude.{
  ℕ, suc, ◌≤◌, ◌<◌, ◌≡◌, ◌≢◌, ◌↔◌, refl, ◌∙◌, ap, sym, ok, min, none, List, [], ◌∷◌, arith, Text,
  u32_max, u64_max,
}
use ai_kernel.Clock.{Timestamp}
use ai_kernel.Resilience.Breaker.{
  CircuitBreaker, BreakerSettings, CircuitState, closed, opened, half_open, new, admit,
  record_success, record_failure,
}
use ai_kernel.Resilience.Breaker.History.{Call, admits, succeeds, fails, step, run, streak}

pub record Inv (b : CircuitBreaker) : Type 0 where
  pub calm : b.circuit ≡ closed → b.consecutive_failures < b.settings.failure_threshold
  pub tripped : b.circuit ≢ closed → b.settings.failure_threshold ≤ b.consecutive_failures
  pub counted : b.consecutive_failures ≤ u32_max
  pub reopens : b.opened_until ≤ u64_max

-- Every call keeps the invariant of an enabled breaker: a closed circuit has seen fewer failures in
-- a row than the threshold, any other at least as many, and the counter and the time fit their types.
pub step-Inv :
    (b : CircuitBreaker) (c : Timestamp × Call)
    → 0 < b.settings.failure_threshold
    → Inv b
    → Inv (step b c).breaker
unfolding step admit record_success record_failure
step-Inv b (now, admits) on v = ground arith
step-Inv b (now, succeeds) on v = ground arith
step-Inv b (now, fails) on v = ground arith

pub settings-step :
    (b : CircuitBreaker) (c : Timestamp × Call) → (step b c).breaker.settings ≡ b.settings
unfolding step admit record_success record_failure
settings-step b (now, admits) = ground arith
settings-step b (now, succeeds) = ground arith
settings-step b (now, fails) = ground arith

-- What one call does to the counter of an enabled breaker.
counter-step :
    (b : CircuitBreaker) (c : Timestamp × Call) (n : ℕ) (cs : List (Timestamp × Call))
    → 0 < b.settings.failure_threshold
    → b.consecutive_failures ≡ min n u32_max
    → (m : ℕ) × ((step b c).breaker.consecutive_failures ≡ min m u32_max)
      × (streak n (c ∷ cs) ≡ streak m cs)
unfolding step admit record_success record_failure streak
counter-step b (now, admits) n cs on e = (n, ground arith, refl)
counter-step b (now, succeeds) n cs on e = (0, ground arith, refl)
counter-step b (now, fails) n cs on e = (suc n, ground arith, refl)

module _ (threshold : ℕ) (on : 0 < threshold) where
  run-counts :
      (b : CircuitBreaker) (n : ℕ) (cs : List (Timestamp × Call))
      → b.settings.failure_threshold ≡ threshold
      → Inv b
      → b.consecutive_failures ≡ min n u32_max
      → Inv (run b cs)
        × ((run b cs).settings.failure_threshold ≡ threshold)
        × ((run b cs).consecutive_failures ≡ min (streak n cs) u32_max)
  unfolding run
  run-counts b n [] t v e = (v, t, unfold streak in e)
  run-counts b n (c ∷ cs) t v e =
      let positive : 0 < b.settings.failure_threshold = omega arith in
      let (m, counts, same) = counter-step b c n cs positive e in
      let rest =
        run-counts (step b c).breaker m cs
          (ap (λ (s : BreakerSettings). s.failure_threshold) (settings-step b c) ∙ t)
          (step-Inv b c positive v) counts in
      (rest.0, rest.1, rest.2 ∙ ap (λ (k : ℕ). min k u32_max) (sym same))

new-Inv :
    (provider : Text) (settings : BreakerSettings)
    → 0 < settings.failure_threshold
    → Inv (new provider settings)
unfolding new
new-Inv provider settings on = ground arith

calm-closed : (c : CircuitState) (t n : ℕ) → (c ≢ closed → t ≤ n) → n < t → c ≡ closed
calm-closed closed t n tripped h = refl
calm-closed opened t n tripped h = absurd (omega (arith, tripped (λ e. cc)))
calm-closed half_open t n tripped h = absurd (omega (arith, tripped (λ e. cc)))

Inv-closed :
    (b : CircuitBreaker)
    → Inv b
    → (b.circuit ≡ closed) ↔ (b.consecutive_failures < b.settings.failure_threshold)
Inv-closed b v = (v.calm, calm-closed b.circuit _ _ v.tripped)

-- Whatever calls an enabled breaker has answered, with a threshold that fits a u32: its circuit is
-- closed exactly when fewer failures than the threshold came in since the last success.
pub run-closed :
    (provider : Text) (settings : BreakerSettings) (cs : List (Timestamp × Call))
    → 0 < settings.failure_threshold
    → settings.failure_threshold ≤ u32_max
    → ((run (new provider settings) cs).circuit ≡ closed)
      ↔ (streak 0 cs < settings.failure_threshold)
run-closed provider settings cs on fits =
    let counts =
      run-counts settings.failure_threshold on (new provider settings) 0 cs (unfold new in refl)
        (new-Inv provider settings on) (unfold new in omega arith) in
    let (forth, back) = Inv-closed (run (new provider settings) cs) counts.0 in
    (
      λ c. omega (arith, forth c, counts.1, counts.2),
      λ h. back (omega (arith, h, counts.1, counts.2)),
    )

-- With a threshold of zero the breaker is off: no call is refused and nothing it holds changes.
pub step-disabled :
    (b : CircuitBreaker) (c : Timestamp × Call)
    → b.settings.failure_threshold ≡ 0
    → ((step b c).breaker ≡ b) × ((step b c).result ≡ ok tt) × ((step b c).event ≡ none)
unfolding step admit record_success record_failure
step-disabled b (now, admits) off = ground arith
step-disabled b (now, succeeds) off = ground arith
step-disabled b (now, fails) off = ground arith
