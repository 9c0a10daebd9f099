-- ===== src/Resilience/Breaker/History.antt =====
-- A breaker's calls in the order in which its lock admits them, crates/resilience/src/breaker.rs.
use ai_kernel.Prelude.{ℕ, suc, List, [], ◌∷◌}
use ai_kernel.Clock.{Timestamp}
use ai_kernel.Resilience.Breaker.{CircuitBreaker, Outcome, admit, record_success, record_failure}

pub data Call : Type 0 where
  admits succeeds fails : Call

unfoldable pub step : CircuitBreaker → Timestamp × Call → Outcome
step b (now, admits) = admit b now
step b (now, succeeds) = record_success b now
step b (now, fails) = record_failure b now

unfoldable pub run : CircuitBreaker → List (Timestamp × Call) → CircuitBreaker
run b [] = b
run b (c ∷ cs) = run (step b c).breaker cs

-- The failures since the last success, when `n` stood before the history.
unfoldable pub streak : ℕ → List (Timestamp × Call) → ℕ
streak n [] = n
streak n ((now, admits) ∷ cs) = streak n cs
streak n ((now, succeeds) ∷ cs) = streak 0 cs
streak n ((now, fails) ∷ cs) = streak (suc n) cs
