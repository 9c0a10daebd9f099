-- ===== src/Resilience/Retry/Attempts.antt =====
-- The retry loop ends, crates/resilience/src/provider.rs.
use ai_kernel.Prelude.{
  Text, ℕ, zero, suc, ◌+◌, ◌≤◌, ◌<◌, ◌≡◌, inl, inr, refl, ◌∙◌, max, Bool, Option, none, some, arith,
  Result, ok, err, Option-cases,
}
use ai_kernel.Clock.{Duration}
use ai_kernel.Resilience.Failure.{Error, TransientFailure, transient_failure}
use ai_kernel.Resilience.Breaker.{admit, record_failure}
use ai_kernel.Resilience.Backoff.{
  Backoff, BackoffSchedule, RetrySettings, wait, exhausted, max_attempts, next_up_to, ceiling,
}
use ai_kernel.Resilience.Backoff
use ai_kernel.Resilience.Limit.{Permit}
use ai_kernel.Resilience.Retry.{
  Context, ResilientProvider, Attempt, Turn, stop, retry, panics, Final, returned, panicked,
  backed_off, failed, answered, slotted, admitted, attempt_once, loop, with_retries,
  ProviderRetryScheduled, shared_state, shared_jitter, set_breaker,
}

-- The schedule keeps its settings, and asks for a wait only while attempts are left.
after-wait :
    (b c : BackoffSchedule) (n : ℕ) (r : Option Duration) (d : Duration) (h : Bool)
    → Backoff.after b n r ≡ some (c, wait d h)
    → (c.settings ≡ b.settings) × (n < max_attempts b.settings)
unfolding Backoff.after
after-wait b c n none d h e = elim (Option-cases (next_up_to b.jitter (ceiling b.settings n))) [
  | inl q ↦ ground (arith, q)
  | inr ((s, v), q) ↦ ground (arith, q)
]
after-wait b c n (some r) d h e = ground arith

abbrev Retries : ℕ → RetrySettings → {T : Type 0} → Turn T → Type 0
Retries n s (retry q e) = (q.schedule.settings ≡ s) × (n < max_attempts s)
Retries n s (stop q r) = Unit
Retries n s panics = Unit

module _ {T : Type 0} (model : Text) (cx : Context) (number : ℕ) (a : Attempt T) where
  backed_off-Retries :
      (p : ResilientProvider) (e : Error) (o : Option (BackoffSchedule × Backoff)) (n : ℕ)
      (s : RetrySettings)
      → ((c : BackoffSchedule) (d : Duration) (h : Bool)
          → o ≡ some (c, wait d h)
          → (c.settings ≡ s) × (n < max_attempts s))
      → Retries n s (backed_off model cx number a p e o)
  unfolding backed_off
  backed_off-Retries p e none n s k = tt
  backed_off-Retries p e (some (c, exhausted)) n s k = tt
  backed_off-Retries p e (some (c, wait d h)) n s k = ground (arith, k c d h refl)

  failed-Retries :
      (p : ResilientProvider) (e : Error) (o : Option TransientFailure)
      → Retries number p.schedule.settings (failed model cx number a p e o)
  unfolding failed
  failed-Retries p e none = tt
  failed-Retries p e (some f) =
      let b = (record_failure p.breaker a.recorded_at).breaker in
      let q = shared_jitter (set_breaker p b) a.jitter in
      backed_off-Retries q e (Backoff.after q.schedule number f.retry_after) number
        p.schedule.settings (λ c d h w. after-wait q.schedule c number f.retry_after d h w)

  answered-Retries :
      (p : ResilientProvider) (r : Result Error T)
      → Retries number p.schedule.settings (answered model cx number a p r)
  unfolding answered
  answered-Retries p (ok v) = tt
  answered-Retries p (err e) = failed-Retries p e (transient_failure e)

  slotted-Retries :
      (p : ResilientProvider) (r : Result Error Permit)
      → Retries number p.schedule.settings (slotted model cx number a p r)
  unfolding slotted
  slotted-Retries p (err e) = tt
  slotted-Retries p (ok u) = answered-Retries (shared_state p a.during) a.outcome

  admitted-Retries :
      (p : ResilientProvider) (r : Result Error (Unit {0}))
      → Retries number p.schedule.settings (admitted model cx number a p r)
  unfolding admitted
  admitted-Retries p (err e) = tt
  admitted-Retries p (ok u) = slotted-Retries p a.acquired

  pub attempt_once-Retries :
      (p : ResilientProvider)
      → Retries number p.schedule.settings (attempt_once model cx number a p)
  unfolding attempt_once
  attempt_once-Retries p =
      let o = admit (shared_state p a.before).breaker a.admit_at in
      admitted-Retries (set_breaker (shared_state p a.before) o.breaker) o.result

abbrev pub attempts : {T : Type 0} → Final T → ℕ
attempts (returned p r n) = n
attempts (panicked n) = n

module _ {T : Type 0} (model : Text) (cx : Context) (world : ℕ → Attempt T) where
  -- What the loop owes after a turn: an end within the limit.
  abbrev EndsBy : ℕ → Option (Final T) → Type 0
  EndsBy most o = (f : Final T) × (o ≡ some f) × (attempts f ≤ most)

  pub loop-stop :
      (fuel n : ℕ) (p q : ResilientProvider) (r : Result Error T)
      → attempt_once model cx (suc n) (world (suc n)) p ≡ stop q r
      → loop model cx world (suc fuel) n p ≡ some (returned q r (suc n))
  unfolding loop
  loop-stop fuel n p q r h = rw (h, loop) refl

  pub loop-panics :
      (fuel n : ℕ) (p : ResilientProvider)
      → attempt_once model cx (suc n) (world (suc n)) p ≡ panics
      → loop model cx world (suc fuel) n p ≡ some (panicked (suc n))
  unfolding loop
  loop-panics fuel n p h = rw (h, loop) refl

  pub loop-retry :
      (fuel n : ℕ) (p q : ResilientProvider) (v : Option ProviderRetryScheduled)
      → attempt_once model cx (suc n) (world (suc n)) p ≡ retry q v
      → loop model cx world (suc fuel) n p ≡ loop model cx world fuel (suc n) q
  unfolding loop
  loop-retry fuel n p q v h = rw (h, loop) refl

  loop_total :
      (fuel n : ℕ) (s : RetrySettings) (p : ResilientProvider)
      → p.schedule.settings ≡ s
      → n < max_attempts s
      → max_attempts s ≤ n + fuel
      → EndsBy (max_attempts s) (loop model cx world fuel n p)
  loop_total zero n s p e left enough = absurd (omega arith)
  loop_total (suc fuel) n s p e left enough =
      turn (attempt_once model cx (suc n) (world (suc n)) p) refl
        (attempt_once-Retries model cx (suc n) (world (suc n)) p)
        (λ q e' left'. loop_total fuel (suc n) s q e' left' (omega arith))
    where
      turn :
          (t : Turn T)
          → attempt_once model cx (suc n) (world (suc n)) p ≡ t
          → Retries (suc n) p.schedule.settings (attempt_once model cx (suc n) (world (suc n)) p)
          → ((q : ResilientProvider)
              → q.schedule.settings ≡ s
              → suc n < max_attempts s
              → EndsBy (max_attempts s) (loop model cx world fuel (suc n) q))
          → EndsBy (max_attempts s) (loop model cx world (suc fuel) n p)
      turn (stop q r) h k rest = (returned q r (suc n), loop-stop fuel n p q r h, omega arith)
      turn (retry q v) h k rest =
          let (same, more) = rw h at k in
          let (f, ends, few) = rest q (same ∙ e) (rw e at more) in
          (f, loop-retry fuel n p q v h ∙ ends, few)
      turn panics h k rest = (panicked (suc n), loop-panics fuel n p h, omega arith)

-- The retry loop always ends, after at most the configured number of attempts (one, if that is set
-- to zero), whatever the provider, the clock and the other callers do.
pub with_retries_total :
    {T : Type 0} (model : Text) (cx : Context) (world : ℕ → Attempt T) (p : ResilientProvider)
    → (f : Final T) × (with_retries model cx world p ≡ some f)
      × (attempts f ≤ max p.schedule.settings.max_attempts 1)
unfolding with_retries max_attempts
with_retries_total model cx world p =
    loop_total model cx world (max_attempts p.schedule.settings) 0 p.schedule.settings p refl
      (omega arith) (omega arith)
