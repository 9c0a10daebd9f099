-- ===== src/Resilience/Retry/Answer.antt =====
-- What the retry loop returns, crates/resilience/src/provider.rs.
use ai_kernel.Prelude.{
  Text, ℕ, zero, suc, ◌≡◌, inl, inr, refl, ◌∙◌, Bool, true, false, Option, none, some, arith,
  Result, ok, err, Bool-cases, if◌then◌else◌, sym,
}
use ai_kernel.Resilience.Failure.{Error, TransientFailure, cancelled, transient_failure}
use ai_kernel.Resilience.Breaker.{admit, record_failure}
use ai_kernel.Resilience.Backoff.{Backoff, BackoffSchedule, wait, exhausted}
use ai_kernel.Resilience.Backoff
use ai_kernel.Resilience.Limit.{Permit}
use ai_kernel.Resilience.Retry.{
  Context, ResilientProvider, Attempt, Turn, stop, retry, panics, returned, backed_off, failed,
  answered, slotted, admitted, attempt_once, loop, with_retries, shared_state, shared_jitter,
  set_breaker, ProviderRetryScheduled, affordable,
}
use mathlib.Core.Path.{subst₂}
use ai_kernel.Resilience.Retry.Attempts.{loop-stop, loop-panics, loop-retry}

-- What the breaker of this provider, as the other callers left it, says to an attempt.
abbrev pub verdict : {T : Type 0} → ResilientProvider → Attempt T → Result Error (Unit {0})
verdict p a = (admit (shared_state p a.before).breaker a.admit_at).result

-- The breaker lets the attempt through, and it gets a slot: the inner provider is called.
pub data IsCalled {T : Type 0} (p : ResilientProvider) (a : Attempt T) : Type 0 where
  called : (slot : Permit) → verdict p a ≡ ok tt → a.acquired ≡ ok slot → IsCalled p a

-- Where an attempt's error comes from, each after what comes before it went well.
pub data Blames {T : Type 0} (p : ResilientProvider) (a : Attempt T) (e : Error) : Type 0 where
  the_breaker : verdict p a ≡ err e → Blames p a e
  the_limit : verdict p a ≡ ok tt → a.acquired ≡ err e → Blames p a e
  the_provider : IsCalled p a → a.outcome ≡ err e → Blames p a e
  the_caller :
      (x : Error)
      → IsCalled p a
      → a.outcome ≡ err x
      → a.is_cancelled ≡ true
      → e ≡ cancelled
      → Blames p a e

-- A call's answer in terms of its last attempt, and of the provider that made it.
abbrev pub Answers : {T : Type 0} → ResilientProvider → Attempt T → Result Error T → Type 0
Answers p a (ok v) = IsCalled p a × (a.outcome ≡ ok v)
Answers p a (err e) = Blames p a e

-- An attempt that ends the call ends it with such an answer.
abbrev Accounts : {T : Type 0} → ResilientProvider → Attempt T → Turn T → Type 0
Accounts p a (stop q r) = Answers p a r
Accounts p a (retry q v) = Unit
Accounts p a panics = Unit

module _ {T : Type 0} (model : Text) (cx : Context) (number : ℕ) (a : Attempt T)
    (first : ResilientProvider) where
  cancelled-Accounts :
      (b : Bool) (q p : ResilientProvider) (v : Option ProviderRetryScheduled) (x : Error)
      → IsCalled first a
      → a.outcome ≡ err x
      → a.is_cancelled ≡ b
      → Accounts first a (if b then stop q (err cancelled) else retry p v)
  cancelled-Accounts true q p v x c o h = the_caller x c o h refl
  cancelled-Accounts false q p v x c o h = tt

  backed_off-Accounts :
      (p : ResilientProvider) (e : Error) (o : Option (BackoffSchedule × Backoff))
      → IsCalled first a
      → a.outcome ≡ err e
      → Accounts first a (backed_off model cx number a p e o)
  unfolding backed_off
  backed_off-Accounts p e none c h = tt
  backed_off-Accounts p e (some (s, exhausted)) c h = the_provider c h
  backed_off-Accounts p e (some (s, wait d k)) c h =
      elim (Bool-cases (affordable cx.deadline d a.affordable_at)) [
        | inl y ↦ rw y (cancelled-Accounts a.is_cancelled _ _ _ e c h refl)
        | inr n ↦ rw n (the_provider c h)
      ]

  failed-Accounts :
      (p : ResilientProvider) (e : Error) (o : Option TransientFailure)
      → IsCalled first a
      → a.outcome ≡ err e
      → Accounts first a (failed model cx number a p e o)
  unfolding failed
  failed-Accounts p e none c h = the_provider c h
  failed-Accounts p e (some f) c h =
      let b = (record_failure p.breaker a.recorded_at).breaker in
      let q = shared_jitter (set_breaker p b) a.jitter in
      backed_off-Accounts q e (Backoff.after q.schedule number f.retry_after) c h

  answered-Accounts :
      (p : ResilientProvider) (r : Result Error T)
      → IsCalled first a
      → a.outcome ≡ r
      → Accounts first a (answered model cx number a p r)
  unfolding answered
  answered-Accounts p (ok v) c h = (c, h)
  answered-Accounts p (err e) c h = failed-Accounts p e (transient_failure e) c h

  slotted-Accounts :
      (p : ResilientProvider) (r : Result Error Permit)
      → verdict first a ≡ ok tt
      → a.acquired ≡ r
      → Accounts first a (slotted model cx number a p r)
  unfolding slotted
  slotted-Accounts p (err e) v h = the_limit v h
  slotted-Accounts p (ok u) v h =
      answered-Accounts (shared_state p a.during) a.outcome (called u v h) refl

  admitted-Accounts :
      (p : ResilientProvider) (r : Result Error (Unit {0}))
      → verdict first a ≡ r
      → Accounts first a (admitted model cx number a p r)
  unfolding admitted
  admitted-Accounts p (err e) h = the_breaker h
  admitted-Accounts p (ok u) h = slotted-Accounts p a.acquired h refl

  attempt_once-Accounts : Accounts first a (attempt_once model cx number a first)
  unfolding attempt_once
  attempt_once-Accounts =
      let b = (shared_state first a.before).breaker in
      admitted-Accounts (set_breaker (shared_state first a.before) (admit b a.admit_at).breaker)
        (verdict first a) refl

module _ {T : Type 0} (model : Text) (cx : Context) (world : ℕ → Attempt T) where
  -- What a provider is after a number of attempts, each of which is to be retried.
  pub data Retried (start : ResilientProvider) : ℕ → ResilientProvider → Type 0 where
    at_first : Retried start 0 start
    once_more :
        (n : ℕ) (p q : ResilientProvider) (event : Option ProviderRetryScheduled)
        → Retried start n p
        → attempt_once model cx (suc n) (world (suc n)) p ≡ retry q event
        → Retried start (suc n) q

  -- The call ends with attempt `m`, which the provider makes that the retries before it left.
  pub record EndsAt (start : ResilientProvider) (r : Result Error T) (m : ℕ) : Type 0 where
    pub retries : ℕ
    pub last : ResilientProvider
    pub is_next : m ≡ suc retries
    pub is_retried : Retried start retries last
    pub answers : Answers last (world m) r

  loop-EndsAt :
      (start : ResilientProvider) (fuel n : ℕ) (p q : ResilientProvider) (r : Result Error T)
      (m : ℕ)
      → Retried start n p
      → loop model cx world fuel n p ≡ some (returned q r m)
      → EndsAt start r m
  unfolding loop
  loop-EndsAt start zero n p q r m so_far h = cc
  loop-EndsAt start (suc fuel) n p q r m so_far h =
      turn (attempt_once model cx (suc n) (world (suc n)) p) refl
        (attempt_once-Accounts model cx (suc n) (world (suc n)) p)
        (λ p'. loop-EndsAt start fuel (suc n) p' q r m)
    where
      turn :
          (t : Turn T)
          → attempt_once model cx (suc n) (world (suc n)) p ≡ t
          → Accounts p (world (suc n)) (attempt_once model cx (suc n) (world (suc n)) p)
          → ((p' : ResilientProvider)
              → Retried start (suc n) p'
              → loop model cx world fuel (suc n) p' ≡ some (returned q r m)
              → EndsAt start r m)
          → EndsAt start r m
      turn (stop q' r') e k rest =
          let same = sym (loop-stop model cx world fuel n p q' r' e) ∙ h in
          let at_m : suc n ≡ m = ground (arith, same) in
          let answer : r' ≡ r = ground (arith, same) in
          record {
            retries = n;
            last = p;
            is_next = sym at_m;
            is_retried = so_far;
            answers = subst₂ (λ i x. Answers p (world i) x) at_m answer (rw e at k);
          }
      turn (retry q' v) e k rest =
          rest q' (once_more n p q' v so_far e)
            (sym (loop-retry model cx world fuel n p q' v e) ∙ h)
      turn panics e k rest =
          absurd (ground (arith, sym (loop-panics model cx world fuel n p e) ∙ h))

  -- A call that returns does so with its last attempt, after attempts that were all to be retried. A
  -- value is the inner provider's own, to an attempt that the breaker of the provider let through and
  -- that got a slot. An error is the inner provider's own to such an attempt, or, where that failed, the
  -- caller's cancellation of the wait after it; any other error is the breaker's refusal of the
  -- attempt, or, where the breaker let it through, the limiter's.
  pub with_retries-Answers :
      (p q : ResilientProvider) (r : Result Error T) (m : ℕ)
      → with_retries model cx world p ≡ some (returned q r m)
      → EndsAt p r m
  unfolding with_retries
  with_retries-Answers p q r m h = loop-EndsAt p _ 0 p q r m at_first h
