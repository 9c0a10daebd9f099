-- ===== src/Resilience/Failure.antt =====
-- crates/api/src/resilience.rs: which errors are worth another attempt. An error is its own
-- message and the chain that `std::error::Error::source` walks; `foreign` is any other cause.
use ai_kernel.Prelude.{Text, ℕ, ◌||◌, Bool, Option, none, some, List, [], ◌∷◌, ◌==◌}
use ai_kernel.Clock.{Duration}

pub record TransientFailure : Type 0 where
  pub detail : Text
  pub retry_after : Option Duration

pub data Cause : Type 0 where
  transient : TransientFailure → Cause
  foreign : Text → Cause

pub data Error : Type 0 where
  cancelled : Error
  timeout : Duration → Error
  other : Text → List Cause → Error

-- `TransientFailure::new`, `after` and `wrapped`.
unfoldable pub new : Text → TransientFailure
new detail = record { detail = detail; retry_after = none }

unfoldable pub after : TransientFailure → Duration → TransientFailure
after f d = record f { retry_after = some d }

unfoldable pub wrapped : TransientFailure → Text → Error
wrapped f context = other context (transient f ∷ [])

-- The walk along the chain of sources.
unfoldable pub first_transient : List Cause → Option TransientFailure
first_transient [] = none
first_transient (transient f ∷ causes) = some f
first_transient (foreign t ∷ causes) = first_transient causes

unfoldable pub transient_failure : Error → Option TransientFailure
unfolding first_transient
transient_failure cancelled = none
transient_failure (timeout d) = none
transient_failure (other context causes) = first_transient causes

-- The HTTP statuses that are worth another attempt.
unfoldable pub transient_status : ℕ → Bool
transient_status s =
    (s == 408)
    || (s == 409)
    || (s == 429)
    || (s == 500)
    || (s == 502)
    || (s == 503)
    || (s == 504)
    || (s == 529)
