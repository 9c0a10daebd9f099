-- ===== src/Resilience/Limit/Waiting.antt =====
-- When a call without a slot is given up, crates/resilience/src/limit.rs.
use ai_kernel.Prelude.{
  ◌-◌, ◌≤◌, ◌<◌, ◌≡◌, ◌⊎◌, inl, inr, refl, Bool, true, false, Option, none, some, err, arith,
}
use ai_kernel.Clock.{Timestamp, from_millis}
use ai_kernel.Resilience.Failure.{Error, TransientFailure, timeout, transient_failure}
use ai_kernel.Resilience.Limit.{
  ConcurrencyLimit, Race, cancellation, slot, shut, sleep, remaining_budget, wait_for, acquire,
}

-- An acquisition fails transiently, so that it is worth another attempt, only if the whole acquire
-- timeout has passed without a slot and the caller's deadline, if any, lies beyond that wait.
pub acquire-transient :
    (l : ConcurrencyLimit) (free : Bool) (deadline : Option Timestamp) (now : Timestamp)
    (race : Race) (e : Error) (f : TransientFailure)
    → acquire l free deadline now race ≡ err e
    → transient_failure e ≡ some f
    → (race ≡ sleep)
      × (wait_for l (remaining_budget deadline now) ≡ l.acquire_timeout)
      × ((deadline ≡ none)
          ⊎ ((d : Timestamp) × (deadline ≡ some d) × (l.acquire_timeout < from_millis (d - now))))
unfolding acquire wait_for remaining_budget transient_failure
acquire-transient l free none now cancellation e f h t = ground arith
acquire-transient l free none now slot e f h t = ground arith
acquire-transient l free none now shut e f h t = ground arith
acquire-transient l free none now sleep e f h t = (refl, refl, inl refl)
acquire-transient l free (some d) now cancellation e f h t = ground arith
acquire-transient l free (some d) now slot e f h t = ground arith
acquire-transient l free (some d) now shut e f h t = ground arith
acquire-transient l free (some d) now sleep e f h t =
    (refl, ground arith, inr (d, refl, ground arith))

-- A caller whose deadline has passed waits for no slot: unless one is free at once it is timed out.
pub acquire-late :
    (l : ConcurrencyLimit) (d now : Timestamp) (race : Race)
    → l.semaphore ≡ true
    → d ≤ now
    → acquire l false (some d) now race ≡ err (timeout 0)
unfolding acquire remaining_budget
acquire-late l d now race s late = ground arith
