-- ===== src/Resilience/Limit.antt =====
-- crates/resilience/src/limit.rs: a slot for one call. The semaphore is tokio's: its answers (whether
-- a permit was free at once, and what ended the wait) are arguments.
pub mod Waiting
use ai_kernel.Prelude.{
  Text, codes, decimal, ℕ, ◌++◌, min, Bool, true, false, Option, none, some, leb, if◌then◌else◌,
  Result, ok, err, List, [], ltb,
}
use ai_kernel.Clock.{Timestamp, Duration, as_millis, saturating_since}
use ai_kernel.Resilience.Failure
use ai_kernel.Resilience.Failure.{Error, timeout, cancelled, other}

-- `semaphore` tells whether there is one.
pub record ConcurrencyLimit : Type 0 where
  pub semaphore : Bool
  pub acquire_timeout : Duration

unfoldable pub new : ℕ → Duration → ConcurrencyLimit
new permits acquire_timeout = record {
  semaphore = ltb 0 permits;
  acquire_timeout = acquire_timeout;
}

-- What the `select!` takes first.
pub data Race : Type 0 where
  cancellation slot shut sleep : Race

-- `Option<Permit>`: `unlimited` where there is no semaphore.
pub data Permit : Type 0 where
  unlimited held : Permit

unfoldable pub remaining_budget : Option Timestamp → Timestamp → Option Duration
unfolding saturating_since
remaining_budget none now = none
remaining_budget (some deadline) now = some (saturating_since deadline now)

-- The wait for a slot, given the budget that is left.
unfoldable pub wait_for : ConcurrencyLimit → Option Duration → Duration
wait_for l none = l.acquire_timeout
wait_for l (some budget) = min budget l.acquire_timeout

abbrev pub ends_by : Option Duration → Duration → Bool
ends_by none wait = false
ends_by (some budget) wait = leb budget wait

no_slot : Duration → Error
unfolding Failure.new Failure.wrapped
no_slot wait =
    Failure.wrapped
      (Failure.new
        (codes "no slot became free within " ++ (decimal (as_millis wait) ++ codes "ms")))
      (codes "waiting for a model provider slot")

race_result : Option Duration → Duration → Race → Result Error Permit
unfolding no_slot
race_result remaining wait cancellation = err cancelled
race_result remaining wait slot = ok held
race_result remaining wait shut =
    err (other (codes "the provider's concurrency limit was closed") [])
race_result remaining wait sleep =
    if ends_by remaining wait then err (timeout wait) else err (no_slot wait)

-- The part of `acquire` after `try_acquire_owned` found no permit.
unfoldable pub acquire_slowly : ConcurrencyLimit → Option Duration → Race → Result Error Permit
unfolding race_result
acquire_slowly l remaining race =
    if ends_by remaining 0
    then err (timeout 0)
    else race_result remaining (wait_for l remaining) race

unfoldable pub acquire :
    ConcurrencyLimit → Bool → Option Timestamp → Timestamp → Race → Result Error Permit
unfolding acquire_slowly
acquire l free deadline now race =
    if l.semaphore
    then if free then ok held else acquire_slowly l (remaining_budget deadline now) race
    else ok unlimited
