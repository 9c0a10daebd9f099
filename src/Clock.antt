-- ===== src/Clock.antt =====
-- crates/core/src/clock.rs: timestamps. A `Timestamp` is its milliseconds, a `u64`; a `Duration`
-- of the standard library is its nanoseconds, and `as_millis` is a `u128`, cut to `u64` by `as`.
pub mod Saturation
use ai_kernel.Prelude.{ℕ, ◌+◌, ◌-◌, ◌*◌, ◌/◌, ◌%◌, u64_size, saturating_add as add64}

abbrev pub Timestamp : Type 0
Timestamp = ℕ

abbrev pub Duration : Type 0
Duration = ℕ

abbrev pub epoch : Timestamp
epoch = 0

-- `Duration::from_millis`.
abbrev pub from_millis : ℕ → Duration
from_millis ms = ms * 1000000

-- `Duration::as_millis`.
abbrev pub as_millis : Duration → ℕ
as_millis d = d / 1000000

unfoldable pub saturating_add : Timestamp → Duration → Timestamp
saturating_add t d = add64 t (as_millis d % u64_size)

unfoldable pub saturating_since : Timestamp → Timestamp → Duration
saturating_since t earlier = from_millis (t - earlier)

-- `ManualClock::advance` and `set`: the new reading of the clock.
unfoldable pub advance : Timestamp → Duration → Timestamp
advance clock d = (clock + as_millis d % u64_size) % u64_size

unfoldable pub set : Timestamp → Timestamp → Timestamp
set clock at = at
