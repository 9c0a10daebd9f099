-- ===== src/Clock/Saturation.antt =====
-- How far time moves, crates/core/src/clock.rs.
use ai_kernel.Prelude.{◌+◌, ◌-◌, ◌≤◌, ◌<◌, ◌≡◌, min, arith, u64_max, u64_size}
use ai_kernel.Clock.{Timestamp, Duration, as_millis, from_millis, saturating_add, saturating_since}

-- Adding a duration below 2^64 milliseconds adds its whole milliseconds, up to the largest
-- timestamp, and the time since the start is then those milliseconds, or what there was room for.
pub saturating_add-exact :
    (t : Timestamp) (d : Duration)
    → t ≤ u64_max
    → as_millis d ≤ u64_max
    → (saturating_add t d ≡ min (t + as_millis d) u64_max)
      × (saturating_since (saturating_add t d) t ≡ from_millis (min (as_millis d) (u64_max - t)))
unfolding saturating_add saturating_since
saturating_add-exact t d h k = (omega arith, omega arith)

-- A duration of 2^64 milliseconds or more is not added in full, nor up to the largest timestamp:
-- the multiple of 2^64 milliseconds that it holds is lost, so a longer wait can end earlier.
pub saturating_add-loses :
    (t : Timestamp) (d : Duration)
    → t + as_millis d < u64_max
    → saturating_add t (d + from_millis u64_size) ≡ t + as_millis d
unfolding saturating_add
saturating_add-loses t d h = omega arith
