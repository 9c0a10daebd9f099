-- ===== src/Scheduler/Cron/Wrapping.antt =====
-- A step close to the largest `u32`, crates/scheduler/src/cron.rs.
use ai_kernel.Prelude.{
  ℕ, zero, suc, ◌+◌, ◌-◌, ◌%◌, ◌≤◌, ◌<◌, ◌≡◌, refl, inl, true, List, Bool, arith, length,
}
use ai_kernel.Scheduler.Cron.{u32_size, set_true, get, include}
use ai_kernel.Scheduler.Cron.Fields.{length-set_true, get-set_true}

wraps : (v d : ℕ) → d ≤ v → 0 < d → v < u32_size → (v + (u32_size - d)) % u32_size ≡ v - d
wraps v d h pos small = omega arith

include-keeps :
    (fuel v end step w : ℕ) (bs : List Bool)
    → end < length bs
    → get bs w ≡ true
    → get (include fuel v end step bs) w ≡ true
unfolding include
include-keeps zero v end step w bs long h = h
include-keeps (suc fuel) v end step w bs long h =
    let later =
      include-keeps fuel ((v + step) % u32_size) end step w (set_true bs v)
        (rw (length-set_true bs v) long) in
    ground (arith, later, get-set_true bs v w)

include-next :
    (fuel v end step : ℕ) (bs : List Bool)
    → v ≤ end
    → include (suc fuel) v end step bs
      ≡ include fuel ((v + step) % u32_size) end step (set_true bs v)
unfolding include
include-next fuel v end step bs h = ground arith

-- A part whose step is `d` below 2^32 also includes the value `d` below its first one, which it does not
-- ask for.
pub include-wraps :
    (fuel v end d : ℕ) (bs : List Bool)
    → v ≤ end
    → 0 < d
    → d ≤ v
    → end < length bs
    → end < u32_size
    → get (include (suc (suc fuel)) v end (u32_size - d) bs) (v - d) ≡ true
include-wraps fuel v end d bs below pos h long small =
    let wide : end < length (set_true bs v) = rw (length-set_true bs v) long in
    rw
      (
        include-next (suc fuel) v end (u32_size - d) bs below,
        wraps v d h pos (omega arith),
        include-next fuel (v - d) end (u32_size - d) (set_true bs v) (omega arith),
      )
      (include-keeps fuel ((v - d + (u32_size - d)) % u32_size) end (u32_size - d) (v - d)
        (set_true (set_true bs v) (v - d)) (rw (length-set_true (set_true bs v) (v - d)) wide)
        ((get-set_true (set_true bs v) (v - d) (v - d) (omega arith)).1 (inl refl)))
