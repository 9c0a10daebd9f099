-- ===== src/Scheduler/State/Occurrence.antt =====
-- Where a periodic job goes next, crates/scheduler/src/state.rs.
use native.Mathlib.Nat.{mod-lt, div-add-mod', div-le_self}
use ai_kernel.Prelude.{
  ℕ, suc, ◌+◌, ◌-◌, ◌*◌, ◌/◌, ◌≤◌, ◌<◌, ◌≡◌, ◌⊎◌, refl, inl, inr, min, max, false, arith, ltb,
  lt→ltb, u64_max, saturating_add as add64, saturating_mul,
}
use ai_kernel.Clock.{Timestamp, Duration, as_millis}
use ai_kernel.Scheduler.Cron.Fields.{ltb-cases}
use ai_kernel.Scheduler.State.{next_occurrence}

module _ (anchor now i : ℕ) (pos : 0 < i) (room : now + i ≤ u64_max) (late : anchor ≤ now) where
  steps_fit : (now - anchor) / i + 1 ≤ u64_max
  steps_fit = omega (arith, div-add-mod' (now - anchor) i, div-le_self (now - anchor) i)

  occurrence-later : now < anchor + suc ((now - anchor) / i) * i
  occurrence-later = omega (arith, div-add-mod' (now - anchor) i, mod-lt (now - anchor) pos)

  occurrence-close : anchor + suc ((now - anchor) / i) * i ≤ now + i
  occurrence-close = omega (arith, div-add-mod' (now - anchor) i, mod-lt (now - anchor) pos)

  saturated :
      add64 anchor
        (saturating_mul (add64 ((now - anchor) / max (min i u64_max) 1) 1) (max (min i u64_max) 1))
      ≡ anchor + suc ((now - anchor) / i) * i
  saturated =
      let clamped : max (min i u64_max) 1 ≡ i = omega arith in
      let counted : min ((now - anchor) / i + 1) u64_max ≡ suc ((now - anchor) / i) =
        omega (arith, steps_fit) in
      rw (clamped, counted) (omega (arith, occurrence-close))

next_occurrence-early :
    (anchor now : Timestamp) (interval : Duration)
    → now < anchor
    → next_occurrence anchor interval now ≡ anchor
unfolding next_occurrence
next_occurrence-early anchor now interval h = rw (lt→ltb now anchor h) refl

next_occurrence-late :
    (anchor now : Timestamp) (interval : Duration)
    → 0 < as_millis interval
    → now + as_millis interval ≤ u64_max
    → anchor ≤ now
    → next_occurrence anchor interval now
      ≡ anchor + suc ((now - anchor) / as_millis interval) * as_millis interval
unfolding next_occurrence
next_occurrence-late anchor now interval pos room late =
    let off : ltb now anchor ≡ false = ground arith in
    rw off (saturated anchor now (as_millis interval) pos room late)

-- Of a job that repeats every `i` milliseconds, at least one, the next occurrence is the first one
-- strictly after now: it is later than now, a whole number of intervals after the anchor, and at most
-- one interval after now unless it is the anchor itself. This holds up to one interval before the
-- largest timestamp.
pub next_occurrence-first :
    (anchor now : Timestamp) (interval : Duration)
    → 0 < as_millis interval
    → now + as_millis interval ≤ u64_max
    → (now < next_occurrence anchor interval now)
      × ((k : ℕ) × (next_occurrence anchor interval now ≡ anchor + k * as_millis interval))
      × ((next_occurrence anchor interval now ≡ anchor)
          ⊎ (next_occurrence anchor interval now ≤ now + as_millis interval))
next_occurrence-first anchor now interval pos room = elim (ltb-cases now anchor) [
  | inl early ↦
      rw (next_occurrence-early anchor now interval early) (early, (0, omega arith), inl refl)
  | inr late ↦
      let i = as_millis interval in
      rw (next_occurrence-late anchor now interval pos room late) (
        occurrence-later anchor now i pos room late,
        (suc ((now - anchor) / i), refl),
        inr (occurrence-close anchor now i pos room late),
      )
]
