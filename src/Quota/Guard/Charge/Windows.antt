-- ===== src/Quota/Guard/Charge/Windows.antt =====
-- The keys of the windows, crates/quota/src/period.rs.
use ai_kernel.Prelude.{
  some, none, Text, codes, ℕ, ◌≡◌, ◌≢◌, refl, ◌∙◌, sym, ap, ◌∷◌, ok, arith, bind-ok, ok_injective,
}
use ai_kernel.Clock.{Timestamp}
use ai_kernel.Quota.Ledger.{QuotaPeriod, period_prefix}
use ai_kernel.Quota.Period.{Chrono, Window, window, bounds, bounded, utc, timestamp, ok_or_else}
use ai_kernel.Quota.Guard.{Readings, window_now}
use ai_kernel.Quota.Guard.Charge.Once.{initial, HasWindows}

-- chrono documents that a format copies every character but those of a `%` item.
abbrev pub Copies : Chrono → Type 0
Copies c = (x : ℕ) (t : Text) (d : c.DateTime) → x ≢ 37 → c.format (x ∷ t) d ≡ x ∷ c.format t d

module _ (c : Chrono) (copies : Copies c) where
  bounds-initial :
      (p : QuotaPeriod) (d : c.DateTime) → (rest : Text) × ((bounds c p d).0 ≡ initial p ∷ rest)
  unfolding bounds
  bounds-initial QuotaPeriod.hour d = (_, copies 104 (codes "our:%Y-%m-%dT%H") d (omega arith))
  bounds-initial QuotaPeriod.day d = (_, copies 100 (codes "ay:%Y-%m-%d") d (omega arith))
  bounds-initial QuotaPeriod.week d = (_, copies 119 (codes "eek:%G-W%V") d (omega arith))
  bounds-initial QuotaPeriod.month d = (_, copies 109 (codes "onth:%Y-%m") d (omega arith))
  bounds-initial QuotaPeriod.total d = (_, refl)

  bounded-initial :
      (p : QuotaPeriod) (t : Timestamp) (w : Window)
      → bounded c p t ≡ ok w
      → (rest : Text) × (w.key ≡ initial p ∷ rest)
  unfolding bounded
  bounded-initial p t w h =
      let (d, _, h2) = bind-ok (utc c t) _ w h in
      let (ends, _, h3) = bind-ok (ok_or_else (bounds c p d).1 _) _ w h2 in
      let found : Window = record { key = (bounds c p d).0; ends = some (timestamp c ends) } in
      let (rest, e) = bounds-initial p d in
      (rest, ap (λ v. v.key) (sym (ok_injective (ok found) found w refl h3)) ∙ e)

  pub window-initial :
      (p : QuotaPeriod) (t : Timestamp) (w : Window)
      → window c p t ≡ ok w
      → (rest : Text) × (w.key ≡ initial p ∷ rest)
  unfolding window period_prefix
  window-initial QuotaPeriod.hour t w h = bounded-initial QuotaPeriod.hour t w h
  window-initial QuotaPeriod.day t w h = bounded-initial QuotaPeriod.day t w h
  window-initial QuotaPeriod.week t w h = bounded-initial QuotaPeriod.week t w h
  window-initial QuotaPeriod.month t w h = bounded-initial QuotaPeriod.month t w h
  window-initial QuotaPeriod.total t w h =
      let found : Window = record { key = period_prefix QuotaPeriod.total; ends = none } in
      (_, ap (λ v. v.key) (sym (ok_injective (ok found) found w refl h)))

-- Now is an instant whose windows can be told.
abbrev pub AreKnown : Readings → Type 0
AreKnown readings = (p : QuotaPeriod) → (w : Window) × (window_now readings p ≡ ok w)

unfoldable pub windows_of :
    (readings : Readings) → Copies readings.chrono → AreKnown readings → HasWindows readings
windows_of readings copies known = record {
  of = λ p. (known p).0;
  is_window = λ p. (known p).1;
  rest = λ p. (window-initial readings.chrono copies p readings.now (known p).0 (known p).1).0;
  is_key = λ p. (window-initial readings.chrono copies p readings.now (known p).0 (known p).1).1;
}
