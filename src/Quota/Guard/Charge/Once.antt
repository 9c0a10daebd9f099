-- ===== src/Quota/Guard/Charge/Once.antt =====
-- A subject is charged once per period, crates/quota/src/guard.rs.
use mathlib.Core.Path.{subst}
use ai_kernel.Prelude.{
  Text, text_eq, ℕ, ◌≡◌, ◌≢◌, refl, ap, ◌∙◌, sym, Bool, false, not, ◌&&◌, ◌||◌, List, [], ◌∷◌, ◌==◌,
  arith, if◌then◌else◌, Bool-cases, ==_iff, inl, inr, ok,
}
use ai_kernel.Quota.Ledger.{
  QuotaPeriod, Counters, Row, read, text_lt, period_prefix, add, saturating_add,
}
use ai_kernel.Quota.Ledger.Rows.{read-add, read-add_window}
use ai_kernel.Quota.Guard.{Readings, window_now}
use ai_kernel.Quota.Period.{Window}
use ai_kernel.Quota.Guard.Charge.{rank, charge_periods}

-- The first character of a period's keys.
abbrev pub initial : QuotaPeriod → ℕ
initial QuotaPeriod.hour = 104
initial QuotaPeriod.day = 100
initial QuotaPeriod.week = 119
initial QuotaPeriod.month = 109
initial QuotaPeriod.total = 116

-- The windows of all periods are known, and the key of each begins as the period's keys do.
pub record HasWindows (readings : Readings) : Type 0 where
  pub of : QuotaPeriod → Window
  pub is_window : (p : QuotaPeriod) → window_now readings p ≡ ok (of p)
  pub rest : QuotaPeriod → Text
  pub is_key : (p : QuotaPeriod) → (of p).key ≡ initial p ∷ rest p

-- Whether the period of a rank is in the list.
abbrev pub listed : ℕ → List QuotaPeriod → Bool
listed n [] = false
listed n (q ∷ ps) = (rank q == n) || listed n ps

abbrev pub Distinct : List QuotaPeriod → Type 0
Distinct [] = Unit
Distinct (p ∷ ps) = (listed (rank p) ps ≡ false) × Distinct ps

prefix-initial : (p : QuotaPeriod) → (t : Text) × (period_prefix p ≡ initial p ∷ t)
unfolding period_prefix
prefix-initial QuotaPeriod.hour = (_, refl)
prefix-initial QuotaPeriod.day = (_, refl)
prefix-initial QuotaPeriod.week = (_, refl)
prefix-initial QuotaPeriod.month = (_, refl)
prefix-initial QuotaPeriod.total = (_, refl)

initial_rank : ℕ → ℕ
initial_rank n =
    if n == 104
    then 0
    else if n == 100
    then 1
    else if n == 119
    then 2
    else if n == 109
    then 3
    else 4

initial_rank-initial : (p : QuotaPeriod) → initial_rank (initial p) ≡ rank p
unfolding initial_rank rank
initial_rank-initial QuotaPeriod.hour = refl
initial_rank-initial QuotaPeriod.day = refl
initial_rank-initial QuotaPeriod.week = refl
initial_rank-initial QuotaPeriod.month = refl
initial_rank-initial QuotaPeriod.total = refl

ranked : ℕ → QuotaPeriod
ranked n =
    if n == 0
    then QuotaPeriod.hour
    else if n == 1
    then QuotaPeriod.day
    else if n == 2
    then QuotaPeriod.week
    else if n == 3
    then QuotaPeriod.month
    else QuotaPeriod.total

ranked-rank : (p : QuotaPeriod) → ranked (rank p) ≡ p
unfolding ranked rank
ranked-rank QuotaPeriod.hour = refl
ranked-rank QuotaPeriod.day = refl
ranked-rank QuotaPeriod.week = refl
ranked-rank QuotaPeriod.month = refl
ranked-rank QuotaPeriod.total = refl

pub rank-injective : (p q : QuotaPeriod) → rank q ≡ rank p → q ≡ p
rank-injective p q h = sym (ranked-rank q) ∙ ap ranked h ∙ ranked-rank p

initial-distinct : (p q : QuotaPeriod) → rank q ≢ rank p → initial q ≢ initial p
initial-distinct p q h e =
    h (sym (initial_rank-initial q) ∙ ap initial_rank e ∙ initial_rank-initial p)

heads_open :
    (c d : ℕ) (s t u : Text)
    → c ≢ d
    → (not (text_lt (c ∷ s) (d ∷ t)) && text_lt (c ∷ s) (d ∷ u)) ≡ false
unfolding text_lt
heads_open c d s t u h = ground arith

heads_differ : (c d : ℕ) (s u : Text) → c ≢ d → text_eq (d ∷ u) (c ∷ s) ≡ false
unfolding text_eq
heads_differ c d s u h = ground arith

module _ (readings : Readings) (known : HasWindows readings) (delta : Counters)
    (subject : Text) where
  -- The counters of the subject in the window of a period.
  abbrev pub spent : List Row → QuotaPeriod → Counters
  spent rows p = read rows subject (known.of p).key

  spent-other :
      (rows : List Row) (p q : QuotaPeriod)
      → rank q ≢ rank p
      → spent (add rows subject q (known.of q).key delta) p ≡ spent rows p
  spent-other rows p q h =
      let differ = λ (e : initial p ≡ initial q). initial-distinct p q h (sym e) in
      let (t, is_prefix) = prefix-initial q in
      read-add_window rows subject q (known.of q).key (known.of p).key delta
        (rw (known.is_key p, known.is_key q)
          (heads_differ (initial p) (initial q) (known.rest p) (known.rest q) differ))
        (rw (known.is_key p, known.is_key q, is_prefix)
          (heads_open (initial p) (initial q) (known.rest p) t (known.rest q) differ))

  pub charge_periods-step :
      (q : QuotaPeriod) (ps : List QuotaPeriod) (rows : List Row)
      → charge_periods readings delta subject (q ∷ ps) rows
        ≡ charge_periods readings delta subject ps (add rows subject q (known.of q).key delta)
  unfolding charge_periods
  charge_periods-step q ps rows = rw (charge_periods, known.is_window q) refl

  spent-same :
      (rows : List Row) (p q : QuotaPeriod)
      → rank q ≡ rank p
      → spent (add rows subject q (known.of q).key delta) p ≡ saturating_add (spent rows p) delta
  spent-same rows p q e =
      subst
        (λ r.
          spent (add rows subject q (known.of q).key delta) r ≡ saturating_add (spent rows r) delta)
        (rank-injective p q e) (read-add rows subject q (known.of q).key delta)

  -- Charging a subject for distinct periods adds the charge exactly once to the window of each of them,
  -- and leaves the windows of the other periods as they are.
  pub charge_periods_once :
      (ps : List QuotaPeriod) (rows : List Row) (p : QuotaPeriod)
      → Distinct ps
      → ((charge_periods readings delta subject ps rows).1 ≡ ok tt)
        × (spent (charge_periods readings delta subject ps rows).0 p
            ≡ (if listed (rank p) ps then saturating_add (spent rows p) delta else spent rows p))
  unfolding charge_periods
  charge_periods_once [] rows p h = (refl, refl)
  charge_periods_once (q ∷ ps) rows p h =
      let rows' = add rows subject q (known.of q).key delta in
      let (ends, rest) = charge_periods_once ps rows' p h.1 in
      elim (Bool-cases (rank q == rank p)) [
        | inl same ↦
            let e = (==_iff (rank q) (rank p)).0 same in
            let no_more = subst (λ n. listed n ps ≡ false) e h.0 in
            rw (charge_periods-step q ps rows, same)
              (ends, rest ∙ rw no_more (spent-same rows p q e))
        | inr other ↦
            let differ : rank q ≢ rank p = λ e. cc ((==_iff (rank q) (rank p)).1 e, other) in
            rw (charge_periods-step q ps rows, other)
              (ends, rest ∙ rw (spent-other rows p q differ) refl)
      ]
