-- ===== src/Quota/Ledger/Rows.antt =====
-- What a charge does to the counters, crates/quota/src/ledger.rs.
use ai_kernel.Prelude.{
  Text, text_eq, text_eq_iff, text_eq_refl, ◌≡◌, refl, ap, ◌∙◌, Bool, true, false, not, ◌&&◌, List,
  [], ◌∷◌, arith, keep_if, Bool-cases, inl, inr,
}
use ai_kernel.Quota.Ledger.{
  QuotaPeriod, Counters, Row, is_row, read, insert, is_closed, text_lt, period_prefix, add,
  saturating_add,
}

text_lt-irreflexive : (t : Text) → text_lt t t ≡ false
unfolding text_lt
text_lt-irreflexive [] = refl
text_lt-irreflexive (x ∷ t) = ground (arith, text_lt-irreflexive t)

read-insert : (rows : List Row) (s w : Text) (c : Counters) → read (insert rows s w c) s w ≡ c
unfolding read insert is_row
read-insert [] s w c = ground (arith, text_eq_refl s, text_eq_refl w)
read-insert (r ∷ rows) s w c = ground (arith, read-insert rows s w c)

-- A row of one key is a row of another exactly where the keys are the same.
is_row-key : (s w : Text) (r : Row) → is_row s w r ≡ true → (r.subject ≡ s) × (r.window ≡ w)
unfolding is_row
is_row-key s w r h = (
  (text_eq_iff r.subject s).0 (ground (arith, h)),
  (text_eq_iff r.window w).0 (ground (arith, h)),
)

is_row-other :
    (s w s' w' : Text) (r : Row)
    → is_row s w r ≡ true
    → is_row s' w' r ≡ (text_eq s s' && text_eq w w')
unfolding is_row
is_row-other s w s' w' r h = let (e, f) = is_row-key s w r h in rw (e, f) refl

is_new :
    (s w s' w' : Text) (c : Counters)
    → (text_eq s s' && text_eq w w') ≡ false
    → is_row s' w' (record { subject = s; window = w; counters = c }) ≡ false
unfolding is_row
is_new s w s' w' c h = h

is_row-counters :
    (s w : Text) (r : Row) (c : Counters) → is_row s w (record r { counters = c }) ≡ is_row s w r
unfolding is_row
is_row-counters s w r c = refl

read-insert_other :
    (rows : List Row) (s w s' w' : Text) (c : Counters)
    → (text_eq s s' && text_eq w w') ≡ false
    → read (insert rows s w c) s' w' ≡ read rows s' w'
unfolding read insert
read-insert_other [] s w s' w' c h = rw (is_new s w s' w' c h) refl
read-insert_other (r ∷ rows) s w s' w' c h = elim (Bool-cases (is_row s w r)) [
  | inl mine ↦ ground (arith, mine, h, is_row-other s w s' w' r mine, is_row-counters s' w' r c)
  | inr other ↦ ground (arith, other, read-insert_other rows s w s' w' c h)
]

-- Dropping rows that are not the one asked for changes no answer.
read-keep_if :
    (keep : Row → Bool) (rows : List Row) (s w : Text)
    → ((r : Row) → is_row s w r ≡ true → keep r ≡ true)
    → read (keep_if keep rows) s w ≡ read rows s w
unfolding read
read-keep_if keep [] s w h = refl
read-keep_if keep (r ∷ rows) s w h =
    let rest = read-keep_if keep rows s w h in
    elim (Bool-cases (keep r)) [
      | inl kept ↦ ground (arith, kept, rest)
      | inr dropped ↦ elim (Bool-cases (is_row s w r)) [
        | inl mine ↦ cc (h r mine, dropped)
        | inr other ↦ ground (arith, dropped, other, rest)
      ]
    ]

pub strangers : (s t : Text) → text_eq s t ≡ false → text_eq t s ≡ false
strangers s t h = elim (Bool-cases (text_eq t s)) [
  | inl e ↦ cc (h, text_eq_refl s, (text_eq_iff t s).0 e)
  | inr e ↦ e
]

current-kept :
    (s : Text) (p : QuotaPeriod) (w : Text) (r : Row)
    → is_row s w r ≡ true
    → not (is_closed s p w r) ≡ true
unfolding is_closed
current-kept s p w r h =
    let (_, same) = is_row-key s w r h in
    ground (arith, ap (λ v. text_lt v w) same ∙ text_lt-irreflexive w)

stranger-kept :
    (s s' : Text) (p : QuotaPeriod) (w w' : Text)
    → text_eq s s' ≡ false
    → (r : Row) → is_row s' w' r ≡ true
    → not (is_closed s p w r) ≡ true
unfolding is_closed
stranger-kept s s' p w w' strange r h =
    let (same, _) = is_row-key s' w' r h in
    let off : text_eq r.subject s ≡ false = rw same (strangers s s' strange) in ground (arith, off)

-- A charge is added to the counters of its subject and window, and is not lost when the windows that
-- are over are dropped.
pub read-add :
    (rows : List Row) (s : Text) (p : QuotaPeriod) (w : Text) (delta : Counters)
    → read (add rows s p w delta) s w ≡ saturating_add (read rows s w) delta
unfolding add
read-add rows s p w delta =
    read-keep_if (λ r. not (is_closed s p w r)) _ s w (current-kept s p w)
    ∙ read-insert rows s w (saturating_add (read rows s w) delta)

-- A charge changes the counters of no other subject.
pub read-add_other :
    (rows : List Row) (s s' : Text) (p : QuotaPeriod) (w w' : Text) (delta : Counters)
    → text_eq s s' ≡ false
    → read (add rows s p w delta) s' w' ≡ read rows s' w'
unfolding add
read-add_other rows s s' p w w' delta h =
    read-keep_if (λ r. not (is_closed s p w r)) _ s' w' (stranger-kept s s' p w w' h)
    ∙ read-insert_other rows s w s' w' (saturating_add (read rows s w) delta) (ground (arith, h))

open-kept :
    (s : Text) (p : QuotaPeriod) (w w' : Text)
    → (not (text_lt w' (period_prefix p)) && text_lt w' w) ≡ false
    → (r : Row) → is_row s w' r ≡ true
    → not (is_closed s p w r) ≡ true
unfolding is_closed
open-kept s p w w' still_open r h =
    let (_, same) = is_row-key s w' r h in
    let here : (not (text_lt r.window (period_prefix p)) && text_lt r.window w) ≡ false =
      rw same still_open in
    ground (arith, here)

-- A charge changes no window of another period: none whose row is another one and is not over.
pub read-add_window :
    (rows : List Row) (s : Text) (p : QuotaPeriod) (w w' : Text) (delta : Counters)
    → text_eq w w' ≡ false
    → (not (text_lt w' (period_prefix p)) && text_lt w' w) ≡ false
    → read (add rows s p w delta) s w' ≡ read rows s w'
unfolding add
read-add_window rows s p w w' delta h still_open =
    read-keep_if (λ r. not (is_closed s p w r)) _ s w' (open-kept s p w w' still_open)
    ∙ read-insert_other rows s w s w' (saturating_add (read rows s w) delta) (ground (arith, h))
