-- ===== src/Quota/Guard/Charge/Everyone.antt =====
-- A turn is charged once to everyone whom it counts for, crates/quota/src/guard.rs.
use mathlib.Core.Path.{subst}
use ai_kernel.Prelude.{
  Text, text_eq, text_eq_iff, ℕ, ◌≡◌, refl, ◌∙◌, Bool, true, false, ◌&&◌, ◌||◌, List, [], ◌∷◌,
  arith, if◌then◌else◌, Bool-cases, inl, inr, keep_if, Result, ok, err, Option, none, some,
}
use ai_kernel.Errors.{Error}
use ai_kernel.Policy.Permission.{Principal}
use ai_kernel.Quota.Ledger.{QuotaPeriod, Counters, Row, read, add, saturating_add}
use ai_kernel.Quota.Ledger.Rows.{read-add_other}
use ai_kernel.Quota.Document.{QuotaDocument, QuotaRule, UsageCharge, is_empty_document, is_empty}
use ai_kernel.Quota.Guard.{Readings, subjects, other_owner, rules_for}
use ai_kernel.Quota.Guard.Charge.{
  rank, has_period, all_periods, periods_for, charged, charge_periods, charge_subjects,
  record_charge,
}
use ai_kernel.Quota.Guard.Charge.Once.{
  HasWindows, listed, Distinct, charge_periods-step, charge_periods_once,
}

not-listed :
    (keep : QuotaPeriod → Bool) (n : ℕ) (ps : List QuotaPeriod)
    → listed n ps ≡ false
    → listed n (keep_if keep ps) ≡ false
not-listed keep n [] h = refl
not-listed keep n (p ∷ ps) h =
    let rest = not-listed keep n ps (ground arith) in ground (arith, rest)

keep_if-Distinct :
    (keep : QuotaPeriod → Bool) (ps : List QuotaPeriod) → Distinct ps → Distinct (keep_if keep ps)
keep_if-Distinct keep [] h = tt
keep_if-Distinct keep (p ∷ ps) (first, rest) = elim (Bool-cases (keep p)) [
  | inl kept ↦ rw kept (not-listed keep (rank p) ps first, keep_if-Distinct keep ps rest)
  | inr dropped ↦ rw dropped (keep_if-Distinct keep ps rest)
]

periods_for-Distinct : (d : QuotaDocument) (subject : Text) → Distinct (periods_for d subject)
unfolding periods_for rank
periods_for-Distinct d subject =
    keep_if-Distinct (λ p. has_period p (rules_for d subject)) all_periods
      (refl, (refl, (refl, (refl, (refl, tt)))))

abbrev pub member : Text → List Text → Bool
member s [] = false
member s (t ∷ ts) = text_eq t s || member s ts

abbrev DistinctTexts : List Text → Type 0
DistinctTexts [] = Unit
DistinctTexts (t ∷ ts) = (member t ts ≡ false) × DistinctTexts ts

owner-DistinctTexts :
    (id owner : Text) (same : Bool)
    → text_eq owner id ≡ same
    → DistinctTexts (id ∷ (if same then [] else owner ∷ []))
owner-DistinctTexts id owner true e = (refl, tt)
owner-DistinctTexts id owner false e = (ground (arith, e), (refl, tt))

pair-DistinctTexts : (id : Text) (o : Option Text) → DistinctTexts (id ∷ other_owner id o)
pair-DistinctTexts id none = (refl, tt)
pair-DistinctTexts id (some owner) = owner-DistinctTexts id owner (text_eq owner id) refl

subjects-DistinctTexts : (p : Principal) → DistinctTexts (subjects p)
unfolding subjects
subjects-DistinctTexts p = pair-DistinctTexts p.id p.on_behalf_of

proceeds :
    (x : List Row × Result Error (Unit {0})) (next : List Row → List Row × Result Error (Unit {0}))
    → x.1 ≡ ok tt
    → elim x.1 as (λ _. List Row × Result Error (Unit {0})) [
      | ok u ↦ next x.0
      | err e ↦ (x.0, err e)
    ]
      ≡ next x.0
proceeds (rows, ok u) next h = refl
proceeds (rows, err e) next h = cc

module _ (readings : Readings) (known : HasWindows readings) (delta : Counters) where
  -- A charge to one subject leaves the others' counters as they are.
  charge_periods-other :
      (t s : Text) (ps : List QuotaPeriod) (rows : List Row) (w : Text)
      → text_eq t s ≡ false
      → read (charge_periods readings delta t ps rows).0 s w ≡ read rows s w
  unfolding charge_periods
  charge_periods-other t s [] rows w h = refl
  charge_periods-other t s (q ∷ ps) rows w h =
      rw (charge_periods-step readings known delta t q ps rows) (
        charge_periods-other t s ps (add rows t q (known.of q).key delta) w h
        ∙ read-add_other rows t s q (known.of q).key w delta h)

  charge_subjects-none :
      (d : QuotaDocument) (rows : List Row)
      → charge_subjects readings delta d [] rows ≡ (rows, ok tt)
  unfolding charge_subjects
  charge_subjects-none d rows = refl

  charge_subjects-step :
      (d : QuotaDocument) (t : Text) (people : List Text) (rows : List Row)
      → (charge_periods readings delta t (periods_for d t) rows).1 ≡ ok tt
      → charge_subjects readings delta d (t ∷ people) rows
        ≡ charge_subjects readings delta d people
            (charge_periods readings delta t (periods_for d t) rows).0
  unfolding charge_subjects
  charge_subjects-step d t people rows e =
      proceeds (charge_periods readings delta t (periods_for d t) rows)
        (charge_subjects readings delta d people) e

  charge_subjects-other :
      (d : QuotaDocument) (people : List Text) (rows : List Row) (s : Text) (w : Text)
      → member s people ≡ false
      → read (charge_subjects readings delta d people rows).0 s w ≡ read rows s w
  charge_subjects-other d [] rows s w h = rw (charge_subjects-none d rows) refl
  charge_subjects-other d (t ∷ people) rows s w h =
      let ps = periods_for d t in
      let rows' = (charge_periods readings delta t ps rows).0 in
      let (ends, once) =
        charge_periods_once readings known delta t ps rows QuotaPeriod.total
          (periods_for-Distinct d t) in
      let other : text_eq t s ≡ false = ground (arith, h) in
      rw (charge_subjects-step d t people rows ends) (
        charge_subjects-other d people rows' s w (ground (arith, h))
        ∙ charge_periods-other t s ps rows w other)

  charge_subjects_once :
      (d : QuotaDocument) (people : List Text) (rows : List Row) (s : Text) (q : QuotaPeriod)
      → DistinctTexts people
      → ((charge_subjects readings delta d people rows).1 ≡ ok tt)
        × (read (charge_subjects readings delta d people rows).0 s (known.of q).key ≡ (
            if member s people && listed (rank q) (periods_for d s)
            then saturating_add (read rows s (known.of q).key) delta
            else read rows s (known.of q).key))
  charge_subjects_once d [] rows s q h = rw (charge_subjects-none d rows) (refl, refl)
  charge_subjects_once d (t ∷ people) rows s q h =
      let ps = periods_for d t in
      let rows' = (charge_periods readings delta t ps rows).0 in
      let (ends, once) =
        charge_periods_once readings known delta t ps rows q (periods_for-Distinct d t) in
      let (ends', rest) = charge_subjects_once d people rows' s q h.1 in
      elim (Bool-cases (text_eq t s)) [
        | inl same ↦
            let e = (text_eq_iff t s).0 same in
            let no_more = subst (λ u. member u people ≡ false) e h.0 in
            let here : read rows' s (known.of q).key ≡ (
                if listed (rank q) (periods_for d s)
                then saturating_add (read rows s (known.of q).key) delta
                else read rows s (known.of q).key) =
              subst
                (λ u. read rows' u (known.of q).key ≡ (
                  if listed (rank q) (periods_for d u)
                  then saturating_add (read rows u (known.of q).key) delta
                  else read rows u (known.of q).key))
                e once in
            rw (charge_subjects-step d t people rows ends, same) (ends', rest ∙ rw no_more here)
        | inr other ↦
            let kept = charge_periods-other t s ps rows (known.of q).key other in
            rw (charge_subjects-step d t people rows ends, other) (ends', rest ∙ rw kept refl)
      ]

nothing_listed :
    (f : QuotaRule → Bool) (rules : List QuotaRule) (n : ℕ)
    → is_empty rules ≡ true
    → listed n (keep_if (λ p. has_period p (keep_if f rules)) all_periods) ≡ false
unfolding has_period
nothing_listed f [] n e = refl
nothing_listed f (r ∷ rules) n e = cc

no_periods :
    (d : QuotaDocument) (s : Text) (n : ℕ)
    → is_empty_document d ≡ true
    → listed n (periods_for d s) ≡ false
unfolding periods_for rules_for is_empty_document
no_periods d s n e = nothing_listed _ d.limits n e

both_off : (a b : Bool) → b ≡ false → (a && b) ≡ false
both_off a b h = ground (arith, h)

pub record_charge-listed :
    (readings : Readings) (known : HasWindows readings) (d : QuotaDocument) (charge : UsageCharge)
    (p : Principal) (rows : List Row) (s : Text) (q : QuotaPeriod)
    → ((record_charge readings d charge p rows).1 ≡ ok tt)
      × (read (record_charge readings d charge p rows).0 s (known.of q).key ≡ (
          if member s (subjects p) && listed (rank q) (periods_for d s)
          then saturating_add (read rows s (known.of q).key) (charged d charge)
          else read rows s (known.of q).key))
unfolding record_charge
record_charge-listed readings known d charge p rows s q = elim (Bool-cases (is_empty_document d)) [
  | inl none_set ↦
      let off =
        both_off (member s (subjects p)) (listed (rank q) (periods_for d s))
          (no_periods d s (rank q) none_set) in
      rw (none_set, off) (refl, refl)
  | inr some_set ↦ rw some_set (
      charge_subjects_once readings known (charged d charge) d (subjects p) rows s q
        (subjects-DistinctTexts p))
]

pub record_charge-other :
    (readings : Readings) (known : HasWindows readings) (d : QuotaDocument) (charge : UsageCharge)
    (p : Principal) (rows : List Row) (s w : Text)
    → member s (subjects p) ≡ false
    → read (record_charge readings d charge p rows).0 s w ≡ read rows s w
unfolding record_charge
record_charge-other readings known d charge p rows s w h = elim (Bool-cases (is_empty_document d)) [
  | inl none_set ↦ rw none_set refl
  | inr some_set ↦
      rw some_set
        (charge_subjects-other readings known (charged d charge) d (subjects p) rows s w h)
]
