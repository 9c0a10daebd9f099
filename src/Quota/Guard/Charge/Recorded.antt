-- ===== src/Quota/Guard/Charge/Recorded.antt =====
-- What recording a turn does, crates/quota/src/guard.rs, told apart from the guard's own lists.
use ai_kernel.Prelude.{
  Text, text_eq, text_eq_iff, ℕ, ◌+◌, min, u64_max, ◌≡◌, refl, ◌∙◌, ap, Bool, true, ◌&&◌, ◌||◌, ◌⊎◌,
  List, [], ◌∷◌, any, arith, if◌then◌else◌, Bool-cases, inl, inr, keep_if, ok, Option, none, some,
  ◌==◌, ==_iff,
}
use ai_kernel.Policy.Permission.{Principal, is_some_text}
use ai_kernel.Policy.Pattern.{matches}
use ai_kernel.Quota.Ledger.{QuotaPeriod, Counters, Row, read, saturating_add}
use ai_kernel.Quota.Document.{QuotaDocument, QuotaRule, UsageCharge, ModelPrice, price, cost_micros}
use ai_kernel.Quota.Guard.{Readings, subjects, other_owner, rules_for}
use ai_kernel.Quota.Guard.Charge.{
  rank, has_period, all_periods, periods_for, price_of, charged, record_charge,
}
use ai_kernel.Quota.Guard.Charge.Once.{listed, rank-injective}
use ai_kernel.Quota.Guard.Charge.Windows.{Copies, AreKnown, windows_of}
use ai_kernel.Quota.Guard.Charge.Everyone.{member, record_charge-listed, record_charge-other}

-- The caller, and whom it acts for.
abbrev pub is_party : Principal → Text → Bool
is_party p s = text_eq p.id s || is_some_text p.on_behalf_of s

-- Some rule of the document matches the subject and counts over the period.
abbrev pub is_counted : QuotaDocument → Text → QuotaPeriod → Bool
is_counted d s q =
    any (λ (r : QuotaRule). matches r.subject s && (rank r.period == rank q)) d.limits

abbrev pub cost_of : Option ModelPrice → UsageCharge → ℕ
cost_of none charge = 0
cost_of (some p) charge = cost_micros p charge

-- Counters and a turn together, as far as a machine word counts.
abbrev pub with_turn : QuotaDocument → UsageCharge → Counters → Counters
with_turn d charge c = record {
  turns = min (c.turns + charge.turns) u64_max;
  input_tokens = min (c.input_tokens + charge.input_tokens) u64_max;
  output_tokens = min (c.output_tokens + charge.output_tokens) u64_max;
  cost_micros = min (c.cost_micros + cost_of (price d charge.model) charge) u64_max;
}

cost_of-charged :
    (o : Option ModelPrice) (charge : UsageCharge) → price_of o charge ≡ cost_of o charge
cost_of-charged none charge = refl
cost_of-charged (some p) charge = refl

charged-with_turn :
    (d : QuotaDocument) (charge : UsageCharge) (c : Counters)
    → saturating_add c (charged d charge) ≡ with_turn d charge c
unfolding saturating_add charged
charged-with_turn d charge c = rw (cost_of-charged (price d charge.model) charge) refl

member-pair :
    (id s owner : Text)
    → member s (id ∷ (if text_eq owner id then [] else owner ∷ []))
      ≡ (text_eq id s || text_eq owner s)
member-pair id s owner = elim (Bool-cases (text_eq owner id)) [
  | inl same ↦ let e = (text_eq_iff owner id).0 same in rw same (rw e (ground arith))
  | inr other ↦ rw other (ground arith)
]

member-owner :
    (id s : Text) (o : Option Text)
    → member s (id ∷ other_owner id o) ≡ (text_eq id s || is_some_text o s)
member-owner id s none = refl
member-owner id s (some owner) = member-pair id s owner

member-is_party : (p : Principal) (s : Text) → member s (subjects p) ≡ is_party p s
unfolding subjects
member-is_party p s = member-owner p.id s p.on_behalf_of

listed-keep_if :
    (k : QuotaPeriod → Bool) (q : QuotaPeriod) (ps : List QuotaPeriod)
    → listed (rank q) (keep_if k ps) ≡ (k q && listed (rank q) ps)
listed-keep_if k q [] = ground arith
listed-keep_if k q (p ∷ ps) =
    let rest = listed-keep_if k q ps in
    elim (Bool-cases (rank p == rank q)) [
      | inl e ↦
          let same : p ≡ q = rank-injective q p ((==_iff (rank p) (rank q)).0 e) in
          let alike : k p ≡ k q = ap k same in
          elim (Bool-cases (k p)) [
            | inl kept ↦ rw kept (rw e (ground (arith, alike, kept)))
            | inr dropped ↦ rw dropped (rw e (ground (arith, alike, dropped, rest)))
          ]
      | inr e ↦ elim (Bool-cases (k p)) [
        | inl kept ↦ rw kept (rw e (ground (arith, rest)))
        | inr dropped ↦ rw dropped (rw e (ground (arith, rest)))
      ]
    ]

every-listed : (q : QuotaPeriod) → listed (rank q) all_periods ≡ true
unfolding rank
every-listed QuotaPeriod.hour = refl
every-listed QuotaPeriod.day = refl
every-listed QuotaPeriod.week = refl
every-listed QuotaPeriod.month = refl
every-listed QuotaPeriod.total = refl

has_period-any :
    (f : QuotaRule → Bool) (q : QuotaPeriod) (rules : List QuotaRule)
    → has_period q (keep_if f rules)
      ≡ any (λ (r : QuotaRule). f r && (rank r.period == rank q)) rules
unfolding has_period
has_period-any f q [] = refl
has_period-any f q (r ∷ rules) =
    let rest = has_period-any f q rules in
    elim (Bool-cases (f r)) [
      | inl e ↦ rw e (ap (λ b. (rank r.period == rank q) || b) rest)
      | inr e ↦ rw e rest
    ]

listed-is_counted :
    (d : QuotaDocument) (s : Text) (q : QuotaPeriod)
    → listed (rank q) (periods_for d s) ≡ is_counted d s q
unfolding periods_for rules_for
listed-is_counted d s q =
    listed-keep_if (λ p. has_period p (keep_if (λ (r : QuotaRule). matches r.subject s) d.limits)) q
      all_periods
    ∙ rw (every-listed q)
        (rw (has_period-any (λ (r : QuotaRule). matches r.subject s) q d.limits) (ground arith))

-- Where the windows of now can be told, and a format copies its literal characters, as chrono documents,
-- recording a turn does not fail. In the window of every period of now it adds the turn, its tokens and
-- what they cost once to the counters of a subject that is the caller, or whom the caller acts for, where a
-- rule that matches that subject counts over the period, and changes no other counters of now; and of
-- any other subject it changes the counters of no window at all.
pub record_charge_once :
    (readings : Readings) (copies : Copies readings.chrono) (known : AreKnown readings)
    (d : QuotaDocument) (charge : UsageCharge) (p : Principal) (rows : List Row) (s : Text)
    (q : QuotaPeriod) (w : Text)
    → ((record_charge readings d charge p rows).1 ≡ ok tt)
      × (read (record_charge readings d charge p rows).0 s (known q).0.key ≡ (
          if is_party p s && is_counted d s q
          then with_turn d charge (read rows s (known q).0.key)
          else read rows s (known q).0.key))
      × ((is_party p s ≡ true)
          ⊎ (read (record_charge readings d charge p rows).0 s w ≡ read rows s w))
unfolding windows_of
record_charge_once readings copies known d charge p rows s q w =
    let windows = windows_of readings copies known in
    let (ends, once) = record_charge-listed readings windows d charge p rows s q in
    (
      ends,
      once
          ∙ rw
              (
                member-is_party p s,
                listed-is_counted d s q,
                charged-with_turn d charge (read rows s (known q).0.key),
              )
              refl,
      elim (Bool-cases (is_party p s)) [
        | inl party ↦ inl party
        | inr stranger ↦ inr (
            record_charge-other readings windows d charge p rows s w
              (member-is_party p s ∙ stranger))
      ],
    )
