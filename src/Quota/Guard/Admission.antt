-- ===== src/Quota/Guard/Admission.antt =====
-- When a request passes the ceilings, crates/quota/src/guard.rs.
use ai_kernel.Prelude.{
  text_eq, text_eq_iff, if◌then◌else◌, Text, ℕ, ◌≡◌, refl, ◌↔◌, ◌⊎◌, inl, inr, Bool, true, false,
  not, ◌&&◌, Option, none, some, List, [], ◌∷◌, All, arith, leb, Result, ok, err, ◌>>◌, refuse_if,
  bind-ok, refuse_if-ok, Bool-cases,
}
use ai_kernel.Policy.Permission.{Principal}
use ai_kernel.Policy.Pattern.{matches}
use ai_kernel.Quota.Ledger.{QuotaDimension, Counters, get}
use ai_kernel.Quota.Period.{Window}
use ai_kernel.Quota.Document.{
  QuotaRule, QuotaDocument, ModelPrice, ceilings, price, is_empty_document,
}
use ai_kernel.Quota.Guard.Ceilings.{Below, IsBelow, ceilings-IsBelow, kept_or_not, nothing_kept}
use ai_kernel.Quota.Guard.{
  Readings, window_now, subjects, other_owner, rules_for, is_some, check, check_ceilings,
  check_rule, check_rules, check_subjects,
}

-- A chain of two ends well exactly where both do.
then_ok :
    {E : Type 0} (m k : Result E (Unit {0})) → ((m >> k) ≡ ok tt) ↔ ((m ≡ ok tt) × (k ≡ ok tt))
then_ok (ok u) k = (λ h. (refl, h), λ h. h.1)
then_ok (err e) k = (λ h. cc, λ h. cc (h.0))

refuse_iff : {E : Type 0} (bad : Bool) (e : E) → (refuse_if bad e ≡ ok tt) ↔ (bad ≡ false)
refuse_iff true e = (λ h. cc, λ h. cc)
refuse_iff false e = (λ h. refl, λ h. refl)

module _ (readings : Readings) (document : QuotaDocument) (model : Text) where
  -- One rule about one subject admits: its cost can be told where it has a ceiling on cost, its window
  -- and its counters are known, and the counters are below every ceiling of the rule.
  pub record Admits (subject : Text) (rule : QuotaRule) : Type 0 where
    pub is_priced :
        (rule.max_cost_micros ≡ none) ⊎ ((p : ModelPrice) × (price document model ≡ some p))
    pub window : Window
    pub counters : Counters
    pub is_window : window_now readings rule.period ≡ ok window
    pub is_read : readings.row subject window.key ≡ ok counters
    pub is_below : IsBelow rule counters

  ceilings-Below :
      (subject : Text) (rule : QuotaRule) (w : Window) (counters : Counters)
      (cs : List (QuotaDimension × ℕ))
      → (check_ceilings readings subject rule w counters cs ≡ ok tt) ↔ Below counters cs
  unfolding check_ceilings
  ceilings-Below subject rule w counters [] = (λ h. tt, λ h. refl)
  ceilings-Below subject rule w counters ((d, limit) ∷ more) =
      let (to, back) = ceilings-Below subject rule w counters more in
      let (first, both) =
        then_ok (refuse_if (leb limit (get counters d)) _)
          (check_ceilings readings subject rule w counters more) in
      let (off, on) = refuse_iff (leb limit (get counters d)) _ in
      (
        λ h. let (a, b) = first h in let e = off a in (ground arith, to b),
        λ (below, rest). both (on (ground arith), back rest),
      )

  priced_or_not :
      (m : Option ℕ) (p : Option ModelPrice)
      → ((is_some m && not (is_some p)) ≡ false) ↔ ((m ≡ none) ⊎ ((q : ModelPrice) × (p ≡ some q)))
  priced_or_not none p = (λ h. inl refl, λ h. refl)
  priced_or_not (some l) none = (λ h. cc, λ h. elim h [ inl e ↦ cc e | inr q ↦ cc (q.1) ])
  priced_or_not (some l) (some q) = (λ h. inr (q, refl), λ h. refl)

  rule-Admits :
      (subject : Text) (rule : QuotaRule)
      → (check_rule readings document model subject rule ≡ ok tt) ↔ Admits subject rule
  unfolding check_rule
  rule-Admits subject rule =
      let bad = is_some rule.max_cost_micros && not (is_some (price document model)) in
      (
        λ h.
            let (known, h2) = refuse_if-ok bad _ _ tt h in
            let (w, is_window, h3) = bind-ok (window_now readings rule.period) _ tt h2 in
            let (counters, is_read, h4) = bind-ok (readings.row subject w.key) _ tt h3 in
            record {
              is_priced = (priced_or_not rule.max_cost_micros (price document model)).0 known;
              window = w;
              counters = counters;
              is_window = is_window;
              is_read = is_read;
              is_below =
                  (ceilings-IsBelow counters rule).0
                    ((ceilings-Below subject rule w counters (ceilings rule)).0 h4);
            },
        λ a.
            rw
              (
                (priced_or_not rule.max_cost_micros (price document model)).1 a.is_priced,
                a.is_window,
                a.is_read,
              )
              ((ceilings-Below subject rule a.window a.counters (ceilings rule)).1
                ((ceilings-IsBelow a.counters rule).1 a.is_below)),
      )

  rules-Admits :
      (subject : Text) (rules : List QuotaRule)
      → (check_rules readings document model subject rules ≡ ok tt) ↔ All (Admits subject) rules
  unfolding check_rules
  rules-Admits subject [] = (λ h. tt, λ h. refl)
  rules-Admits subject (rule ∷ rules) =
      let (to, back) = rules-Admits subject rules in
      let (first, both) =
        then_ok (check_rule readings document model subject rule)
          (check_rules readings document model subject rules) in
      (
        λ h. ((rule-Admits subject rule).0 (first h).0, to (first h).1),
        λ (a, rest). both ((rule-Admits subject rule).1 a, back rest),
      )

  abbrev Passes : Text → Type 0
  Passes subject = All (Admits subject) (rules_for document subject)

  subjects-Admit :
      (people : List Text)
      → (check_subjects readings document model people ≡ ok tt) ↔ All Passes people
  unfolding check_subjects
  subjects-Admit [] = (λ h. tt, λ h. refl)
  subjects-Admit (subject ∷ people) =
      let (to, back) = subjects-Admit people in
      let (rules, admitted) = rules-Admits subject (rules_for document subject) in
      let (first, both) =
        then_ok (check_rules readings document model subject (rules_for document subject))
          (check_subjects readings document model people) in
      (λ h. (rules (first h).0, to (first h).1), λ (a, rest). both (admitted a, back rest))

  no_rules : (people : List Text) → is_empty_document document ≡ true → All Passes people
  unfolding is_empty_document rules_for
  no_rules [] e = tt
  no_rules (subject ∷ people) e =
      (nothing_kept _ (Admits subject) document.limits e, no_rules people e)

  -- Every rule of the document that matches the subject admits.
  abbrev pub AdmitsSubject : Text → Type 0
  AdmitsSubject subject =
      All (λ (rule : QuotaRule). (matches rule.subject subject ≡ false) ⊎ Admits subject rule)
        document.limits

  -- The same of whom the caller acts for, where there is one.
  abbrev pub AdmitsOwner : Option Text → Type 0
  AdmitsOwner none = Unit
  AdmitsOwner (some owner) = AdmitsSubject owner

  Passes-AdmitsSubject : (subject : Text) → Passes subject ↔ AdmitsSubject subject
  unfolding rules_for
  Passes-AdmitsSubject subject =
      kept_or_not (λ (r : QuotaRule). matches r.subject subject) (Admits subject) document.limits

  owner-Admits :
      (id owner : Text)
      → All Passes (id ∷ (if text_eq owner id then [] else owner ∷ []))
        ↔ (AdmitsSubject id × AdmitsSubject owner)
  owner-Admits id owner =
      let (one, one') = Passes-AdmitsSubject id in
      let (two, two') = Passes-AdmitsSubject owner in
      elim (Bool-cases (text_eq owner id)) [
        | inl same ↦
            let e = (text_eq_iff owner id).0 same in
            rw same (λ h. (one h.0, rw e (one h.0)), λ h. (one' h.0, tt))
        | inr other ↦ rw other (λ h. (one h.0, two h.1.0), λ h. (one' h.0, (two' h.1, tt)))
      ]

  people-Admit :
      (id : Text) (o : Option Text)
      → All Passes (id ∷ other_owner id o) ↔ (AdmitsSubject id × AdmitsOwner o)
  people-Admit id none =
      let (one, one') = Passes-AdmitsSubject id in (λ h. (one h.0, tt), λ h. (one' h.0, tt))
  people-Admit id (some owner) = owner-Admits id owner

  check-Passes :
      (p : Principal) → (check readings document model p ≡ ok tt) ↔ All Passes (subjects p)
  unfolding check
  check-Passes p = elim (Bool-cases (is_empty_document document)) [
    | inl none_set ↦ rw none_set (λ h. no_rules (subjects p) none_set, λ h. refl)
    | inr some_set ↦ rw some_set (subjects-Admit (subjects p))
  ]

  -- A request passes the guard exactly where every rule of the document that matches the caller, and
  -- every rule that matches whom the caller acts for, admits it: its window and its row can be read, what
  -- the row counts is below each of the five ceilings that the rule sets, and where it sets one on cost
  -- the model has a price.
  pub check-Admits :
      (p : Principal)
      → (check readings document model p ≡ ok tt)
        ↔ (AdmitsSubject p.id × AdmitsOwner p.on_behalf_of)
  unfolding subjects
  check-Admits p =
      let (to, back) = check-Passes p in
      let (all, each) = people-Admit p.id p.on_behalf_of in (λ h. all (to h), λ h. back (each h))
