-- ===== src/Tools/Registry/Gate.antt =====
-- What passes the authorization questions of crates/tools/src/registry.rs.
use ai_kernel.Prelude.{
  Text, ℕ, suc, ◌≡◌, refl, ◌↔◌, Bool, true, false, Option, none, some, List, [], ◌∷◌, Result, ok,
  err, if◌then◌else◌,
}
use mathlib.Core.Path.{subst}
use ai_kernel.Errors.{Error}
use ai_kernel.Policy.Permission.{
  Json, Decision, PermissionRequest, ExecutionContext, allow, deny, require_approval,
}
use ai_kernel.Tools.Provenance.{
  Trust, Reach, trusted, untrusted, contained, mutating, external, is_untrusted, is_contained,
}
use ai_kernel.Tools.Ledger.{TrustEnforcement, approval, denial, observation}
use ai_kernel.Tools.Registry.{
  TrustLedger, Gatekeeper, World, Question, request, decide, decide_all, enforce_trust, answered,
  ask, on_evaluation, decide_by, record_decision, enforce, prompt,
}
use ai_kernel.Tools.Registry.Run.{ResourceClaim, ToolSpec, questions, trust_question, authorize}

module _ {j : Json} (g : Gatekeeper j) where
  -- Somebody is there to be asked, and the answer to this prompt is yes.
  abbrev pub SaysYes :
      Question j
      → ℕ
      → Text
      → Option (ℕ → PermissionRequest j → Text → ExecutionContext j → Result Error Bool)
      → Type 0
  SaysYes q n prompt none = ⊥
  SaysYes q n prompt (some sink) = sink n (request g q) prompt q.cx ≡ ok true

  abbrev pub Permits : Question j → ℕ → Result Error Decision → Type 0
  Permits q n (err e) = ⊥
  Permits q n (ok allow) = Unit
  Permits q n (ok (deny reason)) = ⊥
  Permits q n (ok (require_approval prompt)) = SaysYes q n prompt g.approvals

  abbrev pub PermittedBy :
      Question j
      → ℕ
      → Option (ℕ → PermissionRequest j → ExecutionContext j → Result Error Decision)
      → Type 0
  PermittedBy q n none = ⊥
  PermittedBy q n (some policy) = Permits q n (policy n (request g q) q.cx)

  -- The question, asked after `n` others, is allowed by the policy, or approved where the policy asks
  -- for approval.
  abbrev pub Granted : Question j → ℕ → Type 0
  Granted q n = PermittedBy q n g.policy

  abbrev pub AllGranted : List (Question j) → ℕ → Type 0
  AllGranted [] n = Unit
  AllGranted (q ∷ qs) n = Granted q n × AllGranted qs (suc n)

module _ {j : Json} (g : Gatekeeper j) where
  abbrev pub Enforced : TrustEnforcement → Question j → ℕ → Type 0
  Enforced observation q n = Unit
  Enforced denial q n = ⊥
  Enforced approval q n = SaysYes g q n (prompt q) g.approvals

  abbrev pub EnforcedFor : Trust → Reach → Question j → ℕ → Type 0
  EnforcedFor trusted reach q n = Unit
  EnforcedFor untrusted contained q n = Unit
  EnforcedFor untrusted mutating q n = Enforced g.enforcement q n
  EnforcedFor untrusted external q n = Enforced g.enforcement q n

  -- What an untrusted conversation needs besides for a tool whose effect is not contained: a person's
  -- approval, or an enforcement that only observes.
  abbrev pub Sanctioned : Question j → ℕ → Type 0
  Sanctioned q n = EnforcedFor q.trust q.reach q n

-- An answer that lets through exactly where `P` holds.
abbrev pub Passes : {l : TrustLedger} → Result Error (Unit {0}) × World l → Type 0 → Type 0
Passes r P = (r.0 ≡ ok tt) ↔ P

-- Two steps of which the second is taken where the first lets through.
then_Passes :
    {l : TrustLedger} {P Q : Type 0} (r : Result Error (Unit {0})) (w : World l)
    (next : Result Error (Unit {0}) × World l)
    → (r ≡ ok tt) ↔ P
    → Passes {l = l} next Q
    → Passes {l = l} (elim r [ ok u ↦ next | err e ↦ (err e, w) ]) (P × Q)
then_Passes (ok u) w next (f, f') (h, h') = (λ e. (f refl, h e), λ (p, q). h' q)
then_Passes (err e) w next (f, f') (h, h') = (λ i. cc, λ (p, q). cc (f' p))

module _ {j : Json} {l : TrustLedger} (g : Gatekeeper j) where
  abbrev Decided : Result Error (Unit {0}) × World l → Question j → World l → Type 0 → Type 0
  Decided r q w P = Passes r P × (r.1.asked ≡ suc w.asked)

  answered-Decided :
      (q : Question j) (w : World l) (message : Text) (r : Result Error Bool)
      → Decided (answered g q w message r) q w (r ≡ ok true)
  unfolding answered record_decision
  answered-Decided q w message (ok true) = ((λ _. refl, λ _. refl), refl)
  answered-Decided q w message (ok false) = ((λ h. cc, λ h. cc), refl)
  answered-Decided q w message (err e) = ((λ h. cc, λ h. cc), refl)

  ask-Decided :
      (q : Question j) (w : World l) (prompt nobody message : Text)
      (sink : Option (ℕ → PermissionRequest j → Text → ExecutionContext j → Result Error Bool))
      → Decided (ask g q w prompt nobody message sink) q w (SaysYes g q w.asked prompt sink)
  unfolding ask record_decision
  ask-Decided q w prompt nobody message none = ((λ h. cc, λ h. absurd h), refl)
  ask-Decided q w prompt nobody message (some sink) =
      answered-Decided q w message (sink w.asked (request g q) prompt q.cx)

  on_evaluation-Decided :
      (q : Question j) (w : World l) (r : Result Error Decision)
      → Decided (on_evaluation g q w r) q w (Permits g q w.asked r)
  unfolding on_evaluation record_decision
  on_evaluation-Decided q w (err e) = ((λ h. cc, λ h. absurd h), refl)
  on_evaluation-Decided q w (ok allow) = ((λ _. tt, λ _. refl), refl)
  on_evaluation-Decided q w (ok (deny reason)) = ((λ h. cc, λ h. absurd h), refl)
  on_evaluation-Decided q w (ok (require_approval prompt)) = ask-Decided q w prompt _ _ g.approvals

  decide_by-Decided :
      (q : Question j) (w : World l)
      (policy : Option (ℕ → PermissionRequest j → ExecutionContext j → Result Error Decision))
      → Decided (decide_by g q w policy) q w (PermittedBy g q w.asked policy)
  unfolding decide_by record_decision
  decide_by-Decided q w none = ((λ h. cc, λ h. absurd h), refl)
  decide_by-Decided q w (some policy) =
      on_evaluation-Decided q w (policy w.asked (request g q) q.cx)

  -- A question is let through exactly where the policy allows it, or asks for an approval that is
  -- given; with no policy engine, with a failing one, with nobody to approve and with a failing sink it
  -- is refused. Either way one question more has been asked.
  pub decide-Granted :
      (q : Question j) (w : World l)
      → (((decide g q w).0 ≡ ok tt) ↔ Granted g q w.asked) × ((decide g q w).1.asked ≡ suc w.asked)
  unfolding decide
  decide-Granted q w = decide_by-Decided q w g.policy

  pub decide_all-AllGranted :
      (qs : List (Question j)) (w : World l) → Passes (decide_all g qs w) (AllGranted g qs w.asked)
  unfolding decide_all
  decide_all-AllGranted [] w = (λ _. tt, λ _. refl)
  decide_all-AllGranted (q ∷ qs) w =
      let (passes, asked) = decide-Granted q w in
      then_Passes (decide g q w).0 (decide g q w).1 _ passes (
        subst (λ n. Passes (decide_all g qs (decide g q w).1) (AllGranted g qs n)) asked
          (decide_all-AllGranted qs (decide g q w).1))

  enforce-Enforced :
      (m : TrustEnforcement) (q : Question j) (w : World l)
      → Passes (enforce g m q w) (Enforced g m q w.asked)
  unfolding enforce
  enforce-Enforced observation q w = (λ _. tt, λ _. refl)
  enforce-Enforced denial q w = (λ h. cc, λ h. absurd h)
  enforce-Enforced approval q w = (ask-Decided q w (prompt q) _ _ g.approvals).0

  enforced-EnforcedFor :
      (t : Trust) (r : Reach) (q : Question j) (w : World l)
      → Passes
          (if is_untrusted t
            then if is_contained r then (ok tt, w) else enforce g g.enforcement q w
            else (ok tt, w))
          (EnforcedFor g t r q w.asked)
  unfolding is_untrusted is_contained
  enforced-EnforcedFor trusted r q w = (λ _. tt, λ _. refl)
  enforced-EnforcedFor untrusted contained q w = (λ _. tt, λ _. refl)
  enforced-EnforcedFor untrusted mutating q w = enforce-Enforced g.enforcement q w
  enforced-EnforcedFor untrusted external q w = enforce-Enforced g.enforcement q w

  pub enforce_trust-Sanctioned :
      (q : Question j) (w : World l) → Passes (enforce_trust g q w) (Sanctioned g q w.asked)
  unfolding enforce_trust
  enforce_trust-Sanctioned q w = enforced-EnforcedFor q.trust q.reach q w

  -- A call is authorized exactly where every capability of the tool and every resource that it plans to
  -- use is granted, asked in order, and where what an untrusted conversation needs besides is given.
  pub authorize-AllGranted :
      (cx : ExecutionContext j) (spec : ToolSpec) (claims : List ResourceClaim) (t : Trust)
      (w : World l)
      → ((authorize g cx spec claims t w).0 ≡ ok tt) ↔ (
          AllGranted g (questions cx spec claims t) w.asked
          × Sanctioned g
              (trust_question cx spec t)
              (decide_all g (questions cx spec claims t) w).1.asked)
  unfolding authorize
  authorize-AllGranted cx spec claims t w =
      let (r, w') = decide_all g (questions cx spec claims t) w in
      then_Passes r w' (enforce_trust g (trust_question cx spec t) w')
        (decide_all-AllGranted (questions cx spec claims t) w)
        (enforce_trust-Sanctioned (trust_question cx spec t) w')
