-- ===== src/Tools/Registry/Run/Trail.antt =====
-- What a call leaves in the audit trail, crates/tools/src/registry.rs.
use ai_kernel.Prelude.{
  Text, ℕ, ◌≡◌, refl, ap, Bool, true, false, Option, none, some, List, [], ◌∷◌, Result, ok, err,
  if◌then◌else◌,
}
use ai_kernel.Errors.{Error, ErrorKind, kind}
use ai_kernel.Policy.Permission.{
  Json, ExecutionContext, principal_or_system, PermissionRequest, Decision, allow, deny,
  require_approval,
}
use ai_kernel.Tools.Provenance.{
  Trust, Reach, trusted, untrusted, contained, mutating, external, is_untrusted, is_contained,
  min_with,
}
use ai_kernel.Tools.Ledger.{TrustEnforcement, approval, denial, observation}
use ai_kernel.Tools.Audit.{
  Event, AuthorizationDecided, discovered_resource, decided, invoked, AuthorizationOutcome,
  InvocationOutcome, ToolInvoked, succeeded, reported_error,
}
use ai_kernel.Tools.Registry.{
  TrustLedger, Gatekeeper, World, Question, decide, decide_all, enforce_trust, record_decision,
  answered, ask, on_evaluation, decide_by, enforce, request, publish, prompt,
}
use ai_kernel.Tools.Registry.Run.{
  ToolSpec, ToolOutcome, Tool, Tools, find, invoke, authorize, Execution, execute, done, asks,
  ResourceClaim, questions, trust_question, question, record_invocation, append_event, observed,
  outcome_of, discarded, finish, authorized, planned, placed, looked_up, classify_kind,
  classify_authorization_error, scope_of,
}

-- The second trail is the first with decisions in front, newest first.
pub data Extends (older : List Event) : List Event → Type 0 where
  same : Extends older older
  also :
      {trail : List Event} (d : AuthorizationDecided)
      → Extends older trail
      → Extends older (decided d ∷ trail)

Extends-trans : {a b c : List Event} → Extends a b → Extends b c → Extends a c
Extends-trans x same = x
Extends-trans x (also d y) = also d (Extends-trans x y)

publish-Extends :
    (on : Bool) (d : AuthorizationDecided) (trail : List Event)
    → Extends trail (publish on (decided d) trail)
publish-Extends true d trail = also d same
publish-Extends false d trail = same

module _ {j : Json} {l : TrustLedger} (g : Gatekeeper j) where
  record_decision-Extends :
      (q : Question j) (outcome : AuthorizationOutcome) (waited : Bool) (w : World l)
      → Extends w.trail (record_decision g q outcome waited w).trail
  unfolding record_decision
  record_decision-Extends q outcome waited w = publish-Extends g.audit _ w.trail

  ask-Extends :
      (q : Question j) (w : World l) (prompt nobody message : Text)
      (sink : Option (ℕ → PermissionRequest j → Text → ExecutionContext j → Result Error Bool))
      → Extends w.trail (ask g q w prompt nobody message sink).1.trail
  unfolding ask
  ask-Extends q w prompt nobody message none = record_decision-Extends q _ _ w
  ask-Extends q w prompt nobody message (some sink) =
      answered-Extends (sink w.asked (request g q) prompt q.cx)
    where
      answered-Extends :
          (r : Result Error Bool) → Extends w.trail (answered g q w message r).1.trail
      answered-Extends (ok true) = record_decision-Extends q _ _ w
      answered-Extends (ok false) = record_decision-Extends q _ _ w
      answered-Extends (err e) = record_decision-Extends q _ _ w

  on_evaluation-Extends :
      (q : Question j) (w : World l) (r : Result Error Decision)
      → Extends w.trail (on_evaluation g q w r).1.trail
  unfolding on_evaluation
  on_evaluation-Extends q w (err e) = record_decision-Extends q _ _ w
  on_evaluation-Extends q w (ok allow) = record_decision-Extends q _ _ w
  on_evaluation-Extends q w (ok (deny reason)) = record_decision-Extends q _ _ w
  on_evaluation-Extends q w (ok (require_approval prompt)) = ask-Extends q w prompt _ _ g.approvals

  decide_by-Extends :
      (q : Question j) (w : World l)
      (policy : Option (ℕ → PermissionRequest j → ExecutionContext j → Result Error Decision))
      → Extends w.trail (decide_by g q w policy).1.trail
  unfolding decide_by
  decide_by-Extends q w none = record_decision-Extends q _ _ w
  decide_by-Extends q w (some policy) =
      on_evaluation-Extends q w (policy w.asked (request g q) q.cx)

  decide-Extends : (q : Question j) (w : World l) → Extends w.trail (decide g q w).1.trail
  unfolding decide
  decide-Extends q w = decide_by-Extends q w g.policy

  -- A step after another one, which is not taken where the first refuses.
  then_Extends :
      (trail : List Event) (r : Result Error (Unit {0})) (w : World l)
      (next : Result Error (Unit {0}) × World l)
      → Extends trail w.trail
      → Extends w.trail next.1.trail
      → Extends trail
          (elim r as (λ _. Result Error (Unit {0}) × World l) [
            | ok u ↦ next
            | err e ↦ (err e, w)
          ]).1.trail
  then_Extends trail (ok u) w next x y = Extends-trans x y
  then_Extends trail (err e) w next x y = x

  decide_all-Extends :
      (qs : List (Question j)) (w : World l) → Extends w.trail (decide_all g qs w).1.trail
  unfolding decide_all
  decide_all-Extends [] w = same
  decide_all-Extends (q ∷ qs) w =
      let (r, w') = decide g q w in
      then_Extends w.trail r w' (decide_all g qs w') (decide-Extends q w) (decide_all-Extends qs w')

  enforce-Extends :
      (m : TrustEnforcement) (q : Question j) (w : World l)
      → Extends w.trail (enforce g m q w).1.trail
  unfolding enforce
  enforce-Extends observation q w = record_decision-Extends q _ _ w
  enforce-Extends denial q w = record_decision-Extends q _ _ w
  enforce-Extends approval q w = ask-Extends q w (prompt q) _ _ g.approvals

  gate-Extends :
      (t : Trust) (r : Reach) (q : Question j) (w : World l)
      → Extends w.trail
          (if◌then◌else◌ {A = Result Error (Unit {0}) × World l}
            (is_untrusted t)
            (if is_contained r then (ok tt, w) else enforce g g.enforcement q w)
            (ok tt, w)).1.trail
  unfolding is_untrusted is_contained
  gate-Extends trusted r q w = same
  gate-Extends untrusted contained q w = same
  gate-Extends untrusted mutating q w = enforce-Extends g.enforcement q w
  gate-Extends untrusted external q w = enforce-Extends g.enforcement q w

  enforce_trust-Extends :
      (q : Question j) (w : World l) → Extends w.trail (enforce_trust g q w).1.trail
  unfolding enforce_trust
  enforce_trust-Extends q w = gate-Extends q.trust q.reach q w

  authorize-Extends :
      (cx : ExecutionContext j) (spec : ToolSpec) (claims : List ResourceClaim) (t : Trust)
      (w : World l)
      → Extends w.trail (authorize g cx spec claims t w).1.trail
  unfolding authorize
  authorize-Extends cx spec claims t w =
      let (r, w') = decide_all g (questions cx spec claims t) w in
      then_Extends w.trail r w' (enforce_trust g (trust_question cx spec t) w')
        (decide_all-Extends (questions cx spec claims t) w)
        (enforce_trust-Extends (trust_question cx spec t) w')

  execute-Extends :
      (cx : ExecutionContext j) (name : Text) (spec : ToolSpec) (t : Trust) (x : Execution j)
      (w : World l)
      → Extends w.trail (execute g cx name spec t x w).1.trail
  unfolding execute
  execute-Extends cx name spec t (done r) w = same
  execute-Extends cx name spec t (asks action target k) w =
      let q =
        question cx (record spec { name = name }) t discovered_resource action (some target) in
      Extends-trans (decide-Extends q w)
        (execute-Extends cx name spec t (k (decide g q w).0) (decide g q w).1)

-- The two outcomes of a tool that answered.
abbrev pub is_answered : InvocationOutcome → Bool
is_answered succeeded = true
is_answered reported_error = true
is_answered _ = false

classify_kind-fails : (k : ErrorKind) → is_answered (classify_kind k) ≡ false
unfolding classify_kind
classify_kind-fails ErrorKind.permission = refl
classify_kind-fails _ = refl

-- What the newest event says of an answer.
abbrev pub Tells : {j : Json} → Result Error (ToolOutcome j) → ToolInvoked → Type 0
Tells (ok o) note = note.outcome ≡ (if o.is_error then reported_error else succeeded)
Tells (err e) note = (is_answered note.outcome ≡ false) × (note.output_trust ≡ none)

-- Decisions, and then one invocation of the tool of this name, which tells what was answered.
pub record Noted {j : Json} (name : Text) (older newer : List Event)
    (r : Result Error (ToolOutcome j)) : Type 0 where
  pub decisions : List Event
  pub note : ToolInvoked
  pub extends : Extends older decisions
  pub is_newest : newer ≡ invoked note ∷ decisions
  pub is_named : note.tool ≡ name
  pub tells : Tells r note

abbrev note_of :
    {j : Json} → ExecutionContext j → Text → InvocationOutcome → Option Trust → ToolInvoked
note_of cx name outcome t = record {
  correlation = cx.correlation;
  tool = name;
  principal = principal_or_system cx;
  output_trust = t;
  outcome = outcome;
}

module _ {j : Json} {l : TrustLedger} (g : Gatekeeper j) (on : g.audit ≡ true) where
  noted :
      (cx : ExecutionContext j) (name : Text) (outcome : InvocationOutcome) (t : Option Trust)
      (older : List Event) (r : Result Error (ToolOutcome j)) (w : World l)
      → Extends older w.trail
      → Tells r (note_of cx name outcome t)
      → Noted name older (record_invocation g cx name outcome t w).trail r
  unfolding record_invocation
  noted cx name outcome t older r w x tells = record {
    decisions = w.trail;
    note = note_of cx name outcome t;
    extends = x;
    is_newest = ap (λ b. append_event b (invoked (note_of cx name outcome t)) w.trail) on;
    is_named = refl;
    tells = tells;
  }

  observed-Noted :
      (cx : ExecutionContext j) (name : Text) (o : ToolOutcome j) (t : Trust) (older : List Event)
      (w : World l) (r : l.State × Option Error)
      → Extends older w.trail
      → Noted name older (observed g cx name o t w r).1.trail (observed g cx name o t w r).0
  unfolding observed outcome_of
  observed-Noted cx name o t older w (s, none) x =
      noted cx name _ _ older (ok o) (record w { ledger = s }) x refl
  observed-Noted cx name o t older w (s, some e) x =
      noted cx name _ _ older (err (discarded g name e)) (record w { ledger = s }) x (refl, refl)

  finish-Noted :
      (cx : ExecutionContext j) (spec : ToolSpec) (name scope : Text) (older : List Event)
      (r : Result Error (ToolOutcome j)) (w : World l)
      → Extends older w.trail
      → Noted name older
          (finish g cx spec name scope r w).1.trail
          (finish g cx spec name scope r w).0
  unfolding finish outcome_of classify_authorization_error
  finish-Noted cx spec name scope older (err e) w x =
      noted cx name _ _ older (err e) w x (classify_kind-fails (kind e), refl)
  finish-Noted cx spec name scope older (ok o) w x =
      let t = min_with spec.output_trust o.trust in
      observed-Noted cx name o t older w (l.observe w.ledger scope t) x

  authorized-Noted :
      (cx : ExecutionContext j) (t : Tool j) (name : Text) (scope_trust : Trust)
      (arguments : j.Value) (others : l.State → l.State) (older : List Event)
      (r : Result Error (Unit {0}) × World l)
      → Extends older r.1.trail
      → Noted name older
          (authorized g cx t name scope_trust arguments others r).1.trail
          (authorized g cx t name scope_trust arguments others r).0
  unfolding authorized
  authorized-Noted cx t name scope_trust arguments others older (err e, w) x =
      noted cx name _ _ older (err e) w x (refl, refl)
  authorized-Noted cx t name scope_trust arguments others older (ok u, w) x =
      finish-Noted _ t.spec name _ older _ _
        (Extends-trans x (execute-Extends g _ name t.spec scope_trust _ w))

  planned-Noted :
      (cx : ExecutionContext j) (t : Tool j) (name : Text) (scope_trust : Trust)
      (arguments : j.Value) (others : l.State → l.State) (r : Result Error (List ResourceClaim))
      (w : World l)
      → Noted name w.trail
          (planned g cx t name scope_trust arguments others r w).1.trail
          (planned g cx t name scope_trust arguments others r w).0
  unfolding planned
  planned-Noted cx t name scope_trust arguments others (err e) w =
      noted cx name _ _ w.trail (err e) w same (refl, refl)
  planned-Noted cx t name scope_trust arguments others (ok claims) w =
      authorized-Noted cx t name scope_trust arguments others w.trail _
        (authorize-Extends g cx t.spec claims scope_trust w)

  placed-Noted :
      (cx : ExecutionContext j) (t : Tool j) (name : Text) (arguments : j.Value)
      (others : l.State → l.State) (r : Result Error Trust) (w : World l)
      → Noted name w.trail
          (placed g cx t name arguments others r w).1.trail
          (placed g cx t name arguments others r w).0
  unfolding placed
  placed-Noted cx t name arguments others (err e) w =
      noted cx name _ _ w.trail (err _) w same (refl, refl)
  placed-Noted cx t name arguments others (ok scope_trust) w =
      planned-Noted cx t name scope_trust arguments others (t.planned_resources arguments) w

  looked_up-Noted :
      (cx : ExecutionContext j) (name : Text) (arguments : j.Value) (others : l.State → l.State)
      (found : Option (Tool j)) (w : World l)
      → Noted name w.trail
          (looked_up g cx name arguments others found w).1.trail
          (looked_up g cx name arguments others found w).0
  unfolding looked_up
  looked_up-Noted cx name arguments others none w =
      noted cx name _ _ w.trail (err _) w same (refl, refl)
  looked_up-Noted cx name arguments others (some t) w =
      placed-Noted cx t name arguments others (l.trust_of w.ledger (scope_of g cx)) w

  -- With an event bus, every call, also one of an unknown tool and one that is refused, leaves
  -- decisions and then exactly one invocation, of the called name, as the newest event. It tells a
  -- success or a reported error exactly as the outcome is, and neither of an error, of which it gives no
  -- output trust. Nothing that was published before is changed.
  pub invoke-Noted :
      (tools : Tools j) (name : Text) (arguments : j.Value) (cx : ExecutionContext j)
      (others : l.State → l.State) (w : World l)
      → Noted name w.trail
          (invoke g tools name arguments cx others w).1.trail
          (invoke g tools name arguments cx others w).0
  unfolding invoke
  invoke-Noted tools name arguments cx others w =
      looked_up-Noted cx name arguments others (find name tools) w
