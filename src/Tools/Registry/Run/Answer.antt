-- ===== src/Tools/Registry/Run/Answer.antt =====
-- What an answered call went through, crates/tools/src/registry.rs.
use mathlib.Core.Path.{subst}
use ai_kernel.Prelude.{Text, ◌≡◌, refl, ap, Option, none, some, List, Result, ok, err}
use ai_kernel.Errors.{Error}
use ai_kernel.Policy.Permission.{Json, ExecutionContext}
use ai_kernel.Tools.Provenance.{Trust, min_with}
use ai_kernel.Tools.Registry.{TrustLedger, Gatekeeper, World, decide_all}
use ai_kernel.Tools.Registry.Gate.{AllGranted, Sanctioned, authorize-AllGranted}
use ai_kernel.Tools.Registry.Run.{
  ResourceClaim, ToolSpec, ToolOutcome, Tool, Tools, find, questions, trust_question, authorize,
  scope_of, invoke, observed, finish, authorized, planned, placed, looked_up,
}

module _ {j : Json} where
  trust_or : Trust → Result Error (ToolOutcome j) → Trust
  trust_or t (ok o) = o.trust
  trust_or t (err e) = t

module _ {j : Json} {l : TrustLedger} (g : Gatekeeper j) where
  abbrev Recorded :
      Text → ToolSpec → ToolOutcome j → l.State → Result Error (ToolOutcome j) × World l → Type 0
  Recorded scope spec o s r =
      l.observe s scope (min_with spec.output_trust o.trust) ≡ (r.1.ledger, none)

  observed-Recorded :
      (cx : ExecutionContext j) (spec : ToolSpec) (name scope : Text) (o p : ToolOutcome j)
      (w : World l) (r : l.State × Option Error)
      → l.observe w.ledger scope (min_with spec.output_trust p.trust) ≡ r
      → (observed g cx name p (min_with spec.output_trust p.trust) w r).0 ≡ ok o
      → Recorded scope spec o w.ledger
          (observed g cx name p (min_with spec.output_trust p.trust) w r)
  unfolding observed trust_or
  observed-Recorded cx spec name scope o p w (s, none) e h =
      let same = ap (trust_or p.trust) h in
      subst (λ t. l.observe w.ledger scope (min_with spec.output_trust t) ≡ (s, none)) same e
  observed-Recorded cx spec name scope o p w (s, some f) e h = cc

  finish-Recorded :
      (cx : ExecutionContext j) (spec : ToolSpec) (name scope : Text)
      (r : Result Error (ToolOutcome j)) (w : World l) (o : ToolOutcome j)
      → (finish g cx spec name scope r w).0 ≡ ok o
      → Recorded scope spec o w.ledger (finish g cx spec name scope r w)
  unfolding finish
  finish-Recorded cx spec name scope (err e) w o h = cc
  finish-Recorded cx spec name scope (ok p) w o h =
      observed-Recorded cx spec name scope o p w _ refl h

  -- What a call that gives an outcome has behind it: the tool, the trust of the conversation, the tool's
  -- plan, every question granted, and what it returned written in the ledger.
  pub record Authorized (tools : Tools j) (name : Text) (arguments : j.Value)
      (cx : ExecutionContext j) (w w' : World l) (o : ToolOutcome j) : Type 0 where
    pub called : Tool j
    pub claims : List ResourceClaim
    pub scope_trust : Trust
    pub is_found : find name tools ≡ some called
    pub is_trust : l.trust_of w.ledger (scope_of g cx) ≡ ok scope_trust
    pub is_plan : called.planned_resources arguments ≡ ok claims
    pub granted : AllGranted g (questions cx called.spec claims scope_trust) w.asked
    pub sanctioned :
        Sanctioned g
          (trust_question cx called.spec scope_trust)
          (decide_all g (questions cx called.spec claims scope_trust) w).1.asked
    pub before : l.State
    pub recorded :
        l.observe before (scope_of g cx) (min_with called.spec.output_trust o.trust)
        ≡ (w'.ledger, none)

  authorized-passes :
      (cx : ExecutionContext j) (t : Tool j) (name : Text) (scope_trust : Trust)
      (arguments : j.Value) (others : l.State → l.State) (r : Result Error (Unit {0}) × World l)
      (o : ToolOutcome j)
      → (authorized g cx t name scope_trust arguments others r).0 ≡ ok o
      → (r.0 ≡ ok tt)
        × ((s : l.State) × Recorded
              (scope_of g cx)
              t.spec
              o
              s
              (authorized g cx t name scope_trust arguments others r))
  unfolding authorized
  authorized-passes cx t name scope_trust arguments others (err e, w) o h = cc
  authorized-passes cx t name scope_trust arguments others (ok u, w) o h =
      (refl, (_, finish-Recorded _ t.spec _ _ _ _ o h))

  planned-Authorized :
      (tools : Tools j) (cx : ExecutionContext j) (t : Tool j) (name : Text) (scope_trust : Trust)
      (arguments : j.Value) (others : l.State → l.State) (r : Result Error (List ResourceClaim))
      (w : World l) (o : ToolOutcome j)
      → find name tools ≡ some t
      → l.trust_of w.ledger (scope_of g cx) ≡ ok scope_trust
      → t.planned_resources arguments ≡ r
      → (planned g cx t name scope_trust arguments others r w).0 ≡ ok o
      → Authorized tools name arguments cx w
          (planned g cx t name scope_trust arguments others r w).1
          o
  unfolding planned
  planned-Authorized tools cx t name scope_trust arguments others (err e) w o is_found is_trust
        is_plan h =
      cc
  planned-Authorized tools cx t name scope_trust arguments others (ok claims) w o is_found is_trust
        is_plan h =
      let (passes, (s, recorded)) =
        authorized-passes cx t name scope_trust arguments others
          (authorize g cx t.spec claims scope_trust w) o h in
      let (granted, sanctioned) =
        (authorize-AllGranted g cx t.spec claims scope_trust w).0 passes in
      record {
        called = t;
        claims = claims;
        scope_trust = scope_trust;
        is_found = is_found;
        is_trust = is_trust;
        is_plan = is_plan;
        granted = granted;
        sanctioned = sanctioned;
        before = s;
        recorded = recorded;
      }

  placed-Authorized :
      (tools : Tools j) (cx : ExecutionContext j) (t : Tool j) (name : Text) (arguments : j.Value)
      (others : l.State → l.State) (r : Result Error Trust) (w : World l) (o : ToolOutcome j)
      → find name tools ≡ some t
      → l.trust_of w.ledger (scope_of g cx) ≡ r
      → (placed g cx t name arguments others r w).0 ≡ ok o
      → Authorized tools name arguments cx w (placed g cx t name arguments others r w).1 o
  unfolding placed
  placed-Authorized tools cx t name arguments others (err e) w o is_found is_trust h = cc
  placed-Authorized tools cx t name arguments others (ok scope_trust) w o is_found is_trust h =
      planned-Authorized tools cx t name scope_trust arguments others
        (t.planned_resources arguments) w o is_found is_trust refl h

  looked_up-Authorized :
      (tools : Tools j) (cx : ExecutionContext j) (name : Text) (arguments : j.Value)
      (others : l.State → l.State) (found : Option (Tool j)) (w : World l) (o : ToolOutcome j)
      → find name tools ≡ found
      → (looked_up g cx name arguments others found w).0 ≡ ok o
      → Authorized tools name arguments cx w (looked_up g cx name arguments others found w).1 o
  unfolding looked_up
  looked_up-Authorized tools cx name arguments others none w o is_found h = cc
  looked_up-Authorized tools cx name arguments others (some t) w o is_found h =
      placed-Authorized tools cx t name arguments others (l.trust_of w.ledger (scope_of g cx)) w o
        is_found refl h

  -- A call that answers with an outcome was authorized: its tool is registered, the trust of its
  -- conversation is known, every capability that the tool requires and every resource that it plans to
  -- use was granted by the policy or by the approval that the policy asks for, an untrusted conversation
  -- was sanctioned for a tool that is not contained, and the ledger accepted the trust of what came back.
  pub invoke-Authorized :
      (tools : Tools j) (name : Text) (arguments : j.Value) (cx : ExecutionContext j)
      (others : l.State → l.State) (w : World l) (o : ToolOutcome j)
      → (invoke g tools name arguments cx others w).0 ≡ ok o
      → Authorized tools name arguments cx w (invoke g tools name arguments cx others w).1 o
  unfolding invoke
  invoke-Authorized tools name arguments cx others w o h =
      looked_up-Authorized tools cx name arguments others (find name tools) w o refl h
