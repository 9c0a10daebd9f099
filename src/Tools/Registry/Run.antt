-- ===== src/Tools/Registry/Run.antt =====
-- crates/tools/src/registry.rs and crates/api/src/tool.rs: a tool, and the invocation of one. A tool
-- that runs is a tree of the resource questions that it puts to its authorizer and of its answers to
-- them; what other invocations do to the ledger meanwhile is an argument.
pub mod Answer
pub mod Taint
pub mod Trail
use ai_kernel.Prelude.{
  Text, text_eq, codes, Bool, true, false, Option, none, some, List, [], ◌∷◌, ◌++◌, map, Result, ok,
  err, if◌then◌else◌,
}
use ai_kernel.Errors.{Error, ErrorKind, kind, kind_text, not_found, already_exists, other}
use ai_kernel.Policy.Permission.{Json, ExecutionContext, principal_or_system, child, with_attribute}
use ai_kernel.Tools.Provenance.{Trust, Reach, trust_text, min_with}
use ai_kernel.Tools.Audit.{
  AuthorizationPhase, Event, InvocationOutcome, succeeded, reported_error, failed, refused, invoked,
  tool, resource, discovered_resource, trust,
}
use ai_kernel.Tools.Registry.{
  TrustLedger, Gatekeeper, World, Question, refusal, decide, decide_all, enforce_trust,
}

pub record ResourceClaim : Type 0 where
  pub action : Text
  pub resource : Text

pub record ToolSpec : Type 0 where
  pub name : Text
  pub required_permissions : List Text
  pub output_trust : Trust
  pub reach : Reach

pub record ToolOutcome (j : Json) : Type 0 where
  pub output : j.Value
  pub is_error : Bool
  pub trust : Trust

pub data Execution (j : Json) : Type 0 where
  done : Result Error (ToolOutcome j) → Execution j
  asks : Text → Text → (Result Error (Unit {0}) → Execution j) → Execution j

pub record Tool (j : Json) : Type 0 where
  pub spec : ToolSpec
  pub planned_resources : j.Value → Result Error (List ResourceClaim)
  pub run : j.Value → ExecutionContext j → Execution j

-- `HashMap` of tools by name.
abbrev pub Tools : Json → Type 0
Tools j = List (Text × Tool j)

module _ {j : Json} where
  unfoldable pub find : Text → Tools j → Option (Tool j)
  find name [] = none
  find name ((n, t) ∷ ts) = if text_eq n name then some t else find name ts

  insert_new : Tool j → Tools j → Option (Tool j) → Result Error (Tools j)
  insert_new t ts (some taken) = err (already_exists (codes "tool") t.spec.name)
  insert_new t ts none = ok ((t.spec.name, t) ∷ ts)

  unfoldable pub register_arc : Tools j → Tool j → Result Error (Tools j)
  unfolding insert_new
  register_arc ts t = insert_new t ts (find t.spec.name ts)

-- `classify_authorization_error`.
classify_kind : ErrorKind → InvocationOutcome
classify_kind ErrorKind.permission = refused
classify_kind k = failed (kind_text k)

unfoldable pub classify_authorization_error : Error → InvocationOutcome
unfolding classify_kind
classify_authorization_error e = classify_kind (kind e)

-- `scope_of`, from the session attribute.
scope_from : Text → Option Text → Text
scope_from correlation none = codes "operation:" ++ correlation
scope_from correlation (some []) = codes "operation:" ++ correlation
scope_from correlation (some (c ∷ session)) = codes "session:" ++ (c ∷ session)

abbrev and_then {ℓ κ} : {A : Type ℓ} {B : Type κ} → Option A → (A → Option B) → Option B
and_then none f = none
and_then (some a) f = f a

abbrev append_event : Bool → Event → List Event → List Event
append_event true e trail = e ∷ trail
append_event false e trail = trail

module _ {j : Json} where
  -- A question about one call.
  abbrev pub question :
      ExecutionContext j → ToolSpec → Trust → AuthorizationPhase → Text → Option Text → Question j
  question cx spec t phase action target = record {
    cx = cx;
    tool = spec.name;
    principal = principal_or_system cx;
    action = action;
    resource = target;
    phase = phase;
    trust = t;
    reach = spec.reach;
  }

  -- The questions of `authorize`: the capabilities, then the planned resources.
  abbrev pub questions :
      ExecutionContext j → ToolSpec → List ResourceClaim → Trust → List (Question j)
  questions cx spec claims t =
      map (λ action. question cx spec t tool action none) spec.required_permissions
      ++ map (λ (c : ResourceClaim). question cx spec t resource c.action (some c.resource)) claims

  abbrev pub trust_question : ExecutionContext j → ToolSpec → Trust → Question j
  trust_question cx spec t = question cx spec t trust (codes "aik.untrusted-content") none

  outcome_of : Result Error (ToolOutcome j) → InvocationOutcome
  unfolding classify_authorization_error
  outcome_of (ok o) = if o.is_error then reported_error else succeeded
  outcome_of (err e) = classify_authorization_error e

module _ {j : Json} (g : Gatekeeper j) where
  unfoldable pub scope_of : ExecutionContext j → Text
  unfolding scope_from
  scope_of cx =
      scope_from cx.correlation (and_then (cx.attribute (codes "aik.agent.session")) g.as_str)

  discarded : Text → Error → Error
  discarded name e = other (
      codes "tool `"
      ++ (name
          ++ (codes
                "` ran, but its result was discarded: the provenance of what it returned could not be recorded: "
              ++ g.show e)))

module _ {j : Json} {l : TrustLedger} (g : Gatekeeper j) where
  unfoldable pub record_invocation :
      ExecutionContext j → Text → InvocationOutcome → Option Trust → World l → World l
  record_invocation cx name outcome output_trust w = record w {
    trail =
        append_event g.audit
          (invoked (record {
            correlation = cx.correlation;
            tool = name;
            principal = principal_or_system cx;
            output_trust = output_trust;
            outcome = outcome;
          }))
          w.trail;
  }

  unfoldable pub authorize :
      ExecutionContext j
      → ToolSpec
      → List ResourceClaim
      → Trust
      → World l
      → Result Error (Unit {0}) × World l
  authorize cx spec claims t w =
      let (r, w') = decide_all g (questions cx spec claims t) w in
      elim r [ ok u ↦ enforce_trust g (trust_question cx spec t) w' | err e ↦ (err e, w') ]

  -- `tool.invoke`, with the scoped authorizer, which asks under the name that was called.
  unfoldable pub execute :
      ExecutionContext j
      → Text
      → ToolSpec
      → Trust
      → Execution j
      → World l
      → Result Error (ToolOutcome j) × World l
  execute cx name spec t (done r) w = (r, w)
  execute cx name spec t (asks action target k) w =
      let (r, w') =
        decide g
          (question cx (record spec { name = name }) t discovered_resource action (some target))
          w in
      execute cx name spec t (k r) w'

  -- After the ledger has been told.
  observed :
      ExecutionContext j
      → Text
      → ToolOutcome j
      → Trust
      → World l
      → l.State × Option Error
      → Result Error (ToolOutcome j) × World l
  unfolding record_invocation outcome_of discarded
  observed cx name o t w (s, none) =
      (ok o, record_invocation cx name (outcome_of (ok o)) (some t) (record w { ledger = s }))
  observed cx name o t w (s, some e) = (
    err (discarded g name e),
    record_invocation cx name (failed (kind_text (kind e))) none (record w { ledger = s }),
  )

  -- From the tool's result on.
  finish :
      ExecutionContext j
      → ToolSpec
      → Text
      → Text
      → Result Error (ToolOutcome j)
      → World l
      → Result Error (ToolOutcome j) × World l
  unfolding observed record_invocation outcome_of
  finish cx spec name scope (err e) w =
      (err e, record_invocation cx name (outcome_of {j = j} (err e)) none w)
  finish cx spec name scope (ok o) w =
      let t = min_with spec.output_trust o.trust in
      observed cx name o t w (l.observe w.ledger scope t)

  -- From the authorization on.
  authorized :
      ExecutionContext j
      → Tool j
      → Text
      → Trust
      → j.Value
      → (l.State → l.State)
      → Result Error (Unit {0}) × World l
      → Result Error (ToolOutcome j) × World l
  unfolding finish record_invocation
  authorized cx t name scope_trust arguments others (err e, w) =
      (err e, record_invocation cx name refused none w)
  authorized cx t name scope_trust arguments others (ok u, w) =
      let inner =
        with_attribute (child cx) (codes "aik.trust") (g.string (trust_text scope_trust)) in
      let (r, w') = execute inner name t.spec scope_trust (t.run arguments inner) w in
      finish inner t.spec name (scope_of g cx) r (record w' { ledger = others w'.ledger })

  planned :
      ExecutionContext j
      → Tool j
      → Text
      → Trust
      → j.Value
      → (l.State → l.State)
      → Result Error (List ResourceClaim)
      → World l
      → Result Error (ToolOutcome j) × World l
  unfolding authorized record_invocation
  planned cx t name scope_trust arguments others (err e) w =
      (err e, record_invocation cx name (failed (kind_text (kind e))) none w)
  planned cx t name scope_trust arguments others (ok claims) w =
      authorized cx t name scope_trust arguments others (authorize cx t.spec claims scope_trust w)

  placed :
      ExecutionContext j
      → Tool j
      → Text
      → j.Value
      → (l.State → l.State)
      → Result Error Trust
      → World l
      → Result Error (ToolOutcome j) × World l
  unfolding planned record_invocation
  placed cx t name arguments others (err e) w = (
    err (
        refusal name
          (codes "the trust of this conversation could not be established: " ++ g.show e)),
    record_invocation cx name refused none w,
  )
  placed cx t name arguments others (ok scope_trust) w =
      planned cx t name scope_trust arguments others (t.planned_resources arguments) w

  looked_up :
      ExecutionContext j
      → Text
      → j.Value
      → (l.State → l.State)
      → Option (Tool j)
      → World l
      → Result Error (ToolOutcome j) × World l
  unfolding placed record_invocation
  looked_up cx name arguments others none w = (
    err (not_found (codes "tool") name),
    record_invocation cx name InvocationOutcome.not_found none w,
  )
  looked_up cx name arguments others (some t) w =
      placed cx t name arguments others (l.trust_of w.ledger (scope_of g cx)) w

  -- `InProcessToolRegistry::invoke`.
  unfoldable pub invoke :
      Tools j
      → Text
      → j.Value
      → ExecutionContext j
      → (l.State → l.State)
      → World l
      → Result Error (ToolOutcome j) × World l
  unfolding looked_up
  invoke tools name arguments cx others w = looked_up cx name arguments others (find name tools) w
