-- ===== src/Tools/Registry.antt =====
-- crates/tools/src/registry.rs: the authorization-gated registry. An operation takes the world and
-- returns its answer with the world that it leaves.
pub mod Run
pub mod Gate
use ai_kernel.Prelude.{
  Text, text_eq, codes, ℕ, zero, suc, Bool, true, false, Option, none, some, List, [], ◌∷◌, ◌++◌,
  map, Result, ok, err, if◌then◌else◌,
}
use ai_kernel.Errors.{Error, ErrorKind, permission_denied}
use ai_kernel.Errors
use ai_kernel.Policy.Permission.{
  Json, Principal, Decision, PermissionRequest, ExecutionContext, allow, deny, require_approval,
}
use ai_kernel.Tools.Provenance.{
  Trust, Reach, trusted, untrusted, contained, mutating, external, is_untrusted, is_contained,
  trust_text, reach_text,
}
use ai_kernel.Tools.Ledger.{TrustEnforcement, approval, denial, observation}
use ai_kernel.Tools.Audit.{
  AuthorizationPhase, AuthorizationOutcome, AuthorizationDecided, allowed, denied, approval_granted,
  approval_refused, approval_unavailable, policy_unavailable, Event, decided, invoked,
}

-- `dyn TrustLedger`: a state, and the two methods.
pub record TrustLedger : Type 1 where
  pub State : Type 0
  pub observe : State → Text → Trust → State × Option Error
  pub trust_of : State → Text → Result Error Trust

-- What is used of `serde_json` to build a request's context, and how an error is shown.
pub record Encoding (j : Json) : Type 0 where
  pub object : List (Text × Text) → j.Value
  pub string : Text → j.Value
  pub as_str : j.Value → Option Text
  pub show : Error → Text

-- The registry's fields but its tools. A policy engine and an approval sink are asked with the number
-- of questions asked before, since what they answer may change in time.
pub record Gatekeeper (j : Json) : Type 0 where
  pub policy : Option (ℕ → PermissionRequest j → ExecutionContext j → Result Error Decision)
  pub approvals : Option (ℕ → PermissionRequest j → Text → ExecutionContext j → Result Error Bool)
  pub audit : Bool
  pub enforcement : TrustEnforcement
  pub encoding : Encoding j
  pub open encoding use *

-- The published events, newest first, the number of questions asked, and the ledger.
pub record World (l : TrustLedger) : Type 0 where
  pub trail : List Event
  pub asked : ℕ
  pub ledger : l.State

pub record Question (j : Json) : Type 0 where
  pub cx : ExecutionContext j
  pub tool : Text
  pub principal : Principal
  pub action : Text
  pub resource : Option Text
  pub phase : AuthorizationPhase
  pub trust : Trust
  pub reach : Reach

abbrev quoted : Text → Text
quoted t = codes "`" ++ (t ++ codes "`")

describe_with : Text → Option Text → Text
describe_with action (some resource) = quoted action ++ (codes " on " ++ quoted resource)
describe_with action none = quoted action

-- `InProcessToolRegistry::decide` and `enforce_trust` prefix what they refuse.
abbrev pub refusal : Text → Text → Error
refusal tool message = permission_denied (codes "tool " ++ (quoted tool ++ (codes ": " ++ message)))

unfoldable pub describe_reach : Reach → Text
describe_reach contained = codes "read state this deployment already holds"
describe_reach mutating = codes "change state on this machine"
describe_reach external = codes "send data outside this deployment"

abbrev publish : Bool → Event → List Event → List Event
publish true e trail = e ∷ trail
publish false e trail = trail

module _ {j : Json} where
  unfoldable pub describe : Question j → Text
  unfolding describe_with
  describe q = describe_with q.action q.resource

  unfoldable pub request : Gatekeeper j → Question j → PermissionRequest j
  unfolding trust_text reach_text
  request g q = record {
    principal = q.principal;
    action = q.action;
    resource = q.resource;
    context = g.object (
        (codes "tool", q.tool)
        ∷ (codes "aik.trust", trust_text q.trust)
        ∷ (codes "aik.reach", reach_text q.reach)
        ∷ []);
  }

module _ {j : Json} where
  -- Why an untrusted conversation may not run the tool.
  reason : Question j → Text
  reason q =
      codes "this conversation has read untrusted content, and "
      ++ (quoted q.tool ++ (codes " can " ++ describe_reach q.reach))

  pub prompt : Question j → Text
  prompt q =
      codes
        "This conversation has read content from outside this deployment — a fetched page, a file, a program's output, or an external tool server. Running "
      ++ (quoted q.tool
          ++ (codes " now would let that content "
              ++ (describe_reach q.reach
                  ++ codes
                      ". Untrusted content asking for exactly this is what a prompt injection looks like. Allow it?")))

module _ {j : Json} {l : TrustLedger} (g : Gatekeeper j) where
  unfoldable pub record_decision : Question j → AuthorizationOutcome → Bool → World l → World l
  record_decision q outcome waited w = record w {
    asked = suc w.asked;
    trail =
        publish g.audit
          (decided (record {
            correlation = q.cx.correlation;
            tool = q.tool;
            principal = q.principal;
            action = q.action;
            resource = q.resource;
            scope_trust = some q.trust;
            phase = q.phase;
            waited = waited;
            outcome = outcome;
          }))
          w.trail;
  }

  -- The end of a decision: it is recorded, and refused with a message or let through.
  conclude :
      Question j
      → World l
      → AuthorizationOutcome
      → Option Text
      → Bool
      → Result Error (Unit {0}) × World l
  conclude q w outcome none waited = (ok tt, record_decision q outcome waited w)
  conclude q w outcome (some message) waited =
      (err (refusal q.tool message), record_decision q outcome waited w)

  -- What the approval sink answers, with the words of a refusal.
  answered : Question j → World l → Text → Result Error Bool → Result Error (Unit {0}) × World l
  unfolding conclude
  answered q w refused (ok true) = conclude q w approval_granted none true
  answered q w refused (ok false) = conclude q w approval_refused (some refused) true
  answered q w refused (err e) = (err e, record_decision q approval_unavailable true w)

  -- A question that has to be put to somebody.
  ask :
      Question j
      → World l
      → Text
      → Text
      → Text
      → Option (ℕ → PermissionRequest j → Text → ExecutionContext j → Result Error Bool)
      → Result Error (Unit {0}) × World l
  unfolding conclude answered
  ask q w prompt nobody refused none = conclude q w approval_unavailable (some nobody) false
  ask q w prompt nobody refused (some sink) =
      answered q w refused (sink w.asked (request g q) prompt q.cx)

  on_decision : Question j → World l → Decision → Result Error (Unit {0}) × World l
  unfolding conclude ask
  on_decision q w allow = conclude q w allowed none false
  on_decision q w (deny reason) =
      conclude q w (denied reason) (some (describe q ++ (codes ": " ++ reason))) false
  on_decision q w (require_approval prompt) =
      ask q w prompt (describe q ++ codes " requires approval, but no approval sink is configured")
        (describe q ++ codes " was not approved") g.approvals

  on_evaluation : Question j → World l → Result Error Decision → Result Error (Unit {0}) × World l
  unfolding on_decision
  on_evaluation q w (err e) = (err e, record_decision q policy_unavailable false w)
  on_evaluation q w (ok decision) = on_decision q w decision

  decide_by :
      Question j
      → World l
      → Option (ℕ → PermissionRequest j → ExecutionContext j → Result Error Decision)
      → Result Error (Unit {0}) × World l
  unfolding on_evaluation
  decide_by q w none = (
    err (refusal q.tool (describe q ++ codes " is required, but no policy engine is configured")),
    record_decision q policy_unavailable false w,
  )
  decide_by q w (some policy) = on_evaluation q w (policy w.asked (request g q) q.cx)

  unfoldable pub decide : Question j → World l → Result Error (Unit {0}) × World l
  unfolding decide_by
  decide q w = decide_by q w g.policy

  -- A loop over questions: the first refusal ends it.
  unfoldable pub decide_all : List (Question j) → World l → Result Error (Unit {0}) × World l
  decide_all [] w = (ok tt, w)
  decide_all (q ∷ qs) w =
      let (r, w') = decide q w in elim r [ ok u ↦ decide_all qs w' | err e ↦ (err e, w') ]

  enforce : TrustEnforcement → Question j → World l → Result Error (Unit {0}) × World l
  unfolding conclude ask reason
  enforce observation q w = conclude q w allowed none false
  enforce denial q w = conclude q w (denied (reason q)) (some (reason q)) false
  enforce approval q w =
      ask q w (prompt q) (reason q ++ codes ", and there is nobody to ask")
        (reason q ++ codes ", and it was not approved") g.approvals

  -- `enforce_trust`, for the question of phase `trust`.
  unfoldable pub enforce_trust : Question j → World l → Result Error (Unit {0}) × World l
  unfolding enforce is_untrusted is_contained
  enforce_trust q w =
      if is_untrusted q.trust
      then if is_contained q.reach then (ok tt, w) else enforce g.enforcement q w
      else (ok tt, w)
