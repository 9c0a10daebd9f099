-- ===== src/Tools/Audit.antt =====
-- crates/api/src/audit.rs: what the registry publishes. The events' times and durations are measured
-- and decide nothing; they are left out, but for whether an approval was waited for.
use ai_kernel.Prelude.{Text, Bool, true, false, Option}
use ai_kernel.Policy.Permission.{Principal}
use ai_kernel.Tools.Provenance.{Trust}

pub data AuthorizationPhase : Type 0 where
  tool resource discovered_resource trust : AuthorizationPhase

pub data AuthorizationOutcome : Type 0 where
  allowed : AuthorizationOutcome
  denied : Text → AuthorizationOutcome
  approval_granted approval_refused approval_unavailable policy_unavailable : AuthorizationOutcome

unfoldable pub is_allowed : AuthorizationOutcome → Bool
is_allowed allowed = true
is_allowed approval_granted = true
is_allowed _ = false

pub record AuthorizationDecided : Type 0 where
  pub correlation : Text
  pub tool : Text
  pub principal : Principal
  pub action : Text
  pub resource : Option Text
  pub scope_trust : Option Trust
  pub phase : AuthorizationPhase
  pub waited : Bool
  pub outcome : AuthorizationOutcome

pub data InvocationOutcome : Type 0 where
  succeeded reported_error : InvocationOutcome
  failed : Text → InvocationOutcome
  refused not_found : InvocationOutcome

unfoldable pub is_success : InvocationOutcome → Bool
is_success succeeded = true
is_success _ = false

pub record ToolInvoked : Type 0 where
  pub correlation : Text
  pub tool : Text
  pub principal : Principal
  pub output_trust : Option Trust
  pub outcome : InvocationOutcome

pub data Event : Type 0 where
  decided : AuthorizationDecided → Event
  invoked : ToolInvoked → Event
