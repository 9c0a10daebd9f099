-- ===== src/Audit/Record.antt =====
-- crates/api/src/audit.rs: entries, records and queries. An event's timestamp stands beside the event.
use ai_kernel.Prelude.{
  Text, text_eq, ℕ, ltb, Bool, true, false, not, ◌&&◌, ◌||◌, any, if◌then◌else◌, Option, none, some,
  List, [], ◌∷◌,
}
use ai_kernel.Policy.Permission.{Principal, system_principal, is_some_text, may_act_for}
use ai_kernel.Tools.Audit.{AuthorizationDecided, ToolInvoked, InvocationOutcome, is_allowed}

pub record AuditGap : Type 0 where
  pub timestamp : ℕ
  pub missed : ℕ

pub record RetentionApplied : Type 0 where
  pub timestamp : ℕ
  pub cutoff : ℕ
  pub removed : ℕ

pub data AuditEntry : Type 0 where
  authorization : ℕ → AuthorizationDecided → AuditEntry
  invocation : ℕ → ToolInvoked → AuditEntry
  gap : AuditGap → AuditEntry
  retention : RetentionApplied → AuditEntry

pub data AuditEntryKind : Type 0 where
  authorizations invocations gaps retentions : AuditEntryKind

unfoldable pub is_about_the_trail : AuditEntryKind → Bool
is_about_the_trail gaps = true
is_about_the_trail retentions = true
is_about_the_trail _ = false

unfoldable pub kind : AuditEntry → AuditEntryKind
kind (authorization t event) = authorizations
kind (invocation t event) = invocations
kind (gap g) = gaps
kind (retention r) = retentions

unfoldable pub timestamp : AuditEntry → ℕ
timestamp (authorization t event) = t
timestamp (invocation t event) = t
timestamp (gap g) = g.timestamp
timestamp (retention r) = r.timestamp

unfoldable pub correlation : AuditEntry → Option Text
correlation (authorization t event) = some event.correlation
correlation (invocation t event) = some event.correlation
correlation _ = none

unfoldable pub principal : AuditEntry → Text
principal (authorization t event) = event.principal.id
principal (invocation t event) = event.principal.id
principal _ = system_principal.id

unfoldable pub on_behalf_of : AuditEntry → Option Text
on_behalf_of (authorization t event) = event.principal.on_behalf_of
on_behalf_of (invocation t event) = event.principal.on_behalf_of
on_behalf_of _ = none

unfoldable pub tool : AuditEntry → Option Text
tool (authorization t event) = some event.tool
tool (invocation t event) = some event.tool
tool _ = none

was_refused : InvocationOutcome → Bool
was_refused InvocationOutcome.refused = true
was_refused _ = false

unfoldable pub is_refusal : AuditEntry → Bool
unfolding was_refused is_allowed
is_refusal (authorization t event) = not (is_allowed event.outcome)
is_refusal (invocation t event) = was_refused event.outcome
is_refusal _ = false

pub record AuditRecord : Type 0 where
  pub sequence : ℕ
  pub entry : AuditEntry

unfoldable pub visible_to : AuditRecord → Principal → Bool
unfolding kind is_about_the_trail principal on_behalf_of may_act_for
visible_to r reader =
    if is_about_the_trail (kind r.entry)
    then true
    else may_act_for reader (principal r.entry) || is_some_text (on_behalf_of r.entry) reader.id

unfoldable pub concerns : AuditRecord → Text → Bool
unfolding kind is_about_the_trail principal on_behalf_of
concerns r id =
    if is_about_the_trail (kind r.entry)
    then true
    else text_eq (principal r.entry) id || is_some_text (on_behalf_of r.entry) id

-- `==` on kinds.
unfoldable pub same_kind : AuditEntryKind → AuditEntryKind → Bool
same_kind authorizations authorizations = true
same_kind invocations invocations = true
same_kind gaps gaps = true
same_kind retentions retentions = true
same_kind _ _ = false

pub record AuditQuery : Type 0 where
  pub principal : Option Text
  pub correlation : Option Text
  pub tool : Option Text
  pub kinds : List AuditEntryKind
  pub since : Option ℕ
  pub until : Option ℕ
  pub refusals_only : Bool
  pub limit : Option ℕ

-- A filter that is not set lets everything through.
abbrev pub passes {ℓ} : {A : Type ℓ} → Option A → (A → Bool) → Bool
passes none test = true
passes (some a) test = test a

abbrev pub admits_kind : List AuditEntryKind → AuditEntryKind → Bool
admits_kind [] k = true
admits_kind (x ∷ kinds) k = any (same_kind k) (x ∷ kinds)

unfoldable pub matches : AuditQuery → AuditRecord → Bool
unfolding concerns correlation tool kind timestamp is_refusal same_kind
matches q r =
    passes q.principal (concerns r)
    && passes q.correlation (is_some_text (correlation r.entry))
    && passes q.tool (is_some_text (tool r.entry))
    && admits_kind q.kinds (kind r.entry)
    && passes q.since (λ t. not (ltb (timestamp r.entry) t))
    && passes q.until (λ t. not (ltb t (timestamp r.entry)))
    && (not q.refusals_only || is_refusal r.entry)
