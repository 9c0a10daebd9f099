-- ===== src/Tools/Tests.antt =====
-- A registry with one tool that fetches a page, in a deployment that denies untrusted conversations.
use ai_kernel.Prelude.{
  Text, text_eq, text_eq_iff, starts_with, codes, drop, length, true, false, ◌≡◌, ◌≢◌, refl, List,
  [], ◌∷◌, Option, none, some, if◌then◌else◌, ok,
}
use ai_kernel.Policy.Permission.{Json, ExecutionContext, allow}
use ai_kernel.Tools.Provenance.{trusted, untrusted, external, min_with, is_contained}
use ai_kernel.Tools.Ledger.{InMemoryTrustLedger, denial, trust_of, with_capacity, contains}
use ai_kernel.Tools.Audit.{tool}
use ai_kernel.Tools.Registry.{Gatekeeper, World, Question, decide, decide_all, enforce_trust}
use ai_kernel.Tools.Registry.Run.{
  Tool, ToolSpec, ToolOutcome, done, find, question, authorize, scope_of, invoke, execute,
}
use ai_kernel.Tools.Registry.Run.Answer.{Authorized, invoke-Authorized}
use ai_kernel.Tools.Registry.Run.Taint.{in_memory, observe_all, invoke-taint-blocks}
use ai_kernel.Tools.Registry.Run.Trail.{Noted, invoke-Noted}

field : Text → Text → Option Text
field v k = if starts_with k v then some (drop (length k) v) else none

abbrev texts : Json
texts = record { Value = Text; get = field; value_eq = text_eq; value_eq_iff = text_eq_iff }

abbrev fetch_spec : ToolSpec
fetch_spec = record {
  name = codes "net.fetch";
  required_permissions = codes "net.fetch" ∷ [];
  output_trust = untrusted;
  reach = external;
}

abbrev page : ToolOutcome texts
page = record { output = codes "a page"; is_error = false; trust = trusted }

abbrev fetch : Tool texts
fetch = record { spec = fetch_spec; planned_resources = λ v. ok []; run = λ v cx. done (ok page) }

abbrev gate : Gatekeeper texts
gate = record {
  policy = some (λ n q cx. ok allow);
  approvals = none;
  audit = true;
  enforcement = denial;
  encoding = record {
    object = λ fields. [];
    string = λ t. t;
    as_str = λ v. some v;
    show = λ e. [];
  };
}

abbrev session : ExecutionContext texts
session = record { correlation = codes "1"; principal = none; attribute = λ k. some (codes "s") }

abbrev start : World in_memory
start = record { trail = []; asked = 0; ledger = with_capacity 2 }

abbrev unread : InMemoryTrustLedger
unread = record { tainted = []; saturated = false; capacity = 1 }

abbrev full : InMemoryTrustLedger
full = record { tainted = codes "a" ∷ []; saturated = false; capacity = 1 }

full_taints : trust_of full (codes "a") ≡ untrusted
unfolding trust_of contains text_eq
full_taints = refl

abbrev asks_fetch : Question texts
asks_fetch = question session fetch_spec trusted tool (codes "net.fetch") none

abbrev name : Text
name = codes "net.fetch"

abbrev tools : List (Text × Tool texts)
tools = (name, fetch) ∷ []

registered : find name tools ≡ some fetch
unfolding find text_eq
registered = refl

fetches : (invoke gate tools name [] session (λ s. s) start).0 ≡ ok page
unfolding invoke authorize decide_all decide find scope_of enforce_trust execute text_eq trust_of
    contains with_capacity
fetches = refl

is_external : is_contained external ≡ false
unfolding is_contained
is_external = refl

invoke-Authorized_example :
    Authorized gate tools name [] session start
      (invoke gate tools name [] session (λ s. s) start).1
      page
invoke-Authorized_example = invoke-Authorized gate tools name [] session (λ s. s) start page fetches

abbrev tainted : World in_memory
tainted = record start { ledger = record unread { tainted = codes "session:s" ∷ [] } }

knows : in_memory.trust_of tainted.ledger (scope_of gate session) ≡ ok untrusted
unfolding scope_of trust_of contains text_eq
knows = refl

abbrev unconfigured : Gatekeeper texts
unconfigured = record gate { policy = none }

brings_untrusted : min_with untrusted trusted ≡ untrusted
unfolding min_with
brings_untrusted = refl

abbrev after_fetch : World in_memory
after_fetch = record start {
  ledger =
      observe_all ((codes "session:t", untrusted) ∷ [])
        (invoke gate tools name [] session (λ s. s) start).1.ledger;
}

invoke-taint-blocks_example : (invoke gate tools name [] session (λ s. s) after_fetch).0 ≢ ok page
invoke-taint-blocks_example =
    invoke-taint-blocks gate tools fetch fetch name name [] [] session session (λ s. s) (λ s. s)
      ((codes "session:t", untrusted) ∷ []) start after_fetch page page refl fetches registered
      brings_untrusted refl refl registered is_external

invoke-Noted_example :
    Noted name []
      (invoke gate tools name [] session (λ s. s) start).1.trail
      (invoke gate tools name [] session (λ s. s) start).0
invoke-Noted_example = invoke-Noted gate refl tools name [] session (λ s. s) start
