-- ===== src/Policy/Tests.antt =====
-- The policy engine on a small document: an agent that works for alice, in her home directory.
use ai_kernel.Prelude.{
  Text, text_eq, text_eq_iff, starts_with, codes, drop, length, true, ◌↔◌, ◌≡◌, refl, [], ◌∷◌, All,
  Option, none, some, if◌then◌else◌, ok, err, is_blank, decimal,
}
use ai_kernel.Policy.Permission.{
  Json, PrincipalKind, PermissionRequest, ExecutionContext, allow, deny, is_allowed,
}
use ai_kernel.Policy.Pattern.{any, prefix, exact, parse, matches, display, is_vacuous}
use ai_kernel.Policy.Pattern.RoundTrip.{display-parse}
use ai_kernel.Policy.Rule.{
  PolicyRule, ConfigError, rule_matches, validate, validate_document, prefix_path,
}
use ai_kernel.Policy.Rule.Validation.{IsUsable, validate_document-IsUsable}
use ai_kernel.Policy.Engine.{RuleBasedPolicyEngine, evaluate}
use ai_kernel.Policy.Engine.FirstMatch.{Decides, evaluate-Decides}

-- Values that are texts: a field's value is what stands behind the field's name.
field : Text → Text → Option Text
field v k = if starts_with k v then some (drop (length k) v) else none

abbrev texts : Json
texts = record { Value = Text; get = field; value_eq = text_eq; value_eq_iff = text_eq_iff }

display-parse_example : display (parse (codes "fs.*")) ≡ codes "fs.*"
display-parse_example = display-parse (codes "fs.*")

abbrev for_alice : PolicyRule texts
for_alice = record {
  principal = record { id = any; kind = none; on_behalf_of = some (exact (codes "alice")) };
  action = prefix (codes "fs.");
  resource = some (prefix (codes "/home/alice/"));
  context = some ((codes "tool:", codes "fs.read") ∷ []);
  effect = allow;
  description = none;
}

abbrev secrets : PolicyRule texts
secrets = record for_alice {
  resource = some (prefix (codes "/home/alice/secrets"));
  effect = deny (codes "contains credentials");
}

abbrev engine : RuleBasedPolicyEngine texts
engine = record { rules = secrets ∷ for_alice ∷ [] }

abbrev reads_notes : PermissionRequest texts
reads_notes = record {
  principal = record {
    id = codes "scheduler";
    kind = PrincipalKind.system;
    on_behalf_of = some (codes "alice");
  };
  action = codes "fs.read";
  resource = some (codes "/home/alice/notes");
  context = codes "tool:fs.read";
}

abbrev nothing_known : ExecutionContext texts
nothing_known = record { correlation = codes "op-1"; principal = none; attribute = λ k. none }

for_alice_applies : rule_matches texts for_alice reads_notes nothing_known ≡ true
unfolding rule_matches matches starts_with text_eq field
for_alice_applies = refl

evaluate-Decides_example :
    (evaluate reads_notes nothing_known engine ≡ allow)
    ↔ Decides reads_notes nothing_known engine.rules allow
evaluate-Decides_example = evaluate-Decides reads_notes nothing_known engine allow

allowed : is_allowed (evaluate reads_notes nothing_known engine) ≡ true
unfolding is_allowed evaluate rule_matches matches starts_with text_eq field
allowed = refl

usable : validate_document engine.rules ≡ ok tt
unfolding validate_document validate is_vacuous is_blank
usable = refl

validate_document-IsUsable_example : All IsUsable engine.rules
validate_document-IsUsable_example = validate_document-IsUsable engine.rules usable

abbrev silent : PolicyRule texts
silent = record secrets { effect = deny (codes "  ") }

abbrev silent_error : ConfigError
silent_error = record {
  path = codes "rules[1].effect.reason";
  message = codes "deny reason must not be empty";
}

silent_refused : validate_document (for_alice ∷ silent ∷ []) ≡ err silent_error
unfolding validate_document validate is_vacuous is_blank prefix_path decimal text_eq
silent_refused = refl
