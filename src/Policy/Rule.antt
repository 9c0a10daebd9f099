-- ===== src/Policy/Rule.antt =====
-- crates/policy/src/rule.rs and document.rs: one rule, and the validation of a document.
pub mod Matching
pub mod Validation
use ai_kernel.Prelude.{
  Text, text_eq, is_blank, codes, decimal, Bool, true, false, ◌&&◌, Option, none, some, List, [],
  ◌∷◌, ◌++◌, ℕ, suc, ◌+◌, all, if◌then◌else◌, Result, ok, err, ◌>>=◌, ◌>>◌, refuse_if, map_err,
}
use ai_kernel.Policy.Permission.{
  Json, Principal, PrincipalKind, kind_eq, Decision, PermissionRequest, ExecutionContext, allow,
  deny, require_approval,
}
use ai_kernel.Policy.Pattern.{Pattern, any, prefix, exact}
use ai_kernel.Policy.Pattern

pub record PrincipalMatcher : Type 0 where
  pub id : Pattern
  pub kind : Option PrincipalKind
  pub on_behalf_of : Option Pattern

-- `Option::is_none_or` on the kind.
abbrev pub kind_allows : Option PrincipalKind → PrincipalKind → Bool
kind_allows none kind = true
kind_allows (some wanted) kind = kind_eq wanted kind

unfoldable pub delegation_matches : Option Pattern → Option Text → Bool
delegation_matches none owner = true
delegation_matches (some p) none = false
delegation_matches (some p) (some owner) = Pattern.matches p owner

unfoldable pub principal_matches : PrincipalMatcher → Principal → Bool
unfolding delegation_matches
principal_matches m p =
    Pattern.matches m.id p.id
    && kind_allows m.kind p.kind
    && delegation_matches m.on_behalf_of p.on_behalf_of

unfoldable pub resource_matches : Option Pattern → Option Text → Bool
resource_matches none none = true
resource_matches none (some r) = false
resource_matches (some any) r = true
resource_matches (some p) (some r) = Pattern.matches p r
resource_matches (some p) none = false

-- An entry of a rule's `context` map.
abbrev pub Constraint : Json → Type 0
Constraint j = Text × j.Value

pub record PolicyRule (j : Json) : Type 0 where
  pub principal : PrincipalMatcher
  pub action : Pattern
  pub resource : Option Pattern
  pub context : Option (List (Constraint j))
  pub effect : Decision
  pub description : Option Text

abbrev or_else {ℓ} : {A : Type ℓ} → Option A → Option A → Option A
or_else none o = o
or_else (some a) o = some a

module _ (j : Json) where
  -- `actual == Some(expected)`.
  abbrev pub is_value : Option j.Value → j.Value → Bool
  is_value none expected = false
  is_value (some v) expected = j.value_eq v expected

  -- What a constraint's key stands for: the request's context first, then the caller's attributes.
  abbrev pub actual : PermissionRequest j → ExecutionContext j → Text → Option j.Value
  actual request cx key = or_else (j.get request.context key) (cx.attribute key)

  unfoldable pub context_matches :
      Option (List (Constraint j)) → PermissionRequest j → ExecutionContext j → Bool
  context_matches none request cx = true
  context_matches (some constraints) request cx =
      all (λ c. is_value (actual request cx c.0) c.1) constraints

  unfoldable pub rule_matches : PolicyRule j → PermissionRequest j → ExecutionContext j → Bool
  unfolding principal_matches resource_matches context_matches
  rule_matches rule request cx =
      principal_matches rule.principal request.principal
      && Pattern.matches rule.action request.action
      && resource_matches rule.resource request.resource
      && context_matches rule.context request cx

-- `Error::Config` of crates/core/src/error.rs.
pub record ConfigError : Type 0 where
  pub path : Text
  pub message : Text

abbrev config : Text → Text → ConfigError
config p m = record { path = p; message = m }

abbrev pub is_vacuous_pattern : Option Pattern → Bool
is_vacuous_pattern none = false
is_vacuous_pattern (some p) = Pattern.is_vacuous p

-- The match on the effect at the end of `PolicyRule::validate`.
unfoldable pub validate_effect : Decision → Result ConfigError (Unit {0})
validate_effect allow = ok tt
validate_effect (deny reason) =
    refuse_if (is_blank reason)
      (config (codes "effect.reason") (codes "deny reason must not be empty"))
validate_effect (require_approval prompt) =
    refuse_if (is_blank prompt)
      (config (codes "effect.prompt") (codes "approval prompt must not be empty"))

-- `Error::config` with the message that `validate` gives each of its four patterns.
abbrev empty_pattern : Text → Text → ConfigError
empty_pattern path what = config path (what ++ codes " pattern must not be empty")

module _ {j : Json} where
  unfoldable pub validate : PolicyRule j → Result ConfigError (Unit {0})
  unfolding validate_effect
  validate rule = do
    refuse_if (Pattern.is_vacuous rule.action) (empty_pattern (codes "action") (codes "action"))
    refuse_if (Pattern.is_vacuous rule.principal.id)
        (empty_pattern (codes "principal.id") (codes "principal id"))
    refuse_if (is_vacuous_pattern rule.principal.on_behalf_of)
        (empty_pattern (codes "principal.on_behalf_of") (codes "principal on_behalf_of"))
    refuse_if (is_vacuous_pattern rule.resource)
        (empty_pattern (codes "resource") (codes "resource"))
    validate_effect rule.effect

-- crates/policy/src/document.rs: `prefix_path`.
unfoldable pub prefix_path : ConfigError → Text → ConfigError
prefix_path e p = record e { path = if text_eq e.path [] then p else p ++ codes "." ++ e.path }

abbrev pub rule_name : ℕ → Text
rule_name i = codes "rules[" ++ decimal i ++ codes "]"

module _ {j : Json} where
  -- The loop of `PolicyDocument::validate` from the rule numbered `i` on.
  unfoldable pub validate_from : ℕ → List (PolicyRule j) → Result ConfigError (Unit {0})
  validate_from i [] = ok tt
  validate_from i (rule ∷ rules) = do
    map_err (λ e. prefix_path e (rule_name i)) (validate rule)
    validate_from (i + 1) rules

  unfoldable pub validate_document : List (PolicyRule j) → Result ConfigError (Unit {0})
  unfolding validate_from
  validate_document rules = validate_from 0 rules
