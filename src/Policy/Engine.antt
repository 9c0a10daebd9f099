-- ===== src/Policy/Engine.antt =====
-- crates/policy/src/engine.rs: the engine that takes the first rule that matches.
pub mod FirstMatch
use ai_kernel.Prelude.{
  codes, Bool, true, false, List, [], ◌∷◌, if◌then◌else◌, Result, ok, err, ◌>>=◌, ◌>>◌,
}
use ai_kernel.Policy.Permission.{Json, Decision, PermissionRequest, ExecutionContext, deny}
use ai_kernel.Policy.Rule.{PolicyRule, rule_matches, ConfigError, validate_document}

pub record RuleBasedPolicyEngine (j : Json) : Type 0 where
  pub rules : List (PolicyRule j)

module _ {j : Json} where
  unfoldable pub new : List (PolicyRule j) → Result ConfigError (RuleBasedPolicyEngine j)
  new document = do validate_document document; ok (record { rules = document })

-- The decision when no rule matches.
abbrev pub no_match : Decision
no_match = deny (codes "no policy rule matched this request")

module _ {j : Json} (request : PermissionRequest j) (cx : ExecutionContext j) where
  -- The loop of `evaluate`.
  unfoldable pub evaluate_rules : List (PolicyRule j) → Decision
  evaluate_rules [] = no_match
  evaluate_rules (rule ∷ rules) =
      if rule_matches j rule request cx then rule.effect else evaluate_rules rules

  unfoldable pub evaluate : RuleBasedPolicyEngine j → Decision
  unfolding evaluate_rules
  evaluate engine = evaluate_rules engine.rules
