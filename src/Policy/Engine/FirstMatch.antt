-- ===== src/Policy/Engine/FirstMatch.antt =====
-- Which rule decides a request, crates/policy/src/engine.rs.
use ai_kernel.Prelude.{
  true, false, Bool-cases, inl, inr, ◌↔◌, ◌≡◌, refl, ap, List, [], ◌∷◌, ◌++◌, All, Memᴰ, arith,
}
use ai_kernel.Policy.Permission.{
  Json, Decision, PermissionRequest, ExecutionContext, allow, is_allowed,
}
use ai_kernel.Policy.Rule.{PolicyRule, rule_matches}
use ai_kernel.Policy.Engine.{RuleBasedPolicyEngine, no_match, evaluate_rules, evaluate}

module _ {j : Json} (request : PermissionRequest j) (cx : ExecutionContext j) where
  abbrev pub Passes : PolicyRule j → Type 0
  Passes r = rule_matches j r request cx ≡ false

  -- How the rules decide a request: by the first that matches, or by the default denial.
  pub data Decides (rules : List (PolicyRule j)) (d : Decision) : Type 0 where
    by_rule :
        (before after : List (PolicyRule j)) (r : PolicyRule j)
        → rules ≡ before ++ r ∷ after
        → All Passes before
        → rule_matches j r request cx ≡ true
        → d ≡ r.effect
        → Decides rules d
    by_default : All Passes rules → d ≡ no_match → Decides rules d

  Decides-cons :
      (r : PolicyRule j) (rules : List (PolicyRule j)) (d : Decision)
      → Passes r
      → Decides rules d
      → Decides (r ∷ rules) d
  Decides-cons r rules d p (by_rule before after s e passed m q) =
      by_rule (r ∷ before) after s (ap (◌∷◌ r) e) (p, passed) m q
  Decides-cons r rules d p (by_default passed q) = by_default (p, passed) q

  evaluate_rules-Decides :
      (rules : List (PolicyRule j)) → Decides rules (evaluate_rules request cx rules)
  unfolding evaluate_rules
  evaluate_rules-Decides [] = by_default tt refl
  evaluate_rules-Decides (r ∷ rules) = elim (Bool-cases (rule_matches j r request cx)) [
    | inl m ↦ rw m (by_rule [] rules r refl tt m refl)
    | inr p ↦ rw p (Decides-cons r rules _ p (evaluate_rules-Decides rules))
  ]

  first_match :
      (before after : List (PolicyRule j)) (r : PolicyRule j)
      → All Passes before
      → rule_matches j r request cx ≡ true
      → evaluate_rules request cx (before ++ r ∷ after) ≡ r.effect
  unfolding evaluate_rules
  first_match [] after r passed m = rw m
  first_match (x ∷ before) after r passed m = rw passed.0 (first_match before after r passed.1 m)

  no_rule_left :
      (rules : List (PolicyRule j)) → All Passes rules → evaluate_rules request cx rules ≡ no_match
  unfolding evaluate_rules
  no_rule_left [] passed = refl
  no_rule_left (x ∷ rules) passed = rw passed.0 (no_rule_left rules passed.1)

  Decides-evaluate_rules :
      (rules : List (PolicyRule j)) (d : Decision)
      → Decides rules d
      → evaluate_rules request cx rules ≡ d
  Decides-evaluate_rules rules d (by_rule before after r e passed m q) =
      rw (e, q) (first_match before after r passed m)
  Decides-evaluate_rules rules d (by_default passed q) = rw q (no_rule_left rules passed)

  -- `evaluate` returns a decision exactly when that decision is the effect of the first rule that
  -- matches the request, or no rule matches and it is the default denial.
  pub evaluate-Decides :
      (engine : RuleBasedPolicyEngine j) (d : Decision)
      → (evaluate request cx engine ≡ d) ↔ Decides engine.rules d
  unfolding evaluate
  evaluate-Decides engine d =
      (λ e. rw e at (evaluate_rules-Decides engine.rules), Decides-evaluate_rules engine.rules d)

  allowed_rule :
      (rules : List (PolicyRule j))
      → is_allowed (evaluate_rules request cx rules) ≡ true
      → (r : PolicyRule j) × Memᴰ r rules
        × (rule_matches j r request cx ≡ true)
        × (r.effect ≡ allow)
  unfolding evaluate_rules is_allowed
  allowed_rule [] h = cc
  allowed_rule (x ∷ rules) h = elim (Bool-cases (rule_matches j x request cx)) [
    | inl m ↦ (x, Memᴰ.head refl, m, ground arith)
    | inr p ↦ let (r, mem, m, e) = allowed_rule rules (rw p at h) in (r, Memᴰ.tail mem, m, e)
  ]

  -- The engine fails closed: a request is allowed only if some rule of the document matches it and
  -- has the effect `allow`.
  pub evaluate-allowed :
      (engine : RuleBasedPolicyEngine j)
      → is_allowed (evaluate request cx engine) ≡ true
      → (r : PolicyRule j) × Memᴰ r engine.rules
        × (rule_matches j r request cx ≡ true)
        × (r.effect ≡ allow)
  unfolding evaluate
  evaluate-allowed engine = allowed_rule engine.rules
