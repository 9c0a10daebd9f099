-- ===== src/Policy/Rule/Matching.antt =====
-- What a rule applies to, crates/policy/src/rule.rs.
use ai_kernel.Prelude.{
  Text, true, Bool-cases, inl, inr, ◌↔◌, ◌≡◌, refl, List, [], ◌∷◌, All, Option, none, some, arith,
  all,
}
use ai_kernel.Policy.Permission.{Json, PermissionRequest, ExecutionContext}
use ai_kernel.Policy.Pattern.{Pattern, any, prefix, exact}
use ai_kernel.Policy.Pattern
use ai_kernel.Policy.Rule.{
  PolicyRule, Constraint, resource_matches, context_matches, rule_matches, actual, is_value,
}

-- A rule that names a delegator never applies to a principal that acts for nobody, and applies to
-- a delegate only if the pattern matches the one whose work it does.
pub rule_matches-delegate :
    (j : Json) (rule : PolicyRule j) (request : PermissionRequest j) (cx : ExecutionContext j)
    (p : Pattern)
    → rule.principal.on_behalf_of ≡ some p
    → rule_matches j rule request cx ≡ true
    → (owner : Text) × (request.principal.on_behalf_of ≡ some owner)
      × (Pattern.matches p owner ≡ true)
unfolding rule_matches
rule_matches-delegate j rule request cx p e h = ground arith

-- The three readings of a rule's resource.
pub data ResourceCovers : Option Pattern → Option Text → Type 0 where
  capability : ResourceCovers none none
  everything : (r : Option Text) → ResourceCovers (some any) r
  named : (p : Pattern) (r : Text) → Pattern.matches p r ≡ true → ResourceCovers (some p) (some r)

resource_matches-ResourceCovers :
    (p : Option Pattern) (r : Option Text) → resource_matches p r ≡ true → ResourceCovers p r
unfolding resource_matches
resource_matches-ResourceCovers none none h = capability
resource_matches-ResourceCovers none (some r) h = cc
resource_matches-ResourceCovers (some any) r h = everything r
resource_matches-ResourceCovers (some (prefix p)) none h = cc
resource_matches-ResourceCovers (some (exact p)) none h = cc
resource_matches-ResourceCovers (some (prefix p)) (some r) h = named (prefix p) r h
resource_matches-ResourceCovers (some (exact p)) (some r) h = named (exact p) r h

-- A rule that matches a request covers its resource: a rule without a resource answers only
-- requests without one, a rule on `*` answers all, any other only requests whose resource its
-- pattern matches.
pub rule_matches-resource :
    (j : Json) (rule : PolicyRule j) (request : PermissionRequest j) (cx : ExecutionContext j)
    → rule_matches j rule request cx ≡ true
    → ResourceCovers rule.resource request.resource
unfolding rule_matches
rule_matches-resource j rule request cx h =
    resource_matches-ResourceCovers rule.resource request.resource (ground arith)

module _ (j : Json) (request : PermissionRequest j) (cx : ExecutionContext j) where
  is_value-eq : (o : Option j.Value) (v : j.Value) → (is_value j o v ≡ true) ↔ (o ≡ some v)
  is_value-eq none v = (λ h. cc, λ h. cc)
  is_value-eq (some u) v =
      (λ h. ground (arith, (j.value_eq_iff u v).0 h), λ h. (j.value_eq_iff u v).1 (ground arith))

  abbrev pub Holds : Constraint j → Type 0
  Holds c = actual j request cx c.0 ≡ some c.1

  all-Holds :
      (cs : List (Constraint j))
      → all (λ c. is_value j (actual j request cx c.0) c.1) cs ≡ true
      → All Holds cs
  all-Holds [] h = tt
  all-Holds (c ∷ cs) h = elim (Bool-cases (is_value j (actual j request cx c.0) c.1)) [
    | inl e ↦ ((is_value-eq _ c.1).0 e, all-Holds cs (rw e at h))
    | inr e ↦ absurd (ground (arith, e))
  ]

  Holds-all :
      (cs : List (Constraint j))
      → All Holds cs
      → all (λ c. is_value j (actual j request cx c.0) c.1) cs ≡ true
  Holds-all [] h = refl
  Holds-all (c ∷ cs) h = rw ((is_value-eq _ c.1).1 h.0) (Holds-all cs h.1)

  -- A rule's context constraints are met exactly when each key's value, taken from the request's
  -- context or else from the caller's attributes, is there and is the one that the rule states.
  pub context_matches-Holds :
      (cs : List (Constraint j)) → (context_matches j (some cs) request cx ≡ true) ↔ All Holds cs
  unfolding context_matches
  context_matches-Holds cs = (all-Holds cs, Holds-all cs)
