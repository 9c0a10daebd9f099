-- ===== src/Policy/Rule/Validation.antt =====
-- What a validated document guarantees, crates/policy/src/rule.rs and document.rs.
use ai_kernel.Prelude.{
  Text, false, Bool-cases, inl, inr, ◌≡◌, ◌≢◌, refl, ap, ◌∙◌, List, [], ◌∷◌, ◌++◌, All, Option,
  none, some, arith, is_blank, is_whitespace, ok, err, ℕ, ◌+◌, length, Result-cases, Memᴰ,
}
use ai_kernel.Policy.Permission.{Json, Decision, allow, deny, require_approval}
use ai_kernel.Policy.Pattern.{Pattern, any, prefix, exact, is_vacuous}
use ai_kernel.Policy.Rule.{
  PolicyRule, ConfigError, validate_effect, validate, prefix_path, rule_name, validate_from,
  validate_document, is_vacuous_pattern,
}

-- A text with a character that is not white space.
abbrev pub SaysSomething : Text → Type 0
SaysSomething t = (c : ℕ) × Memᴰ c t × (is_whitespace c ≡ false)

is_blank-SaysSomething : (t : Text) → is_blank t ≡ false → SaysSomething t
unfolding is_blank
is_blank-SaysSomething [] h = cc
is_blank-SaysSomething (x ∷ t) h = elim (Bool-cases (is_whitespace x)) [
  | inl w ↦ let (c, m, n) = is_blank-SaysSomething t (ground (arith, w)) in (c, Memᴰ.tail m, n)
  | inr w ↦ (x, Memᴰ.head refl, w)
]

abbrev pub ExplainsItself : Decision → Type 0
ExplainsItself allow = Unit
ExplainsItself (deny reason) = SaysSomething reason
ExplainsItself (require_approval prompt) = SaysSomething prompt

-- A rule none of whose matchers is the empty text, with an effect that tells why.
pub record IsUsable {j : Json} (rule : PolicyRule j) : Type 0 where
  pub action : rule.action ≢ exact []
  pub principal : rule.principal.id ≢ exact []
  pub delegator : rule.principal.on_behalf_of ≢ some (exact [])
  pub resource : rule.resource ≢ some (exact [])
  pub effect : ExplainsItself rule.effect

not-vacuous : (p : Pattern) → is_vacuous p ≡ false → p ≢ exact []
unfolding is_vacuous
not-vacuous any h e = cc
not-vacuous (prefix t) h e = cc
not-vacuous (exact []) h e = cc
not-vacuous (exact (x ∷ t)) h e = cc

not-vacuous_pattern : (p : Option Pattern) → is_vacuous_pattern p ≡ false → p ≢ some (exact [])
not-vacuous_pattern none h e = cc
not-vacuous_pattern (some p) h e = not-vacuous p h (ground arith)

validate_effect-ok : (d : Decision) → validate_effect d ≡ ok tt → ExplainsItself d
unfolding validate_effect
validate_effect-ok allow h = tt
validate_effect-ok (deny r) h = is_blank-SaysSomething r (ground arith)
validate_effect-ok (require_approval r) h = is_blank-SaysSomething r (ground arith)

module _ {j : Json} where
  validate-IsUsable : (rule : PolicyRule j) → validate rule ≡ ok tt → IsUsable rule
  unfolding validate
  validate-IsUsable rule h = record {
    action = not-vacuous rule.action (ground arith);
    principal = not-vacuous rule.principal.id (ground arith);
    delegator = not-vacuous_pattern rule.principal.on_behalf_of (ground arith);
    resource = not-vacuous_pattern rule.resource (ground arith);
    effect = validate_effect-ok rule.effect (ground arith);
  }

  validate_from-IsUsable :
      (i : ℕ) (rules : List (PolicyRule j)) → validate_from i rules ≡ ok tt → All IsUsable rules
  unfolding validate_from
  validate_from-IsUsable i [] h = tt
  validate_from-IsUsable i (r ∷ rules) h = elim (Result-cases (validate r)) [
    | inl (u, e) ↦ (validate-IsUsable r e, validate_from-IsUsable (i + 1) rules (rw e at h))
    | inr (x, e) ↦ absurd (ground (arith, e))
  ]

  -- A document that passes validation holds only usable rules: no matcher of theirs is the empty text,
  -- and every refusal or prompt has a text with a character that is not white space.
  pub validate_document-IsUsable :
      (rules : List (PolicyRule j)) → validate_document rules ≡ ok tt → All IsUsable rules
  unfolding validate_document
  validate_document-IsUsable rules = validate_from-IsUsable 0 rules

  -- The first rule of a document that validation refuses, with the path that the error names.
  pub data Refuses (i : ℕ) (rules : List (PolicyRule j)) (x : ConfigError) : Type 0 where
    at_rule :
        (before after : List (PolicyRule j)) (r : PolicyRule j) (e : ConfigError)
        → rules ≡ before ++ r ∷ after
        → All (λ (q : PolicyRule j). validate q ≡ ok tt) before
        → validate r ≡ err e
        → x ≡ prefix_path e (rule_name (i + length before))
        → Refuses i rules x

  Refuses-cons :
      (i : ℕ) (r : PolicyRule j) (rules : List (PolicyRule j)) (x : ConfigError)
      → validate r ≡ ok tt
      → Refuses (i + 1) rules x
      → Refuses i (r ∷ rules) x
  Refuses-cons i r rules x v (at_rule before after q e s passed w n) =
      at_rule (r ∷ before) after q e (ap (◌∷◌ r) s) (v, passed) w
        (n ∙ ap (λ (k : ℕ). prefix_path e (rule_name k)) (omega arith))

  validate_from-Refuses :
      (i : ℕ) (rules : List (PolicyRule j)) (x : ConfigError)
      → validate_from i rules ≡ err x
      → Refuses i rules x
  unfolding validate_from
  validate_from-Refuses i [] x h = cc
  validate_from-Refuses i (r ∷ rules) x h = elim (Result-cases (validate r)) [
    | inl (u, e) ↦ Refuses-cons i r rules x e (validate_from-Refuses (i + 1) rules x (rw e at h))
    | inr (y, e) ↦
        let start : i ≡ i + 0 = omega arith in
        let named : x ≡ prefix_path y (rule_name i) = ground (arith, e) in
        at_rule [] rules r y refl tt e (named ∙ ap (λ (k : ℕ). prefix_path y (rule_name k)) start)
  ]

  -- A refused document is refused for its first invalid rule, and the error's path leads with that
  -- rule's index among the rules.
  pub validate_document-Refuses :
      (rules : List (PolicyRule j)) (x : ConfigError)
      → validate_document rules ≡ err x
      → Refuses 0 rules x
  unfolding validate_document
  validate_document-Refuses rules x = validate_from-Refuses 0 rules x
