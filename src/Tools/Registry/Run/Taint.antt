-- ===== src/Tools/Registry/Run/Taint.antt =====
-- What an untrusted conversation cannot do, crates/tools/src/registry.rs and trust.rs.
use mathlib.Core.Path.{subst}
use ai_kernel.Prelude.{
  Text, ℕ, ◌≡◌, ◌≢◌, ap, ◌∙◌, sym, false, none, some, List, [], ◌∷◌, ◌++◌, map, Result, ok, err,
}
use ai_kernel.Errors.{Error}
use ai_kernel.Policy.Permission.{Json, ExecutionContext}
use ai_kernel.Tools.Provenance.{
  Trust, Reach, trusted, untrusted, contained, mutating, external, min_with, is_contained,
}
use ai_kernel.Tools.Ledger.{denial, InMemoryTrustLedger, observe, trust_of}
use ai_kernel.Tools.Ledger.Monotone.{observe-untrusted, observe-monotone}
use ai_kernel.Tools.Audit.{tool, resource}
use ai_kernel.Tools.Registry.{TrustLedger, Gatekeeper, World, Question}
use ai_kernel.Tools.Registry.Gate.{Enforced, EnforcedFor, PermittedBy, AllGranted}
use ai_kernel.Tools.Registry.Run.{
  ToolSpec, ToolOutcome, Tool, Tools, find, question, scope_of, invoke, ResourceClaim,
}
use ai_kernel.Tools.Registry.Run.Answer.{invoke-Authorized}

module _ {j : Json} (g : Gatekeeper j) where
  EnforcedFor-denial :
      (t : Trust) (r : Reach) (q : Question j) (n : ℕ)
      → g.enforcement ≡ denial
      → t ≡ untrusted
      → is_contained r ≡ false
      → ¬ EnforcedFor g t r q n
  unfolding is_contained
  EnforcedFor-denial trusted r q n m u c s = cc u
  EnforcedFor-denial untrusted contained q n m u c s = cc c
  EnforcedFor-denial untrusted mutating q n m u c s = subst (λ m. Enforced g m q n) m s
  EnforcedFor-denial untrusted external q n m u c s = subst (λ m. Enforced g m q n) m s

some_injective {ℓ} : {A : Type ℓ} {a b : A} → some a ≡ some b → a ≡ b
some_injective {a = a} h = ap (λ o. elim o [ none ↦ a | some b ↦ b ]) h

ok_trust : {t u : Trust} → ◌≡◌ {A = Result Error Trust} (ok t) (ok u) → t ≡ u
ok_trust {t = t} h = ap (λ r. elim r [ ok b ↦ b | err e ↦ t ]) h

module _ {j : Json} (g : Gatekeeper j) where
  no_grant :
      (cx : ExecutionContext j) (spec : ToolSpec) (claims : List ResourceClaim) (t : Trust) (n : ℕ)
      (a : Text) (more permissions : List Text)
      → g.policy ≡ none
      → permissions ≡ a ∷ more
      → ¬ AllGranted g
          (map (λ action. question cx spec t tool action none) permissions
            ++ map
                (λ (c : ResourceClaim). question cx spec t resource c.action (some c.resource))
                claims)
          n
  no_grant cx spec claims t n a more permissions no_policy e h =
      let first =
        subst
          (λ ps.
            AllGranted g
              (map (λ action. question cx spec t tool action none) ps
                ++ map
                    (λ (c : ResourceClaim). question cx spec t resource c.action (some c.resource))
                    claims)
              n)
          e h in
      subst (λ p. PermittedBy g (question cx spec t tool a none) n p) no_policy first.0

module _ {j : Json} {l : TrustLedger} (g : Gatekeeper j) where
  -- Where enforcement denies, a conversation that is untrusted gets no outcome from a tool whose effect
  -- is not contained, whatever the policy and the approval sink would have said.
  pub invoke-denial :
      (tools : Tools j) (t : Tool j) (name : Text) (arguments : j.Value) (cx : ExecutionContext j)
      (others : l.State → l.State) (w : World l) (o : ToolOutcome j)
      → g.enforcement ≡ denial
      → l.trust_of w.ledger (scope_of g cx) ≡ ok untrusted
      → find name tools ≡ some t
      → is_contained t.spec.reach ≡ false
      → (invoke g tools name arguments cx others w).0 ≢ ok o
  invoke-denial tools t name arguments cx others w o denies taint is_found reach h =
      let a = invoke-Authorized g tools name arguments cx others w o h in
      let same = some_injective (sym a.is_found ∙ is_found) in
      EnforcedFor-denial g a.scope_trust a.called.spec.reach _ _ denies
        (ok_trust (sym a.is_trust ∙ taint)) (ap (λ t. is_contained t.spec.reach) same ∙ reach)
        a.sanctioned

  -- Without a policy engine a tool that requires a capability gives no outcome.
  pub invoke-unconfigured :
      (tools : Tools j) (t : Tool j) (name : Text) (arguments : j.Value) (cx : ExecutionContext j)
      (others : l.State → l.State) (w : World l) (o : ToolOutcome j) (a : Text) (more : List Text)
      → g.policy ≡ none
      → find name tools ≡ some t
      → t.spec.required_permissions ≡ a ∷ more
      → (invoke g tools name arguments cx others w).0 ≢ ok o
  invoke-unconfigured tools t name arguments cx others w o a more no_policy is_found requires h =
      let answer = invoke-Authorized g tools name arguments cx others w o h in
      let same = some_injective (sym answer.is_found ∙ is_found) in
      no_grant g cx answer.called.spec answer.claims answer.scope_trust w.asked a more _ no_policy
        (ap (λ t. t.spec.required_permissions) same ∙ requires) answer.granted

-- `impl TrustLedger for InMemoryTrustLedger`.
abbrev pub in_memory : TrustLedger
in_memory = record {
  State = InMemoryTrustLedger;
  observe = λ s scope t. (observe s scope t, none);
  trust_of = λ s scope. ok (trust_of s scope);
}

-- What other calls have the ledger observe.
abbrev pub observe_all : List (Text × Trust) → InMemoryTrustLedger → InMemoryTrustLedger
observe_all [] s = s
observe_all ((scope, t) ∷ more) s = observe_all more (observe s scope t)

observe_all-monotone :
    (seen : List (Text × Trust)) (s : InMemoryTrustLedger) (scope : Text)
    → trust_of s scope ≡ untrusted
    → trust_of (observe_all seen s) scope ≡ untrusted
observe_all-monotone [] s scope h = h
observe_all-monotone ((seen, t) ∷ more) s scope h =
    observe_all-monotone more (observe s seen t) scope (observe-monotone s seen scope t h)

module _ {j : Json} (g : Gatekeeper j) where
  invoke-taints :
      (tools : Tools j) (t : Tool j) (name : Text) (arguments : j.Value) (cx : ExecutionContext j)
      (others : InMemoryTrustLedger → InMemoryTrustLedger) (w : World in_memory) (o : ToolOutcome j)
      → (invoke g tools name arguments cx others w).0 ≡ ok o
      → find name tools ≡ some t
      → min_with t.spec.output_trust o.trust ≡ untrusted
      → trust_of (invoke g tools name arguments cx others w).1.ledger (scope_of g cx) ≡ untrusted
  invoke-taints tools t name arguments cx others w o h is_found taints =
      let answer = invoke-Authorized g tools name arguments cx others w o h in
      let same = some_injective (sym answer.is_found ∙ is_found) in
      let taints' = ap (λ t. min_with t.spec.output_trust o.trust) same ∙ taints in
      let kept = ap (λ r. r.0) answer.recorded in
      subst (λ s. trust_of s (scope_of g cx) ≡ untrusted) kept
        (subst (λ t. trust_of (observe answer.before (scope_of g cx) t) (scope_of g cx) ≡ untrusted)
          (sym taints') (observe-untrusted answer.before (scope_of g cx)))

  -- Once a call has brought untrusted content into a conversation, no later call of that conversation
  -- gets an outcome from a tool whose effect is not contained, where enforcement denies, whatever the
  -- ledger observes in between, also for so many conversations that it saturates.
  pub invoke-taint-blocks :
      (tools : Tools j) (t u : Tool j) (name next : Text) (arguments inputs : j.Value)
      (cx cx' : ExecutionContext j) (others others' : InMemoryTrustLedger → InMemoryTrustLedger)
      (seen : List (Text × Trust)) (w w' : World in_memory) (o p : ToolOutcome j)
      → g.enforcement ≡ denial
      → (invoke g tools name arguments cx others w).0 ≡ ok o
      → find name tools ≡ some t
      → min_with t.spec.output_trust o.trust ≡ untrusted
      → w'.ledger ≡ observe_all seen (invoke g tools name arguments cx others w).1.ledger
      → scope_of g cx' ≡ scope_of g cx
      → find next tools ≡ some u
      → is_contained u.spec.reach ≡ false
      → (invoke g tools next inputs cx' others' w').0 ≢ ok p
  invoke-taint-blocks tools t u name next arguments inputs cx cx' others others' seen w w' o p
        denies h is_found taints later same_scope is_next reach =
      let s = (invoke g tools name arguments cx others w).1.ledger in
      let tainted =
        observe_all-monotone seen s (scope_of g cx)
          (invoke-taints tools t name arguments cx others w o h is_found taints) in
      invoke-denial g tools u next inputs cx' others' w' p denies
        (ap (λ s. ok (trust_of s (scope_of g cx'))) later
          ∙ ap (λ c. ok (trust_of (observe_all seen s) c)) same_scope
          ∙ ap ok tainted)
        is_next reach
