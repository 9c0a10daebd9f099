-- ===== src/Quota/Guard/Ceilings.antt =====
-- The ceilings of a rule, crates/quota/src/document.rs, one by one.
use ai_kernel.Prelude.{
  min, ◌+◌, u64_max, ℕ, ◌<◌, ◌≡◌, refl, ◌↔◌, ◌⊎◌, inl, inr, Bool, true, false, Option, none, some,
  List, [], ◌∷◌, All, keep_if, Bool-cases,
}
use ai_kernel.Quota.Ledger.{QuotaDimension, Counters, get}
use ai_kernel.Quota.Document.{QuotaRule, ceiling, ceilings, is_empty}

-- Everything that is counted is below its ceiling.
abbrev pub Below : Counters → List (QuotaDimension × ℕ) → Type 0
Below counters cs = All (λ (c : QuotaDimension × ℕ). get counters c.0 < c.1) cs

-- A count is below a ceiling, where there is one.
abbrev pub IsUnder : Option ℕ → ℕ → Type 0
IsUnder none n = Unit
IsUnder (some limit) n = n < limit

-- What was spent is below every ceiling that the rule sets; the total is that of both kinds of tokens, as
-- far as a machine word counts.
abbrev pub IsBelow : QuotaRule → Counters → Type 0
IsBelow rule c =
    IsUnder rule.max_turns c.turns
    × IsUnder rule.max_input_tokens c.input_tokens
    × IsUnder rule.max_output_tokens c.output_tokens
    × IsUnder rule.max_total_tokens (min (c.input_tokens + c.output_tokens) u64_max)
    × IsUnder rule.max_cost_micros c.cost_micros

ceiling-Below :
    (c : Counters) (d : QuotaDimension) (o : Option ℕ) (more : List (QuotaDimension × ℕ))
    → Below c (ceiling d o more) ↔ (IsUnder o (get c d) × Below c more)
ceiling-Below c d none more = (λ h. (tt, h), λ h. h.1)
ceiling-Below c d (some limit) more = (λ h. h, λ h. h)

pub ceilings-IsBelow : (c : Counters) (rule : QuotaRule) → Below c (ceilings rule) ↔ IsBelow rule c
unfolding ceilings get
ceilings-IsBelow c r =
    let cost = ceiling QuotaDimension.cost_micros r.max_cost_micros [] in
    let total = ceiling QuotaDimension.total_tokens r.max_total_tokens cost in
    let output = ceiling QuotaDimension.output_tokens r.max_output_tokens total in
    let input = ceiling QuotaDimension.input_tokens r.max_input_tokens output in
    let (a, a') = ceiling-Below c QuotaDimension.turns r.max_turns input in
    let (b, b') = ceiling-Below c QuotaDimension.input_tokens r.max_input_tokens output in
    let (d, d') = ceiling-Below c QuotaDimension.output_tokens r.max_output_tokens total in
    let (e, e') = ceiling-Below c QuotaDimension.total_tokens r.max_total_tokens cost in
    let (f, f') = ceiling-Below c QuotaDimension.cost_micros r.max_cost_micros [] in
    (
      λ h.
          let (t, h1) = a h in
          let (i, h2) = b h1 in let (o, h3) = d h2 in let (u, h4) = e h3 in (t, i, o, u, (f h4).0),
      λ (t, i, o, u, m). a' (t, b' (i, d' (o, e' (u, f' (m, tt))))),
    )

-- What holds of the elements that are kept.
pub kept_or_not :
    (keep : QuotaRule → Bool) (P : QuotaRule → Type 0) (rules : List QuotaRule)
    → All P (keep_if keep rules) ↔ All (λ r. (keep r ≡ false) ⊎ P r) rules
kept_or_not keep P [] = (λ h. tt, λ h. tt)
kept_or_not keep P (r ∷ rules) =
    let (to, back) = kept_or_not keep P rules in
    elim (Bool-cases (keep r)) [
      | inl k ↦ rw k (
        λ (first, rest). (inr first, to rest),
        λ (first, rest). elim first [ inl off ↦ cc | inr holds ↦ (holds, back rest) ],
      )
      | inr k ↦ rw k (λ h. (inl refl, to h), λ (first, rest). back rest)
    ]

pub nothing_kept :
    (keep : QuotaRule → Bool) (P : QuotaRule → Type 0) (rules : List QuotaRule)
    → is_empty rules ≡ true
    → All P (keep_if keep rules)
nothing_kept keep P [] e = tt
nothing_kept keep P (rule ∷ rules) e = cc
