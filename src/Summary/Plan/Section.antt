-- ===== src/Summary/Plan/Section.antt =====
-- crates/summary/src/plan.rs and excerpt.rs: the data section of a plan's excerpt.
use ai_kernel.Prelude.{
  Text, codes, take, ℕ, zero, suc, ◌≡◌, refl, Bool, Bool-cases, inl, inr, false, not, Option, none,
  some, List, [], ◌∷◌, keep_if, All,
}
use ai_kernel.Context.Message.{Values, ContextRecord, ContextBudget}
use ai_kernel.Summary.Excerpt.{render_record, wrap}
use ai_kernel.Summary.Excerpt.Neutral.{has_tag, has_tag-separated}
use ai_kernel.Summary.Excerpt.Delimiter.{IsPlain, HasNoTag, render_record-HasNoTag, plain_then}
use ai_kernel.Summary.Plan.{SummarySettings, Plan, append_record, unpinned_of, plan}
use ai_kernel.Summary.Plan.Coverage.{transcript, add_rendered, plan-IsCoverage}

module _ {ℓ κ} {A : Type ℓ} (P : A → Type κ) where
  All-take : (n : ℕ) (xs : List A) → All P xs → All P (take n xs)
  All-take zero xs h = tt
  All-take (suc n) [] h = tt
  All-take (suc n) (x ∷ xs) (h, hs) = (h, All-take n xs hs)

  All-keep_if : (p : A → Bool) (xs : List A) → All P xs → All P (keep_if p xs)
  All-keep_if p [] h = tt
  All-keep_if p (x ∷ xs) (h, hs) = elim (Bool-cases (p x)) [
    | inl e ↦ rw e (h, All-keep_if p xs hs)
    | inr e ↦ rw e (All-keep_if p xs hs)
  ]

add_rendered-HasNoTag :
    (body : Text) (o : Option Text)
    → has_tag body ≡ false
    → HasNoTag o
    → has_tag (add_rendered body o) ≡ false
unfolding append_record
add_rendered-HasNoTag body none h k = h
add_rendered-HasNoTag [] (some rendered) h k = k
add_rendered-HasNoTag (c ∷ body) (some rendered) h k =
    has_tag-separated 10 (c ∷ body) rendered refl refl h (plain_then (codes "\n") rendered refl k)

module _ {v : Values} (settings : SummarySettings) where
  abbrev pub IsPlainRecord : ContextRecord v → Type 0
  IsPlainRecord r = All IsPlain r.message.content

  transcript-has_no_tag :
      (body : Text) (rs : List (ContextRecord v))
      → has_tag body ≡ false
      → All IsPlainRecord rs
      → has_tag (transcript settings body rs) ≡ false
  unfolding transcript
  transcript-has_no_tag body [] h hs = h
  transcript-has_no_tag body (r ∷ rs) h (k, hs) =
      transcript-has_no_tag (add_rendered body (render_record r settings.max_part_chars)) rs
        (add_rendered-HasNoTag body (render_record r settings.max_part_chars) h
          (render_record-HasNoTag r settings.max_part_chars k))
        hs

  -- The excerpt of a plan is one data section that nothing inside it can close or open again, where no
  -- media type and no tool name in the session has the bracket of a tag.
  pub plan-has_no_tag :
      (records : List (ContextRecord v)) (budget : ContextBudget) (p : Plan)
      → plan records budget settings ≡ some p
      → All IsPlainRecord records
      → (body : Text) × (p.excerpt ≡ wrap body) × (has_tag body ≡ false)
  unfolding unpinned_of
  plan-has_no_tag records budget p h plain =
      let (room, many, excerpt, tokens) = plan-IsCoverage settings records budget p h in
      (
        _,
        excerpt,
        transcript-has_no_tag [] (take p.summarised_records (unpinned_of records)) refl (
            All-take IsPlainRecord p.summarised_records (unpinned_of records)
              (All-keep_if IsPlainRecord (λ r. not r.pinned) records plain)),
      )
