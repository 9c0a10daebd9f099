-- ===== src/Context/Window/Orphans.antt =====
-- crates/context/src/window.rs: `drop_orphan_results`, and the messages that `assemble` gives.
use mathlib.Core.Path.{subst}
use ai_kernel.Prelude.{
  length-map, Text, text_eq, text_eq_iff, ℕ, ◌≡◌, refl, sym, ap, ◌∙◌, true, false, Bool, List, [],
  ◌∷◌, ◌++◌, map, if_elim, arith, inl, inr, ◌⊎◌, any, Bool-cases, Memᴰ, length,
}
use ai_kernel.Context.Message.{
  Values, ToolCall, ContentPart, text, blob, tool_call, tool_result, other, Message, ContextBudget,
  ContextRecord, ContextUsage,
}
use ai_kernel.Context.Window.Account.{length-drop_orphan_results}
use ai_kernel.Context.Window.{
  Prepared, keep_part, note_call, drop_orphan_parts, drop_orphan_results, publish, assemble,
  is_empty, mark, prepare, selected,
}

is_empty_iff {ℓ} : {A : Type ℓ} (xs : List A) → is_empty xs ≡ true → xs ≡ []
unfolding is_empty
is_empty_iff [] h = refl
is_empty_iff (x ∷ xs) h = cc

module _ {v : Values} where
  -- All the parts of messages, in order.
  abbrev pub parts_of : List (Message v) → List (ContentPart v)
  parts_of [] = []
  parts_of (m ∷ ms) = m.content ++ parts_of ms

  -- Every result among the parts answers a call before it, or one of `calls`.
  Answered : List Text → List (ContentPart v) → Type 0
  Answered calls [] = Unit
  Answered calls (part ∷ parts) =
      (keep_part calls part ≡ true) × Answered (note_call part calls) parts

  after_parts : List Text → List (ContentPart v) → List Text
  after_parts calls [] = calls
  after_parts calls (part ∷ parts) = after_parts (note_call part calls) parts

  Answered-append :
      (calls : List Text) (xs ys : List (ContentPart v))
      → Answered calls xs
      → Answered (after_parts calls xs) ys
      → Answered calls (xs ++ ys)
  unfolding Answered after_parts
  Answered-append calls [] ys a b = b
  Answered-append calls (x ∷ xs) ys (k, a) b = (k, Answered-append (note_call x calls) xs ys a b)

  note_call-dropped :
      (calls : List Text) (part : ContentPart v)
      → keep_part calls part ≡ false
      → note_call part calls ≡ calls
  unfolding keep_part note_call
  note_call-dropped calls (text t) h = cc
  note_call-dropped calls (blob mime_type data_text) h = cc
  note_call-dropped calls (tool_call c) h = cc
  note_call-dropped calls (tool_result call_id content is_error) h = refl
  note_call-dropped calls (other x) h = cc

  abbrev IsRepair : List Text → List (ContentPart v) × List Text × ℕ → Type 0
  IsRepair calls (kept, seen, n) = Answered calls kept × (seen ≡ after_parts calls kept)

  drop_orphan_parts-IsRepair :
      (calls : List Text) (parts : List (ContentPart v))
      → IsRepair calls (drop_orphan_parts calls parts)
  unfolding drop_orphan_parts Answered after_parts
  drop_orphan_parts-IsRepair calls [] = (tt, refl)
  drop_orphan_parts-IsRepair calls (part ∷ parts) =
      let rest = drop_orphan_parts-IsRepair (note_call part calls) parts in
      if_elim (IsRepair calls) (keep_part calls part) (λ k. ((k, rest.0), rest.1))
        (λ k.
          let same : note_call part calls ≡ calls = note_call-dropped calls part k in
          subst (λ c. IsRepair c (drop_orphan_parts (note_call part calls) parts)) same rest)

  drop_orphan_results-Answered :
      (calls : List Text) (ms : List (Message v))
      → Answered calls (parts_of (drop_orphan_results calls ms).0)
  unfolding drop_orphan_results Answered
  drop_orphan_results-Answered calls [] = tt
  drop_orphan_results-Answered calls (m ∷ ms) =
      let (kept, seen) = drop_orphan_parts-IsRepair calls m.content in
      let rest = drop_orphan_results-Answered (drop_orphan_parts calls m.content).1 ms in
      Answered-append calls (drop_orphan_parts calls m.content).0 _ kept (rw (sym seen) rest)

  -- A message left without parts is the only one that is not shown.
  publish-parts_of :
      (count_text : Text → ℕ) (ps : List (Prepared v)) (ms : List (Message v))
      (usage : ContextUsage)
      → length ms ≡ length ps
      → parts_of (publish count_text ps ms usage).0 ≡ parts_of ms
  unfolding publish is_empty
  publish-parts_of count_text [] [] usage h = refl
  publish-parts_of count_text [] (m ∷ ms) usage h = ground arith
  publish-parts_of count_text (p ∷ ps) [] usage h = refl
  publish-parts_of count_text (p ∷ ps) (m ∷ ms) usage h =
      if_elim
        (λ (shown : List (Message v) × List Text × ContextUsage).
          parts_of shown.0 ≡ m.content ++ parts_of ms)
        (is_empty m.content)
        (λ e. rw (is_empty_iff m.content e) (publish-parts_of count_text ps ms _ (omega arith)))
        (λ e. ap (λ xs. m.content ++ xs) (publish-parts_of count_text ps ms _ (omega arith)))

  noted_call :
      (calls : List Text) (part : ContentPart v) (before : List (ContentPart v)) (id : Text)
      → any (text_eq id) (note_call part calls) ≡ true
      → (any (text_eq id) calls ≡ true)
        ⊎ ((c : ToolCall v) × (c.call_id ≡ id) × Memᴰ (tool_call c) (part ∷ before))
  unfolding note_call
  noted_call calls (text t) before id h = inl h
  noted_call calls (blob mime_type data_text) before id h = inl h
  noted_call calls (tool_result call_id content is_error) before id h = inl h
  noted_call calls (other x) before id h = inl h
  noted_call calls (tool_call c) before id h = elim (Bool-cases (text_eq id c.call_id)) [
    | inl e ↦ inr (c, sym ((text_eq_iff id c.call_id).0 e), Memᴰ.head refl)
    | inr e ↦ inl (ground (arith, e, h))
  ]

  -- A result that is answered answers a call among the parts before it, or one of `calls`.
  Answered-call :
      (calls : List Text) (before after : List (ContentPart v)) (id : Text) (content : v.Value)
      (is_error : Bool)
      → Answered calls (before ++ tool_result id content is_error ∷ after)
      → (any (text_eq id) calls ≡ true)
        ⊎ ((c : ToolCall v) × (c.call_id ≡ id) × Memᴰ (tool_call c) before)
  unfolding Answered keep_part note_call
  Answered-call calls [] after id content is_error (k, a) = inl k
  Answered-call calls (part ∷ before) after id content is_error (k, a) =
      elim (Answered-call (note_call part calls) before after id content is_error a) [
        | inr (c, e, m) ↦ inr (c, e, Memᴰ.tail m)
        | inl k ↦ noted_call calls part before id k
      ]

  -- A result in a window answers a call that stands before it in the window.
  pub assemble-answers :
      (count_text : Text → ℕ) (records : List (ContextRecord v)) (budget : ContextBudget)
      (before after : List (ContentPart v)) (id : Text) (content : v.Value) (is_error : Bool)
      → parts_of (assemble count_text records budget).messages
        ≡ before ++ tool_result id content is_error ∷ after
      → (c : ToolCall v) × (c.call_id ≡ id) × Memᴰ (tool_call c) before
  unfolding assemble
  assemble-answers count_text records budget before after id content is_error h =
      let chosen =
        selected (mark budget (map (prepare count_text budget.max_part_tokens) records)) in
      let answered = drop_orphan_results-Answered [] (map (λ p. p.message) chosen) in
      let size = length-drop_orphan_results [] (map (λ p. p.message) chosen) in
      let shown =
        publish-parts_of count_text chosen (drop_orphan_results [] (map (λ p. p.message) chosen)).0
          _ (size ∙ length-map _ chosen) in
      elim (Answered-call [] before after id content is_error
        (subst (Answered []) (sym shown ∙ h) answered)) [ inl k ↦ cc | inr found ↦ found ]
