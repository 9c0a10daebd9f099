-- ===== src/Approval/Broker/Liveness.antt =====
-- crates/approval/src/broker.rs and gate.rs: every request ends, and an answer counts once.
use ai_kernel.Prelude.{
  ◌≡◌, refl, sym, ap, ◌∙◌, arith, inl, inr, ◌⊎◌, Bool, Bool-cases, true, false, ◌||◌, Option, none,
  some, List, Result, ok, err,
}
use ai_kernel.Clock.{Duration}
use ai_kernel.Errors.{Error}
use ai_kernel.Policy.Permission.{Json}
use ai_kernel.Approval.Broker.{
  ApprovalId, Channel, open_channel, closed_channel, sent, ApprovalSettings, Shared, is_waiting,
  without, withdraw, send, deliver, answer, poll, received, not_pending, closed_early,
}
use ai_kernel.Approval.Broker.Reachable.{
  Event, Run, IsSound, Run-agrees, is_open, is_waiting-without,
}

-- A poll of a request whose channel is closed or holds an answer.
received-shut :
    (c : Channel)
    → is_open (some c) ≡ false
    → (result : Result Error Bool) × (received (some c) ≡ some result)
unfolding received
received-shut open_channel h = cc
received-shut closed_channel h = (err closed_early, refl)
received-shut (sent granted) h = (ok granted, refl)

poll-ends :
    (is_cancelled is_overdue : Bool) (remaining : Duration) (c : Channel)
    → ((is_open (some c) ≡ false) ⊎ ((is_cancelled || is_overdue) ≡ true))
    → (result : Result Error Bool) × (poll is_cancelled is_overdue remaining (some c) ≡ some result)
unfolding poll
poll-ends true is_overdue remaining c h = (err Error.cancelled, refl)
poll-ends false true remaining c h = (err (Error.timeout remaining), refl)
poll-ends false false remaining c (inl h) = received-shut c h
poll-ends false false remaining c (inr h) = cc

module _ {j : Json} where
  closed-shut :
      (id : ApprovalId) (s : Shared j)
      → IsSound s
      → s.closed ≡ true
      → is_open (s.receiver id) ≡ false
  unfolding is_waiting
  closed-shut id s (agree, small, empty) h = sym (agree id) ∙ rw (empty h) refl

  -- In every state that a broker can reach, the next poll of a request ends it when the broker is
  -- closed, when the request is cancelled and when its time is over.
  pub Run-poll_ends :
      {settings : ApprovalSettings} {events : List Event} {s : Shared j} (id : ApprovalId)
      (c : Channel) (is_cancelled is_overdue : Bool) (remaining : Duration)
      → Run settings events s
      → s.receiver id ≡ some c
      → (s.closed ≡ true) ⊎ ((is_cancelled || is_overdue) ≡ true)
      → (result : Result Error Bool) × (poll is_cancelled is_overdue remaining (s.receiver id)
          ≡ some result)
  Run-poll_ends {s = s} id c is_cancelled is_overdue remaining run e (inl h) = rw e (
      poll-ends is_cancelled is_overdue remaining c
        (inl (sym (ap is_open e) ∙ closed-shut id s (Run-agrees run) h)))
  Run-poll_ends id c is_cancelled is_overdue remaining run e (inr h) =
      rw e (poll-ends is_cancelled is_overdue remaining c (inr h))

  deliver-waiting :
      (c : Option Channel) (id : ApprovalId) (granted : Bool) (s : Shared j)
      → (deliver c id granted s).1.waiting ≡ s.waiting
  unfolding deliver
  deliver-waiting none id granted s = refl
  deliver-waiting (some c) id granted s = refl

  answer-waiting :
      (id : ApprovalId) (granted : Bool) (s : Shared j)
      → (answer id granted s).1.waiting ≡ without id s.waiting
  unfolding answer withdraw send
  answer-waiting id granted s = elim (Bool-cases (is_waiting id s.waiting)) [
    | inl e ↦
        rw e
          (deliver-waiting (s.receiver id) id granted (record s { waiting = without id s.waiting }))
    | inr e ↦ rw e refl
  ]

  answer-missing :
      (id : ApprovalId) (granted : Bool) (s : Shared j)
      → is_waiting id s.waiting ≡ false
      → ((answer id granted s).0 ≡ err (not_pending id))
        × ((answer id granted s).1.receiver ≡ s.receiver)
  unfolding answer withdraw
  answer-missing id granted s h = rw h (refl, refl)

  -- After an answer, whether or not it reached the request, every further answer to the same question
  -- is refused as not found and changes no channel.
  pub answer-answer :
      (id : ApprovalId) (granted again : Bool) (s : Shared j)
      → ((answer id again (answer id granted s).1).0 ≡ err (not_pending id))
        × ((answer id again (answer id granted s).1).1.receiver ≡ (answer id granted s).1.receiver)
  answer-answer id granted again s =
      let gone : is_waiting id (answer id granted s).1.waiting ≡ false =
        ap (is_waiting id) (answer-waiting id granted s)
        ∙ is_waiting-without id id s.waiting
        ∙ ground arith in
      answer-missing id again (answer id granted s).1 gone
