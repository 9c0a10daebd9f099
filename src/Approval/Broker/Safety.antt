-- ===== src/Approval/Broker/Safety.antt =====
-- crates/approval/src/broker.rs and gate.rs: nothing is granted that nobody approved.
use ai_kernel.Prelude.{
  ◌≡◌, refl, arith, inl, inr, ◌⊎◌, ◌==◌, Bool, Bool-cases, true, false, Option, none, some, List,
  ◌∷◌, ok, Memᴰ,
}
use ai_kernel.Clock.{Duration}
use ai_kernel.Policy.Permission.{Json}
use ai_kernel.Approval.Broker.{
  ApprovalId, Channel, open_channel, closed_channel, sent, ApprovalSettings, Shared, set_receiver,
  drop_sender, with_settings, is_waiting, without, withdraw, attach, detach, close, park, finish,
  send, deliver, answer, approve, deny, poll, received,
}
use ai_kernel.Approval.Broker.Reachable.{
  Event, approved, denied, Step, attaches, detaches, closes, asks, approves, denies, ends, Run,
  started, stepped, request_approval-park,
}

abbrev pub answering : Bool → ApprovalId → Event
answering true id = approved id
answering false id = denied id

drop_sender-sent :
    (c : Option Channel) (granted : Bool)
    → drop_sender c ≡ some (sent granted)
    → c ≡ some (sent granted)
unfolding drop_sender
drop_sender-sent none granted h = cc
drop_sender-sent (some open_channel) granted h = cc
drop_sender-sent (some closed_channel) granted h = cc
drop_sender-sent (some (sent g)) granted h = h

-- A channel that is set to `c` holds what it held, or it is this one and holds `c`.
set_receiver-cases :
    (id : ApprovalId) (c d : Option Channel) (f : ApprovalId → Option Channel) (i : ApprovalId)
    → set_receiver id c f i ≡ d
    → ((i ≡ id) × (c ≡ d)) ⊎ (f i ≡ d)
unfolding set_receiver
set_receiver-cases id c d f i h = elim (Bool-cases (i == id)) [
  | inl e ↦ inl (ground (arith, e), rw e at h)
  | inr e ↦ inr (rw e at h)
]

received-ok :
    (c : Option Channel) (granted : Bool) → received c ≡ some (ok granted) → c ≡ some (sent granted)
unfolding received
received-ok none granted h = cc
received-ok (some open_channel) granted h = cc
received-ok (some closed_channel) granted h = cc
received-ok (some (sent g)) granted h = cc

poll-ok :
    (is_cancelled is_overdue : Bool) (remaining : Duration) (c : Option Channel) (granted : Bool)
    → poll is_cancelled is_overdue remaining c ≡ some (ok granted)
    → c ≡ some (sent granted)
unfolding poll
poll-ok true is_overdue remaining c granted h = cc
poll-ok false true remaining c granted h = cc
poll-ok false false remaining c granted h = received-ok c granted h

module _ {j : Json} where
  close-sent :
      (i : ApprovalId) (granted : Bool) (s : Shared j)
      → (close s).receiver i ≡ some (sent granted)
      → s.receiver i ≡ some (sent granted)
  unfolding close
  close-sent i granted s h = elim (Bool-cases (is_waiting i s.waiting)) [
    | inl e ↦ drop_sender-sent (s.receiver i) granted (rw e at h)
    | inr e ↦ rw e at h
  ]

  deliver-sent :
      (c : Option Channel) (id i : ApprovalId) (granted g : Bool) (s : Shared j)
      → (deliver c id granted s).1.receiver i ≡ some (sent g)
      → ((i ≡ id) × (granted ≡ g)) ⊎ (s.receiver i ≡ some (sent g))
  unfolding deliver
  deliver-sent none id i granted g s h = inr h
  deliver-sent (some c) id i granted g s h =
      elim (set_receiver-cases id (some (sent granted)) (some (sent g)) s.receiver i h) [
        | inl (e, f) ↦ inl (e, cc)
        | inr e ↦ inr e
      ]

  answer-sent :
      (id i : ApprovalId) (granted g : Bool) (s : Shared j)
      → (answer id granted s).1.receiver i ≡ some (sent g)
      → ((i ≡ id) × (granted ≡ g)) ⊎ (s.receiver i ≡ some (sent g))
  unfolding answer withdraw send
  answer-sent id i granted g s h = elim (Bool-cases (is_waiting id s.waiting)) [
    | inl e ↦
        deliver-sent (s.receiver id) id i granted g (record s { waiting = without id s.waiting })
          (rw e at h)
    | inr e ↦ inr (rw e at h)
  ]

  abbrev IsTold : List Event → Shared j → Type 0
  IsTold events s =
      (i : ApprovalId) (g : Bool) → s.receiver i ≡ some (sent g) → Memᴰ (answering g i) events

  answer-IsTold :
      (id : ApprovalId) (granted : Bool) (events : List Event) (s : Shared j)
      → IsTold events s
      → IsTold (answering granted id ∷ events) (answer id granted s).1
  answer-IsTold id granted events s told i g h = elim (answer-sent id i granted g s h) [
    | inl (e, f) ↦ Memᴰ.head (rw e (rw f refl))
    | inr e ↦ Memᴰ.tail (told i g e)
  ]

  Step-IsTold :
      {s after : Shared j} {e : Event} (events : List Event)
      → Step s e after
      → IsTold events s
      → IsTold (e ∷ events) after
  unfolding attach detach approve deny park finish withdraw
  Step-IsTold events (attaches s) told i g h = Memᴰ.tail (told i g h)
  Step-IsTold events (detaches s) told i g h = Memᴰ.tail (told i g h)
  Step-IsTold events (closes s) told i g h = Memᴰ.tail (told i g (close-sent i g s h))
  Step-IsTold events (asks s after id now asking remaining k) told i g h =
      let (p, e, closed, room, same) = request_approval-park id now asking s after remaining k in
      elim (set_receiver-cases p.id (some open_channel) (some (sent g)) s.receiver i
        (rw same at h)) [ inl (f, c) ↦ cc | inr f ↦ Memᴰ.tail (told i g f) ]
  Step-IsTold events (approves s id) told i g h = answer-IsTold id true events s told i g h
  Step-IsTold events (denies s id) told i g h = answer-IsTold id false events s told i g h
  Step-IsTold events (ends s id) told i g h =
      elim (set_receiver-cases id none (some (sent g)) s.receiver i h) [
        | inl (f, c) ↦ cc
        | inr f ↦ Memᴰ.tail (told i g f)
      ]

  Run-IsTold :
      {settings : ApprovalSettings} {events : List Event} {s : Shared j}
      → Run settings events s
      → IsTold events s
  unfolding with_settings
  Run-IsTold started i g h = cc
  Run-IsTold (stepped {events} run step) i g h = Step-IsTold events step (Run-IsTold run) i g h

  -- A request is granted only if its question was approved, and is refused by an answer only if it was
  -- denied, at some earlier point of the run.
  pub poll-answering :
      {settings : ApprovalSettings} {events : List Event} {s : Shared j} (id : ApprovalId)
      (is_cancelled is_overdue : Bool) (remaining : Duration) (granted : Bool)
      → Run settings events s
      → poll is_cancelled is_overdue remaining (s.receiver id) ≡ some (ok granted)
      → Memᴰ (answering granted id) events
  poll-answering {s = s} id is_cancelled is_overdue remaining granted run h =
      Run-IsTold run id granted
        (poll-ok is_cancelled is_overdue remaining (s.receiver id) granted h)
