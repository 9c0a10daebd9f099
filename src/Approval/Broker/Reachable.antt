-- ===== src/Approval/Broker/Reachable.antt =====
-- crates/approval/src/broker.rs: what the requests and the frontends can make of a broker.
use ai_kernel.Prelude.{
  any, ◌||◌, length, ◌≤◌, ◌<◌, ◌≡◌, refl, sym, ap, arith, inl, inr, ◌==◌, leb, leb-false, Bool,
  Bool-cases, true, false, not, if◌then◌else◌, Option, none, some, List, [], ◌∷◌, length-keep_if-le,
  ok, refuse_if, refuse_if-ok, ◌>>◌, bind-ok, ok_injective, ◌>>=◌, ◌∙◌,
}
use ai_kernel.Clock.{Timestamp, Duration, saturating_since}
use ai_kernel.Errors.{Error}
use ai_kernel.Policy.Permission.{Json}
use ai_kernel.Approval.Broker.{
  ApprovalId, PendingApproval, Channel, open_channel, closed_channel, sent, ApprovalSettings,
  Shared, Asking, set_receiver, drop_sender, with_settings, is_waiting, without, withdraw, attach,
  detach, close, park, enqueue, expiry, question, nobody, request_approval, finish, send, deliver,
  answer, approve, deny, too_many,
}

-- What a broker does: each operation with the state before and after it.
pub data Event : Type 0 where
  attached detached closed_down : Event
  asked : ApprovalId → Event
  approved denied ended : ApprovalId → Event

abbrev pub is_closing : Event → Bool
is_closing closed_down = true
is_closing _ = false

abbrev pub is_open : Option Channel → Bool
is_open none = false
is_open (some open_channel) = true
is_open (some closed_channel) = false
is_open (some (sent granted)) = false

drop_sender-is_open : (c : Option Channel) → is_open (drop_sender c) ≡ false
unfolding drop_sender
drop_sender-is_open none = refl
drop_sender-is_open (some open_channel) = refl
drop_sender-is_open (some closed_channel) = refl
drop_sender-is_open (some (sent granted)) = refl

shut_by :
    (id : ApprovalId) (c : Option Channel) (f : ApprovalId → Option Channel) (i : ApprovalId)
    → is_open c ≡ false
    → is_open (set_receiver id c f i) ≡ (if i == id then false else is_open (f i))
unfolding set_receiver
shut_by id c f i h = elim (Bool-cases (i == id)) [ inl e ↦ rw e h | inr e ↦ rw e refl ]

shut_already :
    (id : ApprovalId) (f : ApprovalId → Option Channel) (i : ApprovalId)
    → is_open (f id) ≡ false
    → is_open (f i) ≡ (if i == id then false else is_open (f i))
shut_already id f i h = elim (Bool-cases (i == id)) [
  | inl e ↦ let same : i ≡ id = ground (arith, e) in rw e (rw same h)
  | inr e ↦ rw e refl
]

module _ {j : Json} where
  pub is_waiting-without :
      (i id : ApprovalId) (ws : List (PendingApproval j))
      → is_waiting i (without id ws) ≡ (if i == id then false else is_waiting i ws)
  unfolding is_waiting without
  is_waiting-without i id [] = ground arith
  is_waiting-without i id (p ∷ ws) = ground (arith, is_waiting-without i id ws)

  pub data Step : Shared j → Event → Shared j → Type 0 where
    attaches : (s : Shared j) → Step s attached (attach s)
    detaches : (s : Shared j) → Step s detached (detach s)
    closes : (s : Shared j) → Step s closed_down (close s)
    asks :
        (s after : Shared j) (id : ApprovalId) (now : Timestamp) (asking : Asking j)
        (remaining : Duration)
        → request_approval id now asking s ≡ ok (remaining, after)
        → Step s (asked id) after
    approves : (s : Shared j) (id : ApprovalId) → Step s (approved id) (approve id s).1
    denies : (s : Shared j) (id : ApprovalId) → Step s (denied id) (deny id s).1
    ends : (s : Shared j) (id : ApprovalId) → Step s (ended id) (finish id s)

  -- A run from a new broker, its events with the last one first.
  pub data Run (settings : ApprovalSettings) : List Event → Shared j → Type 0 where
    started : Run settings [] (with_settings settings)
    stepped :
        {events : List Event} {s after : Shared j} {e : Event}
        → Run settings events s
        → Step s e after
        → Run settings (e ∷ events) after

  -- The questions that wait are those whose request waits for an answer; there are never more than
  -- `max_pending`, and none after `close`.
  abbrev pub IsSound : Shared j → Type 0
  IsSound s =
      ((i : ApprovalId) → is_waiting i s.waiting ≡ is_open (s.receiver i))
      × (length s.waiting ≤ s.settings.max_pending)
      × (s.closed ≡ true → s.waiting ≡ [])

  park-IsSound :
      (p : PendingApproval j) (s : Shared j)
      → s.closed ≡ false
      → length s.waiting < s.settings.max_pending
      → IsSound s
      → IsSound (park p s)
  unfolding park is_waiting set_receiver without
  park-IsSound p s closed room (agree, small, empty) = (
    λ i. ground (arith, agree i, is_waiting-without i p.id s.waiting),
    omega (arith, length-keep_if-le (λ q. not (q.id == p.id)) s.waiting),
    λ c. cc,
  )

  enqueue-park :
      (p : PendingApproval j) (s after : Shared j)
      → enqueue p s ≡ ok after
      → (s.closed ≡ false) × (length s.waiting < s.settings.max_pending) × (after ≡ park p s)
  unfolding enqueue
  enqueue-park p s after h =
      let full = leb s.settings.max_pending (length s.waiting) in
      let (closed, rest) =
        refuse_if-ok s.closed Error.cancelled
          (refuse_if full (too_many (length s.waiting)) >> ok (park p s)) after h in
      let (room, done) =
        refuse_if-ok full (too_many (length s.waiting)) (ok (park p s)) after rest in
      (
        closed,
        leb-false s.settings.max_pending (length s.waiting) room,
        sym (ok_injective (ok (park p s)) (park p s) after refl done),
      )

  pub request_approval-park :
      (id : ApprovalId) (now : Timestamp) (asking : Asking j) (s after : Shared j)
      (remaining : Duration)
      → request_approval id now asking s ≡ ok (remaining, after)
      → (p : PendingApproval j) × (p.id ≡ id)
        × (s.closed ≡ false)
        × (length s.waiting < s.settings.max_pending)
        × (after ≡ park p s)
  unfolding request_approval
  request_approval-park id now asking s after remaining h =
      let expires_at = expiry s now asking.deadline in
      let wait = saturating_since expires_at now in
      let p = question id now expires_at asking in
      let parked = enqueue p s >>= (λ x. ok (wait, x)) in
      let timely = refuse_if (wait == 0) (Error.timeout 0) >> parked in
      let attended = refuse_if (s.gates == 0) nobody >> timely in
      let wanted = refuse_if asking.is_cancelled Error.cancelled >> attended in
      let (c0, h0) = refuse_if-ok s.closed Error.cancelled wanted (remaining, after) h in
      let (c1, h1) =
        refuse_if-ok asking.is_cancelled Error.cancelled attended (remaining, after) h0 in
      let (c2, h2) = refuse_if-ok (s.gates == 0) nobody timely (remaining, after) h1 in
      let (c3, h3) = refuse_if-ok (wait == 0) (Error.timeout 0) parked (remaining, after) h2 in
      let (x, e, f) = bind-ok (enqueue p s) (λ x. ok (wait, x)) (remaining, after) h3 in
      let same : x ≡ after =
        ap (λ r. r.1) (ok_injective (ok (wait, x)) (wait, x) (remaining, after) refl f) in
      let (closed, room, done) = enqueue-park p s x e in (p, refl, closed, room, sym same ∙ done)

  close-agree :
      (s : Shared j) (i : ApprovalId)
      → is_waiting i s.waiting ≡ is_open (s.receiver i)
      → is_waiting i (close s).waiting ≡ is_open ((close s).receiver i)
  unfolding close
  close-agree s i agree = elim (Bool-cases (is_waiting i s.waiting)) [
    | inl e ↦ rw e (sym (drop_sender-is_open (s.receiver i)))
    | inr e ↦ rw e (sym e ∙ agree)
  ]

  close-IsSound : (s : Shared j) → IsSound s → IsSound (close s)
  unfolding close
  close-IsSound s (agree, small, empty) = (λ i. close-agree s i (agree i), omega arith, λ c. refl)

  -- Taking a question out, where no other request's channel changes and its own is not waiting then.
  without-IsSound :
      (id : ApprovalId) (f : ApprovalId → Option Channel) (s : Shared j)
      → ((i : ApprovalId) → is_open (f i) ≡ (if i == id then false else is_open (s.receiver i)))
      → IsSound s
      → IsSound (record s { waiting = without id s.waiting; receiver = f })
  unfolding without
  without-IsSound id f s shut (agree, small, empty) = (
    λ i. is_waiting-without i id s.waiting ∙ rw (agree i) (sym (shut i)),
    omega (arith, length-keep_if-le (λ q. not (q.id == id)) s.waiting),
    λ c. rw (empty c) refl,
  )

  finish-IsSound : (id : ApprovalId) (s : Shared j) → IsSound s → IsSound (finish id s)
  unfolding finish withdraw
  finish-IsSound id s sound =
      without-IsSound id (set_receiver id none s.receiver) s
        (λ i. shut_by id none s.receiver i refl) sound

  deliver-IsSound :
      (id : ApprovalId) (granted : Bool) (c : Option Channel) (s : Shared j)
      → s.receiver id ≡ c
      → IsSound s
      → IsSound (deliver c id granted (record s { waiting = without id s.waiting })).1
  unfolding deliver
  deliver-IsSound id granted none s e sound =
      without-IsSound id s.receiver s (λ i. shut_already id s.receiver i (ap is_open e)) sound
  deliver-IsSound id granted (some c) s e sound =
      without-IsSound id (set_receiver id (some (sent granted)) s.receiver) s
        (λ i. shut_by id (some (sent granted)) s.receiver i refl) sound

  answer-IsSound :
      (id : ApprovalId) (granted : Bool) (s : Shared j)
      → IsSound s
      → IsSound (answer id granted s).1
  unfolding answer withdraw send
  answer-IsSound id granted s sound = elim (Bool-cases (is_waiting id s.waiting)) [
    | inl e ↦ rw e (deliver-IsSound id granted (s.receiver id) s refl sound)
    | inr e ↦ rw e (
        without-IsSound id s.receiver s (λ i. shut_already id s.receiver i (sym (sound.0 id) ∙ e))
          sound)
  ]

  Step-IsSound : {s after : Shared j} {e : Event} → Step s e after → IsSound s → IsSound after
  unfolding attach detach approve deny
  Step-IsSound (attaches s) sound = sound
  Step-IsSound (detaches s) sound = sound
  Step-IsSound (closes s) sound = close-IsSound s sound
  Step-IsSound (asks s after id now asking remaining h) sound =
      let (p, e, closed, room, same) = request_approval-park id now asking s after remaining h in
      rw same (park-IsSound p s closed room sound)
  Step-IsSound (approves s id) sound = answer-IsSound id true s sound
  Step-IsSound (denies s id) sound = answer-IsSound id false s sound
  Step-IsSound (ends s id) sound = finish-IsSound id s sound

  pub Run-agrees :
      {settings : ApprovalSettings} {events : List Event} {s : Shared j}
      → Run settings events s
      → IsSound s
  unfolding with_settings is_waiting
  Run-agrees started = (λ i. refl, omega arith, λ c. refl)
  Run-agrees (stepped run step) = Step-IsSound step (Run-agrees run)

  answer-same :
      (id : ApprovalId) (granted : Bool) (s : Shared j)
      → ((answer id granted s).1.closed ≡ s.closed)
        × ((answer id granted s).1.settings ≡ s.settings)
  unfolding answer withdraw send
  answer-same id granted s = elim (Bool-cases (is_waiting id s.waiting)) [
    | inl e ↦ rw e (deliver-same (s.receiver id))
    | inr e ↦ rw e (refl, refl)
  ]
    where
      deliver-same :
          (c : Option Channel)
          → ((deliver c id granted (record s { waiting = without id s.waiting })).1.closed
              ≡ s.closed)
            × ((deliver c id granted (record s { waiting = without id s.waiting })).1.settings
                ≡ s.settings)
      deliver-same none = (refl, refl)
      deliver-same (some c) = (refl, refl)

  -- Only `close` sets the flag, and no step changes the settings.
  Step-closed :
      {s after : Shared j} {e : Event}
      → Step s e after
      → (after.closed ≡ (is_closing e || s.closed)) × (after.settings ≡ s.settings)
  unfolding attach detach approve deny close finish withdraw park
  Step-closed (attaches s) = (refl, refl)
  Step-closed (detaches s) = (refl, refl)
  Step-closed (closes s) = (refl, refl)
  Step-closed (asks s after id now asking remaining h) =
      let (p, e, closed, room, same) = request_approval-park id now asking s after remaining h in
      rw same (refl, refl)
  Step-closed (approves s id) = answer-same id true s
  Step-closed (denies s id) = answer-same id false s
  Step-closed (ends s id) = (refl, refl)

  Run-closed :
      {settings : ApprovalSettings} {events : List Event} {s : Shared j}
      → Run settings events s
      → (s.closed ≡ any is_closing events) × (s.settings ≡ settings)
  unfolding with_settings
  Run-closed started = (refl, refl)
  Run-closed (stepped {events} {s} {after} {e} run step) =
      let (flag, kept) = Step-closed step in
      let (before, first) = Run-closed run in
      (flag ∙ ap (λ b. is_closing e || b) before, kept ∙ first)

  -- Whatever a broker went through, the questions that wait are those whose request waits for an
  -- answer, there are at most as many as the settings it was made with allow, it is closed exactly
  -- where a `close` is among its events, and then no question waits.
  pub Run-IsSound :
      {settings : ApprovalSettings} {events : List Event} {s : Shared j}
      → Run settings events s
      → IsSound s × (s.closed ≡ any is_closing events) × (s.settings ≡ settings)
  Run-IsSound run = let (flag, kept) = Run-closed run in (Run-agrees run, flag, kept)
