-- ===== src/Approval/Broker.antt =====
-- crates/approval/src/broker.rs and gate.rs: the table of waiting questions and their answers.
-- A question's id is new whenever it is made, and a number here. A `oneshot` channel is what its
-- receiver would find: nothing yet, an answer, or that the sender is gone; a request that is no longer
-- polled has no receiver. Notifications are lossy and nothing depends on them: they are left out.
pub mod Reachable
pub mod Safety
pub mod Liveness
use ai_kernel.Prelude.{
  Text, codes, decimal, length, ℕ, ◌+◌, ◌-◌, ◌==◌, leb, ltb, Bool, true, false, not, if◌then◌else◌,
  u64_max, Option, none, some, List, [], ◌∷◌, keep_if, any, Result, ok, err, refuse_if, ◌>>◌, ◌>>=◌,
  ◌++◌,
}
use ai_kernel.Clock.{Timestamp, Duration, saturating_add, saturating_since}
use ai_kernel.Errors.{Error}
use ai_kernel.Policy.Permission.{Json, PermissionRequest}

abbrev pub ApprovalId : Type 0
ApprovalId = ℕ

pub record PendingApproval (j : Json) : Type 0 where
  pub id : ApprovalId
  pub request : PermissionRequest j
  pub prompt : Text
  pub correlation : Text
  pub requested_at : Timestamp
  pub expires_at : Timestamp

pub data Channel : Type 0 where
  open_channel closed_channel : Channel
  sent : Bool → Channel

pub record ApprovalSettings : Type 0 where
  pub timeout : Duration
  pub max_pending : ℕ

pub record Shared (j : Json) : Type 0 where
  pub waiting : List (PendingApproval j)
  pub receiver : ApprovalId → Option Channel
  pub gates : ℕ
  pub closed : Bool
  pub settings : ApprovalSettings

-- What a request brings with it: the part of its execution context that the broker reads.
pub record Asking (j : Json) : Type 0 where
  pub request : PermissionRequest j
  pub prompt : Text
  pub correlation : Text
  pub deadline : Option Timestamp
  pub is_cancelled : Bool

unfoldable pub set_receiver :
    ApprovalId → Option Channel → (ApprovalId → Option Channel) → ApprovalId → Option Channel
set_receiver id c receiver i = if i == id then c else receiver i

-- A sender that is dropped closes a channel on which nothing was sent.
unfoldable pub drop_sender : Option Channel → Option Channel
drop_sender none = none
drop_sender (some open_channel) = some closed_channel
drop_sender (some closed_channel) = some closed_channel
drop_sender (some (sent granted)) = some (sent granted)

unfoldable pub expiry_at : Timestamp → Option Timestamp → Timestamp
expiry_at configured none = configured
expiry_at configured (some deadline) = if ltb deadline configured then deadline else configured

unfoldable pub not_pending : ApprovalId → Error
not_pending id = Error.not_found (codes "pending approval") (decimal id)

unfoldable pub too_many : ℕ → Error
too_many n =
    Error.permission_denied (decimal n ++ codes " approval requests are already awaiting an answer")

abbrev pub nobody : Error
nobody = Error.permission_denied (codes "no approval responder is attached, so nobody can answer")

abbrev pub closed_early : Error
closed_early =
    Error.permission_denied (codes "the approval mechanism closed before an answer arrived")

received : Option Channel → Option (Result Error Bool)
received none = none
received (some open_channel) = none
received (some closed_channel) = some (err closed_early)
received (some (sent granted)) = some (ok granted)

-- One poll of the `select!` in which a request waits: nothing, or what the request returns.
unfoldable pub poll : Bool → Bool → Duration → Option Channel → Option (Result Error Bool)
unfolding received
poll is_cancelled is_overdue remaining channel =
    if is_cancelled
    then some (err Error.cancelled)
    else if is_overdue
    then some (err (Error.timeout remaining))
    else received channel

module _ {j : Json} where
  unfoldable pub with_settings : ApprovalSettings → Shared j
  with_settings settings = record {
    waiting = [];
    receiver = λ i. none;
    gates = 0;
    closed = false;
    settings = settings;
  }

  unfoldable pub is_waiting : ApprovalId → List (PendingApproval j) → Bool
  is_waiting id waiting = any (λ p. p.id == id) waiting

  unfoldable pub without : ApprovalId → List (PendingApproval j) → List (PendingApproval j)
  without id waiting = keep_if (λ p. not (p.id == id)) waiting

  -- `withdraw`, which says whether the question was there.
  unfoldable pub withdraw : ApprovalId → Shared j → Bool × Shared j
  unfolding is_waiting without
  withdraw id s = (is_waiting id s.waiting, record s { waiting = without id s.waiting })

  unfoldable pub attach : Shared j → Shared j
  attach s = record s { gates = s.gates + 1 }

  -- `drop` of a gate: `fetch_sub` wraps.
  unfoldable pub detach : Shared j → Shared j
  detach s = record s { gates = if s.gates == 0 then u64_max else s.gates - 1 }

  unfoldable pub close : Shared j → Shared j
  unfolding is_waiting drop_sender
  close s = record s {
    closed = true;
    waiting = [];
    receiver = λ i. if is_waiting i s.waiting then drop_sender (s.receiver i) else s.receiver i;
  }

  unfoldable pub expiry : Shared j → Timestamp → Option Timestamp → Timestamp
  unfolding expiry_at
  expiry s now deadline = expiry_at (saturating_add now s.settings.timeout) deadline

  pub park : PendingApproval j → Shared j → Shared j
  unfolding without
  park pending s = record s {
    waiting = pending ∷ without pending.id s.waiting;
    receiver = set_receiver pending.id (some open_channel) s.receiver;
  }

  -- The table is a map: a question with the same id is replaced.
  unfoldable pub enqueue : PendingApproval j → Shared j → Result Error (Shared j)
  unfolding park too_many
  enqueue pending s =
      refuse_if s.closed Error.cancelled
      >> (refuse_if (leb s.settings.max_pending (length s.waiting)) (too_many (length s.waiting))
          >> ok (park pending s))

  question : ApprovalId → Timestamp → Timestamp → Asking j → PendingApproval j
  question id now expires_at asking = record {
    id = id;
    request = asking.request;
    prompt = asking.prompt;
    correlation = asking.correlation;
    requested_at = now;
    expires_at = expires_at;
  }

  -- `request_approval` up to where it waits: the time it will wait, and the table with the question.
  unfoldable pub request_approval :
      ApprovalId → Timestamp → Asking j → Shared j → Result Error (Duration × Shared j)
  unfolding enqueue expiry question
  request_approval id now asking s =
      let expires_at = expiry s now asking.deadline in
      let remaining = saturating_since expires_at now in
      refuse_if s.closed Error.cancelled
      >> (refuse_if asking.is_cancelled Error.cancelled
          >> (refuse_if (s.gates == 0) nobody
              >> (refuse_if (remaining == 0) (Error.timeout 0)
                  >> (enqueue (question id now expires_at asking) s >>= λ after.
                      ok (remaining, after)))))

  -- A request ends, by an answer or because it is dropped: its receiver goes, and `Withdrawal` removes
  -- the question.
  unfoldable pub finish : ApprovalId → Shared j → Shared j
  unfolding withdraw set_receiver
  finish id s =
      let (found, after) = withdraw id s in
      record after { receiver = set_receiver id none after.receiver }

  -- `answer.send`: it fails where the receiver is gone.
  deliver : Option Channel → ApprovalId → Bool → Shared j → Result Error (Unit {0}) × Shared j
  deliver none id granted s = (err (not_pending id), s)
  deliver (some c) id granted s =
      (ok tt, record s { receiver = set_receiver id (some (sent granted)) s.receiver })

  unfoldable pub send : ApprovalId → Bool → Shared j → Result Error (Unit {0}) × Shared j
  unfolding deliver
  send id granted s = deliver (s.receiver id) id granted s

  unfoldable pub answer : ApprovalId → Bool → Shared j → Result Error (Unit {0}) × Shared j
  unfolding withdraw send
  answer id granted s =
      let (found, after) = withdraw id s in
      let delivered = send id granted after in
      if found then delivered else (err (not_pending id), after)

  unfoldable pub approve : ApprovalId → Shared j → Result Error (Unit {0}) × Shared j
  unfolding answer
  approve id s = answer id true s

  unfoldable pub deny : ApprovalId → Shared j → Result Error (Unit {0}) × Shared j
  unfolding answer
  deny id s = answer id false s
