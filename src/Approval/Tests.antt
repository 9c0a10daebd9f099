-- ===== src/Approval/Tests.antt =====
-- A frontend attaches, one question is asked and approved, and the broker closes.
use ai_kernel.Prelude.{
  any, Text, text_eq, text_eq_iff, codes, ◌≡◌, inl, refl, true, false, Bool, some, none, [], ◌∷◌,
  ok, Result, Memᴰ,
}
use ai_kernel.Clock.{saturating_add, saturating_since}
use ai_kernel.Errors.{Error}
use ai_kernel.Policy.Permission.{Json, PrincipalKind}
use ai_kernel.Approval.Broker.{
  open_channel, closed_channel, ApprovalSettings, Shared, Asking, with_settings, attach,
  request_approval, approve, close, poll, is_waiting, set_receiver,
}
use ai_kernel.Approval.Broker.Reachable.{
  attached, asked, approved, Run, started, stepped, attaches, asks, approves, closes, IsSound,
  Run-IsSound, is_closing,
}
use ai_kernel.Approval.Broker.Safety.{poll-answering}
use ai_kernel.Approval.Broker.Liveness.{Run-poll_ends}

abbrev texts : Json
texts = record {
  Value = Text;
  get = λ value name. none;
  value_eq = text_eq;
  value_eq_iff = text_eq_iff;
}

abbrev settings : ApprovalSettings
settings = record { timeout = 120000000000; max_pending = 16 }

abbrev write_notes : Asking texts
write_notes = record {
  request = record {
    principal = record { id = codes "agent"; kind = PrincipalKind.agent; on_behalf_of = none };
    action = codes "fs.write";
    resource = some (codes "notes");
    context = [];
  };
  prompt = codes "Allow?";
  correlation = codes "c1";
  deadline = none;
  is_cancelled = false;
}

abbrev listening : Shared texts
listening = attach (with_settings settings)

-- The question with the id 7 waits.
abbrev asking : Shared texts
asking = record {
  waiting =
      record {
        id = 7;
        request = write_notes.request;
        prompt = write_notes.prompt;
        correlation = write_notes.correlation;
        requested_at = 1000;
        expires_at = 121000;
      }
      ∷ [];
  receiver = set_receiver 7 (some open_channel) (λ i. none);
  gates = 1;
  closed = false;
  settings = settings;
}

asks_seven : request_approval 7 1000 write_notes listening ≡ ok (120000000000, asking)
unfolding request_approval attach with_settings saturating_add saturating_since
asks_seven = refl

abbrev run_asked : Run settings (asked 7 ∷ attached ∷ []) asking
run_asked =
    stepped (stepped started (attaches (with_settings settings)))
      (asks listening asking 7 1000 write_notes 120000000000 asks_seven)

Run-IsSound_example :
    IsSound asking
    × (asking.closed ≡ any is_closing (asked 7 ∷ attached ∷ []))
    × (asking.settings ≡ settings)
Run-IsSound_example = Run-IsSound run_asked

seven_approved : poll false false 5 ((approve 7 asking).1.receiver 7) ≡ some (ok true)
unfolding poll approve set_receiver is_waiting
seven_approved = refl

poll-answering_example : Memᴰ (approved 7) (approved 7 ∷ asked 7 ∷ attached ∷ [])
poll-answering_example =
    poll-answering 7 false false 5 true (stepped run_asked (approves asking 7)) seven_approved

seven_closed : (close asking).receiver 7 ≡ some closed_channel
unfolding close set_receiver is_waiting
seven_closed = refl

closed_now : (close asking).closed ≡ true
unfolding close
closed_now = refl

Run-poll_ends_example :
    (result : Result Error Bool) × (poll false false 5 ((close asking).receiver 7) ≡ some result)
Run-poll_ends_example =
    Run-poll_ends 7 closed_channel false false 5 (stepped run_asked (closes asking)) seven_closed
      (inl closed_now)
