-- ===== src/Audit/Store/Steps.antt =====
-- crates/audit/src/store.rs: what an audit store goes through, as a list of calls of its operations.
use ai_kernel.Prelude.{ℕ, List, [], ◌∷◌}
use ai_kernel.Audit.Record.{AuditEntry}
use ai_kernel.Audit.Store.{InMemoryAuditStore, append, sweep_older_than}

-- A call of `append`, or of `sweep_older_than` when the clock reads `now`; either can fail.
pub data Operation : Type 0 where
  appends : AuditEntry → Operation
  sweeps : (now cutoff : ℕ) → Operation

abbrev pub perform : Operation → InMemoryAuditStore → InMemoryAuditStore
perform (appends e) s = (append s e).0
perform (sweeps now cutoff) s = (sweep_older_than s now cutoff).0

unfoldable pub run : List Operation → InMemoryAuditStore → InMemoryAuditStore
run [] s = s
run (op ∷ ops) s = run ops (perform op s)
