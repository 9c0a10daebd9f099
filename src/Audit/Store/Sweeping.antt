-- ===== src/Audit/Store/Sweeping.antt =====
-- crates/audit/src/store.rs: the preview of a sweep, and the sweep.
use ai_kernel.Prelude.{All, Memᴰ, ◌⊎◌, ◌==◌, if◌then◌else◌, false, ℕ, ◌≡◌, List}
use ai_kernel.Audit.Record.{AuditRecord}
use ai_kernel.Audit.Store.{survives_retention}

-- The number of markers that a sweep of `n` records writes.
abbrev pub markers : ℕ → ℕ
markers n = if n == 0 then 0 else 1

-- The records of one store that a sweep at this cutoff spares are held by the other.
abbrev pub IsSpared : ℕ → List AuditRecord → List AuditRecord → Type 0
IsSpared cutoff before after =
    All (λ r. (survives_retention cutoff r ≡ false) ⊎ Memᴰ r after) before
