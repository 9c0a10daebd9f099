-- ===== src/Audit/Store.antt =====
-- crates/audit/src/store.rs, the store in memory, and the rule and the cutoff of crates/audit/src/retention.rs.
pub mod Steps
pub mod Account
pub mod Numbers
pub mod Once
pub mod Sweeping
pub mod Answers
use ai_kernel.Prelude.{
  ℕ, ◌+◌, ◌-◌, ltb, Bool, not, ◌||◌, length, take, keep_if, if◌then◌else◌, Option, none, some, List,
  [], ◌∷◌, ◌++◌, Result, ok, err, u64_max, codes, min,
}
use ai_kernel.Errors.{Error}
use ai_kernel.Policy.Permission.{Principal}
use ai_kernel.Audit.Record.{
  AuditEntry, AuditRecord, AuditQuery, kind, is_about_the_trail, timestamp, visible_to, matches,
}

pub record InMemoryAuditStore : Type 0 where
  pub records : List AuditRecord
  pub issued : ℕ

unfoldable pub new : InMemoryAuditStore
new = record { records = []; issued = 0 }

abbrev pub exhausted : Error
exhausted = Error.other (codes "the audit trail has run out of sequence numbers")

unfoldable pub append : InMemoryAuditStore → AuditEntry → InMemoryAuditStore × Result Error ℕ
append s entry =
    let sequence = s.issued + 1 in
    if ltb u64_max sequence then (s, err exhausted) else (
      record {
        records = s.records ++ (record { sequence = sequence; entry = entry } ∷ []);
        issued = sequence;
      },
      ok sequence,
    )

unfoldable pub survives_retention : ℕ → AuditRecord → Bool
unfolding kind is_about_the_trail timestamp
survives_retention cutoff r = ltb cutoff (timestamp r.entry) || is_about_the_trail (kind r.entry)

-- Milliseconds of the clock and of the retention.
unfoldable pub retention_cutoff : ℕ → ℕ → ℕ
retention_cutoff now retention = now - min retention u64_max

-- The marker's sequence number gives way to the number of the removed.
unfoldable pub removed_or_failed :
    ℕ → InMemoryAuditStore × Result Error ℕ → InMemoryAuditStore × Result Error ℕ
removed_or_failed removed (s, ok sequence) = (s, ok removed)
removed_or_failed removed (s, err e) = (s, err e)

-- `now` is what the store's clock reads.
unfoldable pub sweep_older_than : InMemoryAuditStore → ℕ → ℕ → InMemoryAuditStore × Result Error ℕ
unfolding append survives_retention removed_or_failed
sweep_older_than s now cutoff =
    let kept = keep_if (survives_retention cutoff) s.records in
    let removed = length s.records - length kept in
    let shorter = record s { records = kept } in
    if ltb 0 removed
    then removed_or_failed removed (
        append shorter
          (AuditEntry.retention (record { timestamp = now; cutoff = cutoff; removed = removed })))
    else (shorter, ok removed)

unfoldable pub count_older_than : InMemoryAuditStore → ℕ → ℕ
unfolding survives_retention
count_older_than s cutoff = length (keep_if (λ r. not (survives_retention cutoff r)) s.records)

unfoldable pub last_sequence : InMemoryAuditStore → ℕ
last_sequence s = s.issued

unfoldable pub newest_first : List AuditRecord → List AuditRecord
newest_first [] = []
newest_first (r ∷ rs) = newest_first rs ++ (r ∷ [])

abbrev pub limit_of : Option ℕ → ℕ
limit_of none = u64_max
limit_of (some n) = n

unfoldable pub query : InMemoryAuditStore → AuditQuery → Principal → List AuditRecord
unfolding newest_first visible_to matches
query s q reader =
    take (limit_of q.limit)
      (keep_if (matches q) (keep_if (λ r. visible_to r reader) (newest_first s.records)))
