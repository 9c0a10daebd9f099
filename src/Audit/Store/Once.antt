-- ===== src/Audit/Store/Once.antt =====
-- crates/audit/src/store.rs: no sequence number is given out twice.
use ai_kernel.Prelude.{
  ℕ, ◌+◌, ◌-◌, ◌≤◌, ◌<◌, ◌≡◌, refl, arith, ltb, Bool, Bool-cases, length, keep_if, All, Memᴰ,
  map-All, append-All, members, All-member, kept-members, inl, inr, ◌⊎◌, List, [], ◌∷◌, Result, ok,
  err, u64_max,
}
use ai_kernel.Errors.{Error}
use ai_kernel.Audit.Record.{AuditEntry, AuditRecord}
use ai_kernel.Audit.Store.{InMemoryAuditStore, new, append, sweep_older_than, survives_retention}
use ai_kernel.Audit.Store.Steps.{Operation, appends, sweeps, perform, run}
use ai_kernel.Audit.Store.Numbers.{IsAscending, run_new-IsAscending, removed_or_failed-store}

-- The later store holds what the earlier one held, or what got a number that was not issued yet.
abbrev pub IsLater : InMemoryAuditStore → InMemoryAuditStore → Type 0
IsLater s t =
    (s.issued ≤ t.issued) × All (λ r. Memᴰ r s.records ⊎ (s.issued < r.sequence)) t.records

IsLater-refl : (s : InMemoryAuditStore) → IsLater s s
IsLater-refl s = (
  omega arith,
  map-All (λ r. Memᴰ r s.records) (λ r. Memᴰ r s.records ⊎ (s.issued < r.sequence)) s.records
      (λ r m. inl m) (members s.records),
)

IsLater-trans : (s t u : InMemoryAuditStore) → IsLater s t → IsLater t u → IsLater s u
IsLater-trans s t u (le, held) (le', held') = (
  omega (arith, le, le'),
  map-All (λ r. Memᴰ r t.records ⊎ (t.issued < r.sequence))
      (λ r. Memᴰ r s.records ⊎ (s.issued < r.sequence)) u.records
      (λ r h. elim h [
        | inl m ↦ All-member (λ x. Memᴰ x s.records ⊎ (s.issued < x.sequence)) t.records r held m
        | inr above ↦ inr (omega (arith, le, above))
      ])
      held',
)

append-IsLater : (s : InMemoryAuditStore) (e : AuditEntry) → IsLater s (append s e).0
unfolding append
append-IsLater s e = elim (Bool-cases (ltb u64_max (s.issued + 1))) [
  | inl full ↦ rw full (IsLater-refl s)
  | inr free ↦ rw free (
    omega arith,
    append-All (λ r. Memᴰ r s.records ⊎ (s.issued < r.sequence)) s.records
        (record { sequence = s.issued + 1; entry = e } ∷ []) (IsLater-refl s).1
        (inr (omega arith), tt),
  )
]

shorter-IsLater :
    (s : InMemoryAuditStore) (p : AuditRecord → Bool)
    → IsLater s (record s { records = keep_if p s.records })
shorter-IsLater s p = (
  omega arith,
  map-All (λ r. Memᴰ r s.records) (λ r. Memᴰ r s.records ⊎ (s.issued < r.sequence))
      (keep_if p s.records) (λ r m. inl m) (kept-members p s.records),
)

sweep_older_than-IsLater :
    (s : InMemoryAuditStore) (now cutoff : ℕ) → IsLater s (sweep_older_than s now cutoff).0
unfolding sweep_older_than
sweep_older_than-IsLater s now cutoff =
    let kept = keep_if (survives_retention cutoff) s.records in
    let removed = length s.records - length kept in
    let shorter : InMemoryAuditStore = record s { records = kept } in
    let marker =
      AuditEntry.retention (record { timestamp = now; cutoff = cutoff; removed = removed }) in
    let first = shorter-IsLater s (survives_retention cutoff) in
    elim (Bool-cases (ltb 0 removed)) [
      | inl fewer_left ↦ rw fewer_left (
          rw (removed_or_failed-store removed (append shorter marker)) (
            IsLater-trans s shorter (append shorter marker).0 first
              (append-IsLater shorter marker)))
      | inr all_left ↦ rw all_left first
    ]

perform-IsLater : (op : Operation) (s : InMemoryAuditStore) → IsLater s (perform op s)
perform-IsLater (appends e) s = append-IsLater s e
perform-IsLater (sweeps now cutoff) s = sweep_older_than-IsLater s now cutoff

pub run-IsLater : (ops : List Operation) (s : InMemoryAuditStore) → IsLater s (run ops s)
unfolding run
run-IsLater [] s = IsLater-refl s
run-IsLater (op ∷ ops) s =
    IsLater-trans s (perform op s) (run ops (perform op s)) (perform-IsLater op s)
      (run-IsLater ops (perform op s))

-- The number that an append answers is above the last one issued, and is the last one issued then; an
-- append that fails changes nothing.
abbrev pub IsIssue : InMemoryAuditStore → InMemoryAuditStore × Result Error ℕ → Type 0
IsIssue s (t, ok n) = (s.issued < n) × (t.issued ≡ n)
IsIssue s (t, err e) = t ≡ s

append-IsIssue : (s : InMemoryAuditStore) (e : AuditEntry) → IsIssue s (append s e)
unfolding append
append-IsIssue s e = elim (Bool-cases (ltb u64_max (s.issued + 1))) [
  | inl full ↦ rw full refl
  | inr free ↦ rw free (omega arith, refl)
]

-- Whatever operations a new store went through, failed ones included, the numbers of the records it
-- holds ascend and are at most the last one issued. Whatever it goes through after that, a record that
-- it holds then was held before or has a number above the last one issued before, and what is issued
-- only grows. An append then answers a number above it, or fails and changes nothing.
pub run_once :
    (before after : List Operation) (e : AuditEntry)
    → IsAscending 0 (run before new).records (run before new).issued
      × IsLater (run before new) (run after (run before new))
      × IsIssue (run before new) (append (run before new) e)
run_once before after e = (
  run_new-IsAscending before,
  run-IsLater after (run before new),
  append-IsIssue (run before new) e,
)
