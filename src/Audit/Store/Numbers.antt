-- ===== src/Audit/Store/Numbers.antt =====
-- crates/audit/src/store.rs: the order of the sequence numbers.
use ai_kernel.Prelude.{
  ℕ, ◌+◌, ◌-◌, ◌≤◌, ◌<◌, ◌≡◌, refl, arith, ltb, Bool, Bool-cases, length, keep_if, inl, inr, List,
  [], ◌∷◌, ◌++◌, Result, ok, err, u64_max,
}
use ai_kernel.Errors.{Error}
use ai_kernel.Audit.Record.{AuditEntry, AuditRecord}
use ai_kernel.Audit.Store.{
  InMemoryAuditStore, new, append, sweep_older_than, survives_retention, removed_or_failed,
}
use ai_kernel.Audit.Store.Steps.{Operation, appends, sweeps, perform, run}

-- Above `from`, each number above the one before it, and none above `to`.
abbrev pub IsAscending : ℕ → List AuditRecord → ℕ → Type 0
IsAscending from [] to = from ≤ to
IsAscending from (r ∷ rs) to = (from < r.sequence) × IsAscending r.sequence rs to

-- Below `top`, each number below the one before it, and all above `from`.
abbrev pub IsDescending : ℕ → List AuditRecord → ℕ → Type 0
IsDescending top [] from = from < top
IsDescending top (r ∷ rs) from = (r.sequence < top) × IsDescending r.sequence rs from

IsAscending-lower :
    (a b to : ℕ) (rs : List AuditRecord) → b ≤ a → IsAscending a rs to → IsAscending b rs to
IsAscending-lower a b to [] le h = omega (arith, le, h)
IsAscending-lower a b to (r ∷ rs) le (first, rest) = (omega (arith, le, first), rest)

keep_if-IsAscending :
    (p : AuditRecord → Bool) (from to : ℕ) (rs : List AuditRecord)
    → IsAscending from rs to
    → IsAscending from (keep_if p rs) to
keep_if-IsAscending p from to [] h = h
keep_if-IsAscending p from to (r ∷ rs) (first, rest) = elim (Bool-cases (p r)) [
  | inl e ↦ rw e (first, keep_if-IsAscending p r.sequence to rs rest)
  | inr e ↦ rw e (
      IsAscending-lower r.sequence from to (keep_if p rs) (omega (arith, first))
        (keep_if-IsAscending p r.sequence to rs rest))
]

IsAscending-append :
    (from to : ℕ) (rs : List AuditRecord) (e : AuditEntry)
    → IsAscending from rs to
    → IsAscending from (rs ++ (record { sequence = to + 1; entry = e } ∷ [])) (to + 1)
IsAscending-append from to [] e h = (omega (arith, h), omega arith)
IsAscending-append from to (r ∷ rs) e (first, rest) =
    (first, IsAscending-append r.sequence to rs e rest)

append-IsAscending :
    (s : InMemoryAuditStore) (e : AuditEntry)
    → IsAscending 0 s.records s.issued
    → let (t, r) = append s e in IsAscending 0 t.records t.issued
unfolding append
append-IsAscending s e h = elim (Bool-cases (ltb u64_max (s.issued + 1))) [
  | inl full ↦ rw full h
  | inr free ↦ rw free (IsAscending-append 0 s.issued s.records e h)
]

pub removed_or_failed-store :
    (n : ℕ) (r : InMemoryAuditStore × Result Error ℕ) → (removed_or_failed n r).0 ≡ r.0
unfolding removed_or_failed
removed_or_failed-store n (s, ok k) = refl
removed_or_failed-store n (s, err k) = refl

sweep_older_than-IsAscending :
    (s : InMemoryAuditStore) (now cutoff : ℕ)
    → IsAscending 0 s.records s.issued
    → let (t, r) = sweep_older_than s now cutoff in IsAscending 0 t.records t.issued
unfolding sweep_older_than
sweep_older_than-IsAscending s now cutoff h =
    let kept = keep_if (survives_retention cutoff) s.records in
    let removed = length s.records - length kept in
    let shorter : InMemoryAuditStore = record s { records = kept } in
    let marker =
      AuditEntry.retention (record { timestamp = now; cutoff = cutoff; removed = removed }) in
    let ordered = keep_if-IsAscending (survives_retention cutoff) 0 s.issued s.records h in
    elim (Bool-cases (ltb 0 removed)) [
      | inl fewer_left ↦ rw fewer_left (
          rw (removed_or_failed-store removed (append shorter marker))
            (append-IsAscending shorter marker ordered))
      | inr all_left ↦ rw all_left ordered
    ]

perform-IsAscending :
    (op : Operation) (s : InMemoryAuditStore)
    → IsAscending 0 s.records s.issued
    → IsAscending 0 (perform op s).records (perform op s).issued
perform-IsAscending (appends e) s h = append-IsAscending s e h
perform-IsAscending (sweeps now cutoff) s h = sweep_older_than-IsAscending s now cutoff h

pub run-IsAscending :
    (ops : List Operation) (s : InMemoryAuditStore)
    → IsAscending 0 s.records s.issued
    → IsAscending 0 (run ops s).records (run ops s).issued
unfolding run
run-IsAscending [] s h = h
run-IsAscending (op ∷ ops) s h = run-IsAscending ops (perform op s) (perform-IsAscending op s h)

pub run_new-IsAscending :
    (ops : List Operation) → IsAscending 0 (run ops new).records (run ops new).issued
unfolding new
run_new-IsAscending ops = run-IsAscending ops new (omega arith)
