-- ===== src/Audit/Store/Account.antt =====
-- crates/audit/src/store.rs: what was appended is held, or a marker that is held counts it.
use ai_kernel.Prelude.{
  or_true, ℕ, zero, ◌+◌, ◌-◌, ◌≡◌, ◌<◌, refl, ap, arith, ltb, Bool-cases, false, length,
  length-append, length-keep_if-le, keep_if, inl, inr, List, [], ◌∷◌, ◌++◌, u64_max,
}
use ai_kernel.Audit.Record.{AuditEntry, AuditRecord, kind, is_about_the_trail}
use ai_kernel.Audit.Store.Steps.{Operation, appends, sweeps, run}
use ai_kernel.Audit.Store.Once.{run-IsLater}
use ai_kernel.Audit.Store.{
  InMemoryAuditStore, new, append, sweep_older_than, survives_retention, removed_or_failed,
}

unfoldable pub removed_by : AuditEntry → ℕ
removed_by (AuditEntry.retention r) = r.removed
removed_by _ = 0

unfoldable pub removed_in : List AuditRecord → ℕ
unfolding removed_by
removed_in [] = 0
removed_in (r ∷ rs) = removed_by r.entry + removed_in rs

-- What the markers among the entries that come from outside say was removed.
unfoldable pub claimed : List Operation → ℕ
unfolding removed_by
claimed [] = 0
claimed (appends e ∷ ops) = removed_by e + claimed ops
claimed (sweeps now cutoff ∷ ops) = claimed ops

removed_in-append :
    (xs ys : List AuditRecord) → removed_in (xs ++ ys) ≡ removed_in xs + removed_in ys
unfolding removed_in
removed_in-append [] ys = omega arith
removed_in-append (x ∷ xs) ys = omega (arith, removed_in-append xs ys)

swept_nothing :
    (cutoff n : ℕ) (e : AuditEntry)
    → survives_retention cutoff (record { sequence = n; entry = e }) ≡ false
    → removed_by e ≡ zero
unfolding survives_retention removed_by kind is_about_the_trail
swept_nothing cutoff n (AuditEntry.authorization t x) h = refl
swept_nothing cutoff n (AuditEntry.invocation t x) h = refl
swept_nothing cutoff n (AuditEntry.gap x) h = refl
swept_nothing cutoff n (AuditEntry.retention x) h = let all = or_true (ltb cutoff x.timestamp) in cc

removed_in-keep_if :
    (cutoff : ℕ) (xs : List AuditRecord)
    → removed_in (keep_if (survives_retention cutoff) xs) ≡ removed_in xs
unfolding removed_in
removed_in-keep_if cutoff [] = refl
removed_in-keep_if cutoff (x ∷ xs) = elim (Bool-cases (survives_retention cutoff x)) [
  | inl e ↦ rw e (ap (λ n. removed_by x.entry + n) (removed_in-keep_if cutoff xs))
  | inr e ↦
      rw e (omega (arith, removed_in-keep_if cutoff xs, swept_nothing cutoff x.sequence x.entry e))
]

abbrev IsAccounted : InMemoryAuditStore → ℕ → Type 0
IsAccounted s outside = length s.records + removed_in s.records ≡ s.issued + outside

append-IsAccounted :
    (s : InMemoryAuditStore) (e : AuditEntry) (outside : ℕ)
    → s.issued < u64_max
    → IsAccounted s outside
    → IsAccounted (append s e).0 (outside + removed_by e)
unfolding append removed_in
append-IsAccounted s e outside room h =
    let free : ltb u64_max (s.issued + 1) ≡ false = ground (arith, room) in
    let r : AuditRecord = record { sequence = s.issued + 1; entry = e } in
    rw free
      (omega (arith, h, length-append s.records (r ∷ []), removed_in-append s.records (r ∷ [])))

sweep_older_than-IsAccounted :
    (s : InMemoryAuditStore) (now cutoff outside : ℕ)
    → s.issued < u64_max
    → IsAccounted s outside
    → IsAccounted (sweep_older_than s now cutoff).0 outside
unfolding sweep_older_than append removed_in removed_by removed_or_failed
sweep_older_than-IsAccounted s now cutoff outside room h =
    let kept = keep_if (survives_retention cutoff) s.records in
    let removed = length s.records - length kept in
    let fewer = length-keep_if-le (survives_retention cutoff) s.records in
    let same = removed_in-keep_if cutoff s.records in
    let free : ltb u64_max (s.issued + 1) ≡ false = ground (arith, room) in
    elim (Bool-cases (ltb 0 removed)) [
      | inl fewer_left ↦
          let marker : AuditRecord = record {
            sequence = s.issued + 1;
            entry =
                AuditEntry.retention
                  (record { timestamp = now; cutoff = cutoff; removed = removed });
          } in
          rw fewer_left (
            rw free (
              omega (
                arith,
                h,
                fewer,
                same,
                length-append kept (marker ∷ []),
                removed_in-append kept (marker ∷ []),
              )))
      | inr all_left ↦
          let none_swept : removed ≡ zero = ground (arith, all_left) in
          rw all_left (omega (arith, h, fewer, same, none_swept))
    ]

run-IsAccounted :
    (ops : List Operation) (s : InMemoryAuditStore) (outside : ℕ)
    → (run ops s).issued < u64_max
    → IsAccounted s outside
    → IsAccounted (run ops s) (outside + claimed ops)
unfolding run claimed
run-IsAccounted [] s outside room h = omega (arith, h)
run-IsAccounted (appends e ∷ ops) s outside room h =
    let grown = (run-IsLater (appends e ∷ ops) s).0 in
    let rest =
      run-IsAccounted ops (append s e).0 (outside + removed_by e) room
        (append-IsAccounted s e outside (omega (arith, room, grown)) h) in
    omega (arith, rest)
run-IsAccounted (sweeps now cutoff ∷ ops) s outside room h =
    let grown = (run-IsLater (sweeps now cutoff ∷ ops) s).0 in
    run-IsAccounted ops (sweep_older_than s now cutoff).0 outside room
      (sweep_older_than-IsAccounted s now cutoff outside (omega (arith, room, grown)) h)

-- As long as the sequence numbers are not used up, whatever a new store went through, the records that
-- it holds and the removals that the held markers count add up to the sequence numbers issued, but for
-- the removals that markers claim which were not written by a sweep and came from outside.
pub run_accounted :
    (ops : List Operation)
    → (run ops new).issued < u64_max
    → length (run ops new).records + removed_in (run ops new).records
      ≡ (run ops new).issued + claimed ops
unfolding new removed_in
run_accounted ops room = let all = run-IsAccounted ops new 0 room refl in omega (arith, all)
