-- ===== src/Audit/Store/Answers.antt =====
-- crates/audit/src/store.rs: what a query answers.
use ai_kernel.Prelude.{
  map-All, append-All, members, member-kept, member-left, member-right, Memᴰ, ◌⊎◌, ℕ, zero, suc,
  ◌+◌, ◌≤◌, ◌<◌, ◌≡◌, refl, ap, ◌∙◌, arith, Bool, Bool-cases, true, ◌&&◌, length, length-take,
  keep_if, take, All, min, inl, inr, List, [], ◌∷◌, ◌++◌,
}
use ai_kernel.Policy.Permission.{Principal}
use ai_kernel.Audit.Record.{AuditRecord, AuditQuery, visible_to, matches}
use ai_kernel.Audit.Store.{new, newest_first, query, limit_of}
use ai_kernel.Audit.Store.Steps.{Operation, run}
use ai_kernel.Audit.Store.Numbers.{IsAscending, IsDescending, run_new-IsAscending}

IsDescending-append :
    (top from : ℕ) (rs : List AuditRecord) (r : AuditRecord)
    → IsDescending top rs r.sequence
    → from < r.sequence
    → IsDescending top (rs ++ (r ∷ [])) from
IsDescending-append top from [] r h below = (h, below)
IsDescending-append top from (x ∷ rs) r (first, rest) below =
    (first, IsDescending-append x.sequence from rs r rest below)

newest_first-IsDescending :
    (from to : ℕ) (rs : List AuditRecord)
    → IsAscending from rs to
    → IsDescending (to + 1) (newest_first rs) from
unfolding newest_first
newest_first-IsDescending from to [] h = omega (arith, h)
newest_first-IsDescending from to (r ∷ rs) (first, rest) =
    IsDescending-append (to + 1) from (newest_first rs) r
      (newest_first-IsDescending r.sequence to rs rest) first

IsDescending-higher :
    (a b from : ℕ) (rs : List AuditRecord) → a ≤ b → IsDescending a rs from → IsDescending b rs from
IsDescending-higher a b from [] le h = omega (arith, le, h)
IsDescending-higher a b from (r ∷ rs) le (first, rest) = (omega (arith, le, first), rest)

keep_if-IsDescending :
    (p : AuditRecord → Bool) (top from : ℕ) (rs : List AuditRecord)
    → IsDescending top rs from
    → IsDescending top (keep_if p rs) from
keep_if-IsDescending p top from [] h = h
keep_if-IsDescending p top from (r ∷ rs) (first, rest) = elim (Bool-cases (p r)) [
  | inl e ↦ rw e (first, keep_if-IsDescending p r.sequence from rs rest)
  | inr e ↦ rw e (
      IsDescending-higher r.sequence top from (keep_if p rs) (omega (arith, first))
        (keep_if-IsDescending p r.sequence from rs rest))
]

IsDescending-lt : (top from : ℕ) (rs : List AuditRecord) → IsDescending top rs from → from < top
IsDescending-lt top from [] h = h
IsDescending-lt top from (r ∷ rs) (first, rest) =
    omega (arith, first, IsDescending-lt r.sequence from rs rest)

take-IsDescending :
    (n top from : ℕ) (rs : List AuditRecord)
    → IsDescending top rs from
    → IsDescending top (take n rs) from
take-IsDescending zero top from rs h = IsDescending-lt top from rs h
take-IsDescending (suc n) top from [] h = h
take-IsDescending (suc n) top from (r ∷ rs) (first, rest) =
    (first, take-IsDescending n r.sequence from rs rest)

-- What a reader gets of a query.
abbrev pub is_answer : AuditQuery → Principal → AuditRecord → Bool
is_answer q reader r = visible_to r reader && matches q r

keep_if-both :
    (q : AuditQuery) (reader : Principal) (rs : List AuditRecord)
    → keep_if (matches q) (keep_if (λ r. visible_to r reader) rs) ≡ keep_if (is_answer q reader) rs
keep_if-both q reader [] = refl
keep_if-both q reader (r ∷ rs) = elim (Bool-cases (visible_to r reader)) [
  | inl v ↦ elim (Bool-cases (matches q r)) [
    | inl m ↦ rw v (rw m (ap (◌∷◌ r) (keep_if-both q reader rs)))
    | inr m ↦ rw v (rw m (keep_if-both q reader rs))
  ]
  | inr v ↦ rw v (keep_if-both q reader rs)
]

keep_if-All :
    (P : AuditRecord → Type 0) (p : AuditRecord → Bool) (rs : List AuditRecord)
    → All P rs
    → All (λ r. P r × (p r ≡ true)) (keep_if p rs)
keep_if-All P p [] h = tt
keep_if-All P p (r ∷ rs) (first, rest) = elim (Bool-cases (p r)) [
  | inl e ↦ rw e ((first, e), keep_if-All P p rs rest)
  | inr e ↦ rw e (keep_if-All P p rs rest)
]

take-All {ℓ} :
    (P : AuditRecord → Type ℓ) (n : ℕ) (rs : List AuditRecord) → All P rs → All P (take n rs)
take-All P zero rs h = tt
take-All P (suc n) [] h = tt
take-All P (suc n) (r ∷ rs) (first, rest) = (first, take-All P n rs rest)

keep_if-append :
    (p : AuditRecord → Bool) (xs ys : List AuditRecord)
    → length (keep_if p (xs ++ ys)) ≡ length (keep_if p xs) + length (keep_if p ys)
keep_if-append p [] ys = omega arith
keep_if-append p (x ∷ xs) ys = elim (Bool-cases (p x)) [
  | inl e ↦ rw e (omega (arith, keep_if-append p xs ys))
  | inr e ↦ rw e (keep_if-append p xs ys)
]

length-newest_first :
    (p : AuditRecord → Bool) (rs : List AuditRecord)
    → length (keep_if p (newest_first rs)) ≡ length (keep_if p rs)
unfolding newest_first
length-newest_first p [] = refl
length-newest_first p (r ∷ rs) =
    let split = keep_if-append p (newest_first rs) (r ∷ []) in
    let rest = length-newest_first p rs in
    elim (Bool-cases (p r)) [
      | inl e ↦ rw e (rw e at split ∙ omega (arith, rest))
      | inr e ↦ rw e (rw e at split ∙ omega (arith, rest))
    ]

newest_first-member :
    (r : AuditRecord) (rs : List AuditRecord) → Memᴰ r rs → Memᴰ r (newest_first rs)
unfolding newest_first
newest_first-member r [] m = elim m [ ]
newest_first-member r (x ∷ rs) (Memᴰ.head e) =
    member-right r (newest_first rs) (x ∷ []) (Memᴰ.head e)
newest_first-member r (x ∷ rs) (Memᴰ.tail m) =
    member-left r (newest_first rs) (x ∷ []) (newest_first-member r rs m)

newest_first-held : (rs : List AuditRecord) → All (λ r. Memᴰ r rs) (newest_first rs)
unfolding newest_first
newest_first-held [] = tt
newest_first-held (x ∷ rs) =
    append-All (λ r. Memᴰ r (x ∷ rs)) (newest_first rs) (x ∷ [])
      (map-All (λ r. Memᴰ r rs) (λ r. Memᴰ r (x ∷ rs)) (newest_first rs) (λ r m. Memᴰ.tail m)
        (newest_first-held rs))
      (Memᴰ.head refl, tt)

IsDescending-below :
    (top from : ℕ) (rs : List AuditRecord) (r : AuditRecord)
    → IsDescending top rs from
    → Memᴰ r rs
    → r.sequence < top
IsDescending-below top from [] r h m = elim m [ ]
IsDescending-below top from (x ∷ rs) r (first, rest) (Memᴰ.head e) = rw e first
IsDescending-below top from (x ∷ rs) r (first, rest) (Memᴰ.tail m) =
    omega (arith, first, IsDescending-below x.sequence from rs r rest m)

-- A record is among these, or older than each of them.
abbrev pub IsIncludedOrOlder : List AuditRecord → AuditRecord → Type 0
IsIncludedOrOlder answer r = Memᴰ r answer ⊎ All (λ a. r.sequence < a.sequence) answer

take-newest :
    (n top from : ℕ) (rs : List AuditRecord) (r : AuditRecord)
    → IsDescending top rs from
    → Memᴰ r rs
    → IsIncludedOrOlder (take n rs) r
take-newest zero top from rs r h m = inr tt
take-newest (suc n) top from [] r h m = elim m [ ]
take-newest (suc n) top from (x ∷ rs) r (first, rest) (Memᴰ.head e) = inl (Memᴰ.head e)
take-newest (suc n) top from (x ∷ rs) r (first, rest) (Memᴰ.tail m) =
    elim (take-newest n x.sequence from rs r rest m) [
      | inl there ↦ inl (Memᴰ.tail there)
      | inr older ↦ inr (IsDescending-below x.sequence from rs r rest m, older)
    ]

-- Whatever operations a new store went through, a query of it answers only records that it holds, that
-- the reader may see and that match, the newest first and none twice, and as many of them as there are or as the
-- limit allows; every such record that it leaves out is older than all that it answers.
pub query-answers :
    (ops : List Operation) (q : AuditQuery) (reader : Principal)
    → All
        (λ r. Memᴰ r (run ops new).records × (is_answer q reader r ≡ true))
        (query (run ops new) q reader)
      × IsDescending ((run ops new).issued + 1) (query (run ops new) q reader) 0
      × (length (query (run ops new) q reader)
          ≡ min (limit_of q.limit) (length (keep_if (is_answer q reader) (run ops new).records)))
      × All
          (IsIncludedOrOlder (query (run ops new) q reader))
          (keep_if (is_answer q reader) (run ops new).records)
unfolding query
query-answers ops q reader =
    let s = run ops new in
    let p = is_answer q reader in
    let both = keep_if-both q reader (newest_first s.records) in
    let found = keep_if p (newest_first s.records) in
    let ordered =
      keep_if-IsDescending p (s.issued + 1) 0 (newest_first s.records)
        (newest_first-IsDescending 0 s.issued s.records (run_new-IsAscending ops)) in
    rw both (
      take-All (λ r. Memᴰ r s.records × (p r ≡ true)) (limit_of q.limit) found
          (keep_if-All (λ r. Memᴰ r s.records) p (newest_first s.records)
            (newest_first-held s.records)),
      take-IsDescending (limit_of q.limit) (s.issued + 1) 0 found ordered,
      length-take (limit_of q.limit) found
          ∙ ap (min (limit_of q.limit)) (length-newest_first p s.records),
      map-All (λ r. Memᴰ r s.records × (p r ≡ true))
          (IsIncludedOrOlder (take (limit_of q.limit) found)) (keep_if p s.records)
          (λ r h.
            take-newest (limit_of q.limit) (s.issued + 1) 0 found r ordered
              (member-kept p r (newest_first s.records) h.1 (newest_first-member r s.records h.0)))
          (keep_if-All (λ r. Memᴰ r s.records) p s.records (members s.records)),
    )
