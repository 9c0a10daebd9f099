-- ===== src/Ipc/Tests.antt =====
-- Texts over a stream: a value is its own bytes, and the empty one is not serialised.
use ai_kernel.Prelude.{
  length, ℕ, ◌<◌, ◌≡◌, ◌↔◌, refl, sym, ap, false, Option, some, none, List, [], ◌∷◌, ◌++◌, ok,
  arith,
}
use ai_kernel.Ipc.Frame.{
  Codec, Writer, Reader, closed, framed, read, write, write_all, flush, read_exact, body_length,
}
use ai_kernel.Ipc.Frame.RoundTrip.{IsInverse, Writes, Reads, Writes-Reads}
use ai_kernel.Ipc.Frame.Bounds.{read-none}

abbrev non_empty : List ℕ → Option (List ℕ)
non_empty [] = none
non_empty (x ∷ xs) = some (x ∷ xs)

abbrev bytes : Codec (List ℕ)
bytes = record { to_vec = non_empty; from_slice = λ body. some body }

abbrev size_of : Option (List ℕ) → ℕ
size_of none = 0
size_of (some body) = length body

bytes-IsInverse : IsInverse bytes
bytes-IsInverse [] body h = cc
bytes-IsInverse (x ∷ xs) body h =
    let size : length (x ∷ xs) ≡ length body = ap size_of h in (sym h, omega (arith, size))

abbrev fresh : List ℕ → Writer
fresh written = record { written = written; write_failure = none; flush_fails = false }

abbrev sent : List ℕ
sent = 0 ∷ 0 ∷ 0 ∷ 2 ∷ 72 ∷ 105 ∷ []

two_values :
    Writes bytes
      ((72 ∷ 105 ∷ []) ∷ (33 ∷ []) ∷ [])
      (fresh [])
      (fresh (sent ++ (0 ∷ 0 ∷ 0 ∷ 1 ∷ 33 ∷ [])))
unfolding write write_all flush framed
two_values = (fresh sent, refl, (fresh (sent ++ (0 ∷ 0 ∷ 0 ∷ 1 ∷ 33 ∷ [])), refl, refl))

Writes-Reads_example :
    (written : List ℕ) × (sent ++ (0 ∷ 0 ∷ 0 ∷ 1 ∷ 33 ∷ []) ≡ [] ++ written)
    × Reads bytes (record { bytes = written; ending = closed }) ((72 ∷ 105 ∷ []) ∷ (33 ∷ []) ∷ [])
Writes-Reads_example =
    Writes-Reads bytes bytes-IsInverse ((72 ∷ 105 ∷ []) ∷ (33 ∷ []) ∷ []) (fresh [])
      (fresh (sent ++ (0 ∷ 0 ∷ 0 ∷ 1 ∷ 33 ∷ []))) two_values

abbrev stream : Reader
stream = record { bytes = sent ++ (7 ∷ []); ending = closed }

abbrev rest : Reader
rest = record { bytes = 7 ∷ []; ending = closed }

reads_value : read bytes stream ≡ (ok (some (72 ∷ 105 ∷ [])), rest)
unfolding read read_exact body_length
reads_value = refl

-- One byte of a prefix is left, and the stream counts as closed.
read-none_example :
    ((read bytes rest).0 ≡ ok none) ↔ ((length rest.bytes < 4) × (rest.ending ≡ closed))
read-none_example = read-none bytes rest
