-- ===== src/Ipc/Frame/RoundTrip.antt =====
-- crates/ipc/src/frame.rs: what is written is what is read.
use ai_kernel.Prelude.{
  take, drop, length, length-append, ℕ, ◌≤◌, ◌<◌, ◌≡◌, refl, sym, ap, ◌∙◌, arith, ltb, ltb-false,
  false, inl, inr, Bool-cases, Option, none, some, List, [], ◌∷◌, ◌++◌, ok, err,
}
use ai_kernel.Ipc.Frame.{
  Codec, Writer, Reader, Ending, closed, filled, max_frame_bytes, to_be_bytes, from_be_bytes,
  framed, body_length, read_exact, read, read_rest, read_body, parse_body, parsed, write,
  write_body, and_flush, flush, write_all, write_until, at_end, too_long,
}

pub from_be_bytes-to_be_bytes : (n : ℕ) → n < 4294967296 → from_be_bytes (to_be_bytes n) ≡ n
unfolding from_be_bytes to_be_bytes
from_be_bytes-to_be_bytes n h = omega arith

module _ {ℓ} {A : Type ℓ} where
  take-append : (xs ys : List A) → take (length xs) (xs ++ ys) ≡ xs
  take-append [] ys = refl
  take-append (x ∷ xs) ys = ap (◌∷◌ x) (take-append xs ys)

  drop-append : (xs ys : List A) → drop (length xs) (xs ++ ys) ≡ ys
  drop-append [] ys = refl
  drop-append (x ∷ xs) ys = drop-append xs ys

  append_assoc : (xs ys zs : List A) → (xs ++ ys) ++ zs ≡ xs ++ (ys ++ zs)
  append_assoc [] ys zs = refl
  append_assoc (x ∷ xs) ys zs = ap (◌∷◌ x) (append_assoc xs ys zs)

  append_nil : (xs : List A) → xs ++ [] ≡ xs
  append_nil [] = refl
  append_nil (x ∷ xs) = ap (◌∷◌ x) (append_nil xs)

read_exact-append :
    (xs ys : List ℕ) (e : Ending)
    → read_exact (length xs) (record { bytes = xs ++ ys; ending = e })
      ≡ (filled xs, record { bytes = ys; ending = e })
unfolding read_exact
read_exact-append xs ys e =
    let enough : ltb (length (xs ++ ys)) (length xs) ≡ false =
      ground (arith, length-append xs ys) in
    rw enough (rw (take-append xs ys) (rw (drop-append xs ys) refl))

body_length-to_be_bytes : (n : ℕ) → 1 ≤ n → n ≤ max_frame_bytes → body_length (to_be_bytes n) ≡ ok n
unfolding body_length
body_length-to_be_bytes n h k =
    let known : from_be_bytes (to_be_bytes n) ≡ n = from_be_bytes-to_be_bytes n (omega arith) in
    rw known (ground arith)

module _ {ℓ} {T : Type ℓ} (codec : Codec T) where
  pub read-framed :
      (body rest : List ℕ) (e : Ending)
      → 1 ≤ length body
      → length body ≤ max_frame_bytes
      → read codec (record { bytes = framed body ++ rest; ending = e })
        ≡ (parsed codec (codec.from_slice body), record { bytes = rest; ending = e })
  unfolding read read_rest read_body parse_body framed
  read-framed body rest e h k =
      rw (read_exact-append (to_be_bytes (length body)) (body ++ rest) e)
        (rw (body_length-to_be_bytes (length body) h k) (rw (read_exact-append body rest e) refl))

  -- What a write that ends well leaves behind: one more frame, and the writer otherwise as it was.
  IsFramed : T → Writer → Writer → Type 0
  IsFramed value before after =
      (body : List ℕ) × (codec.to_vec value ≡ some body)
      × (length body ≤ max_frame_bytes)
      × (after.written ≡ before.written ++ framed body)

  write_all-ok :
      (o : Option ℕ) (bytes : List ℕ) (w after : Writer)
      → and_flush codec (write_until o bytes w) ≡ (ok tt, after)
      → after.written ≡ w.written ++ bytes
  unfolding and_flush write_until flush
  write_all-ok none bytes w after h = ap (λ r. r.1.written) (sym h)
  write_all-ok (some n) bytes w after h = cc

  write_body-ok :
      (value : T) (o : Option (List ℕ)) (w after : Writer)
      → codec.to_vec value ≡ o
      → write_body codec o w ≡ (ok tt, after)
      → IsFramed value w after
  unfolding write_body IsFramed write_all
  write_body-ok value none w after e h = cc
  write_body-ok value (some body) w after e h =
      elim (Bool-cases (ltb max_frame_bytes (length body))) [
        | inl b ↦
            let refused : (err (too_long (length body)), w) ≡ (ok (tt {0}), after) = rw b at h in cc
        | inr b ↦
            let sent : and_flush codec (write_all (framed body) w) ≡ (ok tt, after) = rw b at h in
            (
              body,
              e,
              ltb-false max_frame_bytes (length body) b,
              write_all-ok w.write_failure (framed body) w after sent,
            )
      ]

  write-IsFramed :
      (value : T) (w after : Writer) → write codec value w ≡ (ok tt, after) → IsFramed value w after
  unfolding write
  write-IsFramed value w after h = write_body-ok value (codec.to_vec value) w after refl h

module _ {T : Type 0} (codec : Codec T) where
  -- Values written one after the other, every write a success.
  abbrev pub Writes : List T → Writer → Writer → Type 0
  Writes [] before after = before ≡ after
  Writes (value ∷ values) before after =
      (w : Writer) × (write codec value before ≡ (ok tt, w)) × Writes values w after

  -- Values read one after the other, and then the clean end of the stream.
  abbrev pub Reads : Reader → List T → Type 0
  Reads r [] = read codec r ≡ (ok none, r)
  Reads r (value ∷ values) =
      (after : Reader) × (read codec r ≡ (ok (some value), after)) × Reads after values

  -- A serializer that its parser inverts, and that writes something for every value.
  abbrev pub IsInverse : Type 0
  IsInverse =
      (value : T) (body : List ℕ)
      → codec.to_vec value ≡ some body
      → (codec.from_slice body ≡ some value) × (1 ≤ length body)

  read_end :
      read codec (record { bytes = []; ending = closed })
      ≡ (ok none, record { bytes = []; ending = closed })
  unfolding read read_rest read_exact at_end
  read_end = refl

  read-IsFramed :
      (inverse : IsInverse) (value : T) (before after : Writer) (rest : List ℕ)
      → IsFramed codec value before after
      → (bytes : List ℕ) × (after.written ≡ before.written ++ bytes)
        × (read codec (record { bytes = bytes ++ rest; ending = closed })
            ≡ (ok (some value), record { bytes = rest; ending = closed }))
  unfolding IsFramed
  read-IsFramed inverse value before after rest (body, e, short, w) =
      let (parses, full) = inverse value body e in
      (framed body, w, read-framed codec body rest closed full short ∙ rw parses refl)

  -- What is written by writes that succeed, followed by the end of the stream, is read as the same
  -- values in the same order and then as a clean end, where the serializer is inverted by its parser
  -- and writes at least one byte.
  pub Writes-Reads :
      (inverse : IsInverse) (values : List T) (before after : Writer)
      → Writes values before after
      → (bytes : List ℕ) × (after.written ≡ before.written ++ bytes)
        × Reads (record { bytes = bytes; ending = closed }) values
  Writes-Reads inverse [] before after h = ([], rw h (sym (append_nil after.written)), read_end)
  Writes-Reads inverse (value ∷ values) before after (w, first, others) =
      let (bytes, e, reads) = Writes-Reads inverse values w after others in
      let (frame, f, once) =
        read-IsFramed inverse value before w bytes (write-IsFramed codec value before w first) in
      (
        frame ++ bytes,
        e ∙ ap (λ xs. xs ++ bytes) f ∙ append_assoc before.written frame bytes,
        (record { bytes = bytes; ending = closed }, once, reads),
      )
