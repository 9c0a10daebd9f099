-- ===== src/Ipc/Frame.antt =====
-- crates/ipc/src/frame.rs: length-prefixed frames. Bytes are numbers, serde_json is a parameter.
-- A reader is the bytes that are still to come and how the stream ends; a writer is what has been
-- written, and the failure that the next write or flush has, with the bytes that got out before it.
pub mod RoundTrip
pub mod Bounds
use ai_kernel.Prelude.{
  Text, codes, decimal, take, drop, length, ℕ, ◌+◌, ◌*◌, ◌/◌, ◌%◌, ◌==◌, ltb, if◌then◌else◌, Option,
  none, some, List, [], ◌∷◌, ◌++◌, Result, ok, err, map_err, ◌>>=◌, ◌>>◌, refuse_if, Bool,
}
use ai_kernel.Errors.{Error}

abbrev pub max_frame_bytes : ℕ
max_frame_bytes = 1048576

abbrev pub length_prefix_bytes : ℕ
length_prefix_bytes = 4

-- serde_json's `to_vec` and `from_slice`.
pub record Codec {ℓ} (T : Type ℓ) : Type ℓ where
  pub to_vec : T → Option (List ℕ)
  pub from_slice : List ℕ → Option T

pub record Writer : Type 0 where
  pub written : List ℕ
  pub write_failure : Option ℕ
  pub flush_fails : Bool

pub data Ending : Type 0 where
  closed broken : Ending

pub record Reader : Type 0 where
  pub bytes : List ℕ
  pub ending : Ending

-- `u32::to_be_bytes` and `u32::from_be_bytes`.
unfoldable pub to_be_bytes : ℕ → List ℕ
to_be_bytes n = n / 16777216 % 256 ∷ n / 65536 % 256 ∷ n / 256 % 256 ∷ n % 256 ∷ []

unfoldable pub from_be_bytes : List ℕ → ℕ
from_be_bytes (a ∷ b ∷ c ∷ d ∷ []) = a * 16777216 + b * 65536 + c * 256 + d
from_be_bytes _ = 0

write_until : Option ℕ → List ℕ → Writer → Result Error (Unit {0}) × Writer
write_until none bytes w = (ok tt, record w { written = w.written ++ bytes })
write_until (some n) bytes w =
    (err (Error.other (codes "writing a frame")), record w { written = w.written ++ take n bytes })

unfoldable pub write_all : List ℕ → Writer → Result Error (Unit {0}) × Writer
unfolding write_until
write_all bytes w = write_until w.write_failure bytes w

unfoldable pub flush : Writer → Result Error (Unit {0}) × Writer
flush w = (refuse_if w.flush_fails (Error.other (codes "flushing a frame")), w)

unfoldable pub too_long : ℕ → Error
too_long n =
    Error.invalid_argument (
      codes "a "
      ++ (decimal n ++ codes "-byte message is larger than the 1048576-byte frame limit"))

unfoldable pub announced_too_long : ℕ → Error
announced_too_long n =
    Error.invalid_argument (
      codes "a peer announced a "
      ++ (decimal n ++ codes "-byte frame, over the 1048576-byte limit"))

-- What `read_exact` finds: the bytes, or the end of the stream before that many.
pub data Exact : Type 0 where
  filled : List ℕ → Exact
  unexpected_eof failed : Exact

at_end : Ending → Exact
at_end closed = unexpected_eof
at_end broken = failed

unfoldable pub read_exact : ℕ → Reader → Exact × Reader
unfolding at_end
read_exact n r =
    if ltb (length r.bytes) n
    then (at_end r.ending, record r { bytes = [] })
    else (filled (take n r.bytes), record r { bytes = drop n r.bytes })

abbrev pub empty_frame : Error
empty_frame =
    Error.invalid_argument (codes "a frame must carry a message; a zero-length one carries nothing")

-- The length that a prefix announces, where a body of that length is then allocated.
unfoldable pub body_length : List ℕ → Result Error ℕ
unfolding from_be_bytes announced_too_long
body_length prefix =
    let n = from_be_bytes prefix in
    refuse_if (n == 0) empty_frame
    >> (refuse_if (ltb max_frame_bytes n) (announced_too_long n) >> ok n)

unfoldable pub framed : List ℕ → List ℕ
unfolding to_be_bytes
framed body = to_be_bytes (length body) ++ body

module _ {ℓ} {T : Type ℓ} (codec : Codec T) where
  and_flush : Result Error (Unit {0}) × Writer → Result Error (Unit {0}) × Writer
  and_flush (ok u, w) = flush w
  and_flush (err e, w) = (err e, w)

  write_body : Option (List ℕ) → Writer → Result Error (Unit {0}) × Writer
  unfolding and_flush too_long framed write_all
  write_body none w = (err Error.serialization, w)
  write_body (some body) w =
      if ltb max_frame_bytes (length body)
      then (err (too_long (length body)), w)
      else and_flush (write_all (framed body) w)

  unfoldable pub write : T → Writer → Result Error (Unit {0}) × Writer
  unfolding write_body
  write value w = write_body (codec.to_vec value) w

  abbrev pub parsed : Option T → Result Error (Option T)
  parsed none = err Error.serialization
  parsed (some value) = ok (some value)

  parse_body : Exact × Reader → Result Error (Option T) × Reader
  parse_body (filled body, r) = (parsed (codec.from_slice body), r)
  parse_body (unexpected_eof, r) = (err (Error.other (codes "reading a frame body")), r)
  parse_body (failed, r) = (err (Error.other (codes "reading a frame body")), r)

  read_body : Result Error ℕ → Reader → Result Error (Option T) × Reader
  unfolding parse_body
  read_body (err e) r = (err e, r)
  read_body (ok n) r = parse_body (read_exact n r)

  read_rest : Exact × Reader → Result Error (Option T) × Reader
  unfolding read_body
  read_rest (filled prefix, r) = read_body (body_length prefix) r
  read_rest (unexpected_eof, r) = (ok none, r)
  read_rest (failed, r) = (err (Error.other (codes "reading a frame length")), r)

  unfoldable pub read : Reader → Result Error (Option T) × Reader
  unfolding read_rest
  read r = read_rest (read_exact length_prefix_bytes r)
