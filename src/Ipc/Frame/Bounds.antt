-- ===== src/Ipc/Frame/Bounds.antt =====
-- crates/ipc/src/frame.rs: what a reader takes in.
use ai_kernel.Prelude.{
  take, drop, length, ℕ, ◌≢◌, length-take, ◌≤◌, ◌<◌, ◌≡◌, ◌↔◌, refl, sym, ap, ◌∙◌, arith, ltb,
  ltb-false, ltb→lt, ◌==◌, inl, inr, Bool-cases, Option, none, some, List, [], ◌++◌, Result, ok,
  err, ◌>>◌, refuse_if, refuse_if-ok, take-append-drop,
}
use ai_kernel.Errors.{Error}
use ai_kernel.Ipc.Frame.{
  Codec, Reader, Ending, closed, broken, Exact, filled, unexpected_eof, failed, max_frame_bytes,
  from_be_bytes, body_length, read_exact, read, read_rest, read_body, parse_body, parsed, at_end,
  announced_too_long, empty_frame,
}

ok_injective : (m n : ℕ) (r : Result Error ℕ) → r ≡ ok m → r ≡ ok n → m ≡ n
ok_injective m n r h k = cc

-- What a reader is about to allocate is at least one byte and within the limit.
body_length-bounds :
    (prefix : List ℕ) (n : ℕ)
    → body_length prefix ≡ ok n
    → (from_be_bytes prefix ≡ n) × (1 ≤ n) × (n ≤ max_frame_bytes)
unfolding body_length
body_length-bounds prefix n h =
    let m = from_be_bytes prefix in
    let (positive, rest) =
      refuse_if-ok (m == 0) empty_frame
        (refuse_if (ltb max_frame_bytes m) (announced_too_long m) >> ok m) n h in
    let (short, same) = refuse_if-ok (ltb max_frame_bytes m) (announced_too_long m) (ok m) n rest in
    let known : m ≡ n = ok_injective m n (ok m) refl same in
    (known, ground (arith, positive, known), omega (arith, ltb-false max_frame_bytes m short))

at_end-filled : (e : Ending) (xs : List ℕ) → at_end e ≢ filled xs
unfolding at_end
at_end-filled closed xs h = cc
at_end-filled broken xs h = cc

filled_injective : (xs ys : List ℕ) → filled xs ≡ filled ys → xs ≡ ys
filled_injective xs ys h = cc

-- `read_exact` is filled with exactly the bytes that it takes off the stream.
read_exact-filled :
    (n : ℕ) (r after : Reader) (xs : List ℕ)
    → read_exact n r ≡ (filled xs, after)
    → (r.bytes ≡ xs ++ after.bytes) × (length xs ≡ n)
unfolding read_exact at_end
read_exact-filled n r after xs h = elim (Bool-cases (ltb (length r.bytes) n)) [
  | inl e ↦
      let early : (at_end r.ending, record r { bytes = [] }) ≡ (filled xs, after) = rw e at h in
      absurd (at_end-filled r.ending xs (ap (λ p. p.0) early))
  | inr e ↦
      let enough : (filled (take n r.bytes), record r { bytes = drop n r.bytes })
          ≡ (filled xs, after) =
        rw e at h in
      let front : take n r.bytes ≡ xs = filled_injective _ _ (ap (λ p. p.0) enough) in
      let back : drop n r.bytes ≡ after.bytes = ap (λ p. p.1.bytes) enough in
      (
        sym (take-append-drop n r.bytes) ∙ rw front (rw back refl),
        rw (sym front) (omega (arith, length-take n r.bytes, ltb-false (length r.bytes) n e)),
      )
]

some_of {ℓ} :
    {T : Type ℓ} (r : Result Error (Option T)) (x y : T)
    → r ≡ ok (some x)
    → r ≡ ok (some y)
    → some x ≡ some y
some_of r x y h k = cc

parsed-some {ℓ} :
    {T : Type ℓ} (codec : Codec T) (o : Option T) (value : T)
    → parsed codec o ≡ ok (some value)
    → o ≡ some value
parsed-some codec none value h = cc
parsed-some codec (some x) value h = some_of (parsed codec (some x)) x value refl h

module _ {ℓ} {T : Type ℓ} (codec : Codec T) where
  parse_body-some :
      (found : Exact × Reader) (value : T) (after : Reader)
      → parse_body codec found ≡ (ok (some value), after)
      → (body : List ℕ) × (found ≡ (filled body, after)) × (codec.from_slice body ≡ some value)
  unfolding parse_body
  parse_body-some (filled body, r) value after h = (
    body,
    ap (λ x. (filled body, x)) (ap (λ p. p.1) h),
    parsed-some codec (codec.from_slice body) value (ap (λ p. p.0) h),
  )
  parse_body-some (unexpected_eof, r) value after h = cc
  parse_body-some (failed, r) value after h = cc

  read_body-some :
      (announced : Result Error ℕ) (r after : Reader) (value : T)
      → read_body codec announced r ≡ (ok (some value), after)
      → (n : ℕ) × (announced ≡ ok n)
        × (parse_body codec (read_exact n r) ≡ (ok (some value), after))
  unfolding read_body
  read_body-some (err e) r after value h = cc
  read_body-some (ok n) r after value h = (n, refl, h)

  read_rest-some :
      (found : Exact × Reader) (value : T) (after : Reader)
      → read_rest codec found ≡ (ok (some value), after)
      → (prefix : List ℕ) × (r : Reader) × (found ≡ (filled prefix, r))
        × (read_body codec (body_length prefix) r ≡ (ok (some value), after))
  unfolding read_rest
  read_rest-some (filled prefix, r) value after h = (prefix, r, refl, h)
  read_rest-some (unexpected_eof, r) value after h = cc
  read_rest-some (failed, r) value after h = cc

  -- A value that is read is what the parser makes of a body of 1 to `max_frame_bytes` bytes, which was
  -- taken off the stream together with the four bytes that announce its length, and nothing else was.
  pub read-some :
      (r after : Reader) (value : T)
      → read codec r ≡ (ok (some value), after)
      → (prefix : List ℕ) × (body : List ℕ) × (r.bytes ≡ prefix ++ (body ++ after.bytes))
        × (length prefix ≡ 4)
        × (from_be_bytes prefix ≡ length body)
        × (1 ≤ length body)
        × (length body ≤ max_frame_bytes)
        × (codec.from_slice body ≡ some value)
  unfolding read
  read-some r after value h =
      let (prefix, middle, e, h1) = read_rest-some (read_exact 4 r) value after h in
      let (n, announced, h2) = read_body-some (body_length prefix) middle after value h1 in
      let (body, f, parses) = parse_body-some (read_exact n middle) value after h2 in
      let (whole, four) = read_exact-filled 4 r middle prefix e in
      let (rest, size) = read_exact-filled n middle after body f in
      let (known, positive, short) = body_length-bounds prefix n announced in
      (
        prefix,
        body,
        whole ∙ ap (λ xs. prefix ++ xs) rest,
        four,
        omega arith,
        omega arith,
        omega arith,
        parses,
      )

  parsed-none : (o : Option T) → parsed codec o ≢ ok none
  parsed-none none h = cc
  parsed-none (some x) h = cc

  parse_body-none : (found : Exact × Reader) → (parse_body codec found).0 ≢ ok none
  unfolding parse_body
  parse_body-none (filled body, r) h = parsed-none (codec.from_slice body) h
  parse_body-none (unexpected_eof, r) h = cc
  parse_body-none (failed, r) h = cc

  read_body-none :
      (announced : Result Error ℕ) (r : Reader) → (read_body codec announced r).0 ≢ ok none
  unfolding read_body
  read_body-none (err e) r h = cc
  read_body-none (ok n) r h = parse_body-none (read_exact n r) h

  end-none :
      (e : Ending) (r : Reader) → ((read_rest codec (at_end e, r)).0 ≡ ok none) ↔ (e ≡ closed)
  unfolding read_rest at_end
  end-none closed r = (λ h. refl, λ h. refl)
  end-none broken r = (λ h. cc, λ h. cc)

  -- The end of the stream is reported as a clean close exactly where the stream ends, without failing,
  -- with fewer than four bytes to come: in the middle of a prefix too.
  pub read-none :
      (r : Reader) → ((read codec r).0 ≡ ok none) ↔ ((length r.bytes < 4) × (r.ending ≡ closed))
  unfolding read read_rest read_exact at_end
  read-none r = elim (Bool-cases (ltb (length r.bytes) 4)) [
    | inl e ↦
        let (to, from) = end-none r.ending (record r { bytes = [] }) in
        rw e (λ h. (ltb→lt (length r.bytes) 4 e, to h), λ h. from h.1)
    | inr e ↦ rw e (
      λ h.
          absurd
            (read_body-none (body_length (take 4 r.bytes)) (record r { bytes = drop 4 r.bytes }) h),
      λ h. absurd (omega (arith, ltb-false (length r.bytes) 4 e, h.0)),
    )
  ]
