-- ===== src/Frames/Faithful.antt =====
-- What a client writes is what the service reads (crates/resticpal-protocol/src/lib.rs).
use resticpal.Prelude.{
  ℕ, zero, suc, ◌≤◌, ◌<◌, ◌==◌, ltb, [], ◌∷◌, ◌++◌, length, ◌≡◌, refl, sym, ap, ◌∙◌, ok, arith,
  bind-ok, bind-ok_tt, reject_if, reject_if-ok, ok-inj, map_err, map_err-ok, Result-cases, ◌||◌,
  false, inl, inr,
}
use resticpal.Text.{Bytes}
use resticpal.Frames.{
  FrameError, Codec, max_frame_bytes, to_le_bytes, from_le_bytes, read_exact, write_frame,
  read_frame,
}

le_bytes : (n : ℕ) → n ≤ max_frame_bytes → from_le_bytes (to_le_bytes n) ≡ n
unfolding from_le_bytes to_le_bytes
le_bytes n h = omega arith

read_exact-append : (a b : Bytes) → read_exact (length a) (a ++ b) ≡ ok (a, b)
unfolding read_exact
read_exact-append [] b = refl
read_exact-append (x ∷ a) b = rw (read_exact-append a b) refl

read_header :
    (n : ℕ) (payload rest : Bytes)
    → read_exact 4 ((to_le_bytes n ++ payload) ++ rest) ≡ ok (to_le_bytes n, payload ++ rest)
unfolding read_exact to_le_bytes
read_header n payload rest = refl

-- What was read stands in the input, in front of what is left.
read_exact_lem :
    (n : ℕ) (input taken rest : Bytes)
    → read_exact n input ≡ ok (taken, rest)
    → (input ≡ taken ++ rest) × (length taken ≡ n)
unfolding read_exact
read_exact_lem zero input taken rest h = (ground arith, ground arith)
read_exact_lem (suc n) [] taken rest h = absurd (cc)
read_exact_lem (suc n) (b ∷ input) taken rest h = elim (Result-cases (read_exact n input)) [
  | inl (error, e) ↦ absurd (cc (rw (e, read_exact) at h))
  | inr ((taken', rest'), e) ↦
      let (split, counted) = read_exact_lem n input taken' rest' e in
      let same = ok-inj (rw (e, read_exact) at h) in (ground arith, ground arith)
]

accepted : (n : ℕ) → (n == 0 || ltb max_frame_bytes n) ≡ false → (0 < n) × (n ≤ max_frame_bytes)
accepted n h = (ground arith, ground arith)

module _ {A : Type 0} (codec : Codec A) where
  -- The payload of a frame that was written.
  written :
      (value : A) (frame : Bytes)
      → write_frame codec value ≡ ok frame
      → (payload : Bytes) × (codec.to_vec value ≡ ok payload)
        × (length payload ≤ max_frame_bytes)
        × (frame ≡ to_le_bytes (length payload) ++ payload)
  unfolding write_frame
  written value frame h =
      let (payload, made, h1) = bind-ok (map_err FrameError.json (codec.to_vec value)) _ frame h in
      let (small, h2) =
        bind-ok_tt
          (reject_if (ltb max_frame_bytes (length payload)) (FrameError.too_large (length payload)))
          _ frame h1 in
      let fits = reject_if-ok (ltb max_frame_bytes (length payload)) _ small in
      (payload, map_err-ok FrameError.json _ payload made, ground arith, sym (ok-inj h2))

  read_payload :
      (value : A) (payload rest : Bytes)
      → 0 < length payload
      → length payload ≤ max_frame_bytes
      → codec.from_slice payload ≡ ok value
      → read_frame codec ((to_le_bytes (length payload) ++ payload) ++ rest) ≡ ok (value, rest)
  unfolding read_frame
  read_payload value payload rest some_bytes small parsed =
      let n = length payload in
      let header = read_header n payload rest in
      let announced = le_bytes n small in
      let body = read_exact-append payload rest in
      let admitted : (n == 0 || ltb max_frame_bytes n) ≡ false = ground arith in
      rw (header, announced, admitted, body, parsed) refl

  -- A frame that was written is read as the value that it was written for, and leaves what follows it.
  -- This needs that the JSON package reads back what it writes, and writes something.
  pub read_frame-write_frame :
      (value : A) (frame rest : Bytes)
      → ((payload : Bytes)
          → codec.to_vec value ≡ ok payload
          → (0 < length payload) × (codec.from_slice payload ≡ ok value))
      → write_frame codec value ≡ ok frame
      → read_frame codec (frame ++ rest) ≡ ok (value, rest)
  read_frame-write_frame value frame rest lawful h =
      let (payload, made, small, e) = written value frame h in
      let (some_bytes, parsed) = lawful payload made in
      rw e (read_payload value payload rest some_bytes small parsed)

  -- A value that is read was in a frame at the start of the input, of at least one byte and at most
  -- 1 MiB, as the frame announces, and what follows the frame is left alone.
  pub read_frame-bounded :
      (input : Bytes) (value : A) (rest : Bytes)
      → read_frame codec input ≡ ok (value, rest)
      → (header : Bytes) × (payload : Bytes) × (input ≡ header ++ (payload ++ rest))
        × (length header ≡ 4)
        × (length payload ≡ from_le_bytes header)
        × (0 < length payload)
        × (length payload ≤ max_frame_bytes)
        × (codec.from_slice payload ≡ ok value)
  unfolding read_frame
  read_frame-bounded input value rest h =
      let result : A × Bytes = (value, rest) in
      let ((header, after), read, h1) = bind-ok (read_exact 4 input) _ result h in
      let (checked, h2) =
        bind-ok_tt
          (reject_if (from_le_bytes header == 0 || ltb max_frame_bytes (from_le_bytes header))
            (FrameError.invalid_length (from_le_bytes header)))
          _ result h1 in
      let ((payload, left), filled, h3) =
        bind-ok (read_exact (from_le_bytes header) after) _ result h2 in
      let (read_value, parsed, h4) =
        bind-ok (map_err FrameError.json (codec.from_slice payload)) _ result h3 in
      let (first, four) = read_exact_lem 4 input header after read in
      let (second, counted) = read_exact_lem (from_le_bytes header) after payload left filled in
      let (positive, small) =
        accepted (from_le_bytes header) (reject_if-ok _ (FrameError.invalid_length _) checked) in
      let e = ok-inj h4 in
      (
        header,
        payload,
        first ∙ ap (λ t. header ++ t) (second ∙ ap (λ r. payload ++ r.1) e),
        four,
        counted,
        omega arith,
        omega arith,
        map_err-ok FrameError.json _ read_value parsed ∙ ap (λ r. ok r.0) e,
      )
