-- ===== src/Tests/Framing.antt =====
-- Frames at a concrete value.
use resticpal.Prelude.{
  ℕ, ◌≤◌, ◌<◌, [], ◌∷◌, ◌++◌, length, String, ◌≡◌, refl, ok, err, Result, ok-inj, arith, subst,
}
use resticpal.Text.{Bytes}
use resticpal.Frames.{
  Codec, FrameError, max_frame_bytes, to_le_bytes, from_le_bytes, read_exact, write_frame,
  read_frame,
}
use resticpal.Frames.Faithful.{read_frame-write_frame, read_frame-bounded}

abbrev parse_byte : Bytes → Result String ℕ
parse_byte (b ∷ []) = ok b
parse_byte _ = err "expected one byte"

-- A value of one byte.
abbrev byte_codec : Codec ℕ
byte_codec = record { to_vec = λ n. ok (n ∷ []); from_slice = parse_byte }

abbrev frame : Bytes
frame = 1 ∷ 0 ∷ 0 ∷ 0 ∷ 7 ∷ []

frame_of_seven : write_frame byte_codec 7 ≡ ok frame
unfolding write_frame to_le_bytes
frame_of_seven = refl

byte_codec_lawful :
    (payload : Bytes)
    → byte_codec.to_vec 7 ≡ ok payload
    → (0 < length payload) × (byte_codec.from_slice payload ≡ ok 7)
byte_codec_lawful payload e =
    subst (λ p. (0 < length p) × (byte_codec.from_slice p ≡ ok 7)) (ok-inj e) (omega arith, refl)

read_frame-write_frame_example : read_frame byte_codec (frame ++ (9 ∷ [])) ≡ ok (7, 9 ∷ [])
read_frame-write_frame_example =
    read_frame-write_frame byte_codec 7 frame (9 ∷ []) byte_codec_lawful frame_of_seven

frame_reads : read_frame byte_codec (frame ++ (9 ∷ [])) ≡ ok (7, 9 ∷ [])
unfolding read_frame read_exact from_le_bytes
frame_reads = refl

read_frame-bounded_example :
    (header : Bytes) × (payload : Bytes) × (frame ++ (9 ∷ []) ≡ header ++ (payload ++ (9 ∷ [])))
    × (length header ≡ 4)
    × (length payload ≡ from_le_bytes header)
    × (0 < length payload)
    × (length payload ≤ max_frame_bytes)
    × (byte_codec.from_slice payload ≡ ok 7)
read_frame-bounded_example =
    read_frame-bounded byte_codec (frame ++ (9 ∷ [])) 7 (9 ∷ []) frame_reads

-- A frame of no bytes is refused.
empty_frame : read_frame byte_codec (0 ∷ 0 ∷ 0 ∷ 0 ∷ []) ≡ err (FrameError.invalid_length 0)
unfolding read_frame read_exact from_le_bytes
empty_frame = refl
