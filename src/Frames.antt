-- ===== src/Frames.antt =====
-- The framing of messages between the service and its clients: `write_frame` and `read_frame` of
-- crates/resticpal-protocol/src/lib.rs. A frame is four bytes of length, the lowest first, and a payload.
pub mod Faithful
use resticpal.Text.{Bytes}
use resticpal.Prelude.{
  ℕ, zero, suc, ◌+◌, ◌*◌, ◌/◌, ◌%◌, ◌≤◌, ◌<◌, Bool, true, false, ◌||◌, not, Option, none, some,
  List, [], ◌∷◌, ◌++◌, length, String, ltb, ◌==◌, ◌≡◌, refl, sym, ap, ◌∙◌, Result, ok, err, ◌>>=◌,
  ◌>>◌, reject_if, map_err, arith, bind-ok, bind-ok_tt, reject_if-ok, ok-inj, map_err-ok,
}

abbrev pub max_frame_bytes : ℕ
max_frame_bytes = 1024 * 1024

pub data FrameError : Type 0 where
  io json : String → FrameError
  too_large invalid_length : ℕ → FrameError

-- The JSON package on the values of a type.
pub record Codec (A : Type 0) : Type 0 where
  pub to_vec : A → Result String Bytes
  pub from_slice : Bytes → Result String A

-- `u32::to_le_bytes` and `u32::from_le_bytes`.
unfoldable pub to_le_bytes : ℕ → Bytes
to_le_bytes n = n % 256 ∷ (n / 256) % 256 ∷ (n / 65536) % 256 ∷ (n / 16777216) % 256 ∷ []

unfoldable pub from_le_bytes : Bytes → ℕ
from_le_bytes (a ∷ b ∷ c ∷ d ∷ []) = a + 256 * b + 65536 * c + 16777216 * d
from_le_bytes _ = 0

-- `Read::read_exact`: the first bytes, and what is left of the input.
unfoldable pub read_exact : ℕ → Bytes → Result FrameError (Bytes × Bytes)
read_exact zero input = ok ([], input)
read_exact (suc n) [] = err (io "failed to fill whole buffer")
read_exact (suc n) (b ∷ input) = elim (read_exact n input) [
  | err error ↦ err error
  | ok (taken, rest) ↦ ok (b ∷ taken, rest)
]

module _ {A : Type 0} (codec : Codec A) where
  -- What is written: nothing, where the value is not accepted.
  unfoldable pub write_frame : A → Result FrameError Bytes
  write_frame value = do
    payload ← map_err json (codec.to_vec value)
    reject_if (ltb max_frame_bytes (length payload)) (too_large (length payload))
    ok (to_le_bytes (length payload) ++ payload)

  -- The value, and what is left of the input.
  unfoldable pub read_frame : Bytes → Result FrameError (A × Bytes)
  read_frame input = do
    header ← read_exact 4 input
    let announced = from_le_bytes header.0
    reject_if (announced == 0 || ltb max_frame_bytes announced) (invalid_length announced)
    body ← read_exact announced header.1
    value ← map_err json (codec.from_slice body.0)
    ok (value, body.1)
