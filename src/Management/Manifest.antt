-- ===== src/Management/Manifest.antt =====
-- How a managed policy is taken from a document of the management server: `parse_plain_manifest` and
-- `verify_signed_manifest` of crates/resticpal-core/src/management.rs.
use resticpal.Prelude.{
  ℕ, ◌-◌, Bool, true, false, not, ◌||◌, Option, none, some, String, ltb, leb, ◌==◌, length,
  is_empty, Result, ok, err, ◌>>=◌, ◌>>◌, reject_if, map_err, ◌≡◌,
}
use resticpal.Text.{Bytes, codes, byte_len, has_break}
use resticpal.Time.{DateTime, Chrono, minutes, days}
use resticpal.Config.Management.{is_text}
use resticpal.Management.{
  ManifestPayload, SignedManifestEnvelope, VerifiedManifest, Json, Signatures, decode_array,
  management_schema_version, max_manifest_bytes, max_signed_manifest_lifetime_days,
  max_clock_skew_minutes,
}

pub data ManifestError : Type 0 where
  invalid_json : String → ManifestError
  unsupported_envelope_schema unsupported_payload_schema : ℕ → ManifestError
  invalid_document_size unsupported_algorithm invalid_key_id invalid_payload_encoding
        invalid_public_key invalid_signature signature_verification_failed rollback_attempt
        invalid_sequence issued_in_future missing_expiry invalid_lifetime expired :
      ManifestError

abbrev pub Checked : Type 0
Checked = Result ManifestError (Unit {0})

-- A value that may be missing, under the error that stands for it.
abbrev pub required {ℓ κ} : {E : Type κ} {A : Type ℓ} → Option A → E → Result E A
required none error = err error
required (some a) error = ok a

unfoldable pub validate_document_size : Bytes → Checked
validate_document_size document =
    reject_if (is_empty document || ltb max_manifest_bytes (length document)) invalid_document_size

-- `is_some_and(|minimum| payload.sequence < minimum)`.
abbrev pub is_rollback : Option ℕ → ℕ → Bool
is_rollback none sequence = false
is_rollback (some minimum) sequence = ltb sequence minimum

unfoldable pub check_envelope : SignedManifestEnvelope → Checked
check_envelope envelope = do
  reject_if (not (envelope.schema_version == management_schema_version))
      (unsupported_envelope_schema envelope.schema_version)
  reject_if (not (is_text envelope.algorithm "ed25519")) unsupported_algorithm
  reject_if
      (is_empty (codes envelope.key_id)
        || (ltb 256 (byte_len envelope.key_id) || has_break envelope.key_id))
      invalid_key_id

-- The end of a manifest that was issued at a time.
unfoldable pub validate_expiry : DateTime → Option DateTime → DateTime → Bool → Checked
validate_expiry issued_at none now require_expiry = reject_if require_expiry missing_expiry
validate_expiry issued_at (some expires_at) now require_expiry = do
  reject_if
      (leb expires_at issued_at
        || ltb (days max_signed_manifest_lifetime_days) (expires_at - issued_at))
      invalid_lifetime
  reject_if (ltb expires_at now) expired

module _ (signatures : Signatures) where
  -- The signature over the payload of an envelope.
  unfoldable pub check_signature : SignedManifestEnvelope → String → Result ManifestError Bytes
  check_signature envelope public_key = do
    payload_bytes ← required (signatures.decode envelope.payload) invalid_payload_encoding
    validate_document_size payload_bytes
    key ← required (decode_array signatures 32 public_key) invalid_public_key
    signature ← required (decode_array signatures 64 envelope.signature) invalid_signature
    reject_if (not (signatures.is_key key)) invalid_public_key
    reject_if (not (signatures.verify_strict key payload_bytes signature))
        signature_verification_failed
    ok payload_bytes

module _ (chrono : Chrono) where
  unfoldable pub validate_payload : ManifestPayload → DateTime → Option ℕ → Bool → Checked
  validate_payload payload now minimum_sequence require_expiry = do
    reject_if (not (payload.schema_version == management_schema_version))
        (unsupported_payload_schema payload.schema_version)
    reject_if (payload.sequence == 0) invalid_sequence
    reject_if (is_rollback minimum_sequence payload.sequence) rollback_attempt
    reject_if (ltb (chrono.add now (minutes max_clock_skew_minutes)) payload.issued_at)
        issued_in_future
    validate_expiry payload.issued_at payload.expires_at now require_expiry

  module _ (json : Json) where
    -- What the payload of a document says, once it is read.
    abbrev pub read_payload :
        Bytes → DateTime → Option ℕ → Bool → Result ManifestError VerifiedManifest
    read_payload document now minimum_sequence signed = do
      payload ← map_err invalid_json (json.manifest_payload document)
      validate_payload payload now minimum_sequence signed
      ok (record { payload = payload; signed = signed })

    unfoldable pub parse_plain_manifest :
        Bytes → DateTime → Option ℕ → Result ManifestError VerifiedManifest
    parse_plain_manifest document now minimum_sequence =
        validate_document_size document >> read_payload document now minimum_sequence false

    unfoldable pub verify_signed_manifest :
        Signatures → Bytes → String → DateTime → Option ℕ → Result ManifestError VerifiedManifest
    verify_signed_manifest signatures document public_key validation_time minimum_sequence = do
      validate_document_size document
      envelope ← map_err invalid_json (json.manifest_envelope document)
      check_envelope envelope
      payload_bytes ← check_signature signatures envelope public_key
      read_payload payload_bytes validation_time minimum_sequence true

pub required-ok {ℓ κ} :
    {E : Type κ} {A : Type ℓ} (o : Option A) (error : E) (a : A)
    → required o error ≡ ok a
    → o ≡ some a
required-ok none error a h = absurd (cc)
required-ok (some b) error a h = cc
