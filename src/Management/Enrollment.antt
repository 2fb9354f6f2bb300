-- ===== src/Management/Enrollment.antt =====
-- `new_enrollment_request` and `verify_and_decrypt_enrollment` of
-- crates/resticpal-core/src/management.rs: what a device sends to a server, and what it takes of the answer.
use resticpal.Prelude.{
  ℕ, ◌-◌, ◌*◌, Bool, not, ◌&&◌, ◌||◌, none, some, List, String, ltb, leb, ◌==◌, any, length,
  is_empty, is_some, Result, ok, err, ◌>>=◌, ◌>>◌, reject_if, map_err,
}
use resticpal.Text.{Bytes, codes, byte_len, has_break}
use resticpal.Time.{DateTime, Chrono, minutes}
use resticpal.Config.{SecretEnvironmentVariable}
use resticpal.Config.Management.{Urls, is_text}
use resticpal.Management.{
  VerifiedManifest, EnrollmentPayload, EnrollmentSecretBundle, SealedSecretBundle, Json, Signatures,
  Ciphers, decode_array, valid_text, valid_id, management_schema_version, max_enrollment_bytes,
  max_clock_skew_minutes,
}
use resticpal.Management.Bootstrap.{BootstrapDescriptor, is_plain_url}
use resticpal.Management.Manifest.{ManifestError, required, verify_signed_manifest}

pub data EnrollmentError : Type 0 where
  invalid_json : String → EnrollmentError
  manifest : ManifestError → EnrollmentError
  invalid_request_metadata invalid_document_size invalid_envelope signature_verification_failed
        invalid_payload invalid_encryption decryption_failed invalid_secrets :
      EnrollmentError

pub record EnrollmentRequest : Type 0 where
  pub schema_version : ℕ
  pub device_public_key : String
  pub request_nonce : String
  pub hostname : String
  pub app_version : String
  pub architecture : String

-- The private key and the nonce are drawn by the caller of the model; the public key is the code's own.
unfoldable pub new_enrollment_request :
    Signatures → Bytes → Bytes → String → String → String → Result EnrollmentError EnrollmentRequest
new_enrollment_request signatures public_key request_nonce hostname app_version architecture = do
  reject_if
      (not (valid_text hostname 256)
        || (not (valid_text app_version 64) || not (valid_text architecture 32)))
      invalid_request_metadata
  ok (record {
    schema_version = management_schema_version;
    device_public_key = signatures.encode public_key;
    request_nonce = signatures.encode request_nonce;
    hostname = hostname;
    app_version = app_version;
    architecture = architecture;
  })

pub record EnrollmentMaterial : Type 0 where
  pub device_id : String
  pub manifest_url : String
  pub status_url : String
  pub refresh_interval_minutes : ℕ
  pub initial_manifest_document : Bytes
  pub initial_manifest : VerifiedManifest
  pub status_token : String
  pub repository_secrets : List (SecretEnvironmentVariable × String)

abbrev is_bad_secret : SecretEnvironmentVariable × String → Bool
is_bad_secret (variable, secret) =
    is_empty (codes secret)
    || (ltb (32 * 1024) (byte_len secret) || any (λ c. c == 0) (codes secret))

-- The secrets, once they are opened.
unfoldable pub check_secrets : EnrollmentSecretBundle → Result EnrollmentError (Unit {0})
check_secrets secrets =
    reject_if
      (not (secrets.schema_version == management_schema_version)
        || (is_empty (codes secrets.status_token)
            || (ltb 4096 (byte_len secrets.status_token)
                || (has_break secrets.status_token
                    || any is_bad_secret secrets.repository_secrets))))
      invalid_secrets

module _ (urls : Urls) where
  -- A URL that the device may be sent to.
  unfoldable pub check_server_url : String → Result EnrollmentError (Unit {0})
  check_server_url value = elim (urls.parse value) [
    | none ↦ err invalid_payload
    | some url ↦ reject_if (not (is_plain_url urls url) || is_some url.fragment) invalid_payload
  ]

module _ (signatures : Signatures) where
  -- The signature of the answer, under the key and its name that the link pins.
  unfoldable pub open_envelope : Json → Bytes → BootstrapDescriptor → Result EnrollmentError Bytes
  open_envelope json document descriptor = do
    reject_if (is_empty document || ltb max_enrollment_bytes (length document))
        invalid_document_size
    envelope ← map_err invalid_json (json.enrollment_envelope document)
    reject_if
        (not (envelope.schema_version == management_schema_version)
          || (not (is_text envelope.algorithm "ed25519")
              || not (is_text envelope.key_id descriptor.key_id)))
        invalid_envelope
    payload_bytes ← required (signatures.decode envelope.payload) invalid_envelope
    public_key ← required (decode_array signatures 32 descriptor.public_key) invalid_envelope
    signature ← required (decode_array signatures 64 envelope.signature) invalid_envelope
    reject_if (not (signatures.is_key public_key)) invalid_envelope
    reject_if (not (signatures.verify_strict public_key payload_bytes signature))
        signature_verification_failed
    ok payload_bytes

  module _ (chrono : Chrono) where
    unfoldable pub check_enrollment_payload :
        EnrollmentPayload
        → BootstrapDescriptor
        → Bytes
        → DateTime
        → Result EnrollmentError (Unit {0})
    check_enrollment_payload payload descriptor expected_nonce now =
        reject_if
          (not (payload.schema_version == management_schema_version)
            || (not (is_text payload.request_nonce (signatures.encode expected_nonce))
                || (not (valid_id payload.device_id)
                    || (ltb (chrono.add now (minutes max_clock_skew_minutes)) payload.issued_at
                        || (ltb payload.expires_at now
                            || (leb payload.expires_at payload.issued_at
                                || (ltb (minutes 15) (payload.expires_at - payload.issued_at)
                                    || (not (
                                          leb 5 payload.refresh_interval_minutes
                                          && leb payload.refresh_interval_minutes (24 * 60))
                                        || not (
                                            is_text payload.initial_manifest.key_id
                                              descriptor.key_id)))))))))
          invalid_payload

module _ (signatures : Signatures) (ciphers : Ciphers) where
  -- The plaintext of the sealed secrets, which only the device that asked can open.
  unfoldable pub unseal : SealedSecretBundle → String → Bytes → Result EnrollmentError Bytes
  unseal sealed device_id private_key = do
    reject_if (not (is_text sealed.algorithm "x25519-hkdf-sha256-chacha20poly1305"))
        invalid_encryption
    ephemeral ← required (decode_array signatures 32 sealed.ephemeral_public_key) invalid_encryption
    salt ← required (decode_array signatures 32 sealed.salt) invalid_encryption
    nonce_bytes ← required (decode_array signatures 12 sealed.nonce) invalid_encryption
    ciphertext ← required (signatures.decode sealed.ciphertext) invalid_encryption
    let shared_secret = ciphers.diffie_hellman private_key ephemeral
    reject_if (not (ciphers.was_contributory shared_secret)) invalid_encryption
    encryption_key ←
        required (ciphers.expand salt shared_secret "resticpal enrollment secret bundle v1")
          invalid_encryption
    required (ciphers.decrypt encryption_key nonce_bytes ciphertext device_id) decryption_failed

-- What the device keeps, once the secrets are opened.
unfoldable pub gather :
    EnrollmentPayload
    → Bytes
    → VerifiedManifest
    → EnrollmentSecretBundle
    → Result EnrollmentError EnrollmentMaterial
gather payload initial_manifest_document initial_manifest secrets = do
  check_secrets secrets
  ok (record {
    device_id = payload.device_id;
    manifest_url = payload.manifest_url;
    status_url = payload.status_url;
    refresh_interval_minutes = payload.refresh_interval_minutes;
    initial_manifest_document = initial_manifest_document;
    initial_manifest = initial_manifest;
    status_token = secrets.status_token;
    repository_secrets = secrets.repository_secrets;
  })

module _ (json : Json) (signatures : Signatures) (ciphers : Ciphers) where
  -- The secrets of a payload, once its manifest is verified.
  unfoldable pub open_secrets :
      EnrollmentPayload
      → Bytes
      → Bytes
      → VerifiedManifest
      → Result EnrollmentError EnrollmentMaterial
  open_secrets payload private_key initial_manifest_document initial_manifest = do
    plaintext ← unseal signatures ciphers payload.secrets payload.device_id private_key
    secrets ← map_err invalid_json (json.secret_bundle plaintext)
    gather payload initial_manifest_document initial_manifest secrets

module _ (urls : Urls) (json : Json) (signatures : Signatures) (ciphers : Ciphers)
    (chrono : Chrono) where
  -- What follows once the payload is read.
  unfoldable pub accept_payload :
      EnrollmentPayload
      → BootstrapDescriptor
      → Bytes
      → Bytes
      → DateTime
      → Result EnrollmentError EnrollmentMaterial
  accept_payload payload descriptor private_key expected_nonce now = do
    check_enrollment_payload signatures chrono payload descriptor expected_nonce now
    check_server_url urls payload.manifest_url
    check_server_url urls payload.status_url
    initial_manifest_document ← map_err invalid_json (json.to_string payload.initial_manifest)
    initial_manifest ← map_err manifest (
        verify_signed_manifest chrono json signatures initial_manifest_document
          descriptor.public_key now none)
    open_secrets json signatures ciphers payload private_key initial_manifest_document
        initial_manifest

  unfoldable pub verify_and_decrypt_enrollment :
      Bytes
      → BootstrapDescriptor
      → Bytes
      → Bytes
      → DateTime
      → Result EnrollmentError EnrollmentMaterial
  verify_and_decrypt_enrollment document descriptor private_key expected_nonce now = do
    payload_bytes ← open_envelope signatures json document descriptor
    payload ← map_err invalid_json (json.enrollment_payload payload_bytes)
    accept_payload payload descriptor private_key expected_nonce now
