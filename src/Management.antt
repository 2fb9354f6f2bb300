-- ===== src/Management.antt =====
-- What the readers of managed documents share (crates/resticpal-core/src/management.rs): the documents, the
-- texts that they may hold, and the packages that the code calls. A byte is a number, and an owned text of
-- Rust that comes from bytes is the bytes themselves, since that is how Rust stores it.
pub mod Manifest
pub mod Bootstrap
pub mod Enrollment
pub mod Admitted
pub mod Enrolled
pub mod Cache
pub mod Client
pub mod Worker
pub mod Forward
pub mod Kept
pub mod Restarts
use resticpal.Prelude.{
  ℕ, ◌*◌, Bool, true, false, not, ◌&&◌, ◌||◌, Option, none, some, List, [], ◌∷◌, String, ltb, leb,
  ◌==◌, if◌then◌else◌, length, all, is_empty, Result, ok, err,
}
use resticpal.Text.{Bytes, codes, byte_len, has_break, is_ascii_alphanumeric}
use resticpal.Time.{DateTime}
use resticpal.Config.{SecretEnvironmentVariable}
use resticpal.Config.Management.{Url, Urls, is_text, is_loopback}
use resticpal.Policy.{ManagedPolicy}

abbrev pub management_schema_version : ℕ
management_schema_version = 1

abbrev pub max_manifest_bytes : ℕ
max_manifest_bytes = 1024 * 1024

abbrev pub max_enrollment_bytes : ℕ
max_enrollment_bytes = 1024 * 1024

abbrev pub max_signed_manifest_lifetime_days : ℕ
max_signed_manifest_lifetime_days = 30

abbrev pub max_clock_skew_minutes : ℕ
max_clock_skew_minutes = 5

pub record ManifestPayload : Type 0 where
  pub schema_version : ℕ
  pub sequence : ℕ
  pub issued_at : DateTime
  pub expires_at : Option DateTime
  pub policy : ManagedPolicy

pub record SignedManifestEnvelope : Type 0 where
  pub schema_version : ℕ
  pub algorithm : String
  pub key_id : String
  pub payload : String
  pub signature : String

pub record VerifiedManifest : Type 0 where
  pub payload : ManifestPayload
  pub signed : Bool

pub record EnrollmentSecretBundle : Type 0 where
  pub schema_version : ℕ
  pub status_token : String
  pub repository_secrets : List (SecretEnvironmentVariable × String)

pub record SealedSecretBundle : Type 0 where
  pub algorithm : String
  pub ephemeral_public_key : String
  pub salt : String
  pub nonce : String
  pub ciphertext : String

pub record EnrollmentPayload : Type 0 where
  pub schema_version : ℕ
  pub device_id : String
  pub request_nonce : String
  pub issued_at : DateTime
  pub expires_at : DateTime
  pub manifest_url : String
  pub status_url : String
  pub refresh_interval_minutes : ℕ
  pub initial_manifest : SignedManifestEnvelope
  pub secrets : SealedSecretBundle

pub record SignedEnrollmentEnvelope : Type 0 where
  pub schema_version : ℕ
  pub algorithm : String
  pub key_id : String
  pub payload : String
  pub signature : String

-- The package that reads and writes JSON: each reader gives its value or the text of its error.
pub record Json : Type 0 where
  pub manifest_payload : Bytes → Result String ManifestPayload
  pub manifest_envelope : Bytes → Result String SignedManifestEnvelope
  pub enrollment_payload : Bytes → Result String EnrollmentPayload
  pub enrollment_envelope : Bytes → Result String SignedEnrollmentEnvelope
  pub secret_bundle : Bytes → Result String EnrollmentSecretBundle
  pub to_string : SignedManifestEnvelope → Result String Bytes

-- The packages for base64 and for Ed25519 signatures.
pub record Signatures : Type 0 where
  pub decode : String → Option Bytes
  pub encode : Bytes → String
  -- Whether 32 bytes are a public key.
  pub is_key : Bytes → Bool
  -- The key, the message and the signature.
  pub verify_strict : Bytes → Bytes → Bytes → Bool

-- The packages that agree on a key and open what was sealed with it.
pub record Ciphers : Type 0 where
  pub diffie_hellman : Bytes → Bytes → Bytes
  pub was_contributory : Bytes → Bool
  pub expand : Bytes → Bytes → String → Option Bytes
  -- The key, the nonce, the ciphertext and the text that is authenticated with it.
  pub decrypt : Bytes → Bytes → Bytes → String → Option Bytes

-- `decode_raw_array::<N>`, and `decode_array::<N>` under its error.
unfoldable pub decode_array : Signatures → ℕ → String → Option Bytes
decode_array signatures n value = elim (signatures.decode value) [
  | none ↦ none
  | some decoded ↦ if length decoded == n then some decoded else none
]

unfoldable pub valid_text : String → ℕ → Bool
valid_text value limit =
    not (is_empty (codes value)) && leb (byte_len value) limit && not (has_break value)

unfoldable pub valid_id : String → Bool
valid_id value =
    not (is_empty (codes value))
    && leb (byte_len value) 256
    && all (λ c. is_ascii_alphanumeric c || (c == b'-' || c == b'_')) (codes value)

unfoldable pub signed_transport_allowed : Urls → Url → Bool
signed_transport_allowed urls url = is_text url.scheme "https" || is_loopback urls url.host_str
