-- ===== src/Management/Cache.antt =====
-- The policy that the service keeps for the time without its server (`ManagedPolicyCache` of
-- apps/resticpal-service/src/management.rs). The file is the bytes under its path, where there are any.
use resticpal.Prelude.{
  ℕ, ◌*◌, Bool, true, false, not, ◌||◌, Option, none, some, String, ltb, ◌==◌, length, unwrap_or,
  if◌then◌else◌, Result, ok, err, ◌>>=◌, ◌>>◌, reject_if, map_err,
}
use resticpal.Time.{DateTime, Chrono}
use resticpal.Config.{
  ManagementMode, disabled, plain_manifest, signed_manifest, LocalManagementConfig,
}
use resticpal.Config.Management.{ManagementConfigError, is_text}
use resticpal.Policy.{ManagedPolicy}
use resticpal.Policy.Resolve.{PolicyError}
use resticpal.Text.{Bytes}
use resticpal.Management.{Json, Signatures, VerifiedManifest}
use resticpal.Management.Manifest.{
  ManifestError, required, parse_plain_manifest, verify_signed_manifest,
}

abbrev pub cache_schema_version : ℕ
cache_schema_version = 1

abbrev pub max_cache_bytes : ℕ
max_cache_bytes = 2 * 1024 * 1024

-- The errors of other packages carry their text. The last but one carries the errors whose texts it holds.
pub data ManagementError : Type 0 where
  management_disabled missing_manifest_url missing_signing_key manifest_too_large invalid_utf8
        credential_store_unavailable invalid_status_token enrolled_policy_contains_secret_references
        cache_too_large cache_does_not_match_source status_reporting_not_configured :
      ManagementError
  config : ManagementConfigError → ManagementError
  manifest : ManifestError → ManagementError
  policy : PolicyError → ManagementError
  http io json_error atomic credential : String → ManagementError
  fetch_and_cache_unavailable : ManagementError → ManagementError → ManagementError

pub record LoadedPolicy : Type 0 where
  pub policy : ManagedPolicy
  pub sequence : ℕ

pub record CachedManifest : Type 0 where
  pub schema_version : ℕ
  pub mode : ManagementMode
  pub source_url : String
  pub verified_at : DateTime
  pub document : Bytes

-- The JSON package on the cache: its reader, and its writer, which can fail.
pub record CacheCodec : Type 0 where
  pub from_slice : Bytes → Result String CachedManifest
  pub to_vec_pretty : CachedManifest → Result String Bytes

abbrev pub loaded : VerifiedManifest → LoadedPolicy
loaded verified = record { policy = verified.payload.policy; sequence = verified.payload.sequence }

abbrev pub is_same_mode : ManagementMode → ManagementMode → Bool
is_same_mode disabled disabled = true
is_same_mode plain_manifest plain_manifest = true
is_same_mode signed_manifest signed_manifest = true
is_same_mode _ _ = false

abbrev pub is_url : String → Option String → Bool
is_url value none = false
is_url value (some url) = is_text value url

module _ (chrono : Chrono) (json : Json) (signatures : Signatures) where
  -- The reading of a document as the mode wants it, which a fetch and the cache share.
  unfoldable pub read_document :
      ManagementMode
      → Option String
      → Bytes
      → DateTime
      → Option ℕ
      → Result ManagementError VerifiedManifest
  read_document disabled key document time minimum = err management_disabled
  read_document plain_manifest key document time minimum =
      map_err manifest (parse_plain_manifest chrono json document time minimum)
  read_document signed_manifest key document time minimum = do
    public_key ← required key missing_signing_key
    map_err manifest
        (verify_signed_manifest chrono json signatures document public_key time minimum)

  module _ (codec : CacheCodec) where
    unfoldable pub load_cache :
        LocalManagementConfig → Option Bytes → Result ManagementError LoadedPolicy
    load_cache settings file = do
      contents ← required file (io "not found")
      reject_if (ltb max_cache_bytes (length contents)) cache_too_large
      cache ← map_err json_error (codec.from_slice contents)
      reject_if
          (not (cache.schema_version == cache_schema_version)
            || (not (is_same_mode cache.mode settings.mode)
                || not (is_url cache.source_url settings.manifest_url)))
          cache_does_not_match_source
      verified ←
          read_document cache.mode settings.signing_public_key cache.document cache.verified_at none
      ok (loaded verified)

abbrev pub cached_manifest : LocalManagementConfig → Bytes → DateTime → CachedManifest
cached_manifest settings document verified_at = record {
  schema_version = cache_schema_version;
  mode = settings.mode;
  source_url = unwrap_or settings.manifest_url "";
  verified_at = verified_at;
  document = document;
}

-- The file after a save, and what the save came to. The replacement of the file is all or nothing; whether
-- it succeeds is the file system's.
unfoldable pub save_cache :
    CacheCodec
    → LocalManagementConfig
    → Bytes
    → DateTime
    → Result String (Unit {0})
    → Option Bytes
    → Option Bytes × Result ManagementError (Unit {0})
save_cache codec settings document verified_at replaced file =
    elim (codec.to_vec_pretty (cached_manifest settings document verified_at)) [
      | err error ↦ (file, err (json_error error))
      | ok contents ↦
          if ltb max_cache_bytes (length contents)
          then (file, err cache_too_large)
          else elim replaced [
            | err error ↦ (file, err (atomic error))
            | ok _ ↦ (some contents, ok tt)
          ]
    ]
