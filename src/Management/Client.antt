-- ===== src/Management/Client.antt =====
-- How the service gets its policy: `fetch_policy`, `load_best_policy` and `refresh_policy` of
-- apps/resticpal-service/src/management.rs.
use resticpal.Prelude.{
  ℕ, Bool, true, false, not, ◌||◌, ◌&&◌, Option, none, some, ◌++◌, String, ltb, ◌==◌, any, length,
  is_some, if◌then◌else◌, Result, ok, err, ◌>>=◌, ◌>>◌, reject_if, map_err,
}
use resticpal.Text.{Bytes, codes, is_utf8}
use resticpal.Time.{DateTime, Chrono}
use resticpal.Config.{
  ManagementMode, disabled, plain_manifest, signed_manifest, LocalConfig, LocalManagementConfig,
  default_config,
}
use resticpal.Config.Management.{Urls, validate_management}
use resticpal.Policy.{ManagedPolicy}
use resticpal.Policy.Resolve.{resolve_config}
use resticpal.Management.{Json, Signatures, max_manifest_bytes}
use resticpal.Management.Manifest.{required}
use resticpal.Management.Cache.{
  ManagementError, LoadedPolicy, CacheCodec, loaded, load_cache, save_cache, read_document,
}

-- What a call meets: the server, which answers a URL and the header for authorization with a document or
-- an error; the store of credentials, where it is open; the clock at the fetch and at the save; and
-- whether the cache file can be replaced.
pub record World : Type 0 where
  pub get : String → Option Bytes → Result String Bytes
  pub credential_store : Option (String → Result String Bytes)
  pub fetched_at : DateTime
  pub saved_at : DateTime
  pub replaced : Result String (Unit {0})

-- `str::contains(['\0', '\r', '\n'])` on the bytes of a text.
abbrev holds_break : Bytes → Bool
holds_break token = any (λ b. b == 0 || (b == 13 || b == 10)) token

unfoldable pub bearer_token :
    Option (String → Result String Bytes) → String → Result ManagementError Bytes
bearer_token credential_store reference = do
  get ← required credential_store ManagementError.credential_store_unavailable
  token ← map_err ManagementError.credential (get reference)
  reject_if (not (is_utf8 token)) ManagementError.invalid_status_token
  reject_if (holds_break token) ManagementError.invalid_status_token
  ok (codes "Bearer " ++ token)

-- Only a signed source is asked with the token of the device.
unfoldable pub authorization :
    LocalManagementConfig
    → Option (String → Result String Bytes)
    → Result ManagementError (Option Bytes)
authorization config credential_store = elim config.mode [
  | disabled ↦ ok none
  | plain_manifest ↦ ok none
  | signed_manifest ↦ elim config.status_token_ref [
    | none ↦ ok none
    | some reference ↦ bearer_token credential_store reference >>= λ header. ok (some header)
  ]
]

unfoldable pub validate_effective_policy :
    LocalConfig → ManagedPolicy → Result ManagementError (Unit {0})
validate_effective_policy local managed = do
  reject_if (is_some local.management.enrollment_key_ref && is_some managed.repository.secret_refs)
      ManagementError.enrolled_policy_contains_secret_references
  map_err ManagementError.policy (resolve_config default_config local (some managed))
      >>= λ resolved. ok tt

abbrev pub is_disabled : ManagementMode → Bool
is_disabled disabled = true
is_disabled plain_manifest = false
is_disabled signed_manifest = false

-- `minimum_sequence == Some(loaded.sequence)`.
abbrev is_sequence : Option ℕ → ℕ → Bool
is_sequence none sequence = false
is_sequence (some minimum) sequence = minimum == sequence

-- The cached policy, and the sequence that it stands for.
abbrev pub as_cached : Result ManagementError LoadedPolicy → Option LoadedPolicy
as_cached (ok policy) = some policy
as_cached (err error) = none

abbrev pub minimum_of : Option LoadedPolicy → Option ℕ
minimum_of none = none
minimum_of (some policy) = some policy.sequence

-- The cached policy in place of a fetched one.
unfoldable pub use_cached : LocalConfig → LoadedPolicy → Result ManagementError LoadedPolicy
use_cached local cached = validate_effective_policy local cached.policy >> ok cached

abbrev pub in_force :
    Result ManagementError LoadedPolicy → Result ManagementError (Option LoadedPolicy)
in_force result = result >>= λ policy. ok (some policy)

module _ (codec : CacheCodec) where
  -- A policy that was fetched is put into the cache before it is given out.
  unfoldable pub keep_policy :
      World
      → LocalConfig
      → LoadedPolicy
      → Bytes
      → Option Bytes
      → Option Bytes × Result ManagementError LoadedPolicy
  keep_policy world local fetched document file =
      elim (validate_effective_policy local fetched.policy) [
        | err error ↦ (file, err error)
        | ok _ ↦
            let saved =
              save_cache codec local.management document world.saved_at world.replaced file in
            (saved.0, saved.1 >> ok fetched)
      ]

  unfoldable pub choose_policy :
      World
      → LocalConfig
      → Result ManagementError LoadedPolicy
      → Result ManagementError (LoadedPolicy × Bytes)
      → Option Bytes
      → Option Bytes × Result ManagementError LoadedPolicy
  choose_policy world local (ok cached) (ok (fetched, document)) file =
      if cached.sequence == fetched.sequence
      then (file, use_cached local cached)
      else keep_policy world local fetched document file
  choose_policy world local (err error) (ok (fetched, document)) file =
      keep_policy world local fetched document file
  choose_policy world local (ok cached) (err error) file = (file, use_cached local cached)
  choose_policy world local (err cache_error) (err fetch_error) file =
      (file, err (ManagementError.fetch_and_cache_unavailable fetch_error cache_error))

module _ (chrono : Chrono) (json : Json) (signatures : Signatures) where
  unfoldable pub fetch_policy :
      World → LocalManagementConfig → Option ℕ → Result ManagementError (LoadedPolicy × Bytes)
  fetch_policy world config minimum_sequence = do
    url ← required config.manifest_url ManagementError.missing_manifest_url
    header ← authorization config world.credential_store
    document ← map_err ManagementError.http (world.get url header)
    reject_if (ltb max_manifest_bytes (length document)) ManagementError.manifest_too_large
    verified ←
        read_document chrono json signatures config.mode config.signing_public_key document
          world.fetched_at minimum_sequence
    reject_if (not (is_utf8 document)) ManagementError.invalid_utf8
    ok (loaded verified, document)

  module _ (codec : CacheCodec) where
    unfoldable pub load_best_policy :
        Urls
        → World
        → LocalConfig
        → Option Bytes
        → Option Bytes × Result ManagementError (Option LoadedPolicy)
    load_best_policy urls world local file =
        if is_disabled local.management.mode
        then (file, ok none)
        else elim (validate_management urls local.management) [
          | err error ↦ (file, err (ManagementError.config error))
          | ok _ ↦
              let cached = load_cache chrono json signatures codec local.management file in
              let fetched = fetch_policy world local.management (minimum_of (as_cached cached)) in
              let chosen = choose_policy codec world local cached fetched file in
              (chosen.0, in_force chosen.1)
        ]

    unfoldable pub refresh_policy :
        World → LocalConfig → ℕ → Option Bytes → Option Bytes × Result ManagementError LoadedPolicy
    refresh_policy world local minimum_sequence file =
        elim (fetch_policy world local.management (some minimum_sequence)) [
          | err error ↦ (file, err error)
          | ok (fetched, document) ↦
              if fetched.sequence == minimum_sequence
              then (file, ok fetched)
              else keep_policy codec world local fetched document file
        ]
