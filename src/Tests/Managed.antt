-- ===== src/Tests/Managed.antt =====
-- A managed device at concrete documents.
use native.Mathlib.Decide.{ℕ_discrete}
use resticpal.Prelude.{
  ℕ, ◌+◌, true, Option, none, some, [], ◌∷◌, String, ◌≡◌, refl, sym, ap, ok, err, Result, any, all,
  String_discrete, if◌then◌else◌, ok-inj, ◌∙◌, zero, suc, ◌==◌,
}
use resticpal.Text.{Bytes, is_utf8, byte_len, has_break, is_blank, chars_count, utf16_count}
use resticpal.Time.{minutes, days, seconds}
use resticpal.Config.{ManagementMode, disabled, plain_manifest, signed_manifest, LocalConfig}
use resticpal.Config.Management.{
  is_text, validate_management, validate_management_url, validate_signed_transport,
}
use resticpal.Config.Validate.{
  validate, each, check_url, check_display_name, check_schedule, check_path, check_prefix,
  check_exclusion, check_retention, is_valid_secret_reference,
}
use resticpal.Policy.Resolve.{resolve_config, resolve_fields, check_policy}
use resticpal.Management.{
  ManifestPayload, SignedManifestEnvelope, VerifiedManifest, EnrollmentPayload, Json, Signatures,
  Ciphers, decode_array, valid_id, signed_transport_allowed,
}
use resticpal.Management.Bootstrap.{BootstrapDescriptor}
use resticpal.Management.Manifest.{
  validate_document_size, validate_expiry, validate_payload, check_envelope, check_signature,
  parse_plain_manifest, verify_signed_manifest,
}
use resticpal.Management.Enrollment.{
  EnrollmentMaterial, check_secrets, check_server_url, open_envelope, check_enrollment_payload,
  unseal, gather, open_secrets, accept_payload, verify_and_decrypt_enrollment,
}
use resticpal.Management.Admitted.{
  IsSigned, IsCurrent, IsUnexpired, verify_signed_manifest-admitted,
}
use resticpal.Management.Enrolled.{IsEnrolled, verify_and_decrypt_enrollment-admitted}
use resticpal.Management.Cache.{
  ManagementError, LoadedPolicy, CachedManifest, CacheCodec, read_document, load_cache, save_cache,
}
use resticpal.Management.Client.{
  World, authorization, validate_effective_policy, fetch_policy, keep_policy, choose_policy,
  load_best_policy,
}
use resticpal.Management.Forward.{IsCodec, IsPrompt}
use resticpal.Management.Kept.{IsNoRollback}
use resticpal.Management.Restarts.{restarts, restarts-forward, load_best_policy-offline}
use resticpal.Tests.Data.{calendar, noon, policy}
use resticpal.Tests.Configuration.{own_layer}
use resticpal.Tests.Requests.{one_url, managed}

abbrev repeated : ℕ → Bytes
repeated zero = []
repeated (suc n) = 1 ∷ repeated n

abbrev decode : String → Option Bytes
decode value =
    if is_text value "key"
    then some (repeated 32)
    else if is_text value "signature"
    then some (repeated 64)
    else if is_text value "nonce"
    then some (repeated 12)
    else some (repeated 3)

abbrev signatures : Signatures
signatures = record {
  decode = decode;
  encode = λ bytes. "encoded";
  is_key = λ key. true;
  verify_strict = λ key message signature. true;
}

abbrev ciphers : Ciphers
ciphers = record {
  diffie_hellman = λ private_key public_key. repeated 32;
  was_contributory = λ secret. true;
  expand = λ salt secret info. some (repeated 32);
  decrypt = λ key nonce ciphertext text. some (repeated 5);
}

abbrev payload : ManifestPayload
payload = record {
  schema_version = 1;
  sequence = 12;
  issued_at = noon;
  expires_at = some (noon + days 7);
  policy = policy;
}

abbrev envelope : SignedManifestEnvelope
envelope = record {
  schema_version = 1;
  algorithm = "ed25519";
  key_id = "server-1";
  payload = "payload";
  signature = "signature";
}

abbrev enrollment : EnrollmentPayload
enrollment = record {
  schema_version = 1;
  device_id = "device-1";
  request_nonce = "encoded";
  issued_at = noon;
  expires_at = noon + minutes 10;
  manifest_url = "https://policy.example/device";
  status_url = "https://policy.example/status";
  refresh_interval_minutes = 15;
  initial_manifest = envelope;
  secrets = record {
    algorithm = "x25519-hkdf-sha256-chacha20poly1305";
    ephemeral_public_key = "key";
    salt = "key";
    nonce = "nonce";
    ciphertext = "ciphertext";
  };
}

abbrev json : Json
json = record {
  manifest_payload = λ document. ok payload;
  manifest_envelope = λ document. ok envelope;
  enrollment_payload = λ document. ok enrollment;
  enrollment_envelope = λ document. ok (record {
    schema_version = 1;
    algorithm = "ed25519";
    key_id = "server-1";
    payload = "payload";
    signature = "signature";
  });
  secret_bundle = λ document.
      ok (record { schema_version = 1; status_token = "token"; repository_secrets = [] });
  to_string = λ value. ok (repeated 9);
}

abbrev accepted : VerifiedManifest
accepted = record { payload = payload; signed = true }

document_verifies :
    verify_signed_manifest calendar json signatures (repeated 9) "key" noon (some 11) ≡ ok accepted
unfolding verify_signed_manifest validate_document_size check_envelope check_signature decode_array
    validate_payload validate_expiry String_discrete byte_len has_break any
document_verifies = refl

verify_signed_manifest-admitted_example :
    IsSigned json signatures (repeated 9) "key" payload
    × IsCurrent calendar noon (some 11) payload
    × IsUnexpired noon payload
verify_signed_manifest-admitted_example =
    verify_signed_manifest-admitted calendar json signatures (repeated 9) "key" noon (some 11)
      accepted document_verifies

abbrev link : BootstrapDescriptor
link = record {
  endpoint_url = "https://policy.example/enroll";
  token = "token";
  public_key = "key";
  key_id = "server-1";
}

abbrev material : EnrollmentMaterial
material = record {
  device_id = "device-1";
  manifest_url = "https://policy.example/device";
  status_url = "https://policy.example/status";
  refresh_interval_minutes = 15;
  initial_manifest_document = repeated 9;
  initial_manifest = accepted;
  status_token = "token";
  repository_secrets = [];
}

enrollment_opens :
    verify_and_decrypt_enrollment one_url json signatures ciphers calendar
      (repeated 9)
      link
      (repeated 32)
      (repeated 32)
      noon
    ≡ ok material
unfolding verify_and_decrypt_enrollment accept_payload open_envelope check_enrollment_payload
    check_server_url signed_transport_allowed unseal open_secrets gather check_secrets valid_id
    verify_signed_manifest validate_document_size check_envelope check_signature decode_array
    validate_payload validate_expiry String_discrete byte_len has_break any all
enrollment_opens = refl

verify_and_decrypt_enrollment-admitted_example :
    IsEnrolled one_url calendar json signatures (repeated 9) link (repeated 32) noon material
verify_and_decrypt_enrollment-admitted_example =
    verify_and_decrypt_enrollment-admitted one_url json signatures ciphers calendar (repeated 9)
      link (repeated 32) (repeated 32) noon material enrollment_opens

abbrev mode_byte : ManagementMode → ℕ
mode_byte disabled = 0
mode_byte plain_manifest = 1
mode_byte signed_manifest = 2

abbrev mode_of : ℕ → ManagementMode
mode_of b = if b == 0 then disabled else if b == 1 then plain_manifest else signed_manifest

same_mode : (mode : ManagementMode) → mode_of (mode_byte mode) ≡ mode
same_mode disabled = refl
same_mode plain_manifest = refl
same_mode signed_manifest = refl

abbrev server_url : String
server_url = "https://policy.example/device"

abbrev read_cache : Bytes → Result String CachedManifest
read_cache (version ∷ mode ∷ time ∷ document) = ok (record {
  schema_version = version;
  mode = mode_of mode;
  source_url = server_url;
  verified_at = time;
  document = document;
})
read_cache _ = err "too short"

-- The caches of one server, written as numbers.
abbrev codec : CacheCodec
codec = record {
  from_slice = read_cache;
  to_vec_pretty = λ cache. elim (String_discrete cache.source_url server_url) [
    | yes _ ↦ ok (cache.schema_version ∷ mode_byte cache.mode ∷ cache.verified_at ∷ cache.document)
    | no _ ↦ err "another server"
  ];
}

-- What is written of a cache of that server is read back.
reads_back :
    (cache : CachedManifest)
    → cache.source_url ≡ server_url
    → read_cache (cache.schema_version ∷ mode_byte cache.mode ∷ cache.verified_at ∷ cache.document)
      ≡ ok cache
reads_back cache e = λ i. ok (record {
  schema_version = cache.schema_version;
  mode = same_mode cache.mode i;
  source_url = sym e i;
  verified_at = cache.verified_at;
  document = cache.document;
})

codec_lawful : IsCodec codec
codec_lawful cache contents =
    elim (String_discrete cache.source_url server_url)
      as (λ d.
        ◌≡◌ {A = Result String Bytes}
          (elim d [
            | yes _ ↦
                ok
                  (cache.schema_version ∷ mode_byte cache.mode ∷ cache.verified_at ∷ cache.document)
            | no _ ↦ err "another server"
          ])
          (ok contents)
        → read_cache contents ≡ ok cache) [
          | yes e ↦ λ made. ap read_cache (sym (ok-inj made)) ∙ reads_back cache e
          | no _ ↦ λ made. absurd (cc)
        ]

abbrev managed_layer : LocalConfig
managed_layer = record own_layer { management = managed }

abbrev world : World
world = record {
  get = λ url header. ok (repeated 9);
  credential_store = none;
  fetched_at = noon;
  saved_at = noon + seconds 1;
  replaced = ok tt;
}

abbrev unreachable : World
unreachable = record world { get = λ url header. err "no such host" }

world-IsPrompt : IsPrompt calendar json signatures managed world
unfolding read_document parse_plain_manifest validate_payload validate_expiry
world-IsPrompt minimum fetched document manifest_read got good = good

unreachable-IsPrompt : IsPrompt calendar json signatures managed unreachable
unfolding fetch_policy authorization
unreachable-IsPrompt minimum fetched document manifest_read got good = absurd (cc)

abbrev in_force : LoadedPolicy
in_force = record { policy = policy; sequence = 12 }

first_start :
    (load_best_policy calendar json signatures codec one_url world managed_layer none).1
    ≡ ok (some in_force)
unfolding load_best_policy fetch_policy choose_policy keep_policy load_cache save_cache
    read_document parse_plain_manifest authorization validate_effective_policy validate_management
    validate_management_url validate_signed_transport validate_document_size validate_payload
    validate_expiry resolve_config resolve_fields check_policy validate each check_url
    check_display_name check_schedule check_path check_prefix check_exclusion check_retention
    is_valid_secret_reference is_blank chars_count has_break utf16_count byte_len any all is_utf8
    String_discrete ℕ_discrete
first_start = refl

not_fetched :
    fetch_policy calendar json signatures unreachable managed (some 12)
    ≡ err (ManagementError.http "no such host")
unfolding fetch_policy authorization
not_fetched = refl

abbrev kept : Bytes
kept = 1 ∷ 1 ∷ noon ∷ repeated 9

cached : load_cache calendar json signatures codec managed (some kept) ≡ ok in_force
unfolding load_cache read_document parse_plain_manifest validate_document_size validate_payload
    validate_expiry String_discrete
cached = refl

load_best_policy-offline_example :
    (load_best_policy calendar json signatures codec one_url unreachable managed_layer
      (load_best_policy calendar json signatures codec one_url world managed_layer none).0).1
    ≡ ok (some in_force)
load_best_policy-offline_example =
    load_best_policy-offline calendar json signatures codec one_url world unreachable managed_layer
      none in_force (ManagementError.http "no such host") codec_lawful world-IsPrompt first_start
      not_fetched

restarts-forward_example :
    (new : LoadedPolicy) × (load_cache calendar json signatures codec managed (
        restarts calendar json signatures codec one_url
          (unreachable ∷ world ∷ [])
          managed_layer
          (some kept))
      ≡ ok new)
    × IsNoRollback in_force new
restarts-forward_example =
    restarts-forward calendar json signatures codec one_url (unreachable ∷ world ∷ []) managed_layer
      (some kept) in_force codec_lawful (unreachable-IsPrompt, (world-IsPrompt, tt)) cached
