-- ===== src/Config/Management.antt =====
-- `LocalManagementConfig::validate` of crates/resticpal-core/src/config.rs. The parser of URLs and the
-- test for loopback addresses belong to other libraries.
pub mod Transport
use resticpal.Prelude.{
  ℕ, ◌*◌, Bool, true, false, not, ◌&&◌, ◌||◌, Option, none, some, List, [], ◌∷◌, String, ltb, leb,
  ◌==◌, all, is_empty, is_some, unwrap_or, Result, ok, err, ◌>>=◌, ◌>>◌, reject_if, String_discrete,
}
use resticpal.Text.{
  codes, chars_count, has_break, byte_len, is_ascii_alphanumeric, eq_ignore_ascii_case,
}
use resticpal.Config.{disabled, plain_manifest, signed_manifest, LocalManagementConfig}
use resticpal.Config.Validate.{is_valid_secret_reference}

-- What the code reads of a parsed URL.
pub record Url : Type 0 where
  pub scheme : String
  pub host_str : Option String
  pub username : String
  pub password : Option String
  pub fragment : Option String

pub record Urls : Type 0 where
  pub parse : String → Option Url
  pub is_loopback_address : String → Bool

pub data ManagementConfigError : Type 0 where
  invalid_refresh_interval unexpected_disabled_fields missing_manifest_url invalid_url
        plain_mode_cannot_report missing_signing_key invalid_signing_key insecure_transport
        incomplete_status_configuration invalid_device_id invalid_status_token_reference
        invalid_enrollment_key_reference :
      ManagementConfigError

abbrev Checked : Type 0
Checked = Result ManagementConfigError (Unit {0})

abbrev pub is_text : String → String → Bool
is_text s t = elim (String_discrete s t) [ yes _ ↦ true | no _ ↦ false ]

abbrev pub is_malformed : Url → Bool
is_malformed url =
    not (is_text url.scheme "http" || is_text url.scheme "https")
    || not (is_some url.host_str)
    || not (is_empty (codes url.username))
    || is_some url.password
    || is_some url.fragment

-- Any of the settings that a mode must not have.
abbrev pub reports : LocalManagementConfig → Bool
reports management =
    is_some management.signing_public_key
    || is_some management.status_url
    || is_some management.device_id
    || is_some management.status_token_ref
    || is_some management.enrollment_key_ref

unfoldable pub check_signing_key : Option String → Checked
check_signing_key none = err missing_signing_key
check_signing_key (some key) =
    reject_if (is_empty (codes key) || ltb 256 (byte_len key) || has_break key) invalid_signing_key

unfoldable pub check_device_id : Option String → Checked
check_device_id none = ok tt
check_device_id (some id) =
    reject_if
      (is_empty (codes id)
        || ltb 256 (byte_len id)
        || not (all (λ c. is_ascii_alphanumeric c || c == b'-' || c == b'_') (codes id)))
      invalid_device_id

unfoldable pub check_reference : Option String → ManagementConfigError → Checked
check_reference none error = ok tt
check_reference (some reference) error = reject_if (not (is_valid_secret_reference reference)) error

-- The reporting settings are given together or not at all.
abbrev pub is_incomplete : LocalManagementConfig → Bool
is_incomplete management =
    (is_some management.status_url
      || is_some management.device_id
      || is_some management.status_token_ref)
    && not (
        is_some management.status_url
        && is_some management.device_id
        && is_some management.status_token_ref)

abbrev pub refresh_interval_minutes : LocalManagementConfig → ℕ
refresh_interval_minutes management = unwrap_or management.refresh_interval_minutes 15

module _ (urls : Urls) where
  unfoldable pub validate_management_url : Option String → Result ManagementConfigError Url
  validate_management_url none = err missing_manifest_url
  validate_management_url (some value) = do
    reject_if (ltb 8192 (chars_count value) || has_break value) invalid_url
    elim (urls.parse value) [
      | none ↦ err invalid_url
      | some url ↦ reject_if (is_malformed url) invalid_url >> ok url
    ]

  abbrev pub is_loopback : Option String → Bool
  is_loopback none = false
  is_loopback (some host) = eq_ignore_ascii_case host "localhost" || urls.is_loopback_address host

  unfoldable pub validate_signed_transport : Url → Checked
  validate_signed_transport url =
      reject_if (not (is_text url.scheme "https" || is_loopback url.host_str)) insecure_transport

  -- A URL with an acceptable transport.
  abbrev pub check_manifest_url : Option String → Checked
  check_manifest_url value = do url ← validate_management_url value; validate_signed_transport url

  unfoldable pub check_status_url : Option String → Checked
  check_status_url none = ok tt
  check_status_url (some value) = check_manifest_url (some value)

  unfoldable pub validate_management : LocalManagementConfig → Checked
  validate_management management = do
    reject_if
        (not (
          leb 5 (refresh_interval_minutes management)
          && leb (refresh_interval_minutes management) (24 * 60)))
        invalid_refresh_interval
    elim management.mode [
      | disabled ↦
          reject_if (is_some management.manifest_url || reports management)
            unexpected_disabled_fields
      | plain_manifest ↦
          check_manifest_url management.manifest_url
          >> reject_if (reports management) plain_mode_cannot_report
      | signed_manifest ↦
          check_manifest_url management.manifest_url
          >> check_signing_key management.signing_public_key
          >> reject_if (is_incomplete management) incomplete_status_configuration
          >> check_status_url management.status_url
          >> check_device_id management.device_id
          >> check_reference management.status_token_ref invalid_status_token_reference
          >> check_reference management.enrollment_key_ref invalid_enrollment_key_reference
    ]
