-- ===== src/Config/Management/Transport.antt =====
-- What a validated management configuration promises (crates/resticpal-core/src/config.rs).
use resticpal.Prelude.{
  ◌*◌, ◌≤◌, true, false, Option, none, some, String, ◌≡◌, ◌⊎◌, ok, inl, inr, arith, Option-cases,
  is_some,
}
use resticpal.Config.{LocalManagementConfig}
use resticpal.Config.Management.{
  Url, Urls, is_text, refresh_interval_minutes, validate_management_url, is_loopback,
  validate_signed_transport, check_manifest_url, check_status_url, validate_management,
}

module _ (urls : Urls) where
  -- A URL whose contents cannot be read on the way, and that carries no credentials.
  pub record IsProtected (value : String) (url : Url) : Type 0 where
    pub parsed : urls.parse value ≡ some url
    pub encrypted : (is_text url.scheme "https" ≡ true) ⊎ (is_loopback urls url.host_str ≡ true)
    pub anonymous : url.password ≡ none

  abbrev pub IsProtectedUrl : Option String → Type 0
  IsProtectedUrl none = Unit
  IsProtectedUrl (some value) = (url : Url) × IsProtected value url

  protects :
      (value : String) (url : Url)
      → urls.parse value ≡ some url
      → check_manifest_url urls (some value) ≡ ok tt
      → IsProtected value url
  unfolding validate_management_url validate_signed_transport
  protects value url e h = record { parsed = e; encrypted = ground arith; anonymous = ground arith }

  check_manifest_url_lem :
      (value : Option String) → check_manifest_url urls value ≡ ok tt → IsProtectedUrl value
  unfolding validate_management_url
  check_manifest_url_lem none h = tt
  check_manifest_url_lem (some value) h = elim (Option-cases (urls.parse value)) [
    | inl missing ↦ ground arith
    | inr (url, e) ↦ (url, protects value url e h)
  ]

  check_status_url_lem :
      (value : Option String) → check_status_url urls value ≡ ok tt → IsProtectedUrl value
  unfolding check_status_url
  check_status_url_lem none h = tt
  check_status_url_lem (some value) h = check_manifest_url_lem (some value) h

  absent : (value : Option String) → is_some value ≡ false → IsProtectedUrl value
  absent none h = tt
  absent (some value) h = ground arith

  validated_parts :
      (management : LocalManagementConfig)
      → validate_management urls management ≡ ok tt
      → (5 ≤ refresh_interval_minutes management)
        × (refresh_interval_minutes management ≤ 24 * 60)
        × ((is_some management.manifest_url ≡ false)
            ⊎ (check_manifest_url urls management.manifest_url ≡ ok tt))
        × ((is_some management.status_url ≡ false)
            ⊎ (check_status_url urls management.status_url ≡ ok tt))
  unfolding validate_management
  validated_parts management h = (ground arith, ground arith, ground arith, ground arith)

  -- A management configuration that passes validation, in whatever mode, asks its server every 5 minutes to
  -- 24 hours, and whichever of the manifest and the status URL it names is a URL, carries no password, and is
  -- encrypted or stays on the device.
  pub validate_management_safe :
      (management : LocalManagementConfig)
      → validate_management urls management ≡ ok tt
      → (5 ≤ refresh_interval_minutes management)
        × (refresh_interval_minutes management ≤ 24 * 60)
        × IsProtectedUrl management.manifest_url
        × IsProtectedUrl management.status_url
  validate_management_safe management h =
      let (low, high, manifest, status) = validated_parts management h in
      (
        low,
        high,
        elim manifest [
          | inl none_given ↦ absent management.manifest_url none_given
          | inr checked ↦ check_manifest_url_lem management.manifest_url checked
        ],
        elim status [
          | inl none_given ↦ absent management.status_url none_given
          | inr checked ↦ check_status_url_lem management.status_url checked
        ],
      )
