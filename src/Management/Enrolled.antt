-- ===== src/Management/Enrolled.antt =====
-- What a device accepts as its enrollment (crates/resticpal-core/src/management.rs).
use resticpal.Prelude.{
  ◌+◌, ◌*◌, ◌≤◌, true, none, some, String, ◌≡◌, ◌⊎◌, inl, inr, refl, ok, arith, subst, ap, ◌∙◌,
  bind-ok, bind-ok_tt, map_err-ok, reject_if-not-ok, ok-inj, Option-cases, map_err,
}
use resticpal.Time.{DateTime, Chrono, minutes}
use resticpal.Config.Management.{Url, Urls, is_text, is_loopback}
use resticpal.Text.{Bytes}
use resticpal.Management.{
  EnrollmentPayload, SignedEnrollmentEnvelope, Json, Signatures, Ciphers, decode_array, valid_id,
  signed_transport_allowed, EnrollmentSecretBundle, VerifiedManifest,
}
use resticpal.Management.Bootstrap.{BootstrapDescriptor}
use resticpal.Management.Manifest.{required-ok, verify_signed_manifest}
use resticpal.Management.Enrollment.{
  EnrollmentMaterial, EnrollmentError, open_envelope, check_enrollment_payload, check_server_url,
  unseal, verify_and_decrypt_enrollment, gather, open_secrets, accept_payload,
}
use resticpal.Management.Admitted.{
  IsSigned, IsCurrent, IsUnexpired, verify_signed_manifest-admitted,
}

-- A URL whose contents cannot be read on the way, and that carries no credentials.
pub record IsServer (urls : Urls) (value : String) : Type 0 where
  pub url : Url
  pub parsed : urls.parse value ≡ some url
  pub encrypted : (is_text url.scheme "https" ≡ true) ⊎ (is_loopback urls url.host_str ≡ true)
  pub anonymous : url.password ≡ none

-- The payload is what the key of the link signed, it answers this request of this device, and it is fresh:
-- it was issued at most 15 minutes before its end, which lies ahead.
pub record IsAnswer (json : Json) (signatures : Signatures) (chrono : Chrono) (document : Bytes)
    (descriptor : BootstrapDescriptor) (expected_nonce : Bytes) (now : DateTime)
    (payload : EnrollmentPayload) : Type 0 where
  pub envelope : SignedEnrollmentEnvelope
  pub payload_bytes : Bytes
  pub key_bytes : Bytes
  pub signature : Bytes
  pub read : json.enrollment_envelope document ≡ ok envelope
  pub decoded : signatures.decode envelope.payload ≡ some payload_bytes
  pub pinned : decode_array signatures 32 descriptor.public_key ≡ some key_bytes
  pub signing : decode_array signatures 64 envelope.signature ≡ some signature
  pub verified : signatures.verify_strict key_bytes payload_bytes signature ≡ true
  pub parsed : json.enrollment_payload payload_bytes ≡ ok payload
  pub nonce : is_text payload.request_nonce (signatures.encode expected_nonce) ≡ true
  pub issued : payload.issued_at ≤ chrono.add now (minutes 5)
  pub ahead : now ≤ payload.expires_at
  pub short : payload.expires_at ≤ payload.issued_at + minutes 15

module _ (urls : Urls) where
  server_url : (value : String) → check_server_url urls value ≡ ok tt → IsServer urls value
  unfolding check_server_url signed_transport_allowed
  server_url value h = elim (Option-cases (urls.parse value)) [
    | inl e ↦ ground arith
    | inr (url, e) ↦ record {
      url = url;
      parsed = e;
      encrypted = ground arith;
      anonymous = ground arith;
    }
  ]

module _ (signatures : Signatures) (json : Json) where
  record IsOpened (document : Bytes) (descriptor : BootstrapDescriptor) (payload_bytes : Bytes)
      : Type 0 where
    envelope : SignedEnrollmentEnvelope
    key_bytes : Bytes
    signature : Bytes
    read : json.enrollment_envelope document ≡ ok envelope
    decoded : signatures.decode envelope.payload ≡ some payload_bytes
    pinned : decode_array signatures 32 descriptor.public_key ≡ some key_bytes
    signing : decode_array signatures 64 envelope.signature ≡ some signature
    verified : signatures.verify_strict key_bytes payload_bytes signature ≡ true

  open_envelope_lem :
      (document : Bytes) (descriptor : BootstrapDescriptor) (payload_bytes : Bytes)
      → open_envelope signatures json document descriptor ≡ ok payload_bytes
      → IsOpened document descriptor payload_bytes
  unfolding open_envelope
  open_envelope_lem document descriptor payload_bytes h =
      let (_, h0) = bind-ok_tt _ _ payload_bytes h in
      let (envelope, read, h1) = bind-ok _ _ payload_bytes h0 in
      let (_, h2) = bind-ok_tt _ _ payload_bytes h1 in
      let (bytes, decoded, h3) = bind-ok _ _ payload_bytes h2 in
      let (key_bytes, pinned, h4) = bind-ok _ _ payload_bytes h3 in
      let (signature, signing, h5) = bind-ok _ _ payload_bytes h4 in
      let (_, h6) = bind-ok_tt _ _ payload_bytes h5 in
      let (verified, h7) = bind-ok_tt _ _ payload_bytes h6 in
      let e = ok-inj h7 in
      record {
        envelope = envelope;
        key_bytes = key_bytes;
        signature = signature;
        read = map_err-ok _ _ envelope read;
        decoded = required-ok _ _ payload_bytes (decoded ∙ ap ok e);
        pinned = required-ok _ _ key_bytes pinned;
        signing = required-ok _ _ signature signing;
        verified =
            subst (λ b. signatures.verify_strict key_bytes b signature ≡ true) e
              (reject_if-not-ok _ _ verified);
      }

module _ (signatures : Signatures) (chrono : Chrono) where
  payload_parts :
      (payload : EnrollmentPayload) (descriptor : BootstrapDescriptor) (nonce : Bytes)
      (now : DateTime)
      → check_enrollment_payload signatures chrono payload descriptor nonce now ≡ ok tt
      → (is_text payload.request_nonce (signatures.encode nonce) ≡ true)
        × (payload.issued_at ≤ chrono.add now (minutes 5))
        × (now ≤ payload.expires_at)
        × (payload.expires_at ≤ payload.issued_at + minutes 15)
        × (5 ≤ payload.refresh_interval_minutes)
        × (payload.refresh_interval_minutes ≤ 24 * 60)
        × (valid_id payload.device_id ≡ true)
  unfolding check_enrollment_payload
  payload_parts payload descriptor nonce now h = (
    ground arith,
    ground arith,
    ground arith,
    ground arith,
    ground arith,
    ground arith,
    ground arith,
  )

-- What the device then holds comes from the answer.
pub record IsEnrolled (urls : Urls) (chrono : Chrono) (json : Json) (signatures : Signatures)
    (document : Bytes) (descriptor : BootstrapDescriptor) (expected_nonce : Bytes) (now : DateTime)
    (material : EnrollmentMaterial) : Type 0 where
  pub payload : EnrollmentPayload
  pub answer : IsAnswer json signatures chrono document descriptor expected_nonce now payload
  pub device : material.device_id ≡ payload.device_id
  pub manifest_server : IsServer urls material.manifest_url
  pub status_server : IsServer urls material.status_url
  pub not_often : 5 ≤ material.refresh_interval_minutes
  pub not_seldom : material.refresh_interval_minutes ≤ 24 * 60
  pub signed :
      IsSigned json signatures material.initial_manifest_document descriptor.public_key
        material.initial_manifest.payload
  pub current : IsCurrent chrono now none material.initial_manifest.payload
  pub unexpired : IsUnexpired now material.initial_manifest.payload

-- The fields that the material takes from the payload and from its manifest.
record IsFrom (payload : EnrollmentPayload) (initial_document : Bytes) (initial : VerifiedManifest)
    (material : EnrollmentMaterial) : Type 0 where
  device : material.device_id ≡ payload.device_id
  manifest_url : material.manifest_url ≡ payload.manifest_url
  status_url : material.status_url ≡ payload.status_url
  interval : material.refresh_interval_minutes ≡ payload.refresh_interval_minutes
  document : material.initial_manifest_document ≡ initial_document
  manifest : material.initial_manifest ≡ initial

gather_lem :
    (payload : EnrollmentPayload) (initial_document : Bytes) (initial : VerifiedManifest)
    (secrets : EnrollmentSecretBundle) (material : EnrollmentMaterial)
    → gather payload initial_document initial secrets ≡ ok material
    → IsFrom payload initial_document initial material
unfolding gather
gather_lem payload initial_document initial secrets material h =
    let (_, h1) = bind-ok_tt _ _ material h in
    subst (IsFrom payload initial_document initial) (ok-inj h1) (record {
      device = refl;
      manifest_url = refl;
      status_url = refl;
      interval = refl;
      document = refl;
      manifest = refl;
    })

module _ (json : Json) (signatures : Signatures) (ciphers : Ciphers) where
  open_secrets_lem :
      (payload : EnrollmentPayload) (private_key initial_document : Bytes)
      (initial : VerifiedManifest) (material : EnrollmentMaterial)
      → open_secrets json signatures ciphers payload private_key initial_document initial
        ≡ ok material
      → IsFrom payload initial_document initial material
  unfolding open_secrets
  open_secrets_lem payload private_key initial_document initial material h =
      let (plaintext, _, h1) =
        bind-ok (unseal signatures ciphers payload.secrets payload.device_id private_key) _ material
          h in
      let (secrets, _, h2) =
        bind-ok (map_err EnrollmentError.invalid_json (json.secret_bundle plaintext)) _ material
          h1 in
      gather_lem payload initial_document initial secrets material h2

module _ (urls : Urls) (json : Json) (signatures : Signatures) (ciphers : Ciphers)
    (chrono : Chrono) where
  -- The checks that an accepted payload passed.
  record IsChecked (payload : EnrollmentPayload) (descriptor : BootstrapDescriptor)
      (expected_nonce : Bytes) (now : DateTime) (material : EnrollmentMaterial) : Type 0 where
    checked :
        check_enrollment_payload signatures chrono payload descriptor expected_nonce now ≡ ok tt
    manifest_url : check_server_url urls payload.manifest_url ≡ ok tt
    status_url : check_server_url urls payload.status_url ≡ ok tt
    initial_document : Bytes
    initial : VerifiedManifest
    verified :
        verify_signed_manifest chrono json signatures initial_document descriptor.public_key now
          none
        ≡ ok initial
    from : IsFrom payload initial_document initial material

  accept_payload_lem :
      (payload : EnrollmentPayload) (descriptor : BootstrapDescriptor) (private_key nonce : Bytes)
      (now : DateTime) (material : EnrollmentMaterial)
      → accept_payload urls json signatures ciphers chrono payload descriptor private_key nonce now
        ≡ ok material
      → IsChecked payload descriptor nonce now material
  unfolding accept_payload
  accept_payload_lem payload descriptor private_key nonce now material h =
      let (checked, h1) = bind-ok_tt _ _ material h in
      let (manifest_url, h2) = bind-ok_tt _ _ material h1 in
      let (status_url, h3) = bind-ok_tt _ _ material h2 in
      let (initial_document, _, h4) =
        bind-ok (map_err EnrollmentError.invalid_json (json.to_string payload.initial_manifest)) _
          material h3 in
      let (initial, verified, h5) =
        bind-ok
          (map_err EnrollmentError.manifest (
            verify_signed_manifest chrono json signatures initial_document descriptor.public_key now
              none))
          _ material h4 in
      record {
        checked = checked;
        manifest_url = manifest_url;
        status_url = status_url;
        initial_document = initial_document;
        initial = initial;
        verified = map_err-ok EnrollmentError.manifest _ initial verified;
        from =
            open_secrets_lem json signatures ciphers payload private_key initial_document initial
              material h5;
      }

  -- A device accepts an enrollment only of an answer to its own request that the key of its link signed
  -- and that is fresh. It then asks servers by URLs that are protected and carry no password, every 5
  -- minutes to 24 hours, and its first policy is one that the same key signed and that has not expired.
  pub verify_and_decrypt_enrollment-admitted :
      (document : Bytes) (descriptor : BootstrapDescriptor) (private_key expected_nonce : Bytes)
      (now : DateTime) (material : EnrollmentMaterial)
      → verify_and_decrypt_enrollment urls json signatures ciphers chrono document descriptor
          private_key expected_nonce now
        ≡ ok material
      → IsEnrolled urls chrono json signatures document descriptor expected_nonce now material
  unfolding verify_and_decrypt_enrollment
  verify_and_decrypt_enrollment-admitted document descriptor private_key nonce now material h =
      let (payload_bytes, opened, h1) = bind-ok _ _ material h in
      let (payload, parsed, h2) = bind-ok _ _ material h1 in
      let c = accept_payload_lem payload descriptor private_key nonce now material h2 in
      let seal = open_envelope_lem signatures json document descriptor payload_bytes opened in
      let (fresh_nonce, issued, ahead, short, not_often, not_seldom, _) =
        payload_parts signatures chrono payload descriptor nonce now c.checked in
      let (signed, current, unexpired) =
        verify_signed_manifest-admitted chrono json signatures c.initial_document
          descriptor.public_key now none c.initial c.verified in
      record {
        payload = payload;
        answer = record {
          envelope = seal.envelope;
          payload_bytes = payload_bytes;
          key_bytes = seal.key_bytes;
          signature = seal.signature;
          read = seal.read;
          decoded = seal.decoded;
          pinned = seal.pinned;
          signing = seal.signing;
          verified = seal.verified;
          parsed = map_err-ok _ _ payload parsed;
          nonce = fresh_nonce;
          issued = issued;
          ahead = ahead;
          short = short;
        };
        device = c.from.device;
        manifest_server =
            rw c.from.manifest_url (server_url urls payload.manifest_url c.manifest_url);
        status_server = rw c.from.status_url (server_url urls payload.status_url c.status_url);
        not_often = rw c.from.interval not_often;
        not_seldom = rw c.from.interval not_seldom;
        signed = rw (c.from.manifest, c.from.document) signed;
        current = rw c.from.manifest current;
        unexpired = rw c.from.manifest unexpired;
      }
