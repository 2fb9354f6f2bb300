-- ===== src/Management/Admitted.antt =====
-- What it takes for a document to be accepted as a managed policy (crates/resticpal-core/src/management.rs).
use resticpal.Prelude.{
  ℕ, ◌+◌, ◌≤◌, ◌<◌, true, false, Option, none, some, String, ◌≡◌, inl, inr, ok, arith, Option-cases,
  Result, sym, ◌∙◌, ap, Bool, ◌≢◌, bind-ok, bind-ok_tt, map_err-ok, reject_if-not-ok, ok-inj, subst,
}
use resticpal.Time.{DateTime, Chrono, minutes, days}
use resticpal.Text.{Bytes}
use resticpal.Management.{
  ManifestPayload, SignedManifestEnvelope, VerifiedManifest, Json, Signatures, decode_array,
}
use resticpal.Management.Manifest.{
  ManifestError, validate_expiry, validate_payload, check_signature, parse_plain_manifest,
  verify_signed_manifest, is_rollback, required-ok, read_payload,
}

-- The payload is the pinned key's own: it decodes from an envelope of the document, and the signature in
-- the envelope is the key's over it.
pub record IsSigned (json : Json) (signatures : Signatures) (document : Bytes) (key : String)
    (payload : ManifestPayload) : Type 0 where
  pub envelope : SignedManifestEnvelope
  pub payload_bytes : Bytes
  pub key_bytes : Bytes
  pub signature : Bytes
  pub read : json.manifest_envelope document ≡ ok envelope
  pub decoded : signatures.decode envelope.payload ≡ some payload_bytes
  pub pinned : decode_array signatures 32 key ≡ some key_bytes
  pub signing : decode_array signatures 64 envelope.signature ≡ some signature
  pub verified : signatures.verify_strict key_bytes payload_bytes signature ≡ true
  pub parsed : json.manifest_payload payload_bytes ≡ ok payload

abbrev pub IsAtLeast : Option ℕ → ℕ → Type 0
IsAtLeast none sequence = Unit
IsAtLeast (some minimum) sequence = minimum ≤ sequence

-- The payload is neither older than what was accepted before nor from the future.
pub record IsCurrent (chrono : Chrono) (now : DateTime) (minimum : Option ℕ)
    (payload : ManifestPayload) : Type 0 where
  pub numbered : 1 ≤ payload.sequence
  pub forward : IsAtLeast minimum payload.sequence
  pub issued : payload.issued_at ≤ chrono.add now (minutes 5)

-- It has an end, which lies ahead, at most 30 days after its issue.
pub record IsUnexpired (now : DateTime) (payload : ManifestPayload) : Type 0 where
  pub expires_at : DateTime
  pub ends : payload.expires_at ≡ some expires_at
  pub ahead : now ≤ expires_at
  pub after : payload.issued_at < expires_at
  pub lifetime : expires_at ≤ payload.issued_at + days 30

module _ (chrono : Chrono) where
  least :
      (minimum : Option ℕ) (sequence : ℕ)
      → is_rollback minimum sequence ≡ false
      → IsAtLeast minimum sequence
  least none sequence h = tt
  least (some minimum) sequence h = ground arith

  payload_parts :
      (payload : ManifestPayload) (now : DateTime) (minimum : Option ℕ) (require : Bool)
      → validate_payload chrono payload now minimum require ≡ ok tt
      → (1 ≤ payload.sequence)
        × (is_rollback minimum payload.sequence ≡ false)
        × (payload.issued_at ≤ chrono.add now (minutes 5))
        × (validate_expiry payload.issued_at payload.expires_at now require ≡ ok tt)
  unfolding validate_payload
  payload_parts payload now minimum require h =
      (ground arith, ground arith, ground arith, ground arith)

  pub payload-IsCurrent :
      (payload : ManifestPayload) (now : DateTime) (minimum : Option ℕ) (require : Bool)
      → validate_payload chrono payload now minimum require ≡ ok tt
      → IsCurrent chrono now minimum payload
  payload-IsCurrent payload now minimum require h =
      let (numbered, no_rollback, issued, _) = payload_parts payload now minimum require h in
      record {
        numbered = numbered;
        forward = least minimum payload.sequence no_rollback;
        issued = issued;
      }

  expiry_parts :
      (payload : ManifestPayload) (now expires_at : DateTime)
      → payload.expires_at ≡ some expires_at
      → validate_expiry payload.issued_at payload.expires_at now true ≡ ok tt
      → IsUnexpired now payload
  unfolding validate_expiry
  expiry_parts payload now expires_at e h = record {
    expires_at = expires_at;
    ends = e;
    ahead = ground arith;
    after = ground arith;
    lifetime = ground arith;
  }

  endless : (issued_at now : DateTime) → validate_expiry issued_at none now true ≢ ok tt
  unfolding validate_expiry
  endless issued_at now h = cc

  pub payload-IsUnexpired :
      (payload : ManifestPayload) (now : DateTime) (minimum : Option ℕ)
      → validate_payload chrono payload now minimum true ≡ ok tt
      → IsUnexpired now payload
  payload-IsUnexpired payload now minimum h =
      let (_, _, _, ended) = payload_parts payload now minimum true h in
      elim (Option-cases payload.expires_at) [
        | inl e ↦ absurd (endless payload.issued_at now (rw (sym e) ended))
        | inr (expires_at, e) ↦ expiry_parts payload now expires_at e ended
      ]

module _ (signatures : Signatures) where
  -- What the signature over an envelope stands for.
  record IsSealed (envelope : SignedManifestEnvelope) (key : String) (payload_bytes : Bytes)
      : Type 0 where
    key_bytes : Bytes
    signature : Bytes
    decoded : signatures.decode envelope.payload ≡ some payload_bytes
    pinned : decode_array signatures 32 key ≡ some key_bytes
    signing : decode_array signatures 64 envelope.signature ≡ some signature
    verified : signatures.verify_strict key_bytes payload_bytes signature ≡ true

  check_signature_lem :
      (envelope : SignedManifestEnvelope) (key : String) (payload_bytes : Bytes)
      → check_signature signatures envelope key ≡ ok payload_bytes
      → IsSealed envelope key payload_bytes
  unfolding check_signature
  check_signature_lem envelope key payload_bytes h =
      let (bytes, decoded, h1) = bind-ok _ _ payload_bytes h in
      let (sized, h2) = bind-ok_tt _ _ payload_bytes h1 in
      let (key_bytes, pinned, h3) = bind-ok _ _ payload_bytes h2 in
      let (signature, signing, h4) = bind-ok _ _ payload_bytes h3 in
      let (is_key, h5) = bind-ok_tt _ _ payload_bytes h4 in
      let (verified, h6) = bind-ok_tt _ _ payload_bytes h5 in
      let e = ok-inj h6 in
      record {
        key_bytes = key_bytes;
        signature = signature;
        decoded = required-ok _ _ payload_bytes (decoded ∙ ap ok e);
        pinned = required-ok _ _ key_bytes pinned;
        signing = required-ok _ _ signature signing;
        verified =
            subst (λ b. signatures.verify_strict key_bytes b signature ≡ true) e
              (reject_if-not-ok _ _ verified);
      }

payload_of :
    (payload : ManifestPayload) (signed : Bool) (verified : VerifiedManifest)
    → ◌≡◌ {A = Result ManifestError VerifiedManifest}
        (ok (record { payload = payload; signed = signed }))
        (ok verified)
    → payload ≡ verified.payload
payload_of payload signed verified h = cc

module _ (chrono : Chrono) (json : Json) where
  -- A document that was read, by either reader.
  pub read_parts :
      (document : Bytes) (now : DateTime) (minimum : Option ℕ) (signed : Bool)
      (verified : VerifiedManifest)
      → read_payload chrono json document now minimum signed ≡ ok verified
      → (json.manifest_payload document ≡ ok verified.payload)
        × (validate_payload chrono verified.payload now minimum signed ≡ ok tt)
  read_parts document now minimum signed verified h =
      let (payload, read, h1) = bind-ok _ _ verified h in
      let (valid, h2) = bind-ok_tt _ _ verified h1 in
      let e = payload_of payload signed verified h2 in
      (
        map_err-ok _ _ payload read ∙ ap ok e,
        subst (λ p. validate_payload chrono p now minimum signed ≡ ok tt) e valid,
      )

  pub plain_parts :
      (document : Bytes) (now : DateTime) (minimum : Option ℕ) (verified : VerifiedManifest)
      → parse_plain_manifest chrono json document now minimum ≡ ok verified
      → read_payload chrono json document now minimum false ≡ ok verified
  unfolding parse_plain_manifest
  plain_parts document now minimum verified h = (bind-ok_tt _ _ verified h).1

  -- A signed manifest is accepted only where its payload is what the pinned key signed, and the payload is
  -- current and not expired.
  pub verify_signed_manifest-admitted :
      (signatures : Signatures) (document : Bytes) (key : String) (now : DateTime)
      (minimum : Option ℕ) (verified : VerifiedManifest)
      → verify_signed_manifest chrono json signatures document key now minimum ≡ ok verified
      → IsSigned json signatures document key verified.payload
        × IsCurrent chrono now minimum verified.payload
        × IsUnexpired now verified.payload
  unfolding verify_signed_manifest
  verify_signed_manifest-admitted signatures document key now minimum verified h =
      let (_, h1) = bind-ok_tt _ _ verified h in
      let (envelope, read, h2) = bind-ok _ _ verified h1 in
      let (_, h3) = bind-ok_tt _ _ verified h2 in
      let (payload_bytes, signed, h4) = bind-ok _ _ verified h3 in
      let (parsed, valid) = read_parts payload_bytes now minimum true verified h4 in
      let sealed = check_signature_lem signatures envelope key payload_bytes signed in
      (
        record {
          envelope = envelope;
          payload_bytes = payload_bytes;
          key_bytes = sealed.key_bytes;
          signature = sealed.signature;
          read = map_err-ok _ _ envelope read;
          decoded = sealed.decoded;
          pinned = sealed.pinned;
          signing = sealed.signing;
          verified = sealed.verified;
          parsed = parsed;
        },
        payload-IsCurrent chrono verified.payload now minimum true valid,
        payload-IsUnexpired chrono verified.payload now minimum valid,
      )
