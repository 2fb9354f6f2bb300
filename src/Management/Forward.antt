-- ===== src/Management/Forward.antt =====
-- The policies of a managed device only go forward, restarts included
-- (apps/resticpal-service/src/management.rs).
use resticpal.Text.{Bytes, is_utf8}
use resticpal.Prelude.{
  ℕ, true, false, Option, none, some, String, ◌≡◌, inl, inr, refl, ok, arith, Result, Result-cases,
  bind-ok, bind-ok_tt, map_err-ok, ok-inj, map_err, ◌==◌, Bool, bind-intro, bind-intro_tt,
  reject_if, ltb, length, not, ap, subst, String_discrete,
}
use resticpal.Time.{DateTime, Chrono}
use resticpal.Config.{
  ManagementMode, disabled, plain_manifest, signed_manifest, LocalManagementConfig,
}
use resticpal.Config.Management.{is_text}
use resticpal.Management.{ManifestPayload, VerifiedManifest, Json, Signatures, max_manifest_bytes}
use resticpal.Management.Manifest.{
  ManifestError, validate_payload, parse_plain_manifest, verify_signed_manifest, read_payload,
  validate_document_size, check_envelope, check_signature, required, required-ok,
}
use resticpal.Management.Admitted.{IsAtLeast, payload-IsCurrent, read_parts}
use resticpal.Management.Cache.{
  ManagementError, LoadedPolicy, CachedManifest, CacheCodec, loaded, read_document, load_cache,
  save_cache, is_same_mode, is_url, cached_manifest, max_cache_bytes, cache_schema_version,
}
use resticpal.Management.Client.{World, fetch_policy, authorization}

module _ (chrono : Chrono) where
  relaxed_payload :
      (payload : ManifestPayload) (now : DateTime) (minimum : Option ℕ) (require : Bool)
      → validate_payload chrono payload now minimum require ≡ ok tt
      → validate_payload chrono payload now none require ≡ ok tt
  unfolding validate_payload
  relaxed_payload payload now minimum require h = ground arith

  relaxed_read :
      (json : Json) (document : Bytes) (now : DateTime) (minimum : Option ℕ) (signed : Bool)
      (verified : VerifiedManifest)
      → read_payload chrono json document now minimum signed ≡ ok verified
      → (read_payload chrono json document now none signed ≡ ok verified)
        × IsAtLeast minimum verified.payload.sequence
  relaxed_read json document now minimum signed verified h =
      let (parsed, valid) = read_parts chrono json document now minimum signed verified h in
      let relaxed = relaxed_payload verified.payload now minimum signed valid in
      (ground arith, (payload-IsCurrent chrono verified.payload now minimum signed valid).forward)

  relaxed_plain :
      (json : Json) (document : Bytes) (now : DateTime) (minimum : Option ℕ)
      (verified : VerifiedManifest)
      → parse_plain_manifest chrono json document now minimum ≡ ok verified
      → (parse_plain_manifest chrono json document now none ≡ ok verified)
        × IsAtLeast minimum verified.payload.sequence
  unfolding parse_plain_manifest
  relaxed_plain json document now minimum verified h =
      let (sized, read) = bind-ok_tt (validate_document_size document) _ verified h in
      let (relaxed, forward) = relaxed_read json document now minimum false verified read in
      (bind-intro_tt (validate_document_size document) _ verified sized relaxed, forward)

  relaxed_signed :
      (json : Json) (signatures : Signatures) (document : Bytes) (key : String) (now : DateTime)
      (minimum : Option ℕ) (verified : VerifiedManifest)
      → verify_signed_manifest chrono json signatures document key now minimum ≡ ok verified
      → (verify_signed_manifest chrono json signatures document key now none ≡ ok verified)
        × IsAtLeast minimum verified.payload.sequence
  unfolding verify_signed_manifest
  relaxed_signed json signatures document key now minimum verified h =
      let (sized, h1) = bind-ok_tt (validate_document_size document) _ verified h in
      let (envelope, parsed, h2) =
        bind-ok (map_err ManifestError.invalid_json (json.manifest_envelope document)) _ verified
          h1 in
      let (checked, h3) = bind-ok_tt (check_envelope envelope) _ verified h2 in
      let (payload_bytes, signed, h4) =
        bind-ok (check_signature signatures envelope key) _ verified h3 in
      let (relaxed, forward) = relaxed_read json payload_bytes now minimum true verified h4 in
      (
        bind-intro_tt (validate_document_size document) _ verified sized (
            bind-intro (map_err ManifestError.invalid_json (json.manifest_envelope document)) _
              envelope verified parsed
              (bind-intro_tt (check_envelope envelope) _ verified checked (
                bind-intro (check_signature signatures envelope key) _ payload_bytes verified signed
                  relaxed))),
        forward,
      )

  relaxed_document :
      (json : Json) (signatures : Signatures) (mode : ManagementMode) (key : Option String)
      (document : Bytes) (now : DateTime) (minimum : Option ℕ) (verified : VerifiedManifest)
      → read_document chrono json signatures mode key document now minimum ≡ ok verified
      → (read_document chrono json signatures mode key document now none ≡ ok verified)
        × IsAtLeast minimum verified.payload.sequence
  unfolding read_document
  relaxed_document json signatures disabled key document now minimum verified h = absurd (cc)
  relaxed_document json signatures plain_manifest key document now minimum verified h =
      let (relaxed, forward) =
        relaxed_plain json document now minimum verified
          (map_err-ok ManagementError.manifest _ verified h) in
      (rw relaxed refl, forward)
  relaxed_document json signatures signed_manifest none document now minimum verified h =
      absurd (cc)
  relaxed_document json signatures signed_manifest (some key) document now minimum verified h =
      let (relaxed, forward) =
        relaxed_signed json signatures document key now minimum verified
          (map_err-ok ManagementError.manifest _ verified h) in
      (rw relaxed refl, forward)

-- What the JSON package writes it reads back.
abbrev pub IsCodec : CacheCodec → Type 0
IsCodec codec =
    (cache : CachedManifest) (contents : Bytes)
    → codec.to_vec_pretty cache ≡ ok contents
    → codec.from_slice contents ≡ ok cache

-- What the server answers, if it is good when it is fetched, is still good when the clock is read again for
-- the save.
abbrev pub IsPrompt : Chrono → Json → Signatures → LocalManagementConfig → World → Type 0
IsPrompt chrono json signatures settings world =
    (minimum : Option ℕ) (policy : LoadedPolicy) (document : Bytes) (verified : VerifiedManifest)
    → fetch_policy chrono json signatures world settings minimum ≡ ok (policy, document)
    → read_document chrono json signatures settings.mode settings.signing_public_key document
        world.fetched_at none
      ≡ ok verified
    → read_document chrono json signatures settings.mode settings.signing_public_key document
        world.saved_at none
      ≡ ok verified

module _ (chrono : Chrono) (json : Json) (signatures : Signatures) where
  -- Where a fetched policy comes from.
  pub record IsFetched (world : World) (settings : LocalManagementConfig) (minimum : Option ℕ)
      (policy : LoadedPolicy) (document : Bytes) : Type 0 where
    pub url : String
    pub verified : VerifiedManifest
    pub asked : settings.manifest_url ≡ some url
    pub good :
        read_document chrono json signatures settings.mode settings.signing_public_key document
          world.fetched_at none
        ≡ ok verified
    pub same : loaded verified ≡ policy
    pub forward : IsAtLeast minimum policy.sequence

  pub fetch_policy_lem :
      (world : World) (settings : LocalManagementConfig) (minimum : Option ℕ)
      (policy : LoadedPolicy) (document : Bytes)
      → fetch_policy chrono json signatures world settings minimum ≡ ok (policy, document)
      → IsFetched world settings minimum policy document
  unfolding fetch_policy
  fetch_policy_lem world settings minimum policy document h =
      let result : LoadedPolicy × Bytes = (policy, document) in
      let (url, asked, h1) =
        bind-ok (required settings.manifest_url ManagementError.missing_manifest_url) _ result h in
      let (header, _, h2) = bind-ok (authorization settings world.credential_store) _ result h1 in
      let (answer, _, h3) =
        bind-ok (map_err ManagementError.http (world.get url header)) _ result h2 in
      let (_, h4) =
        bind-ok_tt
          (reject_if (ltb max_manifest_bytes (length answer)) ManagementError.manifest_too_large) _
          result h3 in
      let (verified, read, h5) =
        bind-ok
          (read_document chrono json signatures settings.mode settings.signing_public_key answer
            world.fetched_at minimum)
          _ result h4 in
      let (_, h6) =
        bind-ok_tt (reject_if (not (is_utf8 answer)) ManagementError.invalid_utf8) _ result h5 in
      let e = ok-inj h6 in
      let (good, forward) =
        relaxed_document chrono json signatures settings.mode settings.signing_public_key answer
          world.fetched_at minimum verified read in
      record {
        url = url;
        verified = verified;
        asked = required-ok settings.manifest_url _ url asked;
        good =
            subst
              (λ d.
                read_document chrono json signatures settings.mode settings.signing_public_key d
                  world.fetched_at none
                ≡ ok verified)
              (ap (λ r. r.1) e) good;
        same = ap (λ r. r.0) e;
        forward = subst (λ p. IsAtLeast minimum p.sequence) (ap (λ r. r.0) e) forward;
      }

same_text : (s : String) → is_text s s ≡ true
same_text s = elim (String_discrete s s) as (λ d. elim d [ yes _ ↦ true | no _ ↦ false ] ≡ true) [
  | yes _ ↦ refl
  | no ne ↦ absurd (ne refl)
]

same_mode : (mode : ManagementMode) → is_same_mode mode mode ≡ true
same_mode disabled = refl
same_mode plain_manifest = refl
same_mode signed_manifest = refl

module _ (codec : CacheCodec) where
  -- What a save that succeeded wrote.
  save_cache_lem :
      (settings : LocalManagementConfig) (document : Bytes) (saved_at : DateTime)
      (replaced : Result String (Unit {0})) (file : Option Bytes)
      → (save_cache codec settings document saved_at replaced file).1 ≡ ok tt
      → (contents : Bytes) × (codec.to_vec_pretty (cached_manifest settings document saved_at)
          ≡ ok contents)
        × (ltb max_cache_bytes (length contents) ≡ false)
        × ((save_cache codec settings document saved_at replaced file).0 ≡ some contents)
  unfolding save_cache
  save_cache_lem settings document saved_at replaced file h =
      elim (Result-cases (codec.to_vec_pretty (cached_manifest settings document saved_at))) [
        | inl (error, e) ↦ ground arith
        | inr (contents, e) ↦ (contents, e, ground arith, ground arith)
      ]

module _ (chrono : Chrono) (json : Json) (signatures : Signatures) (codec : CacheCodec)
    (settings : LocalManagementConfig) where
  matching :
      (document : Bytes) (saved_at : DateTime) (url : String)
      → settings.manifest_url ≡ some url
      → is_url (cached_manifest settings document saved_at).source_url settings.manifest_url ≡ true
  matching document saved_at url asked = rw asked (same_text url)

  load_cache_lem :
      (contents : Bytes) (cache : CachedManifest) (verified : VerifiedManifest)
      → ltb max_cache_bytes (length contents) ≡ false
      → codec.from_slice contents ≡ ok cache
      → (cache.schema_version == cache_schema_version) ≡ true
      → is_same_mode cache.mode settings.mode ≡ true
      → is_url cache.source_url settings.manifest_url ≡ true
      → read_document chrono json signatures cache.mode settings.signing_public_key cache.document
          cache.verified_at none
        ≡ ok verified
      → load_cache chrono json signatures codec settings (some contents) ≡ ok (loaded verified)
  unfolding load_cache
  load_cache_lem contents cache verified size read version mode source good =
      rw (size, read, version, mode, source, good) refl

  -- A save that succeeded puts into the file what a load gives back.
  pub load-save :
      (document : Bytes) (saved_at : DateTime) (replaced : Result String (Unit {0}))
      (file : Option Bytes) (url : String) (verified : VerifiedManifest)
      → IsCodec codec
      → settings.manifest_url ≡ some url
      → read_document chrono json signatures settings.mode settings.signing_public_key document
          saved_at none
        ≡ ok verified
      → (save_cache codec settings document saved_at replaced file).1 ≡ ok tt
      → load_cache chrono json signatures codec settings
          (save_cache codec settings document saved_at replaced file).0
        ≡ ok (loaded verified)
  load-save document saved_at replaced file url verified lawful asked good h =
      let (contents, written, size, kept) =
        save_cache_lem codec settings document saved_at replaced file h in
      let cache = cached_manifest settings document saved_at in
      let read = lawful cache contents written in
      rw kept (
        load_cache_lem contents cache verified size read refl (same_mode settings.mode)
          (matching document saved_at url asked) good)
