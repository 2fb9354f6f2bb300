-- ===== src/Management/Kept.antt =====
-- The policy in force survives a restart of the service, and no server can take it back
-- (apps/resticpal-service/src/management.rs).
use resticpal.Prelude.{
  ℕ, ◌≤◌, false, Option, ◌≡◌, ◌⊎◌, inl, inr, refl, sym, ok, err, arith, Result, Result-cases,
  Bool-cases, ◌==◌, bind-ok_tt, ok-inj, ap, subst, ◌∙◌, ◌≢◌,
}
use resticpal.Time.{Chrono}
use resticpal.Config.{LocalConfig}
use resticpal.Text.{Bytes}
use resticpal.Management.{Json, Signatures}
use resticpal.Management.Admitted.{IsAtLeast}
use resticpal.Management.Cache.{ManagementError, LoadedPolicy, CacheCodec, load_cache, save_cache}
use resticpal.Management.Client.{
  World, fetch_policy, validate_effective_policy, keep_policy, use_cached, choose_policy,
  minimum_of, as_cached,
}
use resticpal.Management.Forward.{IsCodec, IsPrompt, fetch_policy_lem, load-save}

-- A policy that is neither older than another nor another one with its number.
abbrev pub IsNoRollback : LoadedPolicy → LoadedPolicy → Type 0
IsNoRollback old new = (old.sequence ≤ new.sequence) × (old.sequence ≡ new.sequence → old ≡ new)

differs : (a b c : ℕ) → (a == b) ≡ false → b ≡ c → a ≢ c
differs a b c other same equal = ground arith

module _ (chrono : Chrono) (json : Json) (signatures : Signatures) (codec : CacheCodec) where
  keep_policy_lem :
      (world : World) (local : LocalConfig) (fetched : LoadedPolicy) (document : Bytes)
      (file : Option Bytes) (policy : LoadedPolicy)
      → (keep_policy codec world local fetched document file).1 ≡ ok policy
      → (fetched ≡ policy)
        × (validate_effective_policy local fetched.policy ≡ ok tt)
        × ((save_cache codec local.management document world.saved_at world.replaced file).1
            ≡ ok tt)
        × ((keep_policy codec world local fetched document file).0
            ≡ (save_cache codec local.management document world.saved_at world.replaced file).0)
  unfolding keep_policy
  keep_policy_lem world local fetched document file policy h =
      elim (Result-cases (validate_effective_policy local fetched.policy)) [
        | inl (error, e) ↦ ground arith
        | inr (u, e) ↦
            let saved =
              save_cache codec local.management document world.saved_at world.replaced file in
            let (stored, same) =
              bind-ok_tt saved.1 (ok fetched) policy (rw (e, keep_policy) at h) in
            (ok-inj same, e, stored, rw (e, keep_policy) refl)
      ]

  -- A fetched policy that was kept is what a load then gives.
  kept-load :
      (world : World) (local : LocalConfig) (minimum : Option ℕ) (fetched : LoadedPolicy)
      (document : Bytes) (file : Option Bytes) (policy : LoadedPolicy)
      → IsCodec codec
      → IsPrompt chrono json signatures local.management world
      → fetch_policy chrono json signatures world local.management minimum ≡ ok (fetched, document)
      → (keep_policy codec world local fetched document file).1 ≡ ok policy
      → (load_cache chrono json signatures codec local.management
            (keep_policy codec world local fetched document file).0
          ≡ ok policy)
        × (validate_effective_policy local policy.policy ≡ ok tt)
        × IsAtLeast minimum policy.sequence
  kept-load world local minimum fetched document file policy lawful prompt got h =
      let from =
        fetch_policy_lem chrono json signatures world local.management minimum fetched document
          got in
      let (same, valid, stored, moved) =
        keep_policy_lem world local fetched document file policy h in
      let back =
        load-save chrono json signatures codec local.management document world.saved_at
          world.replaced file from.url from.verified lawful from.asked
          (prompt minimum fetched document from.verified got from.good) stored in
      (
        rw moved (back ∙ ap ok (from.same ∙ same)),
        subst (λ p. validate_effective_policy local p.policy ≡ ok tt) same valid,
        subst (λ p. IsAtLeast minimum p.sequence) same from.forward,
      )

  -- What a policy that was chosen has to do with the cache before and after.
  pub record IsChosen (local : LocalConfig) (cached : Result ManagementError LoadedPolicy)
      (file : Option Bytes) (policy : LoadedPolicy) : Type 0 where
    pub back : load_cache chrono json signatures codec local.management file ≡ ok policy
    pub valid : validate_effective_policy local policy.policy ≡ ok tt
    pub forward : (old : LoadedPolicy) → cached ≡ ok old → IsNoRollback old policy

  pub cached-IsChosen :
      (local : LocalConfig) (file : Option Bytes) (cached policy : LoadedPolicy)
      → load_cache chrono json signatures codec local.management file ≡ ok cached
      → use_cached local cached ≡ ok policy
      → IsChosen local (ok cached) file policy
  unfolding use_cached
  cached-IsChosen local file cached policy loads h =
      let (valid, same) =
        bind-ok_tt (validate_effective_policy local cached.policy) (ok cached) policy h in
      let e = ok-inj same in
      record {
        back = loads ∙ ap ok e;
        valid = subst (λ p. validate_effective_policy local p.policy ≡ ok tt) e valid;
        forward =
            λ old is. subst (IsNoRollback old) (ok-inj (sym is ∙ same)) (omega arith, λ _. refl);
      }

  pub fetched-IsChosen :
      (world : World) (local : LocalConfig) (cached : Result ManagementError LoadedPolicy)
      (fetched : LoadedPolicy) (document : Bytes) (file : Option Bytes) (policy : LoadedPolicy)
      → IsCodec codec
      → IsPrompt chrono json signatures local.management world
      → fetch_policy chrono json signatures world local.management (minimum_of (as_cached cached))
        ≡ ok (fetched, document)
      → ((old : LoadedPolicy) → cached ≡ ok old → (old.sequence == fetched.sequence) ≡ false)
      → (keep_policy codec world local fetched document file).1 ≡ ok policy
      → IsChosen local cached (keep_policy codec world local fetched document file).0 policy
  fetched-IsChosen world local cached fetched document file policy lawful prompt got other h =
      let (back, valid, forward) =
        kept-load world local (minimum_of (as_cached cached)) fetched document file policy lawful
          prompt got h in
      let (same, _, _, _) = keep_policy_lem world local fetched document file policy h in
      record {
        back = back;
        valid = valid;
        forward = λ old is. (
          subst (λ c. IsAtLeast (minimum_of (as_cached c)) policy.sequence) is forward,
          λ equal. absurd (
              differs old.sequence fetched.sequence policy.sequence (other old is)
                (ap (λ p. p.sequence) same) equal),
        );
      }

-- What does not succeed leaves the file as it is.
save_cache-failed :
    (codec : CacheCodec) (local : LocalConfig) (world : World) (document : Bytes)
    (file : Option Bytes)
    → ((save_cache codec local.management document world.saved_at world.replaced file).1 ≡ ok tt)
      ⊎ ((save_cache codec local.management document world.saved_at world.replaced file).0 ≡ file)
unfolding save_cache
save_cache-failed codec local world document file = ground arith

keep_policy-failed :
    (codec : CacheCodec) (world : World) (local : LocalConfig) (fetched : LoadedPolicy)
    (document : Bytes) (file : Option Bytes)
    → ((policy : LoadedPolicy) × ((keep_policy codec world local fetched document file).1
          ≡ ok policy))
      ⊎ ((keep_policy codec world local fetched document file).0 ≡ file)
unfolding keep_policy
keep_policy-failed codec world local fetched document file =
    elim (Result-cases (validate_effective_policy local fetched.policy)) [
      | inl (error, e) ↦ inr (rw (e, keep_policy) refl)
      | inr (u, e) ↦ elim (save_cache-failed codec local world document file) [
        | inl stored ↦ inl (fetched, rw (e, keep_policy, stored) refl)
        | inr unmoved ↦ inr (rw (e, keep_policy) unmoved)
      ]
    ]

pub choose_policy-failed :
    (codec : CacheCodec) (world : World) (local : LocalConfig)
    (cached : Result ManagementError LoadedPolicy)
    (fetched : Result ManagementError (LoadedPolicy × Bytes)) (file : Option Bytes)
    → ((policy : LoadedPolicy) × ((choose_policy codec world local cached fetched file).1
          ≡ ok policy))
      ⊎ ((choose_policy codec world local cached fetched file).0 ≡ file)
unfolding choose_policy
choose_policy-failed codec world local (ok cached) (ok (fetched, document)) file =
    elim (Bool-cases (cached.sequence == fetched.sequence)) [
      | inl e ↦ inr (rw e refl)
      | inr e ↦ rw e (keep_policy-failed codec world local fetched document file)
    ]
choose_policy-failed codec world local (err error) (ok (fetched, document)) file =
    keep_policy-failed codec world local fetched document file
choose_policy-failed codec world local (ok cached) (err error) file = inr refl
choose_policy-failed codec world local (err cache_error) (err fetch_error) file = inr refl
