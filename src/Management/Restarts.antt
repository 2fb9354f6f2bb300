-- ===== src/Management/Restarts.antt =====
-- The service across its restarts under one source of policies
-- (apps/resticpal-service/src/management.rs).
use resticpal.Prelude.{
  Option, some, List, [], ◌∷◌, All, ◌≡◌, ◌⊎◌, inl, inr, refl, sym, ok, err, arith, Result,
  Result-cases, Bool-cases, bind-ok, ok-inj, ap, subst, ◌==◌, ◌∙◌, ◌≢◌, some-inj,
}
use resticpal.Time.{Chrono}
use resticpal.Config.{LocalConfig}
use resticpal.Config.Management.{Urls, validate_management}
use resticpal.Text.{Bytes}
use resticpal.Management.{Json, Signatures}
use resticpal.Management.Cache.{ManagementError, LoadedPolicy, CacheCodec, load_cache}
use resticpal.Management.Client.{
  World, fetch_policy, use_cached, choose_policy, load_best_policy, minimum_of, as_cached,
  is_disabled, in_force,
}
use resticpal.Management.Forward.{IsCodec, IsPrompt}
use resticpal.Management.Kept.{
  IsNoRollback, IsChosen, cached-IsChosen, fetched-IsChosen, choose_policy-failed,
}

module _ (chrono : Chrono) (json : Json) (signatures : Signatures) (codec : CacheCodec) where
  -- The policy that is chosen, for what the cache and the server answer.
  choose_policy_lem :
      (world : World) (local : LocalConfig) (file : Option Bytes)
      (cached : Result ManagementError LoadedPolicy)
      (fetched : Result ManagementError (LoadedPolicy × Bytes)) (policy : LoadedPolicy)
      → IsCodec codec
      → IsPrompt chrono json signatures local.management world
      → load_cache chrono json signatures codec local.management file ≡ cached
      → fetch_policy chrono json signatures world local.management (minimum_of (as_cached cached))
        ≡ fetched
      → (choose_policy codec world local cached fetched file).1 ≡ ok policy
      → IsChosen chrono json signatures codec local cached
          (choose_policy codec world local cached fetched file).0
          policy
  unfolding choose_policy
  choose_policy_lem world local file (ok cached) (ok (fetched, document)) policy lawful prompt loads
        got h =
      elim (Bool-cases (cached.sequence == fetched.sequence)) [
        | inl e ↦ rw (e) (
            cached-IsChosen chrono json signatures codec local file cached policy loads (rw e at h))
        | inr e ↦ rw (e) (
            fetched-IsChosen chrono json signatures codec world local (ok cached) fetched document
              file policy lawful prompt got (λ old is. rw (sym (ok-inj is)) e) (rw e at h))
      ]
  choose_policy_lem world local file (err error) (ok (fetched, document)) policy lawful prompt loads
        got h =
      fetched-IsChosen chrono json signatures codec world local (err error) fetched document file
        policy lawful prompt got (λ old is. absurd (cc)) h
  choose_policy_lem world local file (ok cached) (err error) policy lawful prompt loads got h =
      cached-IsChosen chrono json signatures codec local file cached policy loads h
  choose_policy_lem world local file (err cache_error) (err fetch_error) policy lawful prompt loads
        got h =
      absurd (cc)

  module _ (urls : Urls) where
    -- What is chosen, where there is a source to ask.
    abbrev chosen :
        World → LocalConfig → Option Bytes → Option Bytes × Result ManagementError LoadedPolicy
    chosen world local file =
        let cached = load_cache chrono json signatures codec local.management file in
        choose_policy codec world local cached
          (fetch_policy chrono json signatures world local.management
            (minimum_of (as_cached cached)))
          file

    abbrev best :
        World
        → LocalConfig
        → Option Bytes
        → Option Bytes × Result ManagementError (Option LoadedPolicy)
    best world local file = load_best_policy chrono json signatures codec urls world local file

    -- Where there is none, nothing is found and nothing is written.
    load_best_policy-cases :
        (local : LocalConfig)
        → ((world : World) (file : Option Bytes)
            → ((best world local file).0 ≡ file)
              × ((policy : LoadedPolicy) → (best world local file).1 ≢ ok (some policy)))
          ⊎ ((world : World) (file : Option Bytes)
              → best world local file
                ≡ ((chosen world local file).0, in_force (chosen world local file).1))
    unfolding load_best_policy
    load_best_policy-cases local = elim (Bool-cases (is_disabled local.management.mode)) [
      | inl off ↦
          inl (λ world file. (rw (off) refl, λ policy h. cc (rw (off, load_best_policy) at h)))
      | inr on ↦ elim (Result-cases (validate_management urls local.management)) [
        | inl (error, e) ↦
            inl
              (λ world file. (rw (on, e) refl, λ policy h. cc (rw (on, e, load_best_policy) at h)))
        | inr (u, e) ↦ inr (λ world file. rw (on, e) refl)
      ]
    ]

    -- What a load that gave a policy does to the cache.
    load_best_policy_lem :
        (world : World) (local : LocalConfig) (file : Option Bytes) (policy : LoadedPolicy)
        → IsCodec codec
        → IsPrompt chrono json signatures local.management world
        → (best world local file).1 ≡ ok (some policy)
        → IsChosen chrono json signatures codec local
            (load_cache chrono json signatures codec local.management file)
            (best world local file).0
            policy
    load_best_policy_lem world local file policy lawful prompt h =
        elim (load_best_policy-cases local) [
          | inl off ↦ absurd ((off world file).1 policy h)
          | inr on ↦
              let e = on world file in
              let (taken, given, same) =
                bind-ok (chosen world local file).1 (λ p. ok (some p)) (some policy)
                  (sym (ap (λ r. r.1) e) ∙ h) in
              subst
                (λ f.
                  IsChosen chrono json signatures codec local
                    (load_cache chrono json signatures codec local.management file) f policy)
                (sym (ap (λ r. r.0) e))
                (choose_policy_lem world local file
                  (load_cache chrono json signatures codec local.management file)
                  (fetch_policy chrono json signatures world local.management (
                    minimum_of
                      (as_cached (load_cache chrono json signatures codec local.management file))))
                  policy lawful prompt refl refl (given ∙ ap ok (some-inj (ok-inj same))))
        ]

    -- The cache file after restarts of the service, with the server and the clock that each of them meets.
    unfoldable pub restarts : List World → LocalConfig → Option Bytes → Option Bytes
    restarts [] local file = file
    restarts (world ∷ worlds) local file = restarts worlds local (best world local file).0

    unchanged : (policy : LoadedPolicy) → IsNoRollback policy policy
    unchanged policy = (omega arith, λ _. refl)

    IsNoRollback-trans :
        (a b c : LoadedPolicy) → IsNoRollback a b → IsNoRollback b c → IsNoRollback a c
    IsNoRollback-trans a b c (low, same) (low', same') =
        (omega arith, λ e. same (omega arith) ∙ same' (omega arith))

    IsCached : LocalConfig → Option Bytes → LoadedPolicy → Type 0
    IsCached local file policy =
        load_cache chrono json signatures codec local.management file ≡ ok policy

    -- One start, whatever comes of it.
    start_forward :
        (world : World) (local : LocalConfig) (file : Option Bytes) (old : LoadedPolicy)
        → IsCodec codec
        → IsPrompt chrono json signatures local.management world
        → IsCached local file old
        → (new : LoadedPolicy) × IsCached local (best world local file).0 new × IsNoRollback old new
    unfolding IsCached
    start_forward world local file old lawful prompt is =
        let unmoved : (best world local file).0 ≡ file
            → (new : LoadedPolicy) × IsCached local (best world local file).0 new
              × IsNoRollback old new =
          λ e. (old, rw e is, unchanged old) in
        elim (load_best_policy-cases local) [
          | inl off ↦ unmoved (off world file).0
          | inr on ↦
              let e = on world file in
              elim (choose_policy-failed codec world local
                (load_cache chrono json signatures codec local.management file)
                (fetch_policy chrono json signatures world local.management (
                  minimum_of
                    (as_cached (load_cache chrono json signatures codec local.management file))))
                file) [
                  | inr same ↦ unmoved (ap (λ r. r.0) e ∙ same)
                  | inl (policy, given) ↦
                      let c =
                        load_best_policy_lem world local file policy lawful prompt
                          (ap (λ r. r.1) e ∙ ap in_force given) in
                      (policy, c.back, c.forward old is)
                ]
        ]

    -- However often a managed device is started under one source, whatever its servers answer and whether
    -- or not its cache can be written: the policy that it holds afterwards is not older than the one
    -- before, and it is the same one if it has the same sequence. This needs that the cache reads back what
    -- was written, and that no manifest that a server answered with expires between the reading of the
    -- clock for its check and the one for its save.
    pub restarts-forward :
        (worlds : List World) (local : LocalConfig) (file : Option Bytes) (old : LoadedPolicy)
        → IsCodec codec
        → All (IsPrompt chrono json signatures local.management) worlds
        → load_cache chrono json signatures codec local.management file ≡ ok old
        → (new : LoadedPolicy) × (load_cache chrono json signatures codec local.management
              (restarts worlds local file)
            ≡ ok new)
          × IsNoRollback old new
    unfolding restarts IsCached
    restarts-forward [] local file old lawful prompt is = (old, is, unchanged old)
    restarts-forward (world ∷ worlds) local file old lawful (prompt, prompts) is =
        let (middle, held, first) = start_forward world local file old lawful prompt is in
        let (new, kept, later) =
          restarts-forward worlds local (best world local file).0 middle lawful prompts held in
        (new, kept, IsNoRollback-trans old middle new first later)

    chosen_offline :
        (world : World) (local : LocalConfig) (file : Option Bytes) (policy : LoadedPolicy)
        (error : ManagementError) {cached : Result ManagementError LoadedPolicy}
        → IsChosen chrono json signatures codec local cached file policy
        → fetch_policy chrono json signatures world local.management (some policy.sequence)
          ≡ err error
        → (chosen world local file).1 ≡ ok policy
    unfolding choose_policy use_cached
    chosen_offline world local file policy error c unreachable =
        rw (c.back, unreachable, c.valid) refl

    -- A policy that a start put into force is in force after a restart that cannot reach the server. This
    -- needs that the cache reads back what was written, and that the manifest that the server answered the
    -- start with did not expire between the reading of the clock for its check and the one for its save.
    pub load_best_policy-offline :
        (first second : World) (local : LocalConfig) (file : Option Bytes) (policy : LoadedPolicy)
        (error : ManagementError)
        → IsCodec codec
        → IsPrompt chrono json signatures local.management first
        → (load_best_policy chrono json signatures codec urls first local file).1 ≡ ok (some policy)
        → fetch_policy chrono json signatures second local.management (some policy.sequence)
          ≡ err error
        → (load_best_policy chrono json signatures codec urls second local
            (load_best_policy chrono json signatures codec urls first local file).0).1
          ≡ ok (some policy)
    load_best_policy-offline first second local file policy error lawful prompt h unreachable =
        elim (load_best_policy-cases local) [
          | inl off ↦ absurd ((off first file).1 policy h)
          | inr on ↦
              let c = load_best_policy_lem first local file policy lawful prompt h in
              let kept = (best first local file).0 in
              ap (λ r. r.1) (on second kept)
              ∙ ap in_force (chosen_offline second local kept policy error c unreachable)
        ]
