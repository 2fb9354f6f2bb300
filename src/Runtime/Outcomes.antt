-- ===== src/Runtime/Outcomes.antt =====
-- What the changes of the repository and of the management come to: nothing, or a configuration that is
-- put into force.
use resticpal.Prelude.{
  Bool, false, Option, none, some, ◌≡◌, ◌⊎◌, arith, inl, inr, ok, Bool-cases, Option-cases,
  Result-cases, List, String, is_some,
}
use resticpal.Time.{DateTime, Chrono}
use resticpal.Config.{LocalConfig, LocalManagementConfig, default_config, no_management, SecretRefs}
use resticpal.Config.Management.{Urls}
use resticpal.Policy.{ManagedPolicy, ResolvedConfig}
use resticpal.Policy.Resolve.{resolve_config}
use resticpal.Service.{RuntimeState, is_running}
use resticpal.Service.Effect.{Env}
use resticpal.Runtime.{ServiceRuntime}
use resticpal.Runtime.Settings.{is_invalid}
use resticpal.Runtime.Secrets.{SecretChange}
use resticpal.Runtime.Repository.{
  RepositoryUpdate, refuse_repository, commit_repository, update_repository, secrets_changed,
  with_secrets, with_repository, repository_set,
}
use resticpal.Runtime.Policies.{
  demand_validation, is_busy, adopt, apply_managed_policy, leave_management,
}
use resticpal.Runtime.Enrollment.{
  PendingEnrollment, commit_enrollment, commit_candidate, store_enrollment, enrolled_local,
}

pub refuse_repository-none :
    (env : Env) (a : Bool) (update : RepositoryUpdate) (runtime : ServiceRuntime)
    → refuse_repository env a update runtime ≡ none
    → is_running runtime.state.status.state ≡ false
unfolding refuse_repository
refuse_repository-none env a update runtime h = ground arith

not_busy :
    (s : RuntimeState) (now : DateTime) → is_busy s now ≡ false → is_running s.status.state ≡ false
unfolding is_busy
not_busy s now h = ground arith

module _ (chrono : Chrono) where
  -- What a change of the repository comes to: nothing, or a valid configuration in force.
  commit_repository_cases :
      (env : Env) (update : RepositoryUpdate) (secrets : SecretChange) (runtime : ServiceRuntime)
      → ((commit_repository chrono env update secrets runtime).0 ≡ runtime)
        ⊎ (is_invalid (with_secrets secrets.effective (with_repository update runtime.config))
            ≡ false)
          × ((commit_repository chrono env update secrets runtime).0
              ≡ repository_set chrono env update secrets runtime)
  unfolding commit_repository
  commit_repository_cases env update secrets runtime = ground arith

  pub update_repository_cases :
      (env : Env) (a : Bool) (update : RepositoryUpdate) (runtime : ServiceRuntime)
      → ((update_repository chrono env a update runtime).0 ≡ runtime)
        ⊎ (is_running runtime.state.status.state ≡ false)
          × (let secrets = (secrets_changed env update runtime).0 in
              (is_invalid (with_secrets secrets.effective (with_repository update runtime.config))
                ≡ false)
              × ((update_repository chrono env a update runtime).0
                  ≡ repository_set chrono env update secrets runtime))
  unfolding update_repository
  update_repository_cases env a update runtime = ground (
    arith,
    refuse_repository-none env a update runtime,
    commit_repository_cases env update (secrets_changed env update runtime).0 runtime,
  )

  apply_managed_policy_go :
      (env : Env) (policy : ManagedPolicy) (expected : Option LocalManagementConfig)
      (runtime : ServiceRuntime) (r : ResolvedConfig)
      → resolve_config default_config runtime.local_config (some policy) ≡ ok r
      → ((apply_managed_policy chrono env policy expected runtime).0 ≡ runtime)
        ⊎ (is_busy runtime.state (env.clock 1) ≡ false)
          × ((apply_managed_policy chrono env policy expected runtime).0
              ≡ adopt chrono r (demand_validation r.effective runtime.state) (env.clock 0) runtime)
  unfolding apply_managed_policy
  apply_managed_policy_go env policy expected runtime r h = ground arith

  -- What a policy comes to: nothing, or what it resolves to in force.
  pub apply_managed_policy_cases :
      (env : Env) (policy : ManagedPolicy) (expected : Option LocalManagementConfig)
      (runtime : ServiceRuntime)
      → ((apply_managed_policy chrono env policy expected runtime).0 ≡ runtime)
        ⊎ ((r : ResolvedConfig) × (resolve_config default_config runtime.local_config (some policy)
              ≡ ok r)
            × (is_busy runtime.state (env.clock 1) ≡ false)
            × ((apply_managed_policy chrono env policy expected runtime).0
                ≡ adopt chrono r
                    (demand_validation r.effective runtime.state)
                    (env.clock 0)
                    runtime))
  unfolding apply_managed_policy
  apply_managed_policy_cases env policy expected runtime =
      elim (Result-cases (resolve_config default_config runtime.local_config (some policy))) [
        | inl (error, h) ↦ inl (ground arith)
        | inr (r, h) ↦ elim (apply_managed_policy_go env policy expected runtime r h) [
          | inl same ↦ inl same
          | inr (free, changed) ↦ inr (r, h, free, changed)
        ]
      ]

  leave_management_go :
      (env : Env) (runtime : ServiceRuntime) (r : ResolvedConfig)
      → resolve_config default_config
          (record runtime.local_config { management = no_management })
          none
        ≡ ok r
      → ((leave_management chrono env runtime).0 ≡ runtime)
        ⊎ ((leave_management chrono env runtime).0
            ≡ adopt chrono r runtime.state (env.clock 1) (record runtime {
              local_config = record runtime.local_config { management = no_management };
            }))
  unfolding leave_management
  leave_management_go env runtime r h = ground arith

  pub leave_management_cases :
      (env : Env) (runtime : ServiceRuntime)
      → ((leave_management chrono env runtime).0 ≡ runtime)
        ⊎ ((local : LocalConfig) × (r : ResolvedConfig) × (resolve_config default_config local none
              ≡ ok r)
            × ((leave_management chrono env runtime).0
                ≡ adopt chrono r runtime.state
                    (env.clock 1)
                    (record runtime { local_config = local })))
  unfolding leave_management
  leave_management_cases env runtime =
      let candidate = record runtime.local_config { management = no_management } in
      elim (Result-cases (resolve_config default_config candidate none)) [
        | inl (error, h) ↦ inl (ground arith)
        | inr (r, h) ↦ elim (leave_management_go env runtime r h) [
          | inl same ↦ inl same
          | inr changed ↦ inr (candidate, r, h, changed)
        ]
      ]

  module _ (urls : Urls) where
    commit_candidate_go :
        (env : Env) (pending : PendingEnrollment) (candidate : LocalConfig) (created : List String)
        (refs : SecretRefs) (runtime : ServiceRuntime) (r : ResolvedConfig)
        → resolve_config default_config candidate (some pending.policy) ≡ ok r
        → ((commit_candidate chrono urls env pending candidate created refs runtime).0 ≡ runtime)
          ⊎ ((commit_candidate chrono urls env pending candidate created refs runtime).0
              ≡ adopt chrono r
                  (demand_validation r.effective runtime.state)
                  (env.clock 0)
                  (record runtime { local_config = candidate }))
    unfolding commit_candidate
    commit_candidate_go env pending candidate created refs runtime r h = ground arith

    commit_candidate_cases :
        (env : Env) (pending : PendingEnrollment) (candidate : LocalConfig) (created : List String)
        (refs : SecretRefs) (runtime : ServiceRuntime)
        → ((commit_candidate chrono urls env pending candidate created refs runtime).0 ≡ runtime)
          ⊎ ((local : LocalConfig) × (r : ResolvedConfig) × (resolve_config default_config local
                  (some pending.policy)
                ≡ ok r)
              × ((commit_candidate chrono urls env pending candidate created refs runtime).0
                  ≡ adopt chrono r
                      (demand_validation r.effective runtime.state)
                      (env.clock 0)
                      (record runtime { local_config = local })))
    unfolding commit_candidate
    commit_candidate_cases env pending candidate created refs runtime =
        elim (Result-cases (resolve_config default_config candidate (some pending.policy))) [
          | inl (error, h) ↦ inl (ground arith)
          | inr (r, h) ↦ elim (commit_candidate_go env pending candidate created refs runtime r h) [
            | inl same ↦ inl same
            | inr changed ↦ inr (candidate, r, h, changed)
          ]
        ]

    -- What the end of an enrollment comes to: nothing, or the enrolled configuration in force.
    pub commit_enrollment_cases :
        (env : Env) (pending : PendingEnrollment) (runtime : ServiceRuntime)
        → ((commit_enrollment chrono urls env pending runtime).0 ≡ runtime)
          ⊎ ((local : LocalConfig) × (r : ResolvedConfig) × (resolve_config default_config local
                  (some pending.policy)
                ≡ ok r)
              × ((commit_enrollment chrono urls env pending runtime).0
                  ≡ adopt chrono r
                      (demand_validation r.effective runtime.state)
                      (env.clock 0)
                      (record runtime { local_config = local })))
    unfolding commit_enrollment commit_candidate
    commit_enrollment_cases env pending runtime = elim (Option-cases env.credential_store) [
      | inl missing ↦ inl (ground arith)
      | inr (put_new, available) ↦ elim (Bool-cases (is_some env.config_store)) [
        | inr missing ↦ inl (ground arith)
        | inl stored ↦ elim (Result-cases (store_enrollment put_new pending runtime.local_config)) [
          | inl (created, failed) ↦ inl (ground arith)
          | inr (refs, kept) ↦
              rw (available, stored, kept)
                (commit_candidate_cases env pending
                  (enrolled_local pending refs.0 refs.1 refs.2 runtime.local_config) refs.3 refs.2
                  runtime)
        ]
      ]
    ]
