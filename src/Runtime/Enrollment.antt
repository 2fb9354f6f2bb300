-- ===== src/Runtime/Enrollment.antt =====
-- `enroll`, `enroll_bootstrap` and `commit_enrollment` of
-- apps/resticpal-service/src/runtime/enrollment.rs. An enrollment is begun, asks the network, and then
-- ends: with the material that the client answers, or with an error. That credentials are put into the
-- store is not listed among what is asked of the world; their removal is.
use resticpal.Prelude.{
  ℕ, ◌+◌, Bool, true, false, not, ◌||◌, Option, none, some, List, [], ◌∷◌, ◌++◌, String, is_some,
  unwrap_or, Result, ok, err, if◌then◌else◌, String_discrete,
}
use resticpal.Time.{Chrono}
use resticpal.Config.{
  SecretEnvironmentVariable, SecretRefs, signed_manifest, LocalConfig, LocalManagementConfig,
  default_config,
}
use resticpal.Config.Management.{Urls, validate_management}
use resticpal.Policy.{ManagedPolicy}
use resticpal.Policy.Resolve.{resolve_config}
use resticpal.Service.Effect.{Effect, Env, send, configuration_changed, save_config, save_cache}
use resticpal.Runtime.{ServiceRuntime}
use resticpal.Runtime.Settings.{config_save_failed}
use resticpal.Runtime.Secrets.{insert_ref, get_ref, remove_credentials}
use resticpal.Runtime.Policies.{is_busy, demand_validation, demand_effects, adopt, removal}

-- What the client of the management server answers. The secrets themselves only go to the store.
pub record PendingEnrollment : Type 0 where
  pub device_id : String
  pub manifest_url : String
  pub status_url : String
  pub refresh_interval_minutes : ℕ
  pub public_key : String
  pub policy : ManagedPolicy
  pub repository_secrets : List SecretEnvironmentVariable

-- `enroll` up to the network: the flag that keeps other work from starting. (`enroll_bootstrap`, with
-- which the installer enrolls a device before any request is served, makes the same test and sets it too.)
unfoldable pub begin_enrollment : Env → Bool → ServiceRuntime → ServiceRuntime × Option String
begin_enrollment env is_administrator runtime =
    if not is_administrator
    then (runtime, some "administrator_required")
    else if is_busy runtime.state (env.clock 0) || runtime.state.management_operation_active
    then (runtime, some "operation_running")
    else (
      record runtime { state = record runtime.state { management_operation_active = true } },
      none,
    )

-- The end of an enrollment, whatever came of it.
unfoldable pub end_enrollment : ServiceRuntime → ServiceRuntime
end_enrollment runtime = record runtime {
  state = record runtime.state { management_operation_active = false };
}

-- The references stored for the secrets; without all of them, those that were created so far.
unfoldable pub store_secrets :
    (ℕ → Option String)
    → ℕ
    → List SecretEnvironmentVariable
    → SecretRefs
    → List String
    → Result (List String) (SecretRefs × List String)
store_secrets put_new n [] refs created = ok (refs, created)
store_secrets put_new n (variable ∷ variables) refs created = elim (put_new n) [
  | none ↦ err created
  | some reference ↦
      store_secrets put_new (n + 1) variables (insert_ref variable reference refs)
        (created ++ (reference ∷ []))
]

-- The credentials of an enrollment in their order: the status token, the key, the secrets.
unfoldable pub store_enrollment :
    (ℕ → Option String)
    → PendingEnrollment
    → LocalConfig
    → Result (List String) (String × String × SecretRefs × List String)
store_enrollment put_new pending local = elim (put_new 0) [
  | none ↦ err []
  | some status_ref ↦ elim (put_new 1) [
    | none ↦ err (status_ref ∷ [])
    | some key_ref ↦
        elim (store_secrets put_new 2 pending.repository_secrets
          (unwrap_or local.repository.secret_refs []) (status_ref ∷ key_ref ∷ [])) [
            | err created ↦ err created
            | ok (refs, created) ↦ ok (status_ref, key_ref, refs, created)
          ]
  ]
]

abbrev pub enrolled_management : PendingEnrollment → String → String → LocalManagementConfig
enrolled_management pending status_ref key_ref = record {
  mode = signed_manifest;
  manifest_url = some pending.manifest_url;
  signing_public_key = some pending.public_key;
  refresh_interval_minutes = some pending.refresh_interval_minutes;
  status_url = some pending.status_url;
  device_id = some pending.device_id;
  status_token_ref = some status_ref;
  enrollment_key_ref = some key_ref;
}

-- The local layer of an enrolled device.
abbrev pub enrolled_local :
    PendingEnrollment → String → String → SecretRefs → LocalConfig → LocalConfig
enrolled_local pending status_ref key_ref refs local = record local {
  repository = record local.repository { secret_refs = some refs };
  management = enrolled_management pending status_ref key_ref;
}

-- The old references of the secrets that the enrollment replaced.
unfoldable pub replaced : List SecretEnvironmentVariable → SecretRefs → SecretRefs → List String
replaced [] old new = []
replaced (variable ∷ variables) old new = elim (get_ref variable old) [
  | none ↦ replaced variables old new
  | some reference ↦ elim (get_ref variable new) [
    | none ↦ reference ∷ replaced variables old new
    | some current ↦ elim (String_discrete current reference) [
      | yes _ ↦ replaced variables old new
      | no _ ↦ reference ∷ replaced variables old new
    ]
  ]
]

module _ (chrono : Chrono) (urls : Urls) where
  -- Whether an enrollment that was stored can be committed.
  unfoldable pub refuse_enrollment : LocalConfig → PendingEnrollment → Option String
  refuse_enrollment candidate pending = elim (validate_management urls candidate.management) [
    | err error ↦ some "management"
    | ok _ ↦
        if is_some pending.policy.repository.secret_refs
        then some "enrolled policy contains client-local credential references"
        else none
  ]

  -- What follows once the credentials are stored, with the references that the old local layer had.
  unfoldable pub commit_candidate :
      Env
      → PendingEnrollment
      → LocalConfig
      → List String
      → SecretRefs
      → ServiceRuntime
      → ServiceRuntime × Bool × List Effect
  commit_candidate env pending candidate created refs runtime =
      elim (refuse_enrollment candidate pending) [
        | some code ↦ (runtime, false, remove_credentials created)
        | none ↦ elim (resolve_config default_config candidate (some pending.policy)) [
          | err error ↦ (runtime, false, remove_credentials created)
          | ok resolved ↦
              if config_save_failed env
              then (runtime, false, save_config candidate ∷ remove_credentials created)
              else (
                adopt chrono resolved (demand_validation resolved.effective runtime.state)
                    (env.clock 0) (record runtime { local_config = candidate }),
                true,
                save_config candidate
                    ∷ save_cache
                    ∷ (demand_effects env resolved.effective runtime.state
                        ++ (removal runtime.local_config.management.status_token_ref
                            ++ (removal runtime.local_config.management.enrollment_key_ref
                                ++ (remove_credentials (
                                      replaced pending.repository_secrets
                                        (unwrap_or runtime.local_config.repository.secret_refs [])
                                        refs)
                                    ++ (send configuration_changed ∷ []))))),
              )
        ]
      ]

  unfoldable pub commit_enrollment :
      Env → PendingEnrollment → ServiceRuntime → ServiceRuntime × Bool × List Effect
  commit_enrollment env pending runtime = elim env.credential_store [
    | none ↦ (runtime, false, [])
    | some put_new ↦
        if not (is_some env.config_store)
        then (runtime, false, [])
        else elim (store_enrollment put_new pending runtime.local_config) [
          | err created ↦ (runtime, false, remove_credentials created)
          | ok (status_ref, key_ref, refs, created) ↦
              commit_candidate env pending
                (enrolled_local pending status_ref key_ref refs runtime.local_config) created refs
                runtime
        ]
  ]
