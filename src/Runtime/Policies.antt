-- ===== src/Runtime/Policies.antt =====
-- `apply_managed_policy_inner` and `unenroll` of apps/resticpal-service/src/runtime/enrollment.rs.
use resticpal.Prelude.{
  Bool, true, false, not, ◌||◌, Option, none, some, List, [], ◌∷◌, ◌++◌, String, is_some, Result,
  ok, err, if◌then◌else◌,
}
use resticpal.Time.{DateTime, Chrono}
use resticpal.Config.{
  EffectiveConfig, LocalManagementConfig, LocalManagementConfig-discrete, disabled, plain_manifest,
  signed_manifest, ManagementMode, no_management, default_config,
}
use resticpal.Policy.{ManagedPolicy, ResolvedConfig}
use resticpal.Policy.Resolve.{PolicyError, resolve_config}
use resticpal.Service.{RepositoryOperationStatus, RuntimeState, is_running, is_repository_running}
use resticpal.Service.Snapshot.{repository_requires_validation, require_repository_validation}
use resticpal.Service.Status.{apply_configuration_status}
use resticpal.Service.Effect.{
  Effect, Env, send, configuration_changed, save_effects, remove_cache, remove_credential,
}
use resticpal.Service.Operation.{accepted, rejected}
use resticpal.Runtime.{ServiceRuntime, Changed, reject, update_blocks_configuration_mutation}
use resticpal.Runtime.Settings.{config_effects, config_save_failed}

pub data ManagedPolicyApplyOutcome : Type 0 where
  applied runtime_busy source_changed : ManagedPolicyApplyOutcome

-- The state in which a configuration that was not verified wants a validation.
unfoldable pub demand_validation : EffectiveConfig → RuntimeState → RuntimeState
demand_validation config state =
    if repository_requires_validation state.service_state config
    then record state {
      service_state = require_repository_validation state.service_state;
      repository_operation = RepositoryOperationStatus.validation_required;
    }
    else state

abbrev pub demand_effects : Env → EffectiveConfig → RuntimeState → List Effect
demand_effects env config state =
    if repository_requires_validation state.service_state config
    then save_effects env (require_repository_validation state.service_state)
    else []

-- What keeps a policy from being applied: work that depends on the configuration.
unfoldable pub is_busy : RuntimeState → DateTime → Bool
is_busy state now =
    is_running state.status.state
    || is_repository_running state.repository_operation
    || update_blocks_configuration_mutation state now

abbrev pub is_other : LocalManagementConfig → Option LocalManagementConfig → Bool
is_other management none = false
is_other management (some expected) = elim (LocalManagementConfig-discrete management expected) [
  | yes _ ↦ false
  | no _ ↦ true
]

abbrev is_disabled : ManagementMode → Bool
is_disabled disabled = true
is_disabled plain_manifest = false
is_disabled signed_manifest = false

abbrev pub removal : Option String → List Effect
removal none = []
removal (some reference) = remove_credential reference ∷ []

-- The removal of the credentials with which the device was enrolled.
abbrev pub retire_management : Env → LocalManagementConfig → List Effect
retire_management env management =
    if is_some env.credential_store
    then removal management.status_token_ref ++ removal management.enrollment_key_ref
    else []

module _ (chrono : Chrono) where
  -- The runtime with a resolved configuration in force.
  unfoldable pub adopt : ResolvedConfig → RuntimeState → DateTime → ServiceRuntime → ServiceRuntime
  adopt resolved state now runtime = record runtime {
    config = resolved.effective;
    field_resolutions = resolved.fields;
    state =
        apply_configuration_status chrono
          (record state {
            status = record state.status { managed_revision = resolved.managed_revision };
          })
          resolved.effective now;
  }

  unfoldable pub apply_managed_policy :
      Env
      → ManagedPolicy
      → Option LocalManagementConfig
      → ServiceRuntime
      → ServiceRuntime × Result PolicyError ManagedPolicyApplyOutcome × List Effect
  apply_managed_policy env policy expected runtime =
      if is_other runtime.local_config.management expected
      then (runtime, ok source_changed, [])
      else elim (resolve_config default_config runtime.local_config (some policy)) [
        | err error ↦ (runtime, err error, [])
        | ok resolved ↦
            if is_busy runtime.state (env.clock 1) then (runtime, ok runtime_busy, []) else (
              adopt resolved (demand_validation resolved.effective runtime.state) (env.clock 0)
                  runtime,
              ok applied,
              demand_effects env resolved.effective runtime.state
                  ++ (send configuration_changed ∷ []),
            )
      ]

  -- `unenroll` after its test for running work, which it makes under a lock that it lets go: another
  -- thread may change the state in between.
  unfoldable pub leave_management : Env → ServiceRuntime → Changed
  leave_management env runtime =
      let management = runtime.local_config.management in
      let candidate = record runtime.local_config { management = no_management } in
      if not (is_some env.config_store)
      then reject runtime "configuration_unavailable"
      else if is_disabled management.mode
      then (runtime, accepted, [])
      else elim (resolve_config default_config candidate none) [
        | err error ↦ reject runtime "configuration_invalid"
        | ok resolved ↦
            if config_save_failed env
            then (runtime, rejected "configuration_save_failed", config_effects env candidate)
            else (
              adopt resolved runtime.state (env.clock 1)
                  (record runtime { local_config = candidate }),
              accepted,
              config_effects env candidate
                  ++ (remove_cache
                      ∷ (retire_management env management ++ (send configuration_changed ∷ []))),
            )
      ]

  unfoldable pub unenroll : Env → Bool → ServiceRuntime → Changed
  unenroll env is_administrator runtime =
      if not is_administrator
      then reject runtime "administrator_required"
      else if is_busy runtime.state (env.clock 0) || runtime.state.management_operation_active
      then reject runtime "operation_running"
      else leave_management env runtime
