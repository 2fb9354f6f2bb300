-- ===== src/Runtime/Settings.antt =====
-- The requests of apps/resticpal-service/src/runtime/ipc.rs that change the schedule, the retention and
-- the update settings.
mod Requested
unfoldable pub use Requested.*
use resticpal.Prelude.{
  ℕ, Bool, true, false, not, ◌&&◌, ◌||◌, Option, none, some, List, [], ◌∷◌, ◌++◌, String, is_some,
  unwrap_or, ok, err, if◌then◌else◌,
}
use resticpal.Time.{Chrono}
use resticpal.Config.{append_only, standard, EffectiveConfig, LocalConfig}
use resticpal.Config.Validate.{validate}
use resticpal.Policy.{
  schedule_interval_hours, schedule_wake_grace_seconds, schedule_wake_lock_timeout_seconds,
  schedule_allow_on_battery, schedule_allow_metered_network, retention_daily, retention_weekly,
  retention_monthly, retention_yearly, retention_prune_interval_days, update_automatic_install,
}
use resticpal.Service.{is_running, is_repository_running}
use resticpal.Service.Status.{apply_configuration_status}
use resticpal.Service.Effect.{Effect, Env, save_config, send, configuration_changed}
use resticpal.Service.Operation.{accepted, rejected}
use resticpal.Runtime.{
  ServiceRuntime, Changed, reject, field_locked, update_blocks_configuration_mutation,
}

-- `effective.validate().is_err()`.
abbrev pub is_invalid : EffectiveConfig → Bool
is_invalid config = elim (validate config) [ ok _ ↦ false | err e ↦ true ]

-- A save of the local layer, which is requested only where there is a store.
abbrev pub config_effects : Env → LocalConfig → List Effect
config_effects env local = elim env.config_store [ none ↦ [] | some _ ↦ save_config local ∷ [] ]

abbrev pub config_save_failed : Env → Bool
config_save_failed env = elim env.config_store [
  | none ↦ false
  | some true ↦ false
  | some false ↦ true
]

abbrev is_append_only : EffectiveConfig → Bool
is_append_only config = elim config.repository.mode [ standard ↦ false | append_only ↦ true ]

-- The guards of each request, in their order: the code of the first that refuses.
unfoldable pub refuse_schedule : Env → Bool → ScheduleUpdate → ServiceRuntime → Option String
refuse_schedule env is_administrator update runtime =
    if not is_administrator
    then some "administrator_required"
    else if update_blocks_configuration_mutation runtime.state (env.clock 0)
    then some "update_pending"
    else if schedule_unchanged update
    then some "no_configuration_changes"
    else if schedule_locked runtime update
    then some "managed_field_locked"
    else if is_invalid (with_schedule update runtime.config)
    then some "invalid_schedule"
    else if is_running runtime.state.status.state
    then some "backup_running"
    else if is_repository_running runtime.state.repository_operation
    then some "repository_operation_running"
    else none

unfoldable pub refuse_retention : Env → Bool → RetentionUpdate → ServiceRuntime → Option String
refuse_retention env is_administrator update runtime =
    if not is_administrator
    then some "administrator_required"
    else if update_blocks_configuration_mutation runtime.state (env.clock 0)
    then some "update_pending"
    else if is_append_only runtime.config
    then some "retention_managed_by_server"
    else if retention_unchanged update
    then some "no_configuration_changes"
    else if retention_locked runtime update
    then some "managed_field_locked"
    else if is_invalid (with_retention update runtime.config)
    then some "invalid_retention"
    else if is_running runtime.state.status.state
    then some "backup_running"
    else if is_repository_running runtime.state.repository_operation
    then some "repository_operation_running"
    else none

unfoldable pub refuse_update_settings : Env → Bool → ServiceRuntime → Option String
refuse_update_settings env is_administrator runtime =
    if not is_administrator
    then some "administrator_required"
    else if field_locked runtime update_automatic_install
    then some "managed_field_locked"
    else if update_blocks_configuration_mutation runtime.state (env.clock 0)
    then some "update_pending"
    else none

-- A change that no guard refuses. The local layer is saved first; a save that fails leaves everything
-- as it was.
abbrev pub guarded : Option String → Env → LocalConfig → ServiceRuntime → Changed → Changed
guarded (some code) env candidate runtime changed = reject runtime code
guarded none env candidate runtime changed =
    if config_save_failed env
    then (runtime, rejected "configuration_save_failed", config_effects env candidate)
    else changed

unfoldable pub update_retention : Env → Bool → RetentionUpdate → ServiceRuntime → Changed
update_retention env is_administrator update runtime =
    let candidate = record_retention update runtime.local_config in
    guarded (refuse_retention env is_administrator update runtime) env candidate runtime (
      record runtime { local_config = candidate; config = with_retention update runtime.config },
      accepted,
      config_effects env candidate ++ (send configuration_changed ∷ []),
    )

unfoldable pub update_update_settings : Env → Bool → Bool → ServiceRuntime → Changed
update_update_settings env is_administrator automatic_install runtime =
    let candidate = record runtime.local_config {
      updates = record { automatic_install = some automatic_install };
    } in
    guarded (refuse_update_settings env is_administrator runtime) env candidate runtime (
      record runtime {
        local_config = candidate;
        config = record runtime.config {
          updates = record { automatic_install = automatic_install };
        };
      },
      accepted,
      config_effects env candidate,
    )

module _ (chrono : Chrono) where
  unfoldable pub update_schedule : Env → Bool → ScheduleUpdate → ServiceRuntime → Changed
  update_schedule env is_administrator update runtime =
      let candidate = record_schedule update runtime.local_config in
      let effective = with_schedule update runtime.config in
      guarded (refuse_schedule env is_administrator update runtime) env candidate runtime (
        record runtime {
          local_config = candidate;
          config = effective;
          state = apply_configuration_status chrono runtime.state effective (env.clock 1);
        },
        accepted,
        config_effects env candidate ++ (send configuration_changed ∷ []),
      )
