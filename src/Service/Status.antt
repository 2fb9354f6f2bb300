-- ===== src/Service/Status.antt =====
-- The helpers of apps/resticpal-service/src/runtime/helpers.rs, and `apply_configuration_status` and
-- the initial state of runtime/state.rs.
use mathlib.Core.Logic.{ite}
use resticpal.Prelude.{
  max, Bool, true, false, not, ◌&&◌, Option, none, some, if◌then◌else◌, ◌≡◌, arith,
}
use resticpal.Time.{DateTime, Chrono}
use resticpal.Config.{EffectiveConfig, is_configured}
use resticpal.Policy.{ResolvedConfig}
use resticpal.Schedule.{completion_deadline}
use resticpal.Service.{
  BackupState, WaitingReason, BackupState-discrete, ServiceStatus, RepositoryOperationStatus,
  RepositoryOperationKind, RuntimeState, ServiceStateSnapshot,
}
use resticpal.Service.Snapshot.{repository_requires_validation, repository_verified_at}

abbrev pub repository_operation_allows_backup : RepositoryOperationStatus → Bool
repository_operation_allows_backup (RepositoryOperationStatus.succeeded operation completed_at) =
    true
repository_operation_allows_backup status = false

unfoldable pub transition_state : ServiceStatus → BackupState → DateTime → ServiceStatus
transition_state status next now =
    ite (BackupState-discrete status.state next) status
      (record status { state = next; state_since = now })

-- A transition reaches its target, and changes nothing else but the time of the state.
pub state-transition_state :
    (status : ServiceStatus) (next : BackupState) (now : DateTime)
    → (transition_state status next now).state ≡ next
unfolding transition_state
state-transition_state status next now = ground arith

pub transition_state_lem :
    (status : ServiceStatus) (next : BackupState) (now : DateTime)
    → transition_state status next now
      ≡ record status { state = next; state_since = (transition_state status next now).state_since }
unfolding transition_state
transition_state_lem status next now = ground arith

abbrev later_of : DateTime → Option DateTime → DateTime
later_of deadline none = deadline
later_of deadline (some not_before) = max deadline not_before

-- `Unconfigured` and the wait for repository validation end when the configuration allows backups.
abbrev is_unready : BackupState → Bool
is_unready BackupState.unconfigured = true
is_unready (BackupState.waiting WaitingReason.repository_validation) = true
is_unready state = false

module _ (chrono : Chrono) where
  -- The branch for a configured service whose repository is ready.
  ready_status : RuntimeState → ServiceStatus → EffectiveConfig → DateTime → ServiceStatus
  ready_status state status config now =
      let scheduled_deadline =
        completion_deadline chrono state.status.last_success now config.schedule.interval_hours in
      let scheduled = record status {
        next_deadline = some (later_of scheduled_deadline state.not_before);
      } in
      if is_unready scheduled.state
      then transition_state scheduled BackupState.idle now
      else scheduled

  unfoldable pub apply_configuration_status :
      RuntimeState → EffectiveConfig → DateTime → RuntimeState
  unfolding ready_status
  apply_configuration_status state config now =
      let status = record state.status {
        repository_display_name = config.repository.display_name;
        repository_mode = config.repository.mode;
      } in
      if not (is_configured config)
      then record state {
        status = record (transition_state status BackupState.unconfigured now) {
          next_deadline = none;
        };
        manual_requested = false;
        not_before = none;
      }
      else if not (repository_operation_allows_backup state.repository_operation)
      then record state {
        status =
            record (transition_state status
              (BackupState.waiting WaitingReason.repository_validation) now) {
                next_deadline = none;
              };
      }
      else record state { status = ready_status state status config now }

  -- The repository operation that a loaded snapshot stands for.
  unfoldable pub loaded_operation :
      ServiceStateSnapshot → EffectiveConfig → RepositoryOperationStatus
  loaded_operation snapshot config =
      if repository_requires_validation snapshot config
      then RepositoryOperationStatus.validation_required
      else elim (repository_verified_at snapshot config) [
        | none ↦ RepositoryOperationStatus.not_run
        | some completed_at ↦
            RepositoryOperationStatus.succeeded RepositoryOperationKind.validate completed_at
      ]

  -- The `RuntimeState` that `from_resolved_with_state` builds.
  unfoldable pub from_resolved_with_state :
      ResolvedConfig → ServiceStateSnapshot → DateTime → RuntimeState
  from_resolved_with_state resolved service_state now =
      let config = resolved.effective in
      let configured = is_configured config in
      let repository_operation = loaded_operation service_state config in
      let repository_ready = repository_operation_allows_backup repository_operation in
      record {
        status = record {
          state =
              if configured && not repository_ready
              then BackupState.waiting WaitingReason.repository_validation
              else if configured
              then BackupState.idle
              else BackupState.unconfigured;
          state_since = now;
          last_attempt = none;
          last_success = service_state.last_success;
          next_deadline =
              if configured && repository_ready
              then some (
                  completion_deadline chrono service_state.last_success now
                    config.schedule.interval_hours)
              else none;
          repository_display_name = config.repository.display_name;
          repository_mode = config.repository.mode;
          managed_revision = resolved.managed_revision;
          progress = none;
        };
        resumed_at = none;
        not_before = none;
        update_hold_until = none;
        update_hold_previous_status = none;
        update_install_active = false;
        manual_requested = false;
        consecutive_failures = 0;
        repository_operation = repository_operation;
        service_state = service_state;
        management_operation_active = false;
      }
