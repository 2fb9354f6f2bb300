-- ===== src/Service/Lifecycle.antt =====
-- apps/resticpal-service/src/runtime/lifecycle.rs: how backups, repository operations and update
-- installations end. (Retention is in Service/Retention.)
pub mod Backoff
use mathlib.Core.Option
use resticpal.Prelude.{
  ℕ, ◌+◌, ◌-◌, ◌*◌, ◌^◌, min, Bool, true, false, Option, none, some, unwrap_or, List, [], ◌∷◌, ◌++◌,
  String, if◌then◌else◌,
}
use resticpal.Time.{DateTime, Chrono, minutes}
use resticpal.Config.{EffectiveConfig}
use resticpal.Schedule.{completion_deadline}
use resticpal.Service.{
  BackupState, BackupPhase, BackupProgress, ServiceStatus, RepositoryOperationKind,
  RepositoryOperationStatus, RuntimeState, is_running,
}
use resticpal.Service.Snapshot.{mark_repository_verified}
use resticpal.Service.Status.{apply_configuration_status}
use resticpal.Service.Scheduler.{restored}
use resticpal.Service.Effect.{
  DiagnosticLevel, BackupRunOutcome, CompletedBackupRun, Effect, Env, append_run, diagnostic,
  save_effects, save_failed,
}

-- `BackupSummary`, `BackupOutcome` and their parts, of executor.rs.
pub record BackupSummary : Type 0 where
  pub files_processed : ℕ
  pub bytes_processed : ℕ
  pub data_added : ℕ
  pub snapshot_id : Option String

pub data BackupOutcomeKind : Type 0 where
  succeeded succeeded_with_warnings : BackupOutcomeKind
  failed : String → BackupOutcomeKind
  cancelled : BackupOutcomeKind

pub record BackupFailureDetails : Type 0 where
  pub items : List String
  pub omitted : ℕ

pub record BackupOutcome : Type 0 where
  pub kind : BackupOutcomeKind
  pub summary : Option BackupSummary
  pub warning_code : Option String
  pub failure_details : BackupFailureDetails

-- `BackupOutcome::failed`.
unfoldable pub failed_outcome : String → BackupOutcome
failed_outcome code = record {
  kind = BackupOutcomeKind.failed code;
  summary = none;
  warning_code = none;
  failure_details = record { items = []; omitted = 0 };
}

pub data RepositoryOutcomeKind : Type 0 where
  succeeded : RepositoryOutcomeKind
  failed : String → RepositoryOutcomeKind
  cancelled : RepositoryOutcomeKind

-- `UpdateInstallOutcome` of updater.rs.
pub data UpdateInstallOutcome : Type 0 where
  completed failed indeterminate : String → UpdateInstallOutcome

unfoldable pub update_progress : RuntimeState → BackupProgress → RuntimeState
update_progress state progress =
    if is_running state.status.state
    then record state {
      status = record state.status {
        state = BackupState.running BackupPhase.uploading;
        progress = some progress;
      };
    }
    else state

unfoldable pub finish_update_install :
    RuntimeState → UpdateInstallOutcome → DateTime → RuntimeState × List Effect
finish_update_install state (UpdateInstallOutcome.completed version) now = (
  record state { update_install_active = false },
  diagnostic DiagnosticLevel.information "update.installer_completed" none ∷ [],
)
finish_update_install state (UpdateInstallOutcome.failed code) now = (
  record state {
    update_install_active = false;
    update_hold_until = none;
    update_hold_previous_status = none;
    status = elim state.update_hold_previous_status [
      | none ↦ state.status
      | some previous ↦ restored state.status previous now
    ];
  },
  diagnostic DiagnosticLevel.error "update.failed" (some code) ∷ [],
)
finish_update_install state (UpdateInstallOutcome.indeterminate code) now = (
  record state { update_install_active = true },
  diagnostic DiagnosticLevel.error "update.installer_indeterminate" (some code) ∷ [],
)

abbrev pub is_success : BackupOutcomeKind → Bool
is_success BackupOutcomeKind.succeeded = true
is_success BackupOutcomeKind.succeeded_with_warnings = true
is_success kind = false

abbrev pub final_state : BackupOutcomeKind → BackupState
final_state BackupOutcomeKind.succeeded = BackupState.succeeded
final_state BackupOutcomeKind.succeeded_with_warnings = BackupState.succeeded_with_warnings
final_state (BackupOutcomeKind.failed code) = BackupState.failed code
final_state BackupOutcomeKind.cancelled = BackupState.cancelled

abbrev pub u32_max : ℕ
u32_max = 2 ^ 32 - 1

-- `consecutive_failures.saturating_add(1)`, for a failure only.
abbrev pub count_failure : BackupOutcomeKind → ℕ → ℕ
count_failure (BackupOutcomeKind.failed code) n = min (n + 1) u32_max
count_failure kind n = n

unfoldable pub retry_minutes : ℕ → ℕ
retry_minutes consecutive_failures = 5 * 2 ^ min (consecutive_failures - 1) 6

abbrev run_outcome : BackupOutcome → BackupRunOutcome × Option String
run_outcome outcome = elim outcome.kind [
  | BackupOutcomeKind.succeeded ↦ (BackupRunOutcome.succeeded, none)
  | BackupOutcomeKind.succeeded_with_warnings ↦
      (BackupRunOutcome.succeeded_with_warnings, outcome.warning_code)
  | BackupOutcomeKind.failed code ↦ (BackupRunOutcome.failed, some code)
  | BackupOutcomeKind.cancelled ↦ (BackupRunOutcome.cancelled, none)
]

abbrev completed_run : BackupOutcome → DateTime → DateTime → CompletedBackupRun
completed_run outcome started_at now =
    let (kind, error_code) = run_outcome outcome in
    record {
      started_at = started_at;
      completed_at = now;
      outcome = kind;
      error_code = error_code;
      files_processed = Option.map (λ value. value.files_processed) outcome.summary;
      bytes_processed = Option.map (λ value. value.bytes_processed) outcome.summary;
      data_added = Option.map (λ value. value.data_added) outcome.summary;
      snapshot_id = elim outcome.summary [ none ↦ none | some value ↦ value.snapshot_id ];
      failed_items = outcome.failure_details.items;
      failed_items_omitted = outcome.failure_details.omitted;
    }

abbrev backup_diagnostic : BackupOutcome → Effect
backup_diagnostic outcome = elim outcome.kind [
  | BackupOutcomeKind.succeeded ↦ diagnostic DiagnosticLevel.information "backup.succeeded" none
  | BackupOutcomeKind.succeeded_with_warnings ↦
      diagnostic DiagnosticLevel.warning "backup.warning" outcome.warning_code
  | BackupOutcomeKind.failed code ↦ diagnostic DiagnosticLevel.error "backup.failed" (some code)
  | BackupOutcomeKind.cancelled ↦ diagnostic DiagnosticLevel.information "backup.cancelled" none
]

module _ (chrono : Chrono) where
  -- The state after `finish_backup_at`.
  unfoldable pub finished : EffectiveConfig → RuntimeState → BackupOutcome → DateTime → RuntimeState
  finished config state outcome now =
      let failures = count_failure outcome.kind state.consecutive_failures in
      let retry_at = chrono.add now (minutes (retry_minutes failures)) in
      let ended = record state.status {
        state = final_state outcome.kind;
        state_since = now;
        progress = none;
      } in
      if is_success outcome.kind
      then record state {
        status = record ended {
          last_success = some now;
          next_deadline =
              some (completion_deadline chrono (some now) now config.schedule.interval_hours);
        };
        service_state = record state.service_state { last_success = some now };
        not_before = none;
        consecutive_failures = 0;
        resumed_at = none;
      }
      else record state {
        status = record ended { next_deadline = some retry_at };
        not_before = some retry_at;
        consecutive_failures = failures;
        resumed_at = none;
      }

  unfoldable pub finish_backup_at :
      EffectiveConfig → Env → RuntimeState → BackupOutcome → DateTime → RuntimeState × List Effect
  finish_backup_at config env state outcome now =
      let started_at = unwrap_or state.status.last_attempt now in
      let state' = finished config state outcome now in
      (
        state',
        (if env.history_store then append_run (completed_run outcome started_at now) ∷ [] else [])
            ++ ((if is_success outcome.kind then save_effects env state'.service_state else [])
                ++ backup_diagnostic outcome ∷ []),
      )
