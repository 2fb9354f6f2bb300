-- ===== src/Service.antt =====
-- apps/resticpal-service/src: the state of the running service, as runtime/state.rs,
-- crates/resticpal-core/src/status.rs and crates/resticpal-protocol/src/lib.rs declare it.
pub mod Snapshot
pub mod Status
pub mod Network
pub mod Scheduler
pub mod Effect
pub mod Lifecycle
pub mod Retention
pub mod Operation
pub mod Requests
pub mod Update
pub mod Steps
use native.Mathlib.Decide.{ℕ_discrete}
use resticpal.Prelude.{ℕ, Bool, true, false, Option, some, List, String, ltb, String_discrete}
use resticpal.Time.{DateTime}
use resticpal.Config.{RepositoryMode, Options, SecretRefs}
use resticpal.Schedule.{BackupTrigger}

pub data WaitingReason : Type 0 where
  wake_grace network policy_backoff battery metered_network repository_validation update :
      WaitingReason

pub data BackupPhase : Type 0 where
  preparing_snapshot scanning uploading finalizing retention checking : BackupPhase

pub data BackupState : Type 0 where
  unconfigured idle : BackupState
  waiting : WaitingReason → BackupState
  running : BackupPhase → BackupState
  succeeded succeeded_with_warnings : BackupState
  failed : String → BackupState
  cancelled paused : BackupState

pub BackupState-discrete : Discrete BackupState
BackupState-discrete = hlevel String_discrete

pub record BackupProgress : Type 0 where
  pub percent_done : Option ℕ
  pub files_done : ℕ
  pub total_files : Option ℕ
  pub bytes_done : ℕ
  pub total_bytes : Option ℕ
  pub error_count : ℕ

pub record ServiceStatus : Type 0 where
  pub state : BackupState
  pub state_since : DateTime
  pub last_attempt : Option DateTime
  pub last_success : Option DateTime
  pub next_deadline : Option DateTime
  pub repository_display_name : Option String
  pub repository_mode : RepositoryMode
  pub managed_revision : Option String
  pub progress : Option BackupProgress

pub data RepositoryOperationKind : Type 0 where
  validate initialize : RepositoryOperationKind

pub data RepositoryOperationStatus : Type 0 where
  not_run validation_required : RepositoryOperationStatus
  running : RepositoryOperationKind → RepositoryOperationStatus
  succeeded : RepositoryOperationKind → DateTime → RepositoryOperationStatus
  failed : RepositoryOperationKind → DateTime → String → RepositoryOperationStatus

-- `RepositoryIdentity` and `ServiceStateSnapshot` of state.rs.
pub record RepositoryIdentity : Type 0 where
  pub url : Option String
  pub options : Options
  pub secret_refs : SecretRefs

unfoldable pub RepositoryIdentity-discrete : Discrete RepositoryIdentity
RepositoryIdentity-discrete = hlevel String_discrete

pub record ServiceStateSnapshot : Type 0 where
  pub last_success : Option DateTime
  pub last_retention : Option DateTime
  pub last_prune : Option DateTime
  pub last_retention_error : Option String
  pub repository_validation_required : Bool
  pub verified_repository : Option RepositoryIdentity
  pub repository_verified_at : Option DateTime

pub record RuntimeState : Type 0 where
  pub status : ServiceStatus
  pub resumed_at : Option DateTime
  pub not_before : Option DateTime
  pub update_hold_until : Option DateTime
  pub update_hold_previous_status : Option (BackupState × Option DateTime)
  pub update_install_active : Bool
  pub manual_requested : Bool
  pub consecutive_failures : ℕ
  pub repository_operation : RepositoryOperationStatus
  pub service_state : ServiceStateSnapshot
  pub management_operation_active : Bool

pub data ScheduleAction : Type 0 where
  none : ScheduleAction
  start : BackupTrigger → ScheduleAction

-- `matches!(state, BackupState::Running { .. })` and the like.
abbrev pub is_running : BackupState → Bool
is_running (BackupState.running phase) = true
is_running state = false

abbrev pub is_update_wait : BackupState → Bool
is_update_wait (BackupState.waiting update) = true
is_update_wait state = false

abbrev pub is_repository_running : RepositoryOperationStatus → Bool
is_repository_running (RepositoryOperationStatus.running operation) = true
is_repository_running status = false

-- `update_hold_until.is_some_and(|deadline| deadline > now)`.
abbrev pub is_pending : Option DateTime → DateTime → Bool
is_pending Option.none now = false
is_pending (some deadline) now = ltb now deadline
