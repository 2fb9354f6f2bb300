-- ===== src/Service/Steps.antt =====
-- The service's state over time: which calls of apps/resticpal-service/src/runtime change it, in any
-- order. The configuration is fixed. The event loop and the workers of main.rs call `begin_retention`
-- only while their backup runs, and `finish_update_install` only for the installation under way.
pub mod Exclusive
pub mod Evaluation
pub mod Reachable
pub mod Persistence
pub mod Deferral
pub mod Pruning
use resticpal.Prelude.{ℕ, Bool, true, Option, some, ◌≡◌}
use resticpal.Time.{DateTime, Chrono}
use resticpal.Config.{EffectiveConfig}
use resticpal.Service.{
  BackupProgress, RepositoryOperationKind, RuntimeState, ScheduleAction, is_running,
}
use resticpal.Service.Scheduler.{SystemConditions, record_resume, evaluate_schedule}
use resticpal.Service.Effect.{Env}
use resticpal.Service.Lifecycle.{
  BackupOutcome, RepositoryOutcomeKind, UpdateInstallOutcome, update_progress,
  finish_update_install, finish_backup_at,
}
use resticpal.Service.Retention.{RetentionOutcomeKind, begin_retention, finish_retention}
use resticpal.Service.Operation.{begin_repository_operation, finish_repository_operation}
use resticpal.Service.Requests.{run_backup_now, cancel_backup, defer_backup}
use resticpal.Service.Update.{prepare_for_update, begin_update_install}

module _ (chrono : Chrono) (config : EffectiveConfig) where
  pub data Step (s t : RuntimeState) : Type 0 where
    evaluates :
        (conditions : SystemConditions) (now : DateTime) (action : ScheduleAction)
        → evaluate_schedule chrono config conditions s now ≡ some (t, action)
        → Step s t
    resumes : (now : DateTime) → t ≡ record_resume s now → Step s t
    progresses : (progress : BackupProgress) → t ≡ update_progress s progress → Step s t
    starts_retention :
        (now : DateTime)
        → is_running s.status.state ≡ true
        → t ≡ (begin_retention config s now).0
        → Step s t
    ends_retention :
        (env : Env) (backup : BackupOutcome) (retention : RetentionOutcomeKind) (now : DateTime)
        → t ≡ (finish_retention env s backup retention now).0
        → Step s t
    ends_backup :
        (env : Env) (outcome : BackupOutcome) (now : DateTime)
        → t ≡ (finish_backup_at chrono config env s outcome now).0
        → Step s t
    ends_operation :
        (env : Env) (operation : RepositoryOperationKind) (outcome : RepositoryOutcomeKind)
        → t ≡ (finish_repository_operation chrono config env s operation outcome).0
        → Step s t
    ends_update :
        (outcome : UpdateInstallOutcome) (now : DateTime)
        → s.update_install_active ≡ true
        → t ≡ (finish_update_install s outcome now).0
        → Step s t
    asks_run : (env : Env) → t ≡ (run_backup_now config env s).0 → Step s t
    asks_cancel : (env : Env) → t ≡ (cancel_backup env s).0 → Step s t
    asks_defer : (env : Env) (m : ℕ) → t ≡ (defer_backup chrono config env m s).0 → Step s t
    asks_operation :
        (env : Env) (is_administrator : Bool) (operation : RepositoryOperationKind)
        → t ≡ (begin_repository_operation config env is_administrator operation s).0
        → Step s t
    asks_hold :
        (env : Env) (is_administrator : Bool) (hold_seconds : ℕ)
        → t ≡ (prepare_for_update chrono config env is_administrator hold_seconds s).0
        → Step s t
    asks_install :
        (env : Env) (package_is_valid : Bool)
        → t ≡ (begin_update_install chrono config env package_is_valid s).0
        → Step s t

  -- What the steps reach from a state.
  pub data Reach (s : RuntimeState) : RuntimeState → Type 0 where
    here : Reach s s
    next : {t u : RuntimeState} → Reach s t → Step t u → Reach s u
