-- ===== src/EventLoop.antt =====
-- `run_event_loop` of apps/resticpal-service/src/main.rs: the thread that receives the events and starts
-- the workers. The configuration is fixed. Whether a worker's thread could be started is an argument;
-- of a cancellation token only its presence is kept.
pub mod Outside
pub mod Orderly
pub mod Turns
pub mod Answered
pub mod Kept
pub mod Conflicts
pub mod Refresh
use resticpal.Prelude.{
  Bool, true, false, Option, none, some, List, [], ◌∷◌, ◌≡◌, ◌||◌, if◌then◌else◌,
}
use resticpal.Time.{DateTime, Chrono}
use resticpal.Config.{EffectiveConfig}
use resticpal.Service.{RuntimeState, ScheduleAction, RepositoryOperationKind}
use resticpal.Service.Effect.{Env}
use resticpal.Service.Lifecycle.{
  BackupOutcome, failed_outcome, RepositoryOutcomeKind, UpdateInstallOutcome, finish_backup_at,
  finish_update_install,
}
use resticpal.Service.Operation.{begin_repository_operation, finish_repository_operation, accepted}
use resticpal.Service.Scheduler.{SystemConditions, record_resume, evaluate_schedule}
use resticpal.Service.Steps.{
  Step, progresses, starts_retention, ends_retention, asks_run, asks_cancel, asks_defer, asks_hold,
  asks_install,
}

-- The loop's own variables, and the state that it shares.
pub record EventLoop : Type 0 where
  pub state : RuntimeState
  pub active_backup : Bool
  pub active_repository_operation : Bool

-- An event that the loop receives; the ones after which it only evaluates the schedule are one.
pub data LoopEvent : Type 0 where
  evaluation cancel resume : LoopEvent
  backup_finished : BackupOutcome → LoopEvent
  operation_requested : RepositoryOperationKind → LoopEvent
  operation_finished : RepositoryOperationKind → RepositoryOutcomeKind → LoopEvent
  update_requested : LoopEvent
  update_finished : UpdateInstallOutcome → LoopEvent

module _ (chrono : Chrono) (config : EffectiveConfig) (env : Env) (conditions : SystemConditions)
    (started : Bool) where
  -- What an evaluation leaves: a backup worker where the decision is to start.
  unfoldable pub begin_backup : EventLoop → RuntimeState × ScheduleAction → EventLoop
  begin_backup loop (state, ScheduleAction.none) = record loop { state = state }
  begin_backup loop (state, ScheduleAction.start trigger) =
      if started then record loop { state = state; active_backup = true } else record loop {
        state =
            (finish_backup_at chrono config env state (failed_outcome "executor_start_failed")
              (env.clock 1)).0;
        active_backup = false;
      }

  unfoldable pub evaluate_and_maybe_start : EventLoop → Option EventLoop
  evaluate_and_maybe_start loop =
      if loop.active_backup
      then some loop
      else elim (evaluate_schedule chrono config conditions loop.state (env.clock 0)) [
        | none ↦ none
        | some result ↦ some (begin_backup loop result)
      ]

  -- The branch of an operation that a client asked for.
  unfoldable pub start_operation : EventLoop → RepositoryOperationKind → EventLoop
  start_operation loop operation =
      let failed = λ (code : _).
        (finish_repository_operation chrono config env loop.state operation
          (RepositoryOutcomeKind.failed code)).0 in
      if loop.active_backup || loop.active_repository_operation
      then record loop { state = failed "repository_operation_conflict" }
      else if started
      then record loop { active_repository_operation = true }
      else record loop {
        state = failed "executor_start_failed";
        active_repository_operation = false;
      }

  unfoldable pub start_update : EventLoop → EventLoop
  start_update loop =
      if loop.active_backup || loop.active_repository_operation
      then record loop {
        state =
            (finish_update_install loop.state
              (UpdateInstallOutcome.failed "update_operation_conflict") (env.clock 0)).0;
      }
      else if started
      then loop
      else record loop {
        state =
            (finish_update_install loop.state
              (UpdateInstallOutcome.failed "update_worker_start_failed") (env.clock 0)).0;
      }

  -- One turn of the loop.
  unfoldable pub handle : EventLoop → LoopEvent → Option EventLoop
  handle loop evaluation = evaluate_and_maybe_start loop
  handle loop cancel = some loop
  handle loop resume =
      evaluate_and_maybe_start (record loop { state = record_resume loop.state (env.clock 2) })
  handle loop (backup_finished outcome) = some (record loop {
    state = (finish_backup_at chrono config env loop.state outcome (env.clock 0)).0;
    active_backup = false;
  })
  handle loop (operation_requested operation) = some (start_operation loop operation)
  handle loop (operation_finished operation outcome) = evaluate_and_maybe_start (record loop {
    state = (finish_repository_operation chrono config env loop.state operation outcome).0;
    active_repository_operation = false;
  })
  handle loop update_requested = some (start_update loop)
  handle loop (update_finished outcome) =
      evaluate_and_maybe_start
        (record loop { state = (finish_update_install loop.state outcome (env.clock 2)).0 })
