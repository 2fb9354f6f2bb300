-- ===== src/Service/Operation/Closed.antt =====
-- Repository operations fail closed: no backup can start on a repository that was not found ready.
use resticpal.Prelude.{
  Bool, true, false, none, some, [], ◌≡◌, ◌≢◌, ◌⊎◌, inl, inr, arith, String, Bool-cases,
}
use resticpal.Time.{Chrono}
use resticpal.Config.{EffectiveConfig}
use resticpal.Service.{RepositoryOperationKind, RepositoryOperationStatus, RuntimeState}
use resticpal.Service.Snapshot.{require_repository_validation, mark_repository_verified}
use resticpal.Service.Status.{repository_operation_allows_backup, apply_configuration_status}
use resticpal.Service.Effect.{Env, save_failed}
use resticpal.Service.Lifecycle.{RepositoryOutcomeKind}
use resticpal.Service.Operation.{
  accepted, rejected, refuse_operation, operation_begun, begin_repository_operation, is_current,
  finish_repository_operation,
}

-- A request for a repository operation that a guard refuses changes nothing and asks nothing of the world.
-- Any other leaves the repository not ready for backups and in want of validation, also where the state
-- cannot be saved or the service is stopping.
pub begin_repository_operation_closed :
    (config : EffectiveConfig) (env : Env) (is_administrator : Bool)
    (operation : RepositoryOperationKind) (state : RuntimeState)
    → let (state', response, effects) =
        begin_repository_operation config env is_administrator operation state in
      ((code : String) × (refuse_operation config is_administrator operation state (env.clock 0)
          ≡ some code)
        × (response ≡ rejected code)
        × (state' ≡ state)
        × (effects ≡ []))
      ⊎ ((refuse_operation config is_administrator operation state (env.clock 0) ≡ none)
          × (repository_operation_allows_backup state'.repository_operation ≡ false)
          × (state'.service_state ≡ require_repository_validation state.service_state)
          × ((response ≡ accepted)
                × (state'.repository_operation ≡ RepositoryOperationStatus.running operation)
              ⊎ ((code : String) × (response ≡ rejected code))))
unfolding begin_repository_operation operation_begun
begin_repository_operation_closed config env is_administrator operation state = ground arith

is_current-true :
    (status : RepositoryOperationStatus) (operation : RepositoryOperationKind)
    → is_current status operation ≡ true
    → status ≡ RepositoryOperationStatus.running operation
is_current-true status operation h = ground arith

is_current-false :
    (status : RepositoryOperationStatus) (operation : RepositoryOperationKind)
    → is_current status operation ≡ false
    → status ≢ RepositoryOperationStatus.running operation
is_current-false status operation h same = ground arith

-- Ending an operation makes the repository ready only if that operation was the one under way, it
-- succeeded, and the success was saved where there is a store; an end that is reported for another
-- operation changes nothing and asks nothing of the world.
pub finish_repository_operation-ready :
    (chrono : Chrono) (config : EffectiveConfig) (env : Env) (state : RuntimeState)
    (operation : RepositoryOperationKind) (outcome : RepositoryOutcomeKind)
    → let (state', effects) =
        finish_repository_operation chrono config env state operation outcome in
      ((state.repository_operation ≢ RepositoryOperationStatus.running operation)
        × (state' ≡ state)
        × (effects ≡ []))
      ⊎ ((state.repository_operation ≡ RepositoryOperationStatus.running operation)
          × ((repository_operation_allows_backup state'.repository_operation ≡ false)
              ⊎ ((outcome ≡ RepositoryOutcomeKind.succeeded)
                  × (save_failed env ≡ false)
                  × (state'.service_state
                      ≡ mark_repository_verified state.service_state config (env.clock 0)))))
unfolding finish_repository_operation apply_configuration_status
finish_repository_operation-ready chrono config env state operation outcome =
    elim (Bool-cases (is_current state.repository_operation operation)) [
      | inr other ↦ inl (
        λ same. is_current-false state.repository_operation operation other same,
        ground arith,
        ground arith,
      )
      | inl now ↦ inr (is_current-true state.repository_operation operation now, ground arith)
    ]
