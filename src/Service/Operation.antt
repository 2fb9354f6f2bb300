-- ===== src/Service/Operation.antt =====
-- Repository operations: `begin_repository_operation` of apps/resticpal-service/src/runtime/ipc.rs and
-- `finish_repository_operation` of runtime/lifecycle.rs.
pub mod Closed
use resticpal.Prelude.{
  Bool, true, false, not, ◌&&◌, ◌||◌, Option, none, some, List, [], ◌∷◌, ◌++◌, String,
  if◌then◌else◌, is_some, any, ◌≡◌, arith,
}
use resticpal.Time.{DateTime, Chrono}
use resticpal.Config.{
  SecretEnvironmentVariable, restic_password, SecretRefs, EffectiveConfig, is_configured,
}
use resticpal.Restic.{ResticOperation, allowed_in}
use resticpal.Service.{
  BackupState, WaitingReason, RepositoryOperationKind, RepositoryOperationStatus, RuntimeState,
  is_running, is_pending, is_repository_running,
}
use resticpal.Service.Snapshot.{require_repository_validation, mark_repository_verified}
use resticpal.Service.Status.{transition_state, apply_configuration_status}
use resticpal.Service.Effect.{
  DiagnosticLevel, Effect, Env, diagnostic, send, repository_operation_requested, save_effects,
  save_failed,
}
use resticpal.Service.Lifecycle.{RepositoryOutcomeKind}

-- `ResponsePayload`, as far as the modelled requests answer with it. A rejection carries its code.
pub data Response : Type 0 where
  accepted : Response
  rejected : String → Response

-- What a handler returns: the new state, its answer, and what it asked of the world.
abbrev pub Handled : Type 0
Handled = RuntimeState × Response × List Effect

abbrev pub refuse : RuntimeState → String → Handled
refuse state code = (state, rejected code, [])

abbrev is_password : SecretEnvironmentVariable → Bool
is_password restic_password = true
is_password variable = false

-- `secret_refs.contains_key(&ResticPassword)`.
unfoldable pub has_password : SecretRefs → Bool
unfolding any
has_password refs = any (λ entry. is_password entry.0) refs

abbrev is_initialize : RepositoryOperationKind → Bool
is_initialize RepositoryOperationKind.initialize = true
is_initialize operation = false

-- The guards of `begin_repository_operation`, in their order: the code of the first that refuses.
unfoldable pub refuse_operation :
    EffectiveConfig → Bool → RepositoryOperationKind → RuntimeState → DateTime → Option String
refuse_operation config is_administrator operation state now =
    if not is_administrator
    then some "administrator_required"
    else if not (is_some config.repository.url)
    then some "repository_not_configured"
    else if not (has_password config.repository.secret_refs)
    then some "repository_password_required"
    else if is_initialize operation
        && not (allowed_in ResticOperation.initialize config.repository.mode)
    then some "append_only_initialization_forbidden"
    else if state.update_install_active || is_pending state.update_hold_until now
    then some "update_pending"
    else if is_running state.status.state
    then some "backup_running"
    else if is_repository_running state.repository_operation
    then some "repository_operation_running"
    else none

-- Where no guard refuses, nothing that the operation could disturb is under way.
pub refuse_operation-none :
    (config : EffectiveConfig) (is_administrator : Bool) (operation : RepositoryOperationKind)
    (state : RuntimeState) (now : DateTime)
    → refuse_operation config is_administrator operation state now ≡ none
    → (state.update_install_active ≡ false)
      × (is_running state.status.state ≡ false)
      × (is_repository_running state.repository_operation ≡ false)
unfolding refuse_operation
refuse_operation-none config is_administrator operation state now h = ground arith

-- The state once the operation is accepted: it runs, and the repository must be validated anew.
unfoldable pub operation_begun :
    EffectiveConfig → RepositoryOperationKind → RuntimeState → DateTime → RuntimeState
operation_begun config operation state now = record state {
  repository_operation = RepositoryOperationStatus.running operation;
  status =
      if is_configured config
      then record (transition_state state.status
          (BackupState.waiting WaitingReason.repository_validation) now) { next_deadline = none }
      else state.status;
  service_state = require_repository_validation state.service_state;
}

unfoldable pub begin_repository_operation :
    EffectiveConfig → Env → Bool → RepositoryOperationKind → RuntimeState → Handled
begin_repository_operation config env is_administrator operation state =
    elim (refuse_operation config is_administrator operation state (env.clock 0)) [
      | some code ↦ refuse state code
      | none ↦
          let begun = operation_begun config operation state (env.clock 1) in
          let saves = save_effects env begun.service_state in
          let failed = λ (code : String). record begun {
            repository_operation = RepositoryOperationStatus.failed operation (env.clock 2) code;
          } in
          if save_failed env
          then (failed "state_save_failed", rejected "state_save_failed", saves)
          else if env.sent
          then (begun, accepted, saves ++ (send (repository_operation_requested operation) ∷ []))
          else (
            failed "service_stopping",
            rejected "service_stopping",
            saves ++ (send (repository_operation_requested operation) ∷ []),
          )
    ]

abbrev same_kind : RepositoryOperationKind → RepositoryOperationKind → Bool
same_kind RepositoryOperationKind.validate RepositoryOperationKind.validate = true
same_kind RepositoryOperationKind.initialize RepositoryOperationKind.initialize = true
same_kind running operation = false

-- Whether the operation that ends is the one that runs.
abbrev pub is_current : RepositoryOperationStatus → RepositoryOperationKind → Bool
is_current (RepositoryOperationStatus.running running) operation = same_kind running operation
is_current status operation = false

-- A success counts only once it is saved.
abbrev pub operation_result :
    Env → RepositoryOperationKind → RepositoryOutcomeKind → DateTime → RepositoryOperationStatus
operation_result env operation RepositoryOutcomeKind.succeeded completed_at =
    if save_failed env
    then RepositoryOperationStatus.failed operation completed_at "state_save_failed"
    else RepositoryOperationStatus.succeeded operation completed_at
operation_result env operation (RepositoryOutcomeKind.failed code) completed_at =
    RepositoryOperationStatus.failed operation completed_at code
operation_result env operation RepositoryOutcomeKind.cancelled completed_at =
    RepositoryOperationStatus.failed operation completed_at "repository_operation_cancelled"

abbrev operation_effects : Env → RuntimeState → RepositoryOutcomeKind → List Effect
operation_effects env verified RepositoryOutcomeKind.succeeded =
    save_effects env verified.service_state
    ++ (diagnostic DiagnosticLevel.information "repository.operation_succeeded" none ∷ [])
operation_effects env verified (RepositoryOutcomeKind.failed code) =
    diagnostic DiagnosticLevel.error "repository.operation_failed" (some code) ∷ []
operation_effects env verified RepositoryOutcomeKind.cancelled =
    diagnostic DiagnosticLevel.information "repository.operation_cancelled" none ∷ []

abbrev verified_on_success :
    EffectiveConfig → RuntimeState → RepositoryOutcomeKind → DateTime → RuntimeState
verified_on_success config state RepositoryOutcomeKind.succeeded completed_at = record state {
  service_state = mark_repository_verified state.service_state config completed_at;
}
verified_on_success config state kind completed_at = state

module _ (chrono : Chrono) where
  unfoldable pub finish_repository_operation :
      EffectiveConfig
      → Env
      → RuntimeState
      → RepositoryOperationKind
      → RepositoryOutcomeKind
      → RuntimeState × List Effect
  finish_repository_operation config env state operation outcome =
      if not (is_current state.repository_operation operation)
      then (state, [])
      else let completed_at = env.clock 0 in
        let verified = verified_on_success config state outcome completed_at in
        (
          apply_configuration_status chrono
              (record verified {
                repository_operation = operation_result env operation outcome completed_at;
              })
              config completed_at,
          operation_effects env verified outcome,
        )
