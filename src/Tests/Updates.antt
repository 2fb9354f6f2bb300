-- ===== src/Tests/Updates.antt =====
-- Update holds and repository operations at concrete states.
use resticpal.Prelude.{◌+◌, ◌≤◌, ◌≡◌, ◌≢◌, ◌⊎◌, refl, true, false, none, some, [], arith, String}
use resticpal.Time.{seconds}
use resticpal.Config.{EffectiveConfig}
use resticpal.Service.{
  BackupState, WaitingReason, RepositoryOperationKind, RepositoryOperationStatus, RuntimeState,
  is_running, is_repository_running,
}
use resticpal.Service.Snapshot.{require_repository_validation, mark_repository_verified}
use resticpal.Service.Status.{repository_operation_allows_backup}
use resticpal.Service.Effect.{save_failed}
use resticpal.Service.Lifecycle.{RepositoryOutcomeKind}
use resticpal.Service.Operation.{
  accepted, rejected, refuse_operation, begin_repository_operation, finish_repository_operation,
}
use resticpal.Service.Operation.Closed.{
  begin_repository_operation_closed, finish_repository_operation-ready,
}
use resticpal.Service.Update.{refuse_update, held, prepare_for_update, begin_update_install}
use resticpal.Service.Update.Hold.{prepare_for_update-accepted, begin_update_install_branches}
use resticpal.Tests.Data.{calendar, noon, configured, ready, env}

hold_granted :
    prepare_for_update calendar configured env true 600 ready
    ≡ (held calendar ready 600 noon, accepted, [])
unfolding prepare_for_update refuse_update
hold_granted = refl

prepare_for_update-accepted_example :
    (true ≡ true)
    × (configured.updates.automatic_install ≡ false)
    × (60 ≤ 600)
    × (600 ≤ 1800)
    × (ready.update_install_active ≡ false)
    × (is_running ready.status.state ≡ false)
    × (is_repository_running ready.repository_operation ≡ false)
    × (ready.management_operation_active ≡ false)
    × ((held calendar ready 600 noon).update_hold_until ≡ some (noon + seconds 600))
    × ((held calendar ready 600 noon).status.state ≡ BackupState.waiting WaitingReason.update)
prepare_for_update-accepted_example =
    prepare_for_update-accepted calendar configured env true 600 ready
      (held calendar ready 600 noon) [] (omega arith) hold_granted

abbrev automatic : EffectiveConfig
automatic = record configured { updates = record { automatic_install = true } }

begin_update_install_branches_example :
    let (state', response, effects) = begin_update_install calendar automatic env true ready in
    ((response ≡ accepted)
      × (state'.update_install_active ≡ true)
      × (state'.status.state ≡ BackupState.waiting WaitingReason.update)
      × (true ≡ true)
      × (automatic.updates.automatic_install ≡ true)
      × (refuse_update ready (env.clock 0) ≡ none))
    ⊎ ((code : String) × (response ≡ rejected code)
        × (state'.update_install_active ≡ ready.update_install_active))
begin_update_install_branches_example =
    begin_update_install_branches calendar automatic env true ready

begin_repository_operation_closed_example :
    let (state', response, effects) =
      begin_repository_operation configured env true RepositoryOperationKind.validate ready in
    ((code : String) × (refuse_operation configured true RepositoryOperationKind.validate ready
          (env.clock 0)
        ≡ some code)
      × (response ≡ rejected code)
      × (state' ≡ ready)
      × (effects ≡ []))
    ⊎ ((refuse_operation configured true RepositoryOperationKind.validate ready (env.clock 0)
          ≡ none)
        × (repository_operation_allows_backup state'.repository_operation ≡ false)
        × (state'.service_state ≡ require_repository_validation ready.service_state)
        × ((response ≡ accepted)
              × (state'.repository_operation
                  ≡ RepositoryOperationStatus.running RepositoryOperationKind.validate)
            ⊎ ((code : String) × (response ≡ rejected code))))
begin_repository_operation_closed_example =
    begin_repository_operation_closed configured env true RepositoryOperationKind.validate ready

abbrev validating : RuntimeState
validating = record ready {
  repository_operation = RepositoryOperationStatus.running RepositoryOperationKind.validate;
}

finish_repository_operation-ready_example :
    let (state', effects) =
      finish_repository_operation calendar configured env validating
        RepositoryOperationKind.validate RepositoryOutcomeKind.succeeded in
    ((validating.repository_operation
        ≢ RepositoryOperationStatus.running RepositoryOperationKind.validate)
      × (state' ≡ validating)
      × (effects ≡ []))
    ⊎ ((validating.repository_operation
          ≡ RepositoryOperationStatus.running RepositoryOperationKind.validate)
        × ((repository_operation_allows_backup state'.repository_operation ≡ false)
            ⊎ ((RepositoryOutcomeKind.succeeded ≡ RepositoryOutcomeKind.succeeded)
                × (save_failed env ≡ false)
                × (state'.service_state
                    ≡ mark_repository_verified validating.service_state configured (env.clock 0)))))
finish_repository_operation-ready_example =
    finish_repository_operation-ready calendar configured env validating
      RepositoryOperationKind.validate RepositoryOutcomeKind.succeeded
