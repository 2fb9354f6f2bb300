-- ===== src/Service/Update.antt =====
-- Product updates: `prepare_for_update` and `begin_update_install` of
-- apps/resticpal-service/src/runtime/ipc.rs. How `updater::validate_package` judges the package is an
-- argument.
pub mod Hold
use resticpal.Prelude.{
  ℕ, ◌*◌, Bool, true, false, not, ◌&&◌, ◌||◌, Option, none, some, unwrap_or, List, [], ◌∷◌, leb,
  if◌then◌else◌, String, is_some, ◌≡◌, arith,
}
use resticpal.Time.{DateTime, Chrono, seconds}
use resticpal.Config.{EffectiveConfig}
use resticpal.Service.{
  BackupState, WaitingReason, RuntimeState, is_running, is_pending, is_repository_running,
}
use resticpal.Service.Status.{transition_state}
use resticpal.Service.Scheduler.{restored}
use resticpal.Service.Effect.{Effect, Env, RuntimeEvent, send, update_install_requested}
use resticpal.Service.Operation.{Response, accepted, rejected, Handled, refuse}

-- `updater::UPDATE_INSTALL_TIMEOUT_SECONDS`.
abbrev pub max_update_hold_seconds : ℕ
max_update_hold_seconds = 30 * 60

abbrev pub min_update_hold_seconds : ℕ
min_update_hold_seconds = 60

-- The guards that both requests end with, in their order.
unfoldable pub refuse_update : RuntimeState → DateTime → Option String
refuse_update state now =
    if state.update_install_active
    then some "update_already_running"
    else if is_pending state.update_hold_until now
    then some "update_pending"
    else if is_running state.status.state
    then some "backup_running"
    else if is_repository_running state.repository_operation || state.management_operation_active
    then some "operation_running"
    else none

-- Where no guard refuses, nothing is under way.
pub refuse_update-none :
    (state : RuntimeState) (now : DateTime)
    → refuse_update state now ≡ none
    → (state.update_install_active ≡ false)
      × (is_running state.status.state ≡ false)
      × (is_repository_running state.repository_operation ≡ false)
      × (state.management_operation_active ≡ false)
unfolding refuse_update
refuse_update-none state now h = ground arith

module _ (chrono : Chrono) where
  abbrev pub hold_deadline : DateTime → ℕ → DateTime
  hold_deadline now hold_seconds =
      unwrap_or (chrono.checked_add_signed now (seconds hold_seconds)) now

  -- The state in which an update holds backups until the deadline.
  unfoldable pub held : RuntimeState → ℕ → DateTime → RuntimeState
  held state hold_seconds now = record state {
    update_hold_previous_status = elim state.update_hold_previous_status [
      | none ↦ some (state.status.state, state.status.next_deadline)
      | some previous ↦ some previous
    ];
    update_hold_until = some (hold_deadline now hold_seconds);
    manual_requested = false;
    resumed_at = none;
    status = record (transition_state state.status (BackupState.waiting WaitingReason.update) now) {
      next_deadline = some (hold_deadline now hold_seconds);
    };
  }

  unfoldable pub prepare_for_update : EffectiveConfig → Env → Bool → ℕ → RuntimeState → Handled
  prepare_for_update config env is_administrator hold_seconds state =
      if not is_administrator
      then refuse state "administrator_required"
      else if config.updates.automatic_install
      then refuse state "automatic_updates_enabled"
      else if not
          (leb min_update_hold_seconds hold_seconds && leb hold_seconds max_update_hold_seconds)
      then refuse state "invalid_update_hold"
      else elim (refuse_update state (env.clock 0)) [
        | some code ↦ refuse state code
        | none ↦ (held state hold_seconds (env.clock 0), accepted, [])
      ]

  -- What is undone when the installation cannot be requested.
  unfoldable pub hold_undone : RuntimeState → DateTime → RuntimeState
  hold_undone state now = record state {
    update_install_active = false;
    update_hold_until = none;
    update_hold_previous_status = none;
    status = elim state.update_hold_previous_status [
      | none ↦ state.status
      | some previous ↦ restored state.status previous now
    ];
  }

  unfoldable pub begin_update_install : EffectiveConfig → Env → Bool → RuntimeState → Handled
  begin_update_install config env package_is_valid state =
      if not config.updates.automatic_install
      then refuse state "automatic_updates_disabled"
      else if not package_is_valid
      then refuse state "update_metadata_invalid"
      else elim (refuse_update state (env.clock 0)) [
        | some code ↦ refuse state code
        | none ↦
            let installing = record (held state max_update_hold_seconds (env.clock 0)) {
              update_install_active = true;
            } in
            if env.sent then (installing, accepted, send update_install_requested ∷ []) else (
              hold_undone installing (env.clock 0),
              rejected "service_stopping",
              send update_install_requested ∷ [],
            )
      ]
