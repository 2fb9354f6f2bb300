-- ===== src/Service/Requests.antt =====
-- The backup requests of `handle_request` in apps/resticpal-service/src/runtime/ipc.rs: run now, cancel
-- and defer.
pub mod Deferred
use resticpal.Prelude.{
  ℕ, ◌*◌, false, not, ◌&&◌, ◌||◌, none, some, unwrap_or, [], ◌∷◌, leb, if◌then◌else◌,
}
use resticpal.Time.{DateTime, Chrono, minutes}
use resticpal.Config.{EffectiveConfig, is_configured}
use resticpal.Service.{RuntimeState, is_running, is_pending}
use resticpal.Service.Status.{repository_operation_allows_backup}
use resticpal.Service.Effect.{Env, RuntimeEvent, send, run_now, cancel, deferred}
use resticpal.Service.Operation.{accepted, rejected, Handled, refuse}

-- `send_event`.
abbrev send_event : Env → RuntimeState → RuntimeEvent → Handled
send_event env state event =
    (state, if env.sent then accepted else rejected "service_stopping", send event ∷ [])

unfoldable pub run_backup_now : EffectiveConfig → Env → RuntimeState → Handled
run_backup_now config env state =
    if not (is_configured config)
    then refuse state "not_configured"
    else if not (repository_operation_allows_backup state.repository_operation)
    then refuse state "repository_not_ready"
    else if is_running state.status.state
    then refuse state "already_running"
    else if state.update_install_active || is_pending state.update_hold_until (env.clock 0)
    then refuse state "update_pending"
    else (
      record state { manual_requested = env.sent; not_before = none },
      if env.sent then accepted else rejected "service_stopping",
      send run_now ∷ [],
    )

unfoldable pub cancel_backup : Env → RuntimeState → Handled
cancel_backup env state =
    if is_running state.status.state
    then send_event env state cancel
    else refuse state "not_running"

module _ (chrono : Chrono) where
  -- The deadline that a deferral sets.
  abbrev pub deferral : DateTime → ℕ → DateTime
  deferral now m = unwrap_or (chrono.checked_add_signed now (minutes m)) now

  unfoldable pub defer_backup : EffectiveConfig → Env → ℕ → RuntimeState → Handled
  defer_backup config env m state =
      if not (leb 1 m && leb m (24 * 60))
      then refuse state "invalid_deferral"
      else if not (is_configured config)
      then refuse state "not_configured"
      else if not (repository_operation_allows_backup state.repository_operation)
      then refuse state "repository_not_ready"
      else if is_running state.status.state
      then refuse state "already_running"
      else send_event env
          (record state {
            manual_requested = false;
            not_before = some (deferral (env.clock 0) m);
            status = record state.status { next_deadline = some (deferral (env.clock 0) m) };
          })
          deferred
