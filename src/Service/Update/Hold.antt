-- ===== src/Service/Update/Hold.antt =====
-- The update hold of apps/resticpal-service/src/runtime/ipc.rs, taken and given back.
use resticpal.Prelude.{ℕ, ◌+◌, ◌≤◌, Bool, true, false, none, some, String, ◌≡◌, ◌⊎◌, arith, List}
use resticpal.Time.{DateTime, Chrono, seconds, checked_cases}
use resticpal.Config.{EffectiveConfig}
use resticpal.Service.{BackupState, WaitingReason, RuntimeState, is_running, is_repository_running}
use resticpal.Service.Status.{transition_state, state-transition_state}
use resticpal.Service.Scheduler.{release_hold}
use resticpal.Service.Effect.{Env, Effect}
use resticpal.Service.Operation.{accepted, rejected}
use resticpal.Service.Lifecycle.{UpdateInstallOutcome, finish_update_install}
use resticpal.Service.Update.{
  refuse_update, held, hold_undone, prepare_for_update, begin_update_install,
}

module _ (chrono : Chrono) (state : RuntimeState)
    (fresh : state.update_hold_previous_status ≡ none) where
  -- Where no earlier status is remembered, a hold that runs out gives back the backup state and the
  -- next deadline from before it, and forgets both.
  pub release_hold-held :
      (hold_seconds : ℕ) (now later : DateTime)
      → let released = release_hold (held chrono state hold_seconds now) later in
        (released.status.state ≡ state.status.state)
        × (released.status.next_deadline ≡ state.status.next_deadline)
        × (released.update_hold_until ≡ none)
        × (released.update_hold_previous_status ≡ none)
  unfolding release_hold held transition_state
  release_hold-held hold_seconds now later = ground arith

  -- Where no earlier status is remembered, an installation that fails under a hold gives back the
  -- backup state and the next deadline from before the hold, ends it, and is no longer under way.
  pub finish_update_install-held :
      (hold_seconds : ℕ) (code : String) (now later : DateTime)
      → let failed =
          (finish_update_install
            (held chrono state hold_seconds now)
            (UpdateInstallOutcome.failed code)
            later).0 in
        (failed.status.state ≡ state.status.state)
        × (failed.status.next_deadline ≡ state.status.next_deadline)
        × (failed.update_hold_until ≡ none)
        × (failed.update_install_active ≡ false)
  unfolding finish_update_install held
  finish_update_install-held hold_seconds code now later = ground arith

-- A hold is granted only when an administrator asks for one to thirty minutes while nothing is under
-- way, on a device that does not install updates by itself. The service then waits for the update
-- until the time asked for is over. A time thirty minutes ahead must be representable.
pub prepare_for_update-accepted :
    (chrono : Chrono) (config : EffectiveConfig) (env : Env) (is_administrator : Bool)
    (hold_seconds : ℕ) (state state' : RuntimeState) (effects : List Effect)
    → env.clock 0 + seconds 1800 ≤ chrono.max_utc
    → prepare_for_update chrono config env is_administrator hold_seconds state
      ≡ (state', accepted, effects)
    → (is_administrator ≡ true)
      × (config.updates.automatic_install ≡ false)
      × (60 ≤ hold_seconds)
      × (hold_seconds ≤ 1800)
      × (state.update_install_active ≡ false)
      × (is_running state.status.state ≡ false)
      × (is_repository_running state.repository_operation ≡ false)
      × (state.management_operation_active ≡ false)
      × (state'.update_hold_until ≡ some (env.clock 0 + seconds hold_seconds))
      × (state'.status.state ≡ BackupState.waiting WaitingReason.update)
unfolding prepare_for_update refuse_update held
prepare_for_update-accepted chrono config env is_administrator hold_seconds state state' effects
      fits ok =
    let reached =
      state-transition_state state.status (BackupState.waiting WaitingReason.update)
        (env.clock 0) in
    ground (arith, reached, checked_cases chrono (env.clock 0) (seconds hold_seconds))

-- An installation that is accepted is under way and holds backups; the package was valid, the device
-- installs updates by itself, and no guard refused. A request that is rejected, by a guard or
-- because the service is stopping, does not change whether an installation is under way.
pub begin_update_install_branches :
    (chrono : Chrono) (config : EffectiveConfig) (env : Env) (package_is_valid : Bool)
    (state : RuntimeState)
    → let (state', response, effects) =
        begin_update_install chrono config env package_is_valid state in
      ((response ≡ accepted)
        × (state'.update_install_active ≡ true)
        × (state'.status.state ≡ BackupState.waiting WaitingReason.update)
        × (package_is_valid ≡ true)
        × (config.updates.automatic_install ≡ true)
        × (refuse_update state (env.clock 0) ≡ none))
      ⊎ ((code : String) × (response ≡ rejected code)
          × (state'.update_install_active ≡ state.update_install_active))
unfolding begin_update_install refuse_update held hold_undone
begin_update_install_branches chrono config env package_is_valid state =
    let reached =
      state-transition_state state.status (BackupState.waiting WaitingReason.update)
        (env.clock 0) in
    ground (arith, reached)
