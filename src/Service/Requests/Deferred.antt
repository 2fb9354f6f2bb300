-- ===== src/Service/Requests/Deferred.antt =====
-- What a deferral of apps/resticpal-service/src/runtime/ipc.rs keeps from happening.
use resticpal.Prelude.{ℕ, ◌+◌, ◌≤◌, ◌<◌, false, some, List, ◌≡◌, inr, arith}
use resticpal.Time.{DateTime, Chrono, minutes, hours, checked_cases}
use resticpal.Config.{EffectiveConfig}
use resticpal.Service.{RuntimeState, ScheduleAction}
use resticpal.Service.Scheduler.{SystemConditions, evaluate_schedule}
use resticpal.Service.Steps.Deferral.{Undisturbed, Undisturbed-IsPutOff, put_off-none}
use resticpal.Service.Effect.{Env, Effect}
use resticpal.Service.Operation.{accepted}
use resticpal.Service.Requests.{defer_backup}

module _ (chrono : Chrono) (config : EffectiveConfig) where
  -- What an accepted deferral leaves: the time until which backups are put off.
  defer_backup-accepted :
      (env : Env) (m : ℕ) (state state' : RuntimeState) (effects : List Effect)
      → env.clock 0 + hours 24 ≤ chrono.max_utc
      → defer_backup chrono config env m state ≡ (state', accepted, effects)
      → (state'.manual_requested ≡ false)
        × (state'.not_before ≡ some (env.clock 0 + minutes m))
        × (state'.status.next_deadline ≡ some (env.clock 0 + minutes m))
  unfolding defer_backup
  defer_backup-accepted env m state state' effects fits h =
      ground (arith, checked_cases chrono (env.clock 0) (minutes m))

  -- After a deferral that was accepted, no evaluation starts a backup until the minutes that were asked
  -- for are over, however many evaluations there are and whatever else is asked of the service under the
  -- same configuration, unless a backup is asked for, deferred again or ends. A time one day ahead must be
  -- representable.
  pub defer_backup-holds :
      (env : Env) (conditions : SystemConditions) (m : ℕ)
      (state deferred_state next state' : RuntimeState) (effects : List Effect) (later : DateTime)
      (action : ScheduleAction)
      → env.clock 0 + hours 24 ≤ chrono.max_utc
      → defer_backup chrono config env m state ≡ (deferred_state, accepted, effects)
      → Undisturbed chrono config (env.clock 0 + minutes m) deferred_state next
      → later < env.clock 0 + minutes m
      → evaluate_schedule chrono config conditions next later ≡ some (state', action)
      → action ≡ ScheduleAction.none
  defer_backup-holds env conditions m state deferred_state next state' effects later action fits h
        between l e =
      let (manual, time, deadline) =
        defer_backup-accepted env m state deferred_state effects fits h in
      let until = env.clock 0 + minutes m in
      put_off-none chrono config until conditions next state' later action
        (Undisturbed-IsPutOff chrono config until between (inr (manual, time))) l e
