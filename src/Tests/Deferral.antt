-- ===== src/Tests/Deferral.antt =====
-- A deferral at a concrete state.
use resticpal.Prelude.{◌+◌, false, some, [], ◌∷◌, ◌≡◌, refl, arith}
use resticpal.Time.{minutes}
use resticpal.Config.{is_configured}
use resticpal.Schedule.{trigger, completion_deadline, next_deadline, grace_block, blockers, decide}
use resticpal.Service.{RuntimeState, ScheduleAction}
use resticpal.Service.Scheduler.{release_hold, apply_decision, evaluate_released, evaluate_schedule}
use resticpal.Service.Steps.{evaluates}
use resticpal.Service.Steps.Deferral.{Undisturbed}
use resticpal.Service.Effect.{deferred, send}
use resticpal.Service.Operation.{accepted}
use resticpal.Service.Requests.{defer_backup}
use resticpal.Service.Requests.Deferred.{defer_backup-holds}
use resticpal.Tests.Data.{calendar, configured, env, good_conditions, noon, ready}

abbrev put_off : RuntimeState
put_off = record ready {
  manual_requested = false;
  not_before = some (noon + minutes 30);
  status = record ready.status { next_deadline = some (noon + minutes 30) };
}

deferral_accepted :
    defer_backup calendar configured env 30 ready ≡ (put_off, accepted, send deferred ∷ [])
unfolding defer_backup is_configured
deferral_accepted = refl

still_put_off :
    evaluate_schedule calendar configured good_conditions put_off (noon + minutes 20)
    ≡ some (put_off, ScheduleAction.none)
unfolding evaluate_schedule evaluate_released release_hold apply_decision is_configured decide
    next_deadline completion_deadline blockers grace_block trigger
still_put_off = refl

first_look :
    evaluate_schedule calendar configured good_conditions put_off (noon + minutes 10)
    ≡ some (put_off, ScheduleAction.none)
unfolding evaluate_schedule evaluate_released release_hold apply_decision is_configured decide
    next_deadline completion_deadline blockers grace_block trigger
first_look = refl

defer_backup-holds_example : ScheduleAction.none ≡ ScheduleAction.none
defer_backup-holds_example =
    defer_backup-holds calendar configured env good_conditions 30 ready put_off put_off put_off
      (send deferred ∷ []) (noon + minutes 20) ScheduleAction.none (omega arith) deferral_accepted
      (Undisturbed.next Undisturbed.here
        (evaluates good_conditions (noon + minutes 10) ScheduleAction.none first_look)
        (omega arith))
      (omega arith) still_put_off
