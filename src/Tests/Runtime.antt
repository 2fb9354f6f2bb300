-- ===== src/Tests/Runtime.antt =====
-- The service at concrete states.
use resticpal.Prelude.{◌+◌, ◌≡◌, refl, true, false, none, some, arith}
use resticpal.Time.{minutes}
use resticpal.Config.{is_configured}
use resticpal.Schedule.{
  scheduled, trigger, completion_deadline, next_deadline, grace_block, blockers, decide,
}
use resticpal.Service.{BackupState, RuntimeState, ScheduleAction, is_running, BackupPhase}
use resticpal.Service.Status.{from_resolved_with_state}
use resticpal.Service.Scheduler.{
  record_resume, release_hold, apply_decision, evaluate_released, evaluate_schedule,
}
use resticpal.Service.Scheduler.Start.{Started, evaluate_schedule-start}
use resticpal.Service.Lifecycle.{retry_minutes, finished}
use resticpal.Service.Lifecycle.Backoff.{finished_backoff}
use resticpal.Service.Steps.{evaluates, resumes}
use resticpal.Service.Steps.Deferral.{Undisturbed}
use resticpal.Service.Steps.Exclusive.{Exclusive}
use resticpal.Service.Steps.Persistence.{Unreported, installation_holds}
use resticpal.Tests.Data.{
  calendar, noon, configured, resolution, snapshot, ready, installing, good_conditions, failure,
}

abbrev loaded : RuntimeState
loaded = from_resolved_with_state calendar resolution snapshot noon

installing-Exclusive : Exclusive installing
installing-Exclusive = ground arith

installation_holds_example :
    Exclusive (record_resume installing noon)
    × ((record_resume installing noon).update_install_active ≡ true)
    × (is_running (record_resume installing noon).status.state ≡ false)
installation_holds_example =
    installation_holds calendar configured installing-Exclusive refl
      (Unreported.next Unreported.here (resumes noon refl) refl)

abbrev started : RuntimeState
started = record ready {
  status = record ready.status {
    state = BackupState.running BackupPhase.preparing_snapshot;
    state_since = noon;
    last_attempt = some noon;
    progress = none;
    next_deadline = none;
  };
  manual_requested = false;
  resumed_at = none;
  not_before = none;
}

ready_starts :
    evaluate_schedule calendar configured good_conditions ready noon
    ≡ some (started, ScheduleAction.start scheduled)
unfolding evaluate_schedule evaluate_released release_hold apply_decision is_configured decide
    next_deadline completion_deadline blockers grace_block trigger
ready_starts = ground arith

evaluate_schedule-start_example :
    Started calendar configured good_conditions ready noon scheduled started
evaluate_schedule-start_example =
    evaluate_schedule-start calendar configured good_conditions ready started noon scheduled
      ready_starts

abbrev failed_once : RuntimeState
failed_once = finished calendar configured ready failure noon

failed_once_waits :
    evaluate_schedule calendar configured good_conditions failed_once (noon + minutes 4)
    ≡ some (failed_once, ScheduleAction.none)
unfolding evaluate_schedule evaluate_released release_hold apply_decision is_configured decide
    next_deadline completion_deadline blockers grace_block trigger finished retry_minutes
failed_once_waits = refl

failed_once_looked_at :
    evaluate_schedule calendar configured good_conditions failed_once (noon + minutes 2)
    ≡ some (failed_once, ScheduleAction.none)
unfolding evaluate_schedule evaluate_released release_hold apply_decision is_configured decide
    next_deadline completion_deadline blockers grace_block trigger finished retry_minutes
failed_once_looked_at = refl

finished_backoff_example : ScheduleAction.none ≡ ScheduleAction.none
unfolding retry_minutes
finished_backoff_example =
    finished_backoff calendar configured ready failed_once failed_once failure good_conditions noon
      (noon + minutes 4) ScheduleAction.none refl refl (omega arith)
      (Undisturbed.next Undisturbed.here
        (evaluates good_conditions (noon + minutes 2) ScheduleAction.none failed_once_looked_at)
        (omega arith))
      (omega arith) failed_once_waits
