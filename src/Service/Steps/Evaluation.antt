-- ===== src/Service/Steps/Evaluation.antt =====
-- Evaluating the schedule keeps backups, repository operations and updates apart.
use resticpal.Schedule.{ScheduleDecision, already_running, decide}
use resticpal.Service.Steps.Exclusive.{Exclusive}
use resticpal.Prelude.{true, false, none, some, ◌≡◌, arith}
use resticpal.Time.{DateTime, Chrono}
use resticpal.Config.{EffectiveConfig}
use resticpal.Service.{RuntimeState, ScheduleAction}
use resticpal.Service.Status.{repository_operation_allows_backup, transition_state}
use resticpal.Service.Scheduler.{
  SystemConditions, release_hold, apply_decision, evaluate_released, evaluate_schedule, snapshot_of,
}

release_hold-Exclusive :
    (s : RuntimeState) (now : DateTime)
    → Exclusive s
    → Exclusive (release_hold s now)
      × ((release_hold s now).update_hold_until ≡ none)
      × ((release_hold s now).update_install_active ≡ s.update_install_active)
unfolding release_hold
release_hold-Exclusive s now e = (ground arith, ground arith, ground arith)

apply_decision-Exclusive :
    (s t : RuntimeState) (now : DateTime) (decision : ScheduleDecision) (action : ScheduleAction)
    → Exclusive s
    → s.update_hold_until ≡ none
    → s.update_install_active ≡ false
    → repository_operation_allows_backup s.repository_operation ≡ true
    → apply_decision s now decision ≡ some (t, action)
    → Exclusive t
unfolding apply_decision transition_state
apply_decision-Exclusive s t now already_running action e u a r h = ground arith
apply_decision-Exclusive s t now _ action e u a r h = ground arith

evaluate_released-Exclusive :
    (chrono : Chrono) (config : EffectiveConfig) (conditions : SystemConditions)
    (s t : RuntimeState) (now : DateTime) (action : ScheduleAction)
    → Exclusive s
    → s.update_hold_until ≡ none
    → s.update_install_active ≡ false
    → evaluate_released chrono config conditions s now ≡ some (t, action)
    → Exclusive t
unfolding evaluate_released
evaluate_released-Exclusive chrono config conditions s t now action e u a h = ground (
  arith,
  apply_decision-Exclusive s t now
      (decide chrono config.schedule (snapshot_of config conditions s now)) action e u a,
)

pub evaluate_schedule-Exclusive :
    (chrono : Chrono) (config : EffectiveConfig) (conditions : SystemConditions)
    (s t : RuntimeState) (now : DateTime) (action : ScheduleAction)
    → Exclusive s
    → evaluate_schedule chrono config conditions s now ≡ some (t, action)
    → Exclusive t
unfolding evaluate_schedule transition_state
evaluate_schedule-Exclusive chrono config conditions s t now action e h =
    let (kept, free, same) = release_hold-Exclusive s now e in
    ground (
      arith,
      λ (a : (release_hold s now).update_install_active ≡ false).
          evaluate_released-Exclusive chrono config conditions (release_hold s now) t now action
            kept free a,
    )
