-- ===== src/Service/Steps/Pruning.antt =====
-- What the service remembers of its last prune (apps/resticpal-service/src/runtime/state.rs) between the
-- end of one retention and the start of the next.
use resticpal.Prelude.{Bool, true, false, some, ◌≡◌, refl, arith, ◌∙◌}
use resticpal.Time.{DateTime, Chrono}
use resticpal.Config.{EffectiveConfig}
use resticpal.Schedule.{ScheduleDecision, decide}
use resticpal.Service.{RuntimeState, ScheduleAction}
use resticpal.Service.Snapshot.{require_repository_validation, mark_repository_verified}
use resticpal.Service.Status.{apply_configuration_status}
use resticpal.Service.Scheduler.{
  SystemConditions, record_resume, release_hold, apply_decision, evaluate_released,
  evaluate_schedule, snapshot_of,
}
use resticpal.Service.Lifecycle.{update_progress, finish_update_install, finished, finish_backup_at}
use resticpal.Service.Retention.{begin_retention}
use resticpal.Service.Operation.{
  refuse_operation, operation_begun, begin_repository_operation, finish_repository_operation,
}
use resticpal.Service.Requests.{run_backup_now, cancel_backup, defer_backup}
use resticpal.Service.Update.{
  refuse_update, held, hold_undone, prepare_for_update, begin_update_install,
}
use resticpal.Service.Steps.{
  Step, evaluates, resumes, progresses, starts_retention, ends_retention, ends_backup,
  ends_operation, ends_update, asks_run, asks_cancel, asks_defer, asks_operation, asks_hold,
  asks_install,
}

apply_decision-service_state :
    (s t : RuntimeState) (now : DateTime) (decision : ScheduleDecision) (action : ScheduleAction)
    → apply_decision s now decision ≡ some (t, action)
    → t.service_state ≡ s.service_state
unfolding apply_decision
apply_decision-service_state s t now decision action h = ground arith

release_hold-service_state :
    (s : RuntimeState) (now : DateTime) → (release_hold s now).service_state ≡ s.service_state
unfolding release_hold
release_hold-service_state s now = ground arith

module _ (chrono : Chrono) (config : EffectiveConfig) where
  evaluate_released-service_state :
      (conditions : SystemConditions) (s t : RuntimeState) (now : DateTime)
      (action : ScheduleAction)
      → evaluate_released chrono config conditions s now ≡ some (t, action)
      → t.service_state ≡ s.service_state
  unfolding evaluate_released
  evaluate_released-service_state conditions s t now action h = ground (
    arith,
    apply_decision-service_state s t now
        (decide chrono config.schedule (snapshot_of config conditions s now)) action,
  )

  evaluate_schedule-service_state :
      (conditions : SystemConditions) (s t : RuntimeState) (now : DateTime)
      (action : ScheduleAction)
      → evaluate_schedule chrono config conditions s now ≡ some (t, action)
      → t.service_state ≡ s.service_state
  unfolding evaluate_schedule
  evaluate_schedule-service_state conditions s t now action h =
      let same = release_hold-service_state s now in
      ground (arith, evaluate_released-service_state conditions (release_hold s now) t now action)

  abbrev pub ends_a_retention : {s t : RuntimeState} → Step chrono config s t → Bool
  ends_a_retention (ends_retention env backup retention now h) = true
  ends_a_retention st = false

  -- Calls among which no retention ends.
  pub data Unretained (s : RuntimeState) : RuntimeState → Type 0 where
    here : Unretained s s
    next :
        {t u : RuntimeState}
        → Unretained s t
        → (st : Step chrono config t u) → ends_a_retention st ≡ false
        → Unretained s u

  Step-last_prune :
      {s t : RuntimeState} (st : Step chrono config s t)
      → ends_a_retention st ≡ false
      → t.service_state.last_prune ≡ s.service_state.last_prune
  unfolding record_resume update_progress begin_retention finish_backup_at finished
      finish_repository_operation apply_configuration_status finish_update_install run_backup_now
      cancel_backup defer_backup begin_repository_operation operation_begun refuse_operation
      prepare_for_update begin_update_install refuse_update held hold_undone
      require_repository_validation mark_repository_verified
  Step-last_prune {s} {t} (evaluates c n a h) u =
      let same = evaluate_schedule-service_state c s t n a h in cc
  Step-last_prune (resumes now h) u = ground arith
  Step-last_prune (progresses q h) u = ground arith
  Step-last_prune (starts_retention now q h) u = ground arith
  Step-last_prune (ends_retention env b r now h) u = absurd (cc)
  Step-last_prune (ends_backup env outcome now h) u = ground arith
  Step-last_prune (ends_operation env o k h) u = ground arith
  Step-last_prune (ends_update o now a h) u = ground arith
  Step-last_prune (asks_run env h) u = ground arith
  Step-last_prune (asks_cancel env h) u = ground arith
  Step-last_prune (asks_defer env m h) u = ground arith
  Step-last_prune (asks_operation env a o h) u = ground arith
  Step-last_prune (asks_hold env a n h) u = ground arith
  Step-last_prune (asks_install env v h) u = ground arith

  -- Until a retention ends, the time of the last prune stays.
  pub Unretained-last_prune :
      {s t : RuntimeState}
      → Unretained s t
      → t.service_state.last_prune ≡ s.service_state.last_prune
  Unretained-last_prune here = refl
  Unretained-last_prune (next before st u) = Step-last_prune st u ∙ Unretained-last_prune before
