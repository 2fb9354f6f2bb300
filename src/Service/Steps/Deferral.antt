-- ===== src/Service/Steps/Deferral.antt =====
-- How long a wait set by a failure or a deferral (apps/resticpal-service/src/runtime/lifecycle.rs, ipc.rs)
-- lasts while the service goes on with everything else.
use resticpal.Prelude.{◌<◌, true, false, some, ◌≡◌, ◌⊎◌, inl, inr, refl, subst, arith}
use resticpal.Time.{DateTime, Chrono}
use resticpal.Schedule.{ScheduleDecision, decide}
use resticpal.Config.{EffectiveConfig, is_configured}
use resticpal.Service.{RuntimeState, ScheduleAction}
use resticpal.Service.Status.{apply_configuration_status}
use resticpal.Service.Scheduler.{
  SystemConditions, record_resume, release_hold, apply_decision, evaluate_released,
  evaluate_schedule, snapshot_of,
}
use resticpal.Service.Scheduler.Start.{evaluate_schedule-start}
use resticpal.Service.Scheduler.Held.{evaluate_schedule-not_before, release_hold_keeps}
use resticpal.Service.Lifecycle.{update_progress, finish_update_install}
use resticpal.Service.Retention.{RetentionOutcomeKind, begin_retention, retained, finish_retention}
use resticpal.Service.Operation.{
  refuse_operation, operation_begun, begin_repository_operation, finish_repository_operation,
}
use resticpal.Service.Requests.{cancel_backup}
use resticpal.Service.Update.{
  refuse_update, held, hold_undone, prepare_for_update, begin_update_install,
}
use resticpal.Service.Steps.{
  Step, evaluates, resumes, progresses, starts_retention, ends_retention, ends_backup,
  ends_operation, ends_update, asks_run, asks_cancel, asks_defer, asks_operation, asks_hold,
  asks_install,
}

module _ (chrono : Chrono) (config : EffectiveConfig) (until : DateTime) where
  -- A call that sets no other time for the next backup: no request for a backup or a deferral, no end of
  -- a backup, and no evaluation after the time is over.
  abbrev pub Leaves : {s t : RuntimeState} → Step chrono config s t → Type 0
  Leaves (evaluates c now action h) = now < until
  Leaves (ends_backup env outcome now h) = ◌≡◌ true false
  Leaves (asks_run env h) = ◌≡◌ true false
  Leaves (asks_defer env m h) = ◌≡◌ true false
  Leaves st = Unit

  -- Calls of that kind, one after the other.
  pub data Undisturbed (s : RuntimeState) : RuntimeState → Type 0 where
    here : Undisturbed s s
    next :
        {t u : RuntimeState}
        → Undisturbed s t
        → (st : Step chrono config t u) → Leaves st
        → Undisturbed s u

  -- Nothing was asked for, and nothing may start before the time; or there is nothing to back up to.
  abbrev pub IsPutOff : RuntimeState → Type 0
  IsPutOff s =
      (is_configured config ≡ false) ⊎ ((s.manual_requested ≡ false) × (s.not_before ≡ some until))

  apply_decision-put_off :
      (s t : RuntimeState) (now : DateTime) (decision : ScheduleDecision)
      → apply_decision s now decision ≡ some (t, ScheduleAction.none)
      → (t.manual_requested ≡ s.manual_requested) × (t.not_before ≡ s.not_before)
  unfolding apply_decision
  apply_decision-put_off s t now decision h = (ground arith, ground arith)

  evaluate_released-put_off :
      (conditions : SystemConditions) (s t : RuntimeState) (now : DateTime)
      → evaluate_released chrono config conditions s now ≡ some (t, ScheduleAction.none)
      → (t.manual_requested ≡ s.manual_requested) × (t.not_before ≡ s.not_before)
  unfolding evaluate_released
  evaluate_released-put_off conditions s t now h =
      let applied =
        apply_decision-put_off s t now
          (decide chrono config.schedule (snapshot_of config conditions s now)) in
      (ground (arith, applied), ground (arith, applied))

  evaluate_schedule-put_off :
      (conditions : SystemConditions) (s t : RuntimeState) (now : DateTime)
      → evaluate_schedule chrono config conditions s now ≡ some (t, ScheduleAction.none)
      → (t.manual_requested ≡ s.manual_requested) × (t.not_before ≡ s.not_before)
  unfolding evaluate_schedule
  evaluate_schedule-put_off conditions s t now h =
      let (manual, time, last) = release_hold_keeps chrono config conditions s now in
      let released = evaluate_released-put_off conditions (release_hold s now) t now in
      (ground (arith, released), ground (arith, released))

  -- An evaluation before the time starts nothing.
  pub put_off-none :
      (conditions : SystemConditions) (s t : RuntimeState) (now : DateTime)
      (action : ScheduleAction)
      → IsPutOff s
      → now < until
      → evaluate_schedule chrono config conditions s now ≡ some (t, action)
      → action ≡ ScheduleAction.none
  put_off-none conditions s t now ScheduleAction.none p l h = refl
  put_off-none conditions s t now (ScheduleAction.start trigger) (inl off) l h =
      let started = evaluate_schedule-start chrono config conditions s t now trigger h in
      let on = started.configured in cc
  put_off-none conditions s t now (ScheduleAction.start trigger) (inr (manual, time)) l h =
      evaluate_schedule-not_before chrono config conditions s t now until
        (ScheduleAction.start trigger) manual time l h

  kept :
      (s t : RuntimeState)
      → IsPutOff s
      → (t.manual_requested ≡ s.manual_requested) × (t.not_before ≡ s.not_before)
      → IsPutOff t
  kept s t (inl off) e = inl off
  kept s t (inr (manual, time)) (m, n) = inr (ground arith, ground arith)

  put_off-evaluates :
      (conditions : SystemConditions) (s t : RuntimeState) (now : DateTime)
      (action : ScheduleAction)
      → IsPutOff s
      → now < until
      → evaluate_schedule chrono config conditions s now ≡ some (t, action)
      → IsPutOff t
  put_off-evaluates conditions s t now action p l h = kept s t p (
      evaluate_schedule-put_off conditions s t now (
        subst (λ a. evaluate_schedule chrono config conditions s now ≡ some (t, a))
          (put_off-none conditions s t now action p l h) h))

  Step-put_off :
      {s t : RuntimeState} (st : Step chrono config s t) → Leaves st → IsPutOff s → IsPutOff t
  unfolding record_resume update_progress begin_retention finish_retention retained
      finish_repository_operation apply_configuration_status finish_update_install cancel_backup
      begin_repository_operation operation_begun refuse_operation prepare_for_update
      begin_update_install refuse_update held hold_undone
  Step-put_off {s} {t} (evaluates c n a h) l p = put_off-evaluates c s t n a p l h
  Step-put_off (resumes now h) l p = ground arith
  Step-put_off (progresses q h) l p = ground arith
  Step-put_off (starts_retention now q h) l p = ground arith
  Step-put_off (ends_retention env b (RetentionOutcomeKind.succeeded q) now h) l p = ground arith
  Step-put_off (ends_retention env b (RetentionOutcomeKind.failed q) now h) l p = ground arith
  Step-put_off (ends_retention env b RetentionOutcomeKind.cancelled now h) l p = ground arith
  Step-put_off (ends_backup env outcome now h) l p = absurd (cc)
  Step-put_off (ends_operation env o k h) l p = ground arith
  Step-put_off (ends_update o now a h) l p = ground arith
  Step-put_off (asks_run env h) l p = absurd (cc)
  Step-put_off (asks_cancel env h) l p = ground arith
  Step-put_off (asks_defer env m h) l p = absurd (cc)
  Step-put_off (asks_operation env a o h) l p = ground arith
  Step-put_off (asks_hold env a n h) l p = ground arith
  Step-put_off (asks_install env v h) l p = ground arith

  -- Whatever else is asked of the service, the wait lasts.
  pub Undisturbed-IsPutOff : {s t : RuntimeState} → Undisturbed s t → IsPutOff s → IsPutOff t
  Undisturbed-IsPutOff here p = p
  Undisturbed-IsPutOff (next before st l) p = Step-put_off st l (Undisturbed-IsPutOff before p)
