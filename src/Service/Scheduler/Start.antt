-- ===== src/Service/Scheduler/Start.antt =====
-- When `evaluate_schedule` of apps/resticpal-service/src/runtime/scheduler.rs starts a backup, and that
-- it always answers.
use resticpal.Prelude.{
  true, false, Option, none, some, [], ◌∷◌, ◌≡◌, ◌≢◌, refl, arith, Option-cases, inl, inr,
}
use resticpal.Time.{DateTime, Chrono}
use resticpal.Config.{EffectiveConfig, is_configured}
use resticpal.Schedule.{
  BackupTrigger, ScheduleDecision, already_running, idle, waiting, start, decide,
}
use resticpal.Schedule.Decision.{decide-waiting}
use resticpal.Service.{BackupState, BackupPhase, RuntimeState, ScheduleAction, is_pending}
use resticpal.Service.Status.{repository_operation_allows_backup}
use resticpal.Service.Scheduler.{
  SystemConditions, release_hold, apply_decision, snapshot_of, evaluate_released, evaluate_schedule,
}

-- Only a wait without blockers has no answer.
apply_decision-none :
    (state : RuntimeState) (now : DateTime) (decision : ScheduleDecision)
    → apply_decision state now decision ≡ none
    → (t : BackupTrigger) × (retry : Option DateTime) × (decision ≡ waiting t [] retry)
unfolding apply_decision
apply_decision-none state now already_running h = cc
apply_decision-none state now (idle d) h = cc
apply_decision-none state now (start t) h = cc
apply_decision-none state now (waiting t [] retry) h = (t, retry, refl)
apply_decision-none state now (waiting t (b ∷ bs) retry) h = cc

module _ (chrono : Chrono) (config : EffectiveConfig) (conditions : SystemConditions) where
  decided-ne-none :
      (state : RuntimeState) (now : DateTime)
      → apply_decision state now
          (decide chrono config.schedule (snapshot_of config conditions state now))
        ≢ none
  decided-ne-none state now h =
      let (t, retry, e) = apply_decision-none state now _ h in
      (decide-waiting chrono config.schedule (snapshot_of config conditions state now) e).0 refl

  evaluate_schedule-ne-none :
      (state : RuntimeState) (now : DateTime)
      → evaluate_schedule chrono config conditions state now ≢ none
  unfolding evaluate_schedule evaluate_released
  evaluate_schedule-ne-none state now = ground (arith, decided-ne-none (release_hold state now) now)

  -- Evaluating the schedule always answers: `blockers[0]` is never read from an empty list.
  pub evaluate_schedule_total :
      (state : RuntimeState) (now : DateTime)
      → (result : RuntimeState × ScheduleAction) × (evaluate_schedule chrono config conditions state
            now
          ≡ some result)
  evaluate_schedule_total state now =
      elim (Option-cases (evaluate_schedule chrono config conditions state now)) [
        | inl e ↦ absurd (evaluate_schedule-ne-none state now e)
        | inr found ↦ found
      ]

  -- What is known when an evaluation starts a backup.
  pub record Started (state : RuntimeState) (now : DateTime) (t : BackupTrigger)
      (state' : RuntimeState) : Type 0 where
    pub configured : is_configured config ≡ true
    pub no_install : state.update_install_active ≡ false
    pub no_hold : is_pending state.update_hold_until now ≡ false
    pub no_management : state.management_operation_active ≡ false
    pub repository_ready : repository_operation_allows_backup state.repository_operation ≡ true
    pub decided :
        decide chrono config.schedule (snapshot_of config conditions (release_hold state now) now)
        ≡ start t
    pub runs : state'.status.state ≡ BackupState.running BackupPhase.preparing_snapshot
    pub attempted : state'.status.last_attempt ≡ some now
    pub requests_spent :
        (state'.manual_requested ≡ false) × (state'.resumed_at ≡ none) × (state'.not_before ≡ none)

  -- An evaluation that starts a backup does so on a configured service whose repository is ready,
  -- with no update and no management operation in the way, by the decision of the scheduler; the
  -- service then runs the backup, and the requests that led to it are spent.
  pub evaluate_schedule-start :
      (state state' : RuntimeState) (now : DateTime) (t : BackupTrigger)
      → evaluate_schedule chrono config conditions state now ≡ some (state', ScheduleAction.start t)
      → Started state now t state'
  unfolding evaluate_schedule evaluate_released apply_decision release_hold
  evaluate_schedule-start state state' now t h = ground arith
