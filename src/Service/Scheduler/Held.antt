-- ===== src/Service/Scheduler/Held.antt =====
-- What keeps `evaluate_schedule` of apps/resticpal-service/src/runtime/scheduler.rs from starting a
-- backup: the time before a retry or a deferral is over.
use resticpal.Prelude.{◌<◌, false, some, ◌≡◌, ◌≢◌, refl, arith, ◌∙◌}
use resticpal.Time.{DateTime, Chrono}
use resticpal.Config.{EffectiveConfig}
use resticpal.Schedule.{
  BackupTrigger, start, SchedulerSnapshot, ScheduleConfig, next_deadline, decide,
}
use resticpal.Service.{RuntimeState, ScheduleAction}
use resticpal.Service.Scheduler.{SystemConditions, release_hold, snapshot_of, evaluate_schedule}
use resticpal.Service.Scheduler.Start.{evaluate_schedule-start}

-- Before the time that a deferral or a retry sets, the scheduler starts only what was asked for.
decide_deferred :
    (chrono : Chrono) (config : ScheduleConfig) (s : SchedulerSnapshot) (t : BackupTrigger)
    (until : DateTime)
    → s.manual_requested ≡ false
    → s.not_before ≡ some until
    → s.now < until
    → decide chrono config s ≢ start t
unfolding decide next_deadline
decide_deferred chrono config s t until m n l h = ground arith

module _ (chrono : Chrono) (config : EffectiveConfig) (conditions : SystemConditions) where
  pub release_hold_keeps :
      (state : RuntimeState) (now : DateTime)
      → ((release_hold state now).manual_requested ≡ state.manual_requested)
        × ((release_hold state now).not_before ≡ state.not_before)
        × ((release_hold state now).status.last_success ≡ state.status.last_success)
  unfolding release_hold
  release_hold_keeps state now = ground arith

  -- Before `not_before` no evaluation starts a backup, unless one was asked for.
  pub evaluate_schedule-not_before :
      (state state' : RuntimeState) (now until : DateTime) (action : ScheduleAction)
      → state.manual_requested ≡ false
      → state.not_before ≡ some until
      → now < until
      → evaluate_schedule chrono config conditions state now ≡ some (state', action)
      → action ≡ ScheduleAction.none
  evaluate_schedule-not_before state state' now until ScheduleAction.none m n l h = refl
  evaluate_schedule-not_before state state' now until (ScheduleAction.start t) m n l h =
      let (manual, not_before, last) = release_hold_keeps state now in
      absurd (
        decide_deferred chrono config.schedule
          (snapshot_of config conditions (release_hold state now) now) t until (manual ∙ m)
          (not_before ∙ n) l
          (evaluate_schedule-start chrono config conditions state state' now t h).decided)
