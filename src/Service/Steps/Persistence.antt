-- ===== src/Service/Steps/Persistence.antt =====
-- What only one call ends: a running backup, and an update installation.
use resticpal.Service.Steps.Reachable.{Step-Exclusive}
use resticpal.Schedule.{decide}
use resticpal.Service.Steps.Exclusive.{Exclusive}
use resticpal.Prelude.{Bool, true, false, some, ◌≡◌, arith}
use resticpal.Time.{DateTime, Chrono}
use resticpal.Config.{EffectiveConfig}
use resticpal.Service.{RuntimeState, ScheduleAction, is_running}
use resticpal.Service.Status.{apply_configuration_status}
use resticpal.Service.Scheduler.{
  SystemConditions, record_resume, release_hold, apply_decision, evaluate_released,
  evaluate_schedule,
}
use resticpal.Service.Lifecycle.{update_progress, finish_update_install, finished, finish_backup_at}
use resticpal.Service.Retention.{RetentionOutcomeKind, begin_retention, retained, finish_retention}
use resticpal.Service.Operation.{
  refuse_operation, begin_repository_operation, finish_repository_operation,
}
use resticpal.Service.Requests.{run_backup_now, cancel_backup, defer_backup}
use resticpal.Service.Update.{refuse_update, prepare_for_update, begin_update_install}
use resticpal.Service.Steps.{
  Step, evaluates, resumes, progresses, starts_retention, ends_retention, ends_backup,
  ends_operation, ends_update, asks_run, asks_cancel, asks_defer, asks_operation, asks_hold,
  asks_install,
}

module _ (chrono : Chrono) (config : EffectiveConfig) where
  abbrev pub ends_the_backup : {s t : RuntimeState} → Step chrono config s t → Bool
  ends_the_backup (ends_backup env outcome now h) = true
  ends_the_backup st = false

  abbrev pub ends_the_update : {s t : RuntimeState} → Step chrono config s t → Bool
  ends_the_update (ends_update outcome now a h) = true
  ends_the_update st = false

  evaluate_schedule-running :
      (conditions : SystemConditions) (s t : RuntimeState) (now : DateTime)
      (action : ScheduleAction)
      → Exclusive s
      → is_running s.status.state ≡ true
      → evaluate_schedule chrono config conditions s now ≡ some (t, action)
      → is_running t.status.state ≡ true
  unfolding evaluate_schedule evaluate_released release_hold apply_decision decide
  evaluate_schedule-running conditions s t now action e r h = ground arith

  evaluate_schedule-installing :
      (conditions : SystemConditions) (s t : RuntimeState) (now : DateTime)
      (action : ScheduleAction)
      → s.update_install_active ≡ true
      → evaluate_schedule chrono config conditions s now ≡ some (t, action)
      → t.update_install_active ≡ true
  unfolding evaluate_schedule
  evaluate_schedule-installing conditions s t now action a h = ground arith

  -- From a state with the invariant in which a backup runs, every call but the report of its end
  -- leads to a state in which a backup runs.
  pub Step-running :
      {s t : RuntimeState} (st : Step chrono config s t)
      → Exclusive s
      → is_running s.status.state ≡ true
      → ends_the_backup st ≡ false
      → is_running t.status.state ≡ true
  unfolding record_resume update_progress begin_retention finish_retention retained
      finish_repository_operation finish_update_install run_backup_now cancel_backup defer_backup
      begin_repository_operation refuse_operation prepare_for_update begin_update_install
      refuse_update
  Step-running {s} {t} (evaluates c n a h) e r u = evaluate_schedule-running c s t n a e r h
  Step-running (resumes now h) e r u = ground arith
  Step-running (progresses p h) e r u = ground arith
  Step-running (starts_retention now q h) e r u = ground arith
  Step-running (ends_retention env b (RetentionOutcomeKind.succeeded p) now h) e r u = ground arith
  Step-running (ends_retention env b (RetentionOutcomeKind.failed p) now h) e r u = ground arith
  Step-running (ends_retention env b RetentionOutcomeKind.cancelled now h) e r u = ground arith
  Step-running (ends_backup env outcome now h) e r u = cc
  Step-running (ends_operation env o k h) e r u = ground arith
  Step-running (ends_update o now a h) e r u = ground arith
  Step-running (asks_run env h) e r u = ground arith
  Step-running (asks_cancel env h) e r u = ground arith
  Step-running (asks_defer env m h) e r u = ground arith
  Step-running (asks_operation env a o h) e r u = ground arith
  Step-running (asks_hold env a n h) e r u = ground arith
  Step-running (asks_install env v h) e r u = ground arith

  -- An installation under way stays so until it is reported to have ended.
  pub Step-installing :
      {s t : RuntimeState} (st : Step chrono config s t)
      → s.update_install_active ≡ true
      → ends_the_update st ≡ false
      → t.update_install_active ≡ true
  unfolding record_resume update_progress begin_retention finish_retention retained finish_backup_at
      finished finish_repository_operation apply_configuration_status run_backup_now cancel_backup
      defer_backup begin_repository_operation refuse_operation prepare_for_update
      begin_update_install refuse_update
  Step-installing {s} {t} (evaluates c n a h) i u = evaluate_schedule-installing c s t n a i h
  Step-installing (resumes now h) i u = ground arith
  Step-installing (progresses p h) i u = ground arith
  Step-installing (starts_retention now q h) i u = ground arith
  Step-installing (ends_retention env b (RetentionOutcomeKind.succeeded p) now h) i u = ground arith
  Step-installing (ends_retention env b (RetentionOutcomeKind.failed p) now h) i u = ground arith
  Step-installing (ends_retention env b RetentionOutcomeKind.cancelled now h) i u = ground arith
  Step-installing (ends_backup env outcome now h) i u = ground arith
  Step-installing (ends_operation env o k h) i u = ground arith
  Step-installing (ends_update o now a h) i u = cc
  Step-installing (asks_run env h) i u = ground arith
  Step-installing (asks_cancel env h) i u = ground arith
  Step-installing (asks_defer env m h) i u = ground arith
  Step-installing (asks_operation env a o h) i u = ground arith
  Step-installing (asks_hold env a n h) i u = ground arith
  Step-installing (asks_install env v h) i u = ground arith

  quiet :
      {s : RuntimeState}
      → Exclusive s
      → s.update_install_active ≡ true
      → is_running s.status.state ≡ false
  quiet {s} e a = ground arith

  -- Steps none of which reports the end of an installation.
  pub data Unreported (s : RuntimeState) : RuntimeState → Type 0 where
    here : Unreported s s
    next :
        {t u : RuntimeState}
        → Unreported s t
        → (st : Step chrono config t u) → ends_the_update st ≡ false
        → Unreported s u

  -- From a state with the invariant in which an installation is under way, no sequence of calls
  -- without a report of its end brings a backup to run or takes the installation to be over, and the
  -- invariant holds after it.
  pub installation_holds :
      {s t : RuntimeState}
      → Exclusive s
      → s.update_install_active ≡ true
      → Unreported s t
      → Exclusive t × (t.update_install_active ≡ true) × (is_running t.status.state ≡ false)
  installation_holds e a here = (e, a, quiet e a)
  installation_holds e a (next r st n) =
      let (before, active, idle) = installation_holds e a r in
      let after = Step-Exclusive chrono config st before in
      let active' = Step-installing st active n in (after, active', quiet after active')
