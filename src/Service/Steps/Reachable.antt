-- ===== src/Service/Steps/Reachable.antt =====
-- What holds of every state that the service reaches, and from one step to the next.
use resticpal.Service.Steps.Evaluation.{evaluate_schedule-Exclusive}
use resticpal.Prelude.{Bool, true, false, ◌≡◌, arith, ℕ, ◌+◌, ◌≤◌, ◌⊎◌}
use resticpal.Time.{DateTime, Chrono}
use resticpal.Config.{EffectiveConfig}
use resticpal.Policy.{ResolvedConfig}
use resticpal.Service.{ServiceStateSnapshot, RuntimeState, is_running, is_repository_running}
use resticpal.Service.Status.{
  repository_operation_allows_backup, loaded_operation, from_resolved_with_state,
}
use resticpal.Service.Steps.{
  Step, evaluates, resumes, progresses, starts_retention, ends_retention, ends_backup,
  ends_operation, ends_update, asks_run, asks_cancel, asks_defer, asks_operation, asks_hold,
  asks_install, Reach, here, next,
}
use resticpal.Service.Steps.Exclusive.{
  Exclusive, record_resume-Exclusive, update_progress-Exclusive, begin_retention-Exclusive,
  finish_retention-Exclusive, finish_backup_at-Exclusive, finish_repository_operation-Exclusive,
  finish_update_install-Exclusive, run_backup_now-Exclusive, cancel_backup-Exclusive,
  defer_backup-Exclusive, begin_repository_operation-Exclusive, prepare_for_update-Exclusive,
  begin_update_install-Exclusive,
}

module _ (chrono : Chrono) (config : EffectiveConfig) where
  -- Every step keeps the invariant.
  pub Step-Exclusive : {s t : RuntimeState} → Step chrono config s t → Exclusive s → Exclusive t
  Step-Exclusive {s} {t} (evaluates c n a h) e =
      evaluate_schedule-Exclusive chrono config c s t n a e h
  Step-Exclusive {s} (resumes n h) e = rw h (record_resume-Exclusive s n e)
  Step-Exclusive {s} (progresses p h) e = rw h (update_progress-Exclusive s p e)
  Step-Exclusive {s} (starts_retention n r h) e =
      rw h (begin_retention-Exclusive chrono config s n r e)
  Step-Exclusive {s} (ends_retention env b k n h) e =
      rw h (finish_retention-Exclusive env s b k n e)
  Step-Exclusive {s} (ends_backup env b n h) e =
      rw h (finish_backup_at-Exclusive chrono config env s b n e)
  Step-Exclusive {s} (ends_operation env o k h) e =
      rw h (finish_repository_operation-Exclusive chrono config env s o k e)
  Step-Exclusive {s} (ends_update o n a h) e = rw h (finish_update_install-Exclusive s o n a e)
  Step-Exclusive {s} (asks_run env h) e = rw h (run_backup_now-Exclusive chrono config env s e)
  Step-Exclusive {s} (asks_cancel env h) e = rw h (cancel_backup-Exclusive env s e)
  Step-Exclusive {s} (asks_defer env m h) e = rw h (defer_backup-Exclusive chrono config env m s e)
  Step-Exclusive {s} (asks_operation env a o h) e =
      rw h (begin_repository_operation-Exclusive chrono config env a o s e)
  Step-Exclusive {s} (asks_hold env a n h) e =
      rw h (prepare_for_update-Exclusive chrono config env a n s e)
  Step-Exclusive {s} (asks_install env v h) e =
      rw h (begin_update_install-Exclusive chrono config env v s e)

  Reach-Exclusive : {s t : RuntimeState} → Exclusive s → Reach chrono config s t → Exclusive t
  Reach-Exclusive e here = e
  Reach-Exclusive e (next r st) = Step-Exclusive st (Reach-Exclusive e r)

pub from_resolved_with_state-Exclusive :
    (chrono : Chrono) (resolved : ResolvedConfig) (snapshot : ServiceStateSnapshot) (now : DateTime)
    → Exclusive (from_resolved_with_state chrono resolved snapshot now)
unfolding from_resolved_with_state loaded_operation
from_resolved_with_state-Exclusive chrono resolved snapshot now = ground arith

abbrev pub tally : Bool → ℕ
tally true = 1
tally false = 0

Exclusive-tally :
    (t : RuntimeState)
    → Exclusive t
    → (tally (is_running t.status.state)
          + tally (is_repository_running t.repository_operation)
          + tally t.update_install_active
        ≤ 1)
      × ((is_running t.status.state ≡ false)
          ⊎ (repository_operation_allows_backup t.repository_operation ≡ true))
Exclusive-tally t e = ground arith

-- In every state that the calls reach from the start of the service under one configuration, at most
-- one of a backup, a repository operation and an update installation is under way, and a backup runs
-- only on a repository whose last operation succeeded.
pub service_exclusive :
    (chrono : Chrono) (resolved : ResolvedConfig) (snapshot : ServiceStateSnapshot) (now : DateTime)
    (t : RuntimeState)
    → Reach chrono resolved.effective (from_resolved_with_state chrono resolved snapshot now) t
    → (tally (is_running t.status.state)
          + tally (is_repository_running t.repository_operation)
          + tally t.update_install_active
        ≤ 1)
      × ((is_running t.status.state ≡ false)
          ⊎ (repository_operation_allows_backup t.repository_operation ≡ true))
service_exclusive chrono resolved snapshot now t r =
    let e =
      Reach-Exclusive chrono resolved.effective
        (from_resolved_with_state-Exclusive chrono resolved snapshot now) r in
    Exclusive-tally t e
