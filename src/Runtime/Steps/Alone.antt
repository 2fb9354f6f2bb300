-- ===== src/Runtime/Steps/Alone.antt =====
-- What every call keeps, changes of the configuration included: an enrollment excludes all other work.
use resticpal.Service.Update.{prepare_for_update, begin_update_install, held, hold_undone}
use resticpal.Service.Requests.{run_backup_now, cancel_backup, defer_backup}
use resticpal.Service.Effect.{Env}
use resticpal.Runtime.Steps.{is_request}
use resticpal.Prelude.{Bool, false, some, ◌≡◌, ◌⊎◌, arith, ℕ}
use resticpal.Time.{DateTime, Chrono}
use resticpal.Config.{EffectiveConfig}
use resticpal.Schedule.{ScheduleDecision, decide}
use resticpal.Service.{
  RuntimeState, ScheduleAction, is_running, is_repository_running, RepositoryOperationKind,
}
use resticpal.Service.Status.{apply_configuration_status, transition_state}
use resticpal.Service.Scheduler.{
  SystemConditions, record_resume, release_hold, apply_decision, evaluate_released,
  evaluate_schedule, snapshot_of,
}
use resticpal.Service.Lifecycle.{
  update_progress, finish_update_install, finished, finish_backup_at, RepositoryOutcomeKind,
}
use resticpal.Service.Retention.{begin_retention, retained, finish_retention}
use resticpal.Service.Operation.{
  finish_repository_operation, begin_repository_operation, operation_begun,
}
use resticpal.Service.Steps.{
  Step, evaluates, resumes, progresses, starts_retention, ends_retention, ends_backup,
  ends_operation, ends_update, asks_run, asks_cancel, asks_defer, asks_operation, asks_hold,
  asks_install,
}
use resticpal.Service.Steps.Exclusive.{Exclusive}

-- While an enrollment is under way, nothing else is.
abbrev pub IsManagedAlone : RuntimeState → Type 0
IsManagedAlone s =
    (s.management_operation_active ≡ false)
    ⊎ (is_running s.status.state ≡ false)
      × (is_repository_running s.repository_operation ≡ false)
      × (s.update_install_active ≡ false)

apply_decision-managed :
    (s t : RuntimeState) (now : DateTime) (decision : ScheduleDecision) (action : ScheduleAction)
    → apply_decision s now decision ≡ some (t, action)
    → t.management_operation_active ≡ s.management_operation_active
unfolding apply_decision
apply_decision-managed s t now decision action h = ground arith

evaluate_released-managed :
    (chrono : Chrono) (config : EffectiveConfig) (conditions : SystemConditions)
    (s t : RuntimeState) (now : DateTime) (action : ScheduleAction)
    → IsManagedAlone s
    → evaluate_released chrono config conditions s now ≡ some (t, action)
    → IsManagedAlone t
unfolding evaluate_released
evaluate_released-managed chrono config conditions s t now action m h = ground (
  arith,
  apply_decision-managed s t now
      (decide chrono config.schedule (snapshot_of config conditions s now)) action,
)

release_hold-managed :
    (s : RuntimeState) (now : DateTime)
    → Exclusive s
    → IsManagedAlone s
    → IsManagedAlone (release_hold s now)
unfolding release_hold
release_hold-managed s now e m = ground arith

evaluate_schedule-managed :
    (chrono : Chrono) (config : EffectiveConfig) (conditions : SystemConditions)
    (s t : RuntimeState) (now : DateTime) (action : ScheduleAction)
    → Exclusive s
    → IsManagedAlone s
    → evaluate_schedule chrono config conditions s now ≡ some (t, action)
    → IsManagedAlone t
unfolding evaluate_schedule transition_state
evaluate_schedule-managed chrono config conditions s t now action e m h = ground (
  arith,
  evaluate_released-managed chrono config conditions (release_hold s now) t now action
      (release_hold-managed s now e m),
)

pub apply_configuration_status-managed :
    (chrono : Chrono) (s : RuntimeState) (config : EffectiveConfig) (now : DateTime)
    → IsManagedAlone s
    → IsManagedAlone (apply_configuration_status chrono s config now)
unfolding apply_configuration_status transition_state
apply_configuration_status-managed chrono s config now m = ground arith

-- No request ends an enrollment or begins one.
run_backup_now-managed :
    (config : EffectiveConfig) (env : Env) (s : RuntimeState)
    → (run_backup_now config env s).0.management_operation_active ≡ s.management_operation_active
unfolding run_backup_now
run_backup_now-managed config env s = ground arith

cancel_backup-managed :
    (env : Env) (s : RuntimeState)
    → (cancel_backup env s).0.management_operation_active ≡ s.management_operation_active
unfolding cancel_backup
cancel_backup-managed env s = ground arith

defer_backup-managed :
    (chrono : Chrono) (config : EffectiveConfig) (env : Env) (m : ℕ) (s : RuntimeState)
    → (defer_backup chrono config env m s).0.management_operation_active
      ≡ s.management_operation_active
unfolding defer_backup
defer_backup-managed chrono config env m s = ground arith

begin_repository_operation-managed :
    (config : EffectiveConfig) (env : Env) (a : Bool) (o : RepositoryOperationKind)
    (s : RuntimeState)
    → (begin_repository_operation config env a o s).0.management_operation_active
      ≡ s.management_operation_active
unfolding begin_repository_operation operation_begun
begin_repository_operation-managed config env a o s = ground arith

prepare_for_update-managed :
    (chrono : Chrono) (config : EffectiveConfig) (env : Env) (a : Bool) (n : ℕ) (s : RuntimeState)
    → (prepare_for_update chrono config env a n s).0.management_operation_active
      ≡ s.management_operation_active
unfolding prepare_for_update held hold_undone apply_configuration_status
prepare_for_update-managed chrono config env a n s = ground arith

begin_update_install-managed :
    (chrono : Chrono) (config : EffectiveConfig) (env : Env) (v : Bool) (s : RuntimeState)
    → (begin_update_install chrono config env v s).0.management_operation_active
      ≡ s.management_operation_active
unfolding begin_update_install held hold_undone apply_configuration_status
begin_update_install-managed chrono config env v s = ground arith

finish_repository_operation-managed :
    (chrono : Chrono) (config : EffectiveConfig) (env : Env) (s : RuntimeState)
    (o : RepositoryOperationKind) (k : RepositoryOutcomeKind)
    → IsManagedAlone s
    → IsManagedAlone (finish_repository_operation chrono config env s o k).0
unfolding finish_repository_operation apply_configuration_status transition_state
finish_repository_operation-managed chrono config env s o k m = ground arith

module _ (chrono : Chrono) (config : EffectiveConfig) where
  -- No call gets in the way of an enrollment, if none is a request that it shuts out.
  pub Step-managed :
      {s t : RuntimeState} (st : Step chrono config s t)
      → (is_request st ≡ false) ⊎ (s.management_operation_active ≡ false)
      → Exclusive s
      → IsManagedAlone s
      → IsManagedAlone t
  unfolding record_resume update_progress begin_retention finish_retention retained finish_backup_at
      finished finish_update_install
  Step-managed {s} {t} (evaluates c n a h) q e m =
      evaluate_schedule-managed chrono config c s t n a e m h
  Step-managed {s} (resumes n h) q e m = rw h (ground arith)
  Step-managed {s} (progresses p h) q e m = rw h (ground arith)
  Step-managed {s} (starts_retention n r h) q e m = rw h (ground arith)
  Step-managed {s} (ends_retention env b k n h) q e m = rw h (ground arith)
  Step-managed {s} (ends_backup env b n h) q e m = rw h (ground arith)
  Step-managed {s} (ends_operation env o k h) q e m =
      rw h (finish_repository_operation-managed chrono config env s o k m)
  Step-managed {s} (ends_update o n a h) q e m = rw h (ground arith)
  Step-managed {s} (asks_run env h) q e m =
      rw h (ground (arith, run_backup_now-managed config env s))
  Step-managed {s} (asks_cancel env h) q e m = rw h (ground (arith, cancel_backup-managed env s))
  Step-managed {s} (asks_defer env m' h) q e m =
      rw h (ground (arith, defer_backup-managed chrono config env m' s))
  Step-managed {s} (asks_operation env a o h) q e m =
      rw h (ground (arith, begin_repository_operation-managed config env a o s))
  Step-managed {s} (asks_hold env a n h) q e m =
      rw h (ground (arith, prepare_for_update-managed chrono config env a n s))
  Step-managed {s} (asks_install env v h) q e m =
      rw h (ground (arith, begin_update_install-managed chrono config env v s))
