-- ===== src/Runtime/Steps/Verified.antt =====
-- Whether backups go to a repository that was verified under the connection in force.
use resticpal.Prelude.{ℕ, Bool, false, some, ◌≡◌, ◌⊎◌, arith}
use resticpal.Time.{DateTime, Chrono}
use resticpal.Config.{EffectiveConfig}
use resticpal.Schedule.{ScheduleDecision, decide}
use resticpal.Service.{RuntimeState, ScheduleAction, RepositoryOperationKind, ServiceStateSnapshot}
use resticpal.Service.Snapshot.{repository_requires_validation, mark_repository_verified}
use resticpal.Service.Status.{repository_operation_allows_backup, apply_configuration_status}
use resticpal.Service.Scheduler.{
  SystemConditions, record_resume, release_hold, apply_decision, evaluate_released,
  evaluate_schedule, snapshot_of,
}
use resticpal.Service.Effect.{Env}
use resticpal.Service.Lifecycle.{
  RepositoryOutcomeKind, update_progress, finish_update_install, finished, finish_backup_at,
}
use resticpal.Service.Retention.{begin_retention, retained, finish_retention}
use resticpal.Service.Operation.{
  begin_repository_operation, operation_begun, finish_repository_operation,
}
use resticpal.Service.Requests.{run_backup_now, cancel_backup, defer_backup}
use resticpal.Service.Update.{prepare_for_update, begin_update_install, held, hold_undone}
use resticpal.Service.Steps.{
  Step, evaluates, resumes, progresses, starts_retention, ends_retention, ends_backup,
  ends_operation, ends_update, asks_run, asks_cancel, asks_defer, asks_operation, asks_hold,
  asks_install,
}

-- No backup is allowed, or the repository of the configuration was verified.
abbrev pub IsVerifiedFor : EffectiveConfig → RuntimeState → Type 0
IsVerifiedFor config s =
    (repository_operation_allows_backup s.repository_operation ≡ false)
    ⊎ (repository_requires_validation s.service_state config ≡ false)

apply_decision-verified :
    (s t : RuntimeState) (now : DateTime) (decision : ScheduleDecision) (action : ScheduleAction)
    → apply_decision s now decision ≡ some (t, action)
    → (t.repository_operation ≡ s.repository_operation) × (t.service_state ≡ s.service_state)
unfolding apply_decision
apply_decision-verified s t now decision action h = (ground arith, ground arith)

release_hold-verified :
    (s : RuntimeState) (now : DateTime)
    → ((release_hold s now).repository_operation ≡ s.repository_operation)
      × ((release_hold s now).service_state ≡ s.service_state)
unfolding release_hold
release_hold-verified s now = (ground arith, ground arith)

evaluate_released-verified :
    (chrono : Chrono) (config : EffectiveConfig) (conditions : SystemConditions)
    (s t : RuntimeState) (now : DateTime) (action : ScheduleAction)
    → evaluate_released chrono config conditions s now ≡ some (t, action)
    → (t.repository_operation ≡ s.repository_operation) × (t.service_state ≡ s.service_state)
unfolding evaluate_released
evaluate_released-verified chrono config conditions s t now action h = ground (
  arith,
  apply_decision-verified s t now
      (decide chrono config.schedule (snapshot_of config conditions s now)) action,
)

evaluate_schedule-verified :
    (chrono : Chrono) (config : EffectiveConfig) (conditions : SystemConditions)
    (s t : RuntimeState) (now : DateTime) (action : ScheduleAction)
    → evaluate_schedule chrono config conditions s now ≡ some (t, action)
    → (t.repository_operation ≡ s.repository_operation) × (t.service_state ≡ s.service_state)
unfolding evaluate_schedule
evaluate_schedule-verified chrono config conditions s t now action h = ground (
  arith,
  release_hold-verified s now,
  evaluate_released-verified chrono config conditions (release_hold s now) t now action,
)

pub apply_configuration_status-verified :
    (chrono : Chrono) (s : RuntimeState) (config other : EffectiveConfig) (now : DateTime)
    → IsVerifiedFor other s
    → IsVerifiedFor other (apply_configuration_status chrono s config now)
unfolding apply_configuration_status
apply_configuration_status-verified chrono s config other now v = ground arith

verified_after :
    (snapshot : ServiceStateSnapshot) (config : EffectiveConfig) (now : DateTime)
    → repository_requires_validation (mark_repository_verified snapshot config now) config ≡ false
unfolding repository_requires_validation mark_repository_verified
verified_after snapshot config now = ground arith

finish_repository_operation-verified :
    (chrono : Chrono) (config : EffectiveConfig) (env : Env) (s : RuntimeState)
    (o : RepositoryOperationKind) (k : RepositoryOutcomeKind)
    → IsVerifiedFor config s
    → IsVerifiedFor config (finish_repository_operation chrono config env s o k).0
unfolding finish_repository_operation apply_configuration_status
finish_repository_operation-verified chrono config env s o k v =
    ground (arith, verified_after s.service_state config (env.clock 0))

requests_verified :
    (chrono : Chrono) (config : EffectiveConfig) (env : Env) (s : RuntimeState) (m : ℕ)
    → IsVerifiedFor config s
    → IsVerifiedFor config (run_backup_now config env s).0
      × IsVerifiedFor config (cancel_backup env s).0
      × IsVerifiedFor config (defer_backup chrono config env m s).0
unfolding run_backup_now cancel_backup defer_backup
requests_verified chrono config env s m v = (ground arith, ground arith, ground arith)

begin_repository_operation-verified :
    (config : EffectiveConfig) (env : Env) (a : Bool) (o : RepositoryOperationKind)
    (s : RuntimeState)
    → IsVerifiedFor config s
    → IsVerifiedFor config (begin_repository_operation config env a o s).0
unfolding begin_repository_operation operation_begun
begin_repository_operation-verified config env a o s v = ground arith

updates_verified :
    (chrono : Chrono) (config : EffectiveConfig) (env : Env) (a : Bool) (n : ℕ) (s : RuntimeState)
    → IsVerifiedFor config s
    → IsVerifiedFor config (prepare_for_update chrono config env a n s).0
      × IsVerifiedFor config (begin_update_install chrono config env a s).0
unfolding prepare_for_update begin_update_install held hold_undone apply_configuration_status
updates_verified chrono config env a n s v = (ground arith, ground arith)

module _ (chrono : Chrono) (config : EffectiveConfig) where
  pub Step-verified :
      {s t : RuntimeState}
      → Step chrono config s t
      → IsVerifiedFor config s
      → IsVerifiedFor config t
  unfolding record_resume update_progress begin_retention finish_retention retained finish_backup_at
      finished finish_update_install repository_requires_validation
  Step-verified {s} {t} (evaluates c n a h) v =
      ground (arith, evaluate_schedule-verified chrono config c s t n a h)
  Step-verified (resumes n h) v = rw h v
  Step-verified (progresses p h) v = rw h (ground arith)
  Step-verified (starts_retention n r h) v = rw h (ground arith)
  Step-verified (ends_retention env b k n h) v = rw h (ground arith)
  Step-verified (ends_backup env b n h) v = rw h (ground arith)
  Step-verified {s} (ends_operation env o k h) v =
      rw h (finish_repository_operation-verified chrono config env s o k v)
  Step-verified {s} (ends_update o n a h) v = rw h (ground arith)
  Step-verified {s} (asks_run env h) v = rw h (requests_verified chrono config env s 0 v).0
  Step-verified {s} (asks_cancel env h) v = rw h (requests_verified chrono config env s 0 v).1
  Step-verified {s} (asks_defer env m h) v = rw h (requests_verified chrono config env s m v).2
  Step-verified {s} (asks_operation env a o h) v =
      rw h (begin_repository_operation-verified config env a o s v)
  Step-verified {s} (asks_hold env a n h) v = rw h (updates_verified chrono config env a n s v).0
  Step-verified {s} (asks_install env a h) v = rw h (updates_verified chrono config env a 0 s v).1
