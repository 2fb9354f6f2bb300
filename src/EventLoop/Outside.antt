-- ===== src/EventLoop/Outside.antt =====
-- What calls do that the event loop does not make, and what its own do, to the work that is under way.
use resticpal.Prelude.{Bool, true, false, some, ◌≡◌, ◌⊎◌, arith, ℕ}
use resticpal.Time.{DateTime, Chrono}
use resticpal.Config.{EffectiveConfig}
use resticpal.Schedule.{ScheduleDecision, decide}
use resticpal.Service.{
  RuntimeState, ScheduleAction, RepositoryOperationKind, RepositoryOperationStatus, is_running,
  is_repository_running,
}
use resticpal.Service.Status.{transition_state}
use resticpal.Service.Scheduler.{
  SystemConditions, release_hold, apply_decision, evaluate_released, evaluate_schedule, snapshot_of,
}
use resticpal.Service.Effect.{Env}
use resticpal.Service.Lifecycle.{update_progress}
use resticpal.Service.Retention.{begin_retention, retained, finish_retention}
use resticpal.Service.Operation.{
  Response, operation_begun, begin_repository_operation, refuse_operation-none,
}
use resticpal.Service.Requests.{run_backup_now, cancel_backup, defer_backup}
use resticpal.Service.Update.{
  prepare_for_update, begin_update_install, held, hold_undone, refuse_update-none,
}
use resticpal.Service.Steps.{
  Step, progresses, starts_retention, ends_retention, asks_run, asks_cancel, asks_defer, asks_hold,
  asks_install,
}
use resticpal.Service.Steps.Exclusive.{Exclusive}

-- What the workers and the clients call, without the requests for repository operations.
abbrev pub is_outside :
    {chrono : Chrono} {config : EffectiveConfig} {s t : RuntimeState}
    → Step chrono config s t
    → Bool
is_outside (progresses p h) = true
is_outside (starts_retention n r h) = true
is_outside (ends_retention env b k n h) = true
is_outside (asks_run env h) = true
is_outside (asks_cancel env h) = true
is_outside (asks_defer env m h) = true
is_outside (asks_hold env a n h) = true
is_outside (asks_install env v h) = true
is_outside st = false

-- The same work is under way.
abbrev pub IsSameWork : RuntimeState → RuntimeState → Type 0
IsSameWork s t =
    (is_running t.status.state ≡ is_running s.status.state)
    × (t.repository_operation ≡ s.repository_operation)

prepare_for_update-work :
    (chrono : Chrono) (config : EffectiveConfig) (env : Env) (a : Bool) (n : ℕ) (s : RuntimeState)
    → IsSameWork s (prepare_for_update chrono config env a n s).0
unfolding prepare_for_update held transition_state
prepare_for_update-work chrono config env a n s = (
  ground (arith, refuse_update-none s (env.clock 0)),
  ground (arith, refuse_update-none s (env.clock 0)),
)

begin_update_install-work :
    (chrono : Chrono) (config : EffectiveConfig) (env : Env) (v : Bool) (s : RuntimeState)
    → Exclusive s
    → IsSameWork s (begin_update_install chrono config env v s).0
unfolding begin_update_install held hold_undone transition_state
begin_update_install-work chrono config env v s e = (
  ground (arith, refuse_update-none s (env.clock 0)),
  ground (arith, refuse_update-none s (env.clock 0)),
)

pub outside-work :
    (chrono : Chrono) (config : EffectiveConfig) {s t : RuntimeState} (st : Step chrono config s t)
    → is_outside st ≡ true
    → Exclusive s
    → IsSameWork s t
unfolding update_progress begin_retention finish_retention retained run_backup_now cancel_backup
    defer_backup
outside-work chrono config {s} (progresses p h) o e = rw h (ground arith, ground arith)
outside-work chrono config {s} (starts_retention n r h) o e = rw h (ground arith, ground arith)
outside-work chrono config {s} (ends_retention env b k n h) o e = rw h (ground arith, ground arith)
outside-work chrono config {s} (asks_run env h) o e = rw h (ground arith, ground arith)
outside-work chrono config {s} (asks_cancel env h) o e = rw h (ground arith, ground arith)
outside-work chrono config {s} (asks_defer env m h) o e = rw h (ground arith, ground arith)
outside-work chrono config {s} (asks_hold env a n h) o e =
    rw h (prepare_for_update-work chrono config env a n s)
outside-work chrono config {s} (asks_install env v h) o e =
    rw h (begin_update_install-work chrono config env v s e)
outside-work chrono config _ o e = ground arith

-- Whether an evaluation of an idle service starts a backup.
abbrev pub starts : ScheduleAction → Bool
starts ScheduleAction.none = false
starts (ScheduleAction.start trigger) = true

apply_decision-work :
    (s t : RuntimeState) (now : DateTime) (decision : ScheduleDecision) (action : ScheduleAction)
    → is_running s.status.state ≡ false
    → apply_decision s now decision ≡ some (t, action)
    → (is_running t.status.state ≡ starts action)
      × (t.repository_operation ≡ s.repository_operation)
unfolding apply_decision transition_state
apply_decision-work s t now decision action q h = (ground arith, ground arith)

evaluate_released-work :
    (chrono : Chrono) (config : EffectiveConfig) (conditions : SystemConditions)
    (s t : RuntimeState) (now : DateTime) (action : ScheduleAction)
    → is_running s.status.state ≡ false
    → evaluate_released chrono config conditions s now ≡ some (t, action)
    → (is_running t.status.state ≡ starts action)
      × (t.repository_operation ≡ s.repository_operation)
unfolding evaluate_released
evaluate_released-work chrono config conditions s t now action q h = ground (
  arith,
  apply_decision-work s t now (decide chrono config.schedule (snapshot_of config conditions s now))
      action,
)

release_hold-work :
    (s : RuntimeState) (now : DateTime)
    → Exclusive s
    → is_running s.status.state ≡ false
    → (is_running (release_hold s now).status.state ≡ false)
      × ((release_hold s now).repository_operation ≡ s.repository_operation)
unfolding release_hold
release_hold-work s now e q = (ground arith, ground arith)

pub evaluate_schedule-work :
    (chrono : Chrono) (config : EffectiveConfig) (conditions : SystemConditions)
    (s t : RuntimeState) (now : DateTime) (action : ScheduleAction)
    → Exclusive s
    → is_running s.status.state ≡ false
    → evaluate_schedule chrono config conditions s now ≡ some (t, action)
    → (is_running t.status.state ≡ starts action)
      × (t.repository_operation ≡ s.repository_operation)
unfolding evaluate_schedule transition_state
evaluate_schedule-work chrono config conditions s t now action e q h = ground (
  arith,
  release_hold-work s now e q,
  evaluate_released-work chrono config conditions (release_hold s now) t now action,
)

abbrev pub is_accepted : Response → Bool
is_accepted Response.accepted = true
is_accepted (Response.rejected code) = false

-- A repository operation that is asked for runs exactly if the request is accepted.
pub begin_repository_operation-work :
    (config : EffectiveConfig) (env : Env) (a : Bool) (o : RepositoryOperationKind)
    (s : RuntimeState)
    → let (t, response, effects) = begin_repository_operation config env a o s in
      (is_running t.status.state ≡ is_running s.status.state)
      × ((is_accepted response ≡ true)
            × (is_repository_running s.repository_operation ≡ false)
            × (t.repository_operation ≡ RepositoryOperationStatus.running o)
          ⊎ (is_accepted response ≡ false)
            × ((is_repository_running s.repository_operation ≡ false)
                  × (is_repository_running t.repository_operation ≡ false)
                ⊎ (t.repository_operation ≡ s.repository_operation)))
unfolding begin_repository_operation operation_begun transition_state
begin_repository_operation-work config env a o s = (
  ground (arith, refuse_operation-none config a o s (env.clock 0)),
  ground (arith, refuse_operation-none config a o s (env.clock 0)),
)
