-- ===== src/EventLoop/Orderly.antt =====
-- The event loop with its workers and its channel, when they and the state of the service agree, and
-- that an evaluation of the schedule keeps it so.
use resticpal.Prelude.{
  Bool, true, false, Option, none, some, List, [], ◌∷◌, ◌≡◌, ◌⊎◌, arith, inl, inr, refl,
  Option-cases, Bool-cases, ◌∙◌,
}
use resticpal.Time.{Chrono}
use resticpal.Config.{EffectiveConfig}
use resticpal.Service.{
  RuntimeState, ScheduleAction, RepositoryOperationKind, RepositoryOperationStatus, is_running,
  is_repository_running,
}
use resticpal.Service.Scheduler.{SystemConditions, evaluate_schedule}
use resticpal.Service.Effect.{Env}
use resticpal.Service.Lifecycle.{failed_outcome, finish_backup_at, finished}
use resticpal.Service.Steps.{evaluates, ends_backup}
use resticpal.Service.Steps.Exclusive.{Exclusive}
use resticpal.Service.Steps.Reachable.{Step-Exclusive}
use resticpal.EventLoop.{EventLoop, begin_backup, evaluate_and_maybe_start}
use resticpal.EventLoop.Outside.{starts, evaluate_schedule-work}

-- The loop, the requests for operations in its channel, and the operation that a worker carries out.
pub record System : Type 0 where
  pub loop : EventLoop
  pub requested : List RepositoryOperationKind
  pub working : Option RepositoryOperationKind

-- How a repository operation moves from a client to the loop and from there to a worker.
pub data Phase (s : System) : Type 0 where
  quiet :
      is_repository_running s.loop.state.repository_operation ≡ false
      → s.requested ≡ []
      → s.loop.active_repository_operation ≡ false
      → s.working ≡ none
      → Phase s
  waits :
      (o : RepositoryOperationKind)
      → s.loop.state.repository_operation ≡ RepositoryOperationStatus.running o
      → s.requested ≡ o ∷ []
      → s.loop.active_repository_operation ≡ false
      → s.working ≡ none
      → Phase s
  at_work :
      (o : RepositoryOperationKind)
      → s.loop.state.repository_operation ≡ RepositoryOperationStatus.running o
      → s.requested ≡ []
      → s.loop.active_repository_operation ≡ true
      → s.working ≡ some o
      → Phase s

pub record IsOrderly (s : System) : Type 0 where
  pub apart : Exclusive s.loop.state
  pub backup : is_running s.loop.state.status.state ≡ s.loop.active_backup
  pub phase : Phase s

pub same_phase :
    (loop next : EventLoop) (requested : List RepositoryOperationKind)
    (working : Option RepositoryOperationKind)
    → Phase (record { loop = loop; requested = requested; working = working })
    → next.state.repository_operation ≡ loop.state.repository_operation
    → next.active_repository_operation ≡ loop.active_repository_operation
    → Phase (record { loop = next; requested = requested; working = working })
same_phase loop next requested working (quiet a b c d) e f = quiet (rw e a) b (f ∙ c) d
same_phase loop next requested working (waits o a b c d) e f = waits o (e ∙ a) b (f ∙ c) d
same_phase loop next requested working (at_work o a b c d) e f = at_work o (e ∙ a) b (f ∙ c) d

module _ (chrono : Chrono) (config : EffectiveConfig) where
  begin_backup-work :
      (env : Env) (conditions : SystemConditions) (started : Bool) (loop : EventLoop)
      (t : RuntimeState) (action : ScheduleAction)
      → loop.active_backup ≡ false
      → is_running t.status.state ≡ starts action
      → Exclusive t
      → let next = begin_backup chrono config env conditions started loop (t, action) in
        (is_running next.state.status.state ≡ next.active_backup)
        × (next.state.repository_operation ≡ t.repository_operation)
        × (next.active_repository_operation ≡ loop.active_repository_operation)
  unfolding begin_backup finish_backup_at finished
  begin_backup-work env conditions started loop t action idle w e =
      (ground arith, ground arith, ground arith)

  begin_backup-Exclusive :
      (env : Env) (conditions : SystemConditions) (started : Bool) (loop : EventLoop)
      (t : RuntimeState) (action : ScheduleAction)
      → Exclusive t
      → Exclusive (begin_backup chrono config env conditions started loop (t, action)).state
  unfolding begin_backup
  begin_backup-Exclusive env conditions started loop t ScheduleAction.none e = e
  begin_backup-Exclusive env conditions true loop t (ScheduleAction.start trigger) e = e
  begin_backup-Exclusive env conditions false loop t (ScheduleAction.start trigger) e =
      Step-Exclusive chrono config
        (ends_backup env (failed_outcome "executor_start_failed") (env.clock 1) refl) e

  evaluated :
      (env : Env) (conditions : SystemConditions) (started : Bool) (loop next : EventLoop)
      → evaluate_and_maybe_start chrono config env conditions started loop ≡ some next
      → (next ≡ loop)
        ⊎ (loop.active_backup ≡ false)
          × ((result : RuntimeState × ScheduleAction) × (evaluate_schedule chrono config conditions
                  loop.state
                  (env.clock 0)
                ≡ some result)
              × (next ≡ begin_backup chrono config env conditions started loop result))
  unfolding evaluate_and_maybe_start
  evaluated env conditions started loop next h =
      elim (Option-cases (evaluate_schedule chrono config conditions loop.state (env.clock 0))) [
        | inl panics ↦ inl (ground arith)
        | inr (result, e) ↦ elim (Bool-cases loop.active_backup) [
          | inl busy ↦ inl (ground arith)
          | inr free ↦ inr (free, (result, e, ground arith))
        ]
      ]

  -- An evaluation changes no repository operation, and starts a backup only where the loop has none.
  pub evaluation-IsOrderly :
      (env : Env) (conditions : SystemConditions) (started : Bool) (loop next : EventLoop)
      (requested : List RepositoryOperationKind) (working : Option RepositoryOperationKind)
      → IsOrderly (record { loop = loop; requested = requested; working = working })
      → evaluate_and_maybe_start chrono config env conditions started loop ≡ some next
      → IsOrderly (record { loop = next; requested = requested; working = working })
  evaluation-IsOrderly env conditions started loop next requested working i h =
      elim (evaluated env conditions started loop next h) [
        | inl same ↦ rw same i
        | inr (free, (result, e, changed)) ↦
            let (running, operation) =
              evaluate_schedule-work chrono config conditions loop.state result.0 (env.clock 0)
                result.1 i.apart (i.backup ∙ free) e in
            let apart =
              Step-Exclusive chrono config (evaluates conditions (env.clock 0) result.1 e)
                i.apart in
            let (backup, kept, active) =
              begin_backup-work env conditions started loop result.0 result.1 free running apart in
            rw changed (record {
              apart = begin_backup-Exclusive env conditions started loop result.0 result.1 apart;
              backup = backup;
              phase = same_phase loop _ requested working i.phase (kept ∙ operation) active;
            })
      ]
