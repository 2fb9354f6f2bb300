-- ===== src/EventLoop/Answered.antt =====
-- What the loop makes of the repository operations that clients ask for.
use resticpal.Prelude.{
  Bool, true, false, none, some, List, [], ◌∷◌, ◌≡◌, arith, inl, inr, refl, sym, ◌∙◌,
}
use resticpal.Time.{Chrono}
use resticpal.Config.{EffectiveConfig}
use resticpal.Service.{
  RuntimeState, RepositoryOperationKind, RepositoryOperationStatus, is_running,
  is_repository_running,
}
use resticpal.Service.Status.{apply_configuration_status, transition_state}
use resticpal.Service.Scheduler.{SystemConditions}
use resticpal.Service.Effect.{Env}
use resticpal.Service.Lifecycle.{RepositoryOutcomeKind}
use resticpal.Service.Operation.{finish_repository_operation}
use resticpal.Service.Steps.{ends_operation}
use resticpal.Service.Steps.Reachable.{Step-Exclusive}
use resticpal.EventLoop.{EventLoop, start_operation}
use resticpal.EventLoop.Outside.{begin_repository_operation-work}
use resticpal.EventLoop.Orderly.{System, Phase, quiet, waits, at_work, IsOrderly}
use resticpal.EventLoop.Turns.{asked, employed}

pub asked-phase :
    (config : EffectiveConfig) (env : Env) (a : Bool) (o : RepositoryOperationKind) (s : System)
    → Phase s
    → Phase (asked config env a o s)
asked-phase config env a o s (quiet p b c d) =
    let (_, w) = begin_repository_operation-work config env a o s.loop.state in
    elim w [
      | inl (accepted, was, running) ↦ waits o running (ground arith) c d
      | inr (refused, inl (was, still)) ↦ quiet still (ground arith) c d
      | inr (refused, inr same) ↦ quiet (rw same p) (ground arith) c d
    ]
asked-phase config env a o s (waits k p b c d) =
    let (_, w) = begin_repository_operation-work config env a o s.loop.state in
    elim w [
      | inl (accepted, was, running) ↦ ground arith
      | inr (refused, inl (was, still)) ↦ ground arith
      | inr (refused, inr same) ↦ waits k (same ∙ p) (ground arith) c d
    ]
asked-phase config env a o s (at_work k p b c d) =
    let (_, w) = begin_repository_operation-work config env a o s.loop.state in
    elim w [
      | inl (accepted, was, running) ↦ ground arith
      | inr (refused, inl (was, still)) ↦ ground arith
      | inr (refused, inr same) ↦ at_work k (same ∙ p) (ground arith) c d
    ]

pub phase_requested :
    (s : System) (o : RepositoryOperationKind) (rest : List RepositoryOperationKind)
    → Phase s
    → s.requested ≡ o ∷ rest
    → (s.loop.state.repository_operation ≡ RepositoryOperationStatus.running o)
      × (rest ≡ [])
      × (s.loop.active_repository_operation ≡ false)
      × (s.working ≡ none)
phase_requested s o rest (quiet p b c d) h = ground arith
phase_requested s o rest (waits k p b c d) h = (ground arith, ground arith, c, d)
phase_requested s o rest (at_work k p b c d) h = ground arith

pub phase_working :
    (s : System) (o : RepositoryOperationKind)
    → Phase s
    → s.working ≡ some o
    → (s.loop.state.repository_operation ≡ RepositoryOperationStatus.running o) × (s.requested ≡ [])
phase_working s o (quiet p b c d) h = ground arith
phase_working s o (waits k p b c d) h = ground arith
phase_working s o (at_work k p b c d) h = (ground arith, b)

-- The loop of a service whose operation a client asked for.
pub idle_loop :
    (s : System) (o : RepositoryOperationKind)
    → IsOrderly s
    → s.loop.state.repository_operation ≡ RepositoryOperationStatus.running o
    → (s.loop.active_backup ≡ false) × (is_running s.loop.state.status.state ≡ false)
idle_loop s o i h =
    (ground (arith, i.apart.backup_alone, i.backup), ground (arith, i.apart.backup_alone))

operation_ended :
    (chrono : Chrono) (config : EffectiveConfig) (env : Env) (s : RuntimeState)
    (o : RepositoryOperationKind) (k : RepositoryOutcomeKind)
    → s.repository_operation ≡ RepositoryOperationStatus.running o
    → is_running s.status.state ≡ false
    → let (t, effects) = finish_repository_operation chrono config env s o k in
      (is_repository_running t.repository_operation ≡ false) × (is_running t.status.state ≡ false)
unfolding finish_repository_operation apply_configuration_status transition_state
operation_ended chrono config env s o k h q = (ground arith, ground arith)

start_operation-ready :
    (chrono : Chrono) (config : EffectiveConfig) (env : Env) (conditions : SystemConditions)
    (loop : EventLoop) (o : RepositoryOperationKind)
    → loop.active_backup ≡ false
    → loop.active_repository_operation ≡ false
    → (start_operation chrono config env conditions true loop o
        ≡ record loop { active_repository_operation = true })
      × (start_operation chrono config env conditions false loop o ≡ record loop {
        state =
            (finish_repository_operation chrono config env loop.state o
              (RepositoryOutcomeKind.failed "executor_start_failed")).0;
        active_repository_operation = false;
      })
unfolding start_operation
start_operation-ready chrono config env conditions loop o b r = (ground arith, ground arith)

module _ (chrono : Chrono) (config : EffectiveConfig) where
  -- An operation whose request is received gets a worker, or fails at once.
  pub request-IsOrderly :
      (env : Env) (conditions : SystemConditions) (started : Bool) (s : System)
      (o : RepositoryOperationKind)
      → IsOrderly s
      → s.loop.state.repository_operation ≡ RepositoryOperationStatus.running o
      → s.loop.active_repository_operation ≡ false
      → s.working ≡ none
      → IsOrderly (record {
        loop = start_operation chrono config env conditions started s.loop o;
        requested = [];
        working = employed started o s;
      })
  request-IsOrderly env conditions true s o i running ar idle =
      let (ab, q) = idle_loop s o i running in
      rw ((start_operation-ready chrono config env conditions s.loop o ab ar).0, ab, ar)
        (record { apart = i.apart; backup = q; phase = at_work o running refl refl refl })
  request-IsOrderly env conditions false s o i running ar idle =
      let (ab, q) = idle_loop s o i running in
      let (ended, quiet_after) =
        operation_ended chrono config env s.loop.state o
          (RepositoryOutcomeKind.failed "executor_start_failed") running q in
      rw ((start_operation-ready chrono config env conditions s.loop o ab ar).1, ab, ar)
        (record {
          apart =
              Step-Exclusive chrono config
                (ends_operation env o (RepositoryOutcomeKind.failed "executor_start_failed") refl)
                i.apart;
          backup = quiet_after;
          phase = quiet ended refl refl refl;
        })

  -- The state once the worker of an operation answers.
  pub answered-IsOrderly :
      (env : Env) (s : System) (o : RepositoryOperationKind) (k : RepositoryOutcomeKind)
      → IsOrderly s
      → s.loop.state.repository_operation ≡ RepositoryOperationStatus.running o
      → s.requested ≡ []
      → IsOrderly (record {
        loop = record s.loop {
          state = (finish_repository_operation chrono config env s.loop.state o k).0;
          active_repository_operation = false;
        };
        requested = s.requested;
        working = none;
      })
  answered-IsOrderly env s o k i running nothing =
      let (ab, q) = idle_loop s o i running in
      let (ended, quiet_after) = operation_ended chrono config env s.loop.state o k running q in
      record {
        apart = Step-Exclusive chrono config (ends_operation env o k refl) i.apart;
        backup = quiet_after ∙ sym ab;
        phase = quiet ended nothing refl refl;
      }
