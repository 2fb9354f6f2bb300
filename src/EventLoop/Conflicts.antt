-- ===== src/EventLoop/Conflicts.antt =====
-- No repository operation that the service accepted meets a backup or another operation in the loop.
use resticpal.Prelude.{false, none, some, List, [], ◌∷◌, ◌≡◌, arith, refl, ◌∙◌}
use resticpal.Time.{DateTime, Chrono}
use resticpal.Config.{EffectiveConfig}
use resticpal.Service.{RepositoryOperationKind, RepositoryOperationStatus, is_running}
use resticpal.Service.Lifecycle.{finish_backup_at}
use resticpal.Service.Operation.{finish_repository_operation}
use resticpal.Service.Steps.{asks_operation}
use resticpal.Service.Steps.Reachable.{Step-Exclusive}
use resticpal.EventLoop.{start_operation, handle}
use resticpal.EventLoop.Outside.{outside-work, begin_repository_operation-work}
use resticpal.EventLoop.Orderly.{System, quiet, IsOrderly, same_phase, evaluation-IsOrderly}
use resticpal.EventLoop.Turns.{
  Turn, elsewhere, asks, receives_request, receives_result, backup_ends, updates, wakes, Turns,
  here, turn,
}
use resticpal.EventLoop.Kept.{update-IsOrderly, backup_ended-IsOrderly, wake-IsOrderly}
use resticpal.EventLoop.Answered.{
  asked-phase, phase_requested, phase_working, idle_loop, request-IsOrderly, answered-IsOrderly,
}
use resticpal.Policy.{ResolvedConfig}
use resticpal.Service.{ServiceStateSnapshot}
use resticpal.Service.Status.{from_resolved_with_state, loaded_operation}
use resticpal.Service.Steps.Reachable.{from_resolved_with_state-Exclusive}

module _ (chrono : Chrono) (config : EffectiveConfig) where
  Turn-IsOrderly : {s t : System} → Turn chrono config s t → IsOrderly s → IsOrderly t
  unfolding handle
  Turn-IsOrderly {s} (elsewhere state st o h) i =
      let (same, kept) = outside-work chrono config st o i.apart in
      rw h (record {
        apart = Step-Exclusive chrono config st i.apart;
        backup = same ∙ i.backup;
        phase = same_phase s.loop _ s.requested s.working i.phase kept refl;
      })
  Turn-IsOrderly {s} (asks env a o h) i =
      let (same, _) = begin_repository_operation-work config env a o s.loop.state in
      rw h (record {
        apart = Step-Exclusive chrono config (asks_operation env a o refl) i.apart;
        backup = same ∙ i.backup;
        phase = asked-phase config env a o s i.phase;
      })
  Turn-IsOrderly {s} (receives_request env c b o rest next r h e) i =
      let (running, last, ar, idle) = phase_requested s o rest i.phase r in
      let e' : next ≡ start_operation chrono config env c b s.loop o = ground arith in
      rw (e, e', last) (request-IsOrderly chrono config env c b s o i running ar idle)
  Turn-IsOrderly {s} (receives_result env c b o k next w h e) i =
      let (running, nothing) = phase_working s o i.phase w in
      rw e (
        evaluation-IsOrderly chrono config env c b
          (record s.loop {
            state = (finish_repository_operation chrono config env s.loop.state o k).0;
            active_repository_operation = false;
          })
          next s.requested none (answered-IsOrderly chrono config env s o k i running nothing) h)
  Turn-IsOrderly {s} (backup_ends env c b k next r h e) i =
      let e' : next ≡ record s.loop {
        state = (finish_backup_at chrono config env s.loop.state k (env.clock 0)).0;
        active_backup = false;
      } =
        ground arith in
      rw (e, e') (backup_ended-IsOrderly chrono config env s k i)
  Turn-IsOrderly {s} (updates env c b event next u a h e) i =
      rw e (update-IsOrderly chrono config env c b event s next u a i h)
  Turn-IsOrderly {s} (wakes env c b event next w h e) i =
      rw e (wake-IsOrderly chrono config env c b event s next w i h)

  Turns-IsOrderly : {s t : System} → IsOrderly s → Turns chrono config s t → IsOrderly t
  Turns-IsOrderly i here = i
  Turns-IsOrderly i (turn r t) = Turn-IsOrderly t (Turns-IsOrderly i r)

-- The loop as the service starts, before its first evaluation.
abbrev pub first_system : Chrono → ResolvedConfig → ServiceStateSnapshot → DateTime → System
first_system chrono resolved snapshot now = record {
  loop = record {
    state = from_resolved_with_state chrono resolved snapshot now;
    active_backup = false;
    active_repository_operation = false;
  };
  requested = [];
  working = none;
}

first_system-IsOrderly :
    (chrono : Chrono) (resolved : ResolvedConfig) (snapshot : ServiceStateSnapshot) (now : DateTime)
    → IsOrderly (first_system chrono resolved snapshot now)
unfolding from_resolved_with_state loaded_operation
first_system-IsOrderly chrono resolved snapshot now = record {
  apart = from_resolved_with_state-Exclusive chrono resolved snapshot now;
  backup = ground arith;
  phase = quiet (ground arith) refl refl refl;
}

-- In the event loop of a service whose configuration does not change, whatever its clients and its
-- workers do: when a request for a repository operation is received, no backup and no other operation
-- is active in the loop and no other request is in the channel, so that it is never answered with a
-- conflict; while a worker carries out an operation, the service has that operation under way, so that
-- its result is never dropped; and a backup is active in the loop exactly when the service says so.
pub operations_never_conflict :
    (chrono : Chrono) (resolved : ResolvedConfig) (snapshot : ServiceStateSnapshot) (now : DateTime)
    (t : System)
    → Turns chrono resolved.effective (first_system chrono resolved snapshot now) t
    → ((o : RepositoryOperationKind) (rest : List RepositoryOperationKind)
        → t.requested ≡ o ∷ rest
        → (t.loop.active_backup ≡ false)
          × (t.loop.active_repository_operation ≡ false)
          × (rest ≡ []))
      × ((o : RepositoryOperationKind)
          → t.working ≡ some o
          → t.loop.state.repository_operation ≡ RepositoryOperationStatus.running o)
      × (is_running t.loop.state.status.state ≡ t.loop.active_backup)
operations_never_conflict chrono resolved snapshot now t r =
    let i =
      Turns-IsOrderly chrono resolved.effective
        (first_system-IsOrderly chrono resolved snapshot now) r in
    (
      λ o rest h.
          let (running, last, ar, idle) = phase_requested t o rest i.phase h in
          ((idle_loop t o i running).0, ar, last),
      λ o h. (phase_working t o i.phase h).0,
      i.backup,
    )
