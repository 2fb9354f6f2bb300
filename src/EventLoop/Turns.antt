-- ===== src/EventLoop/Turns.antt =====
-- What the loop, its workers and the clients of the service do, one at a time. An event of a worker is
-- received when it is made, and requests of clients in their order, as far as their kind is the same;
-- the end of the service is left out.
use resticpal.Prelude.{
  Bool, true, false, Option, none, some, List, [], ◌∷◌, ◌++◌, ◌≡◌, if◌then◌else◌, ◌||◌,
}
use resticpal.Time.{Chrono}
use resticpal.Config.{EffectiveConfig}
use resticpal.Service.{RuntimeState, RepositoryOperationKind}
use resticpal.Service.Scheduler.{SystemConditions}
use resticpal.Service.Effect.{Env}
use resticpal.Service.Lifecycle.{BackupOutcome, RepositoryOutcomeKind}
use resticpal.Service.Operation.{begin_repository_operation}
use resticpal.Service.Steps.{Step}
use resticpal.EventLoop.{
  EventLoop, LoopEvent, evaluation, cancel, resume, backup_finished, operation_requested,
  operation_finished, update_requested, update_finished, handle,
}
use resticpal.EventLoop.Outside.{is_outside, is_accepted}
use resticpal.EventLoop.Orderly.{System}

-- A request for an operation, which reaches the channel if it is accepted.
abbrev pub asked : EffectiveConfig → Env → Bool → RepositoryOperationKind → System → System
asked config env a o s =
    let (state, response, effects) = begin_repository_operation config env a o s.loop.state in
    record s {
      loop = record s.loop { state = state };
      requested = if is_accepted response then s.requested ++ (o ∷ []) else s.requested;
    }

-- The worker that a request which is received leaves.
abbrev pub employed : Bool → RepositoryOperationKind → System → Option RepositoryOperationKind
employed started o s =
    if s.loop.active_backup || s.loop.active_repository_operation
    then s.working
    else if started
    then some o
    else none

-- Events that concern no worker.
abbrev pub is_idle : LoopEvent → Bool
is_idle evaluation = true
is_idle cancel = true
is_idle resume = true
is_idle event = false

-- Events of an update installation.
abbrev pub is_update : LoopEvent → Bool
is_update update_requested = true
is_update (update_finished outcome) = true
is_update event = false

module _ (chrono : Chrono) (config : EffectiveConfig) where
  pub data Turn (s t : System) : Type 0 where
    elsewhere :
        (state : RuntimeState) (st : Step chrono config s.loop.state state)
        → is_outside st ≡ true
        → t ≡ record s { loop = record s.loop { state = state } }
        → Turn s t
    asks :
        (env : Env) (is_administrator : Bool) (o : RepositoryOperationKind)
        → t ≡ asked config env is_administrator o s
        → Turn s t
    receives_request :
        (env : Env) (conditions : SystemConditions) (started : Bool) (o : RepositoryOperationKind)
        (rest : List RepositoryOperationKind) (next : EventLoop)
        → s.requested ≡ o ∷ rest
        → handle chrono config env conditions started s.loop (operation_requested o) ≡ some next
        → t ≡ record { loop = next; requested = rest; working = employed started o s }
        → Turn s t
    receives_result :
        (env : Env) (conditions : SystemConditions) (started : Bool) (o : RepositoryOperationKind)
        (outcome : RepositoryOutcomeKind) (next : EventLoop)
        → s.working ≡ some o
        → handle chrono config env conditions started s.loop (operation_finished o outcome)
          ≡ some next
        → t ≡ record { loop = next; requested = s.requested; working = none }
        → Turn s t
    backup_ends :
        (env : Env) (conditions : SystemConditions) (started : Bool) (outcome : BackupOutcome)
        (next : EventLoop)
        → s.loop.active_backup ≡ true
        → handle chrono config env conditions started s.loop (backup_finished outcome) ≡ some next
        → t ≡ record s { loop = next }
        → Turn s t
    updates :
        (env : Env) (conditions : SystemConditions) (started : Bool) (event : LoopEvent)
        (next : EventLoop)
        → is_update event ≡ true
        → s.loop.state.update_install_active ≡ true
        → handle chrono config env conditions started s.loop event ≡ some next
        → t ≡ record s { loop = next }
        → Turn s t
    wakes :
        (env : Env) (conditions : SystemConditions) (started : Bool) (event : LoopEvent)
        (next : EventLoop)
        → is_idle event ≡ true
        → handle chrono config env conditions started s.loop event ≡ some next
        → t ≡ record s { loop = next }
        → Turn s t

  pub data Turns (s : System) : System → Type 0 where
    here : Turns s s
    turn : {t u : System} → Turns s t → Turn t u → Turns s u
