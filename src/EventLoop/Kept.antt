-- ===== src/EventLoop/Kept.antt =====
-- What the end of an installation, the end of a backup and a wake-up leave of the loop's order.
use resticpal.Prelude.{Bool, true, false, some, ◌≡◌, ◌⊎◌, arith, inl, inr, refl, sym, ◌∙◌}
use resticpal.Time.{DateTime, Chrono}
use resticpal.Config.{EffectiveConfig}
use resticpal.Service.{RuntimeState, is_running}
use resticpal.Service.Scheduler.{SystemConditions, record_resume}
use resticpal.Service.Effect.{Env}
use resticpal.Service.Lifecycle.{
  BackupOutcome, UpdateInstallOutcome, finish_backup_at, finished, finish_update_install,
}
use resticpal.Service.Steps.{resumes, ends_backup, ends_update}
use resticpal.Service.Steps.Exclusive.{Exclusive}
use resticpal.Service.Steps.Reachable.{Step-Exclusive}
use resticpal.EventLoop.{
  EventLoop, LoopEvent, evaluation, cancel, resume, update_requested, update_finished, start_update,
  handle,
}
use resticpal.EventLoop.Orderly.{System, IsOrderly, same_phase, evaluation-IsOrderly}
use resticpal.EventLoop.Turns.{is_idle, is_update}

finish_update_install-work :
    (s : RuntimeState) (outcome : UpdateInstallOutcome) (now : DateTime)
    → Exclusive s
    → s.update_install_active ≡ true
    → (is_running s.status.state ≡ false)
      × (is_running (finish_update_install s outcome now).0.status.state ≡ false)
      × ((finish_update_install s outcome now).0.repository_operation ≡ s.repository_operation)
unfolding finish_update_install
finish_update_install-work s outcome now e a = (ground arith, ground arith, ground arith)

finish_backup_at-work :
    (chrono : Chrono) (config : EffectiveConfig) (env : Env) (s : RuntimeState)
    (outcome : BackupOutcome) (now : DateTime)
    → let (t, effects) = finish_backup_at chrono config env s outcome now in
      (is_running t.status.state ≡ false) × (t.repository_operation ≡ s.repository_operation)
unfolding finish_backup_at finished
finish_backup_at-work chrono config env s outcome now = (ground arith, ground arith)

record_resume-work :
    (s : RuntimeState) (now : DateTime)
    → (is_running (record_resume s now).status.state ≡ is_running s.status.state)
      × ((record_resume s now).repository_operation ≡ s.repository_operation)
unfolding record_resume
record_resume-work s now = (refl, refl)

module _ (chrono : Chrono) (config : EffectiveConfig) where
  -- The end of an installation in the loop.
  update_ended-IsOrderly :
      (s : System) (outcome : UpdateInstallOutcome) (now : DateTime)
      → IsOrderly s
      → s.loop.state.update_install_active ≡ true
      → IsOrderly (record s {
        loop = record s.loop { state = (finish_update_install s.loop.state outcome now).0 };
      })
  update_ended-IsOrderly s outcome now i a =
      let (q, after, same) = finish_update_install-work s.loop.state outcome now i.apart a in
      record {
        apart = Step-Exclusive chrono config (ends_update outcome now a refl) i.apart;
        backup = after ∙ sym q ∙ i.backup;
        phase = same_phase s.loop _ s.requested s.working i.phase same refl;
      }

  start_update_cases :
      (env : Env) (conditions : SystemConditions) (started : Bool) (loop : EventLoop)
      → (start_update chrono config env conditions started loop ≡ loop)
        ⊎ (start_update chrono config env conditions started loop ≡ record loop {
          state =
              (finish_update_install loop.state
                (UpdateInstallOutcome.failed "update_operation_conflict")
                (env.clock 0)).0;
        })
        ⊎ (start_update chrono config env conditions started loop ≡ record loop {
          state =
              (finish_update_install loop.state
                (UpdateInstallOutcome.failed "update_worker_start_failed")
                (env.clock 0)).0;
        })
  unfolding start_update
  start_update_cases env conditions started loop = ground arith

  pub update-IsOrderly :
      (env : Env) (conditions : SystemConditions) (started : Bool) (event : LoopEvent) (s : System)
      (next : EventLoop)
      → is_update event ≡ true
      → s.loop.state.update_install_active ≡ true
      → IsOrderly s
      → handle chrono config env conditions started s.loop event ≡ some next
      → IsOrderly (record s { loop = next })
  unfolding handle
  update-IsOrderly env conditions started update_requested s next u a i h =
      elim (start_update_cases env conditions started s.loop) [
        | inl same ↦ let e : next ≡ s.loop = ground arith in rw e i
        | inr (inl failed) ↦
            let e : next ≡ record s.loop {
              state =
                  (finish_update_install s.loop.state
                    (UpdateInstallOutcome.failed "update_operation_conflict") (env.clock 0)).0;
            } =
              ground arith in
            rw e (
              update_ended-IsOrderly s (UpdateInstallOutcome.failed "update_operation_conflict")
                (env.clock 0) i a)
        | inr (inr failed) ↦
            let e : next ≡ record s.loop {
              state =
                  (finish_update_install s.loop.state
                    (UpdateInstallOutcome.failed "update_worker_start_failed") (env.clock 0)).0;
            } =
              ground arith in
            rw e (
              update_ended-IsOrderly s (UpdateInstallOutcome.failed "update_worker_start_failed")
                (env.clock 0) i a)
      ]
  update-IsOrderly env conditions started (update_finished outcome) s next u a i h =
      evaluation-IsOrderly chrono config env conditions started
        (record s.loop { state = (finish_update_install s.loop.state outcome (env.clock 2)).0 })
        next s.requested s.working (update_ended-IsOrderly s outcome (env.clock 2) i a) h
  update-IsOrderly env conditions started _ s next u a i h = ground arith

  pub backup_ended-IsOrderly :
      (env : Env) (s : System) (outcome : BackupOutcome)
      → IsOrderly s
      → IsOrderly (record s {
        loop = record s.loop {
          state = (finish_backup_at chrono config env s.loop.state outcome (env.clock 0)).0;
          active_backup = false;
        };
      })
  backup_ended-IsOrderly env s outcome i =
      let (after, same) =
        finish_backup_at-work chrono config env s.loop.state outcome (env.clock 0) in
      record {
        apart = Step-Exclusive chrono config (ends_backup env outcome (env.clock 0) refl) i.apart;
        backup = after;
        phase = same_phase s.loop _ s.requested s.working i.phase same refl;
      }

  pub wake-IsOrderly :
      (env : Env) (conditions : SystemConditions) (started : Bool) (event : LoopEvent) (s : System)
      (next : EventLoop)
      → is_idle event ≡ true
      → IsOrderly s
      → handle chrono config env conditions started s.loop event ≡ some next
      → IsOrderly (record s { loop = next })
  unfolding handle
  wake-IsOrderly env conditions started evaluation s next w i h =
      evaluation-IsOrderly chrono config env conditions started s.loop next s.requested s.working i
        h
  wake-IsOrderly env conditions started cancel s next w i h =
      let e : next ≡ s.loop = ground arith in rw e i
  wake-IsOrderly env conditions started resume s next w i h =
      let (same, kept) = record_resume-work s.loop.state (env.clock 2) in
      evaluation-IsOrderly chrono config env conditions started
        (record s.loop { state = record_resume s.loop.state (env.clock 2) }) next s.requested
        s.working
        (record {
          apart = Step-Exclusive chrono config (resumes (env.clock 2) refl) i.apart;
          backup = same ∙ i.backup;
          phase = same_phase s.loop _ s.requested s.working i.phase kept refl;
        })
        h
  wake-IsOrderly env conditions started _ s next w i h = ground arith
