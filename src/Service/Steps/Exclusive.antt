-- ===== src/Service/Steps/Exclusive.antt =====
-- A backup, a repository operation and an update installation exclude one another, whatever calls the
-- service receives.
use resticpal.Prelude.{
  Bool, true, false, Option, none, some, ◌≡◌, ◌⊎◌, arith, ℕ, String, Option-cases, inl, inr,
}
use resticpal.Time.{DateTime, Chrono}
use resticpal.Config.{EffectiveConfig}
use resticpal.Service.{
  BackupState, BackupProgress, RepositoryOperationKind, RuntimeState, is_running,
  is_repository_running, RepositoryOperationStatus,
}
use resticpal.Service.Status.{
  repository_operation_allows_backup, transition_state, apply_configuration_status,
}
use resticpal.Service.Scheduler.{record_resume}
use resticpal.Service.Effect.{Env}
use resticpal.Service.Lifecycle.{
  BackupOutcome, RepositoryOutcomeKind, UpdateInstallOutcome, update_progress,
  finish_update_install, finished, finish_backup_at,
}
use resticpal.Service.Retention.{RetentionOutcomeKind, begin_retention, retained, finish_retention}
use resticpal.Service.Operation.{
  refuse_operation, operation_begun, begin_repository_operation, finish_repository_operation,
  refuse_operation-none,
}
use resticpal.Service.Requests.{run_backup_now, cancel_backup, defer_backup}
use resticpal.Service.Update.{
  refuse_update, held, hold_undone, prepare_for_update, begin_update_install, refuse_update-none,
}

-- Whether the status saved under a hold is that of a running backup.
abbrev pub saved_running : Option (BackupState × Option DateTime) → Bool
saved_running none = false
saved_running (some (state, deadline)) = is_running state

pub record Exclusive (s : RuntimeState) : Type 0 where
  pub backup_alone :
      (is_running s.status.state ≡ false)
      ⊎ (repository_operation_allows_backup s.repository_operation ≡ true)
        × (s.update_install_active ≡ false)
        × (s.update_hold_until ≡ none)
  pub operation_alone :
      (is_repository_running s.repository_operation ≡ false) ⊎ (s.update_install_active ≡ false)
  pub hold_quiet : saved_running s.update_hold_previous_status ≡ false

pub record_resume-Exclusive :
    (s : RuntimeState) (now : DateTime) → Exclusive s → Exclusive (record_resume s now)
unfolding record_resume
record_resume-Exclusive s now e = ground arith

pub update_progress-Exclusive :
    (s : RuntimeState) (p : BackupProgress) → Exclusive s → Exclusive (update_progress s p)
unfolding update_progress
update_progress-Exclusive s p e = ground arith

retained-Exclusive :
    (s : RuntimeState) (k : RetentionOutcomeKind) (now : DateTime)
    → Exclusive s
    → Exclusive (retained s k now)
unfolding retained
retained-Exclusive s k now e = ground arith

pub finish_retention-Exclusive :
    (env : Env) (s : RuntimeState) (b : BackupOutcome) (k : RetentionOutcomeKind) (now : DateTime)
    → Exclusive s
    → Exclusive (finish_retention env s b k now).0
unfolding finish_retention
finish_retention-Exclusive env s b k now e = ground (arith, retained-Exclusive s k now e)

pub finish_update_install-Exclusive :
    (s : RuntimeState) (o : UpdateInstallOutcome) (now : DateTime)
    → s.update_install_active ≡ true
    → Exclusive s
    → Exclusive (finish_update_install s o now).0
unfolding finish_update_install
finish_update_install-Exclusive s o now a e = ground arith

pub cancel_backup-Exclusive :
    (env : Env) (s : RuntimeState) → Exclusive s → Exclusive (cancel_backup env s).0
unfolding cancel_backup
cancel_backup-Exclusive env s e = ground arith

module _ (chrono : Chrono) (config : EffectiveConfig) where
  pub begin_retention-Exclusive :
      (s : RuntimeState) (now : DateTime)
      → is_running s.status.state ≡ true
      → Exclusive s
      → Exclusive (begin_retention config s now).0
  unfolding begin_retention
  begin_retention-Exclusive s now r e = ground arith

  pub finish_backup_at-Exclusive :
      (env : Env) (s : RuntimeState) (b : BackupOutcome) (now : DateTime)
      → Exclusive s
      → Exclusive (finish_backup_at chrono config env s b now).0
  unfolding finish_backup_at finished
  finish_backup_at-Exclusive env s b now e = ground arith

  pub finish_repository_operation-Exclusive :
      (env : Env) (s : RuntimeState) (o : RepositoryOperationKind) (k : RepositoryOutcomeKind)
      → Exclusive s
      → Exclusive (finish_repository_operation chrono config env s o k).0
  unfolding finish_repository_operation apply_configuration_status transition_state
  finish_repository_operation-Exclusive env s o k e = ground arith

  pub run_backup_now-Exclusive :
      (env : Env) (s : RuntimeState) → Exclusive s → Exclusive (run_backup_now config env s).0
  unfolding run_backup_now
  run_backup_now-Exclusive env s e = ground arith

  pub defer_backup-Exclusive :
      (env : Env) (m : ℕ) (s : RuntimeState)
      → Exclusive s
      → Exclusive (defer_backup chrono config env m s).0
  unfolding defer_backup
  defer_backup-Exclusive env m s e = ground arith

  operation_begun-Exclusive :
      (o : RepositoryOperationKind) (s : RuntimeState) (now : DateTime)
      → is_running s.status.state ≡ false
      → s.update_install_active ≡ false
      → Exclusive s
      → Exclusive (operation_begun config o s now)
  unfolding operation_begun transition_state
  operation_begun-Exclusive o s now r u e = ground arith

  operation_begun-quiet :
      (o : RepositoryOperationKind) (s : RuntimeState) (now : DateTime)
      → is_running s.status.state ≡ false
      → is_running (operation_begun config o s now).status.state ≡ false
  unfolding operation_begun transition_state
  operation_begun-quiet o s now r = ground arith

  -- Another end of the operation, which is not under way.
  failed-Exclusive :
      (s : RuntimeState) (o : RepositoryOperationKind) (now : DateTime) (code : String)
      → is_running s.status.state ≡ false
      → Exclusive s
      → Exclusive (record s { repository_operation = RepositoryOperationStatus.failed o now code })
  failed-Exclusive s o now code r e = ground arith

  pub begin_repository_operation-Exclusive :
      (env : Env) (a : Bool) (o : RepositoryOperationKind) (s : RuntimeState)
      → Exclusive s
      → Exclusive (begin_repository_operation config env a o s).0
  unfolding begin_repository_operation
  begin_repository_operation-Exclusive env a o s e =
      elim (Option-cases (refuse_operation config a o s (env.clock 0))) [
        | inl free ↦
            let (install, running, operation) = refuse_operation-none config a o s _ free in
            let begun = operation_begun-Exclusive o s (env.clock 1) running install e in
            let quiet = operation_begun-quiet o s (env.clock 1) running in
            let failed = λ (code : String).
              failed-Exclusive (operation_begun config o s (env.clock 1)) o (env.clock 2) code quiet
                begun in
            ground (arith, free, begun, failed "state_save_failed", failed "service_stopping")
        | inr (code, refused) ↦ ground (arith, refused)
      ]

  held-Exclusive :
      (s : RuntimeState) (n : ℕ) (now : DateTime)
      → is_running s.status.state ≡ false
      → Exclusive s
      → Exclusive (held chrono s n now)
  unfolding held transition_state
  held-Exclusive s n now r e = ground arith

  pub prepare_for_update-Exclusive :
      (env : Env) (a : Bool) (n : ℕ) (s : RuntimeState)
      → Exclusive s
      → Exclusive (prepare_for_update chrono config env a n s).0
  unfolding prepare_for_update
  prepare_for_update-Exclusive env a n s e = elim (Option-cases (refuse_update s (env.clock 0))) [
    | inl free ↦
        let kept = held-Exclusive s n (env.clock 0) (refuse_update-none s (env.clock 0) free).1 e in
        ground (arith, free, kept)
    | inr (code, refused) ↦ ground (arith, refused)
  ]

  -- A hold in which the installation is under way, and one that is undone.
  installing-Exclusive :
      (s : RuntimeState) (n : ℕ) (now : DateTime)
      → is_running s.status.state ≡ false
      → is_repository_running s.repository_operation ≡ false
      → Exclusive s
      → Exclusive (record (held chrono s n now) { update_install_active = true })
        × Exclusive
            (hold_undone chrono (record (held chrono s n now) { update_install_active = true }) now)
  unfolding held hold_undone transition_state
  installing-Exclusive s n now r o e = (ground arith, ground arith)

  pub begin_update_install-Exclusive :
      (env : Env) (v : Bool) (s : RuntimeState)
      → Exclusive s
      → Exclusive (begin_update_install chrono config env v s).0
  unfolding begin_update_install
  begin_update_install-Exclusive env v s e = elim (Option-cases (refuse_update s (env.clock 0))) [
    | inl free ↦
        let (install, running, operation, management) = refuse_update-none s (env.clock 0) free in
        let kept = installing-Exclusive s 1800 (env.clock 0) running operation e in
        ground (arith, free, kept)
    | inr (code, refused) ↦ ground (arith, refused)
  ]
