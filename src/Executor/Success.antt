-- ===== src/Executor/Success.antt =====
-- What a backup that the service reports as a success went through (apps/resticpal-service/src/executor.rs).
use resticpal.Prelude.{
  true, false, none, some, ◌≡◌, inl, inr, ap, ◌∙◌, arith, ok, Option-cases, some-inj,
}
use resticpal.Config.{PathBuf, EffectiveConfig}
use resticpal.Service.Lifecycle.{BackupOutcome, RepositoryOutcomeKind}
use resticpal.Restic.{ResticOperation}
use resticpal.Restic.Paths.{Texts}
use resticpal.Restic.Builder.{ResticInvocation, unlock, backup_with_required_exclusions}
use resticpal.Restic.Sources.{FileSystem, validate_backup_source_paths, canonical}
use resticpal.Executor.Output.{Wire}
use resticpal.Executor.Process.{
  Process, Waited, ended, cancelled, timed_out, wait_failed, wait, start_process, finish_repository,
  execute_repository_invocation,
}
use resticpal.Executor.Runs.{required_exclusions}
use resticpal.Executor.Honest.{IsDone}

-- A process that ran and ended with the code 0, within its time.
abbrev pub IsClean : ResticInvocation → Process → Type 0
IsClean invocation process =
    (start_process process invocation.secret_environment ≡ none)
    × (wait true process.polls ≡ some (ended (some 0)))

finish_repository-success :
    (operation : ResticOperation) (process : Process) (waited : Waited)
    → finish_repository operation process waited ≡ RepositoryOutcomeKind.succeeded
    → waited ≡ ended (some 0)
unfolding finish_repository
finish_repository-success operation process (ended code) h = ground arith
finish_repository-success operation process cancelled h = absurd (ground arith)
finish_repository-success operation process timed_out h = absurd (ground arith)
finish_repository-success operation process wait_failed h = absurd (ground arith)

pub execute_repository_invocation-success :
    (invocation : ResticInvocation) (process : Process)
    → execute_repository_invocation invocation process ≡ some RepositoryOutcomeKind.succeeded
    → IsClean invocation process
unfolding execute_repository_invocation
execute_repository_invocation-success invocation process h =
    elim (Option-cases (start_process process invocation.secret_environment)) [
      | inr (none, e) ↦ absurd (cc (rw (e, execute_repository_invocation) at h))
      | inr (some code, e) ↦ absurd (cc (rw (e, execute_repository_invocation) at h))
      | inl e ↦ elim (Option-cases (wait true process.polls)) [
        | inl under_way ↦ absurd (cc (rw (e, under_way, execute_repository_invocation) at h))
        | inr (waited, over) ↦
            let good = some-inj (rw (e, over, execute_repository_invocation) at h) in
            (e, over ∙ ap some (finish_repository-success invocation.operation process waited good))
      ]
    ]

module _ (texts : Texts) (wire : Wire) (data_directory : PathBuf) (config : EffectiveConfig) where
  -- What a successful backup went through: the sources were admitted, the locks unlocked up, the sources
  -- admitted again, and then restic backed them up.
  pub record IsBackedUp (before after : FileSystem) (cleanup backup : Process)
      (outcome : BackupOutcome) : Type 0 where
    pub unlocking : ResticInvocation
    pub running : ResticInvocation
    pub admitted :
        validate_backup_source_paths texts before config.backup.paths (some data_directory) ≡ ok tt
    pub unlocked : IsClean unlocking cleanup
    pub admitted_again :
        validate_backup_source_paths texts after config.backup.paths (some data_directory) ≡ ok tt
    pub unlocks : unlock config ≡ ok unlocking
    pub built :
        backup_with_required_exclusions texts config
          (required_exclusions data_directory (canonical texts after data_directory))
        ≡ ok running
    pub done : IsDone wire backup running.secret_environment false outcome
