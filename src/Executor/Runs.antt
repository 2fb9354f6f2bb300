-- ===== src/Executor/Runs.antt =====
-- The runs of restic that the service asks for: `backup`, `repository_operation` and `retention` of
-- apps/resticpal-service/src/executor.rs.
use resticpal.Prelude.{
  Bool, true, false, Option, none, some, List, [], ◌∷◌, String, Result, ok, err, ◌>>=◌, ◌>>◌,
  if◌then◌else◌, String_discrete,
}
use native.Mathlib.Decide.{ℕ_discrete}
use resticpal.Config.{Component, PathBuf, EffectiveConfig}
use resticpal.Service.Lifecycle.{BackupOutcome, failed_outcome, RepositoryOutcomeKind}
use resticpal.Service.Retention.{RetentionOutcomeKind}
use resticpal.Restic.{ResticOperation}
use resticpal.Restic.Paths.{Texts}
use resticpal.Restic.Builder.{
  ResticInvocation, InvocationError, unlock, repository_setup, retention,
  backup_with_required_exclusions,
}
use resticpal.Restic.Sources.{FileSystem, validate_backup_source_paths, canonical}
use resticpal.Config.Management.{is_text}
use resticpal.Executor.Output.{Wire}
use resticpal.Executor.Process.{
  Process, cancelled_outcome, execute_invocation, execute_repository_invocation,
}

unfoldable pub backup_invocation_error_code : InvocationError → String
backup_invocation_error_code InvocationError.unsupported_network_backup_source =
    "network_backup_source_unsupported"
backup_invocation_error_code InvocationError.unsupported_backup_source_namespace =
    "backup_source_namespace_unsupported"
backup_invocation_error_code InvocationError.protected_backup_source = "protected_backup_source"
backup_invocation_error_code error = "invalid_configuration"

unfoldable pub backup_outcome_for_lock_cleanup : RepositoryOutcomeKind → Option BackupOutcome
backup_outcome_for_lock_cleanup RepositoryOutcomeKind.succeeded = none
backup_outcome_for_lock_cleanup RepositoryOutcomeKind.cancelled = some cancelled_outcome
backup_outcome_for_lock_cleanup (RepositoryOutcomeKind.failed code) = some (
    failed_outcome (
      if is_text code "repository_operation_timed_out"
      then "stale_lock_cleanup_timed_out"
      else if is_text code "repository_operation_failed"
      then "stale_lock_cleanup_failed"
      else code))

-- Paths are equal where their components are.
unfoldable pub Components-discrete : Discrete (List Component)
Components-discrete = hlevel (String_discrete, ℕ_discrete)

abbrev is_same_path : PathBuf → PathBuf → Bool
is_same_path path other = elim (Components-discrete path.components other.components) [
  | yes _ ↦ true
  | no _ ↦ false
]

-- The data directory, and what it stands for where that is another path.
abbrev pub required_exclusions : PathBuf → Option PathBuf → List PathBuf
required_exclusions data_directory none = data_directory ∷ []
required_exclusions data_directory (some canonical_data_directory) =
    if is_same_path data_directory canonical_data_directory
    then data_directory ∷ []
    else data_directory ∷ canonical_data_directory ∷ []

module _ (texts : Texts) where
  unfoldable pub build_backup_invocations :
      FileSystem
      → PathBuf
      → EffectiveConfig
      → Result InvocationError (ResticInvocation × ResticInvocation)
  build_backup_invocations files data_directory config = do
    validate_backup_source_paths texts files config.backup.paths (some data_directory)
    backup ←
        backup_with_required_exclusions texts config
          (required_exclusions data_directory (canonical texts files data_directory))
    cleanup ← unlock config
    ok (cleanup, backup)

  -- The sources are looked at again after the locks were cleaned up, since files may have changed.
  unfoldable pub start_backup :
      Wire → FileSystem → PathBuf → EffectiveConfig → Process → Option BackupOutcome
  start_backup wire files data_directory config process =
      elim (build_backup_invocations files data_directory config) [
        | err error ↦ some (failed_outcome (backup_invocation_error_code error))
        | ok (_, backup) ↦ execute_invocation wire backup process false
      ]

  -- A run that is still under way has no outcome yet.
  unfoldable pub run_backup :
      Wire
      → FileSystem
      → FileSystem
      → PathBuf
      → EffectiveConfig
      → Process
      → Process
      → Option BackupOutcome
  run_backup wire before after data_directory config cleanup backup =
      elim (build_backup_invocations before data_directory config) [
        | err error ↦ some (failed_outcome (backup_invocation_error_code error))
        | ok (unlocking, _) ↦ elim (execute_repository_invocation unlocking cleanup) [
          | none ↦ none
          | some cleaned ↦ elim (backup_outcome_for_lock_cleanup cleaned) [
            | some outcome ↦ some outcome
            | none ↦ start_backup wire after data_directory config backup
          ]
        ]
      ]

  abbrev coded : String → String → RetentionOutcomeKind
  coded code name =
      RetentionOutcomeKind.failed
        (if is_text code "repository_operation_failed" then name else code)

  unfoldable pub run_prune : EffectiveConfig → Process → Option RetentionOutcomeKind
  run_prune config process = elim (retention texts config ResticOperation.prune) [
    | err _ ↦ some (RetentionOutcomeKind.failed "retention_forbidden")
    | ok pruning ↦ elim (execute_repository_invocation pruning process) [
      | none ↦ none
      | some RepositoryOutcomeKind.succeeded ↦ some (RetentionOutcomeKind.succeeded true)
      | some RepositoryOutcomeKind.cancelled ↦ some RetentionOutcomeKind.cancelled
      | some (RepositoryOutcomeKind.failed code) ↦ some (coded code "retention_prune_failed")
    ]
  ]

  -- Snapshots are forgotten first; their data is removed only where that is due.
  unfoldable pub run_retention :
      EffectiveConfig → Bool → Process → Process → Option RetentionOutcomeKind
  run_retention config prune_due forget prune =
      elim (retention texts config ResticOperation.forget) [
        | err _ ↦ some (RetentionOutcomeKind.failed "retention_forbidden")
        | ok forgetting ↦ elim (execute_repository_invocation forgetting forget) [
          | none ↦ none
          | some RepositoryOutcomeKind.succeeded ↦
              if prune_due
              then run_prune config prune
              else some (RetentionOutcomeKind.succeeded false)
          | some RepositoryOutcomeKind.cancelled ↦ some RetentionOutcomeKind.cancelled
          | some (RepositoryOutcomeKind.failed code) ↦ some (coded code "retention_forget_failed")
        ]
      ]

unfoldable pub run_repository_operation :
    EffectiveConfig → ResticOperation → Process → Option RepositoryOutcomeKind
run_repository_operation config operation process = elim (repository_setup config operation) [
  | err _ ↦ some (RepositoryOutcomeKind.failed "invalid_repository_configuration")
  | ok invocation ↦ execute_repository_invocation invocation process
]
