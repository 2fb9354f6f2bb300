-- ===== src/Restic/Builder.antt =====
-- `ResticCommandBuilder` of crates/resticpal-core/src/restic.rs. The path of the executable, which every
-- invocation repeats, is left out.
use Prim.Native.String.{◌++◌ as ◌+++◌}
use resticpal.Prelude.{
  Bool, not, none, some, List, [], ◌∷◌, ◌++◌, String, any, is_empty, map, Result, ok, err, ◌>>◌,
  ◌>>=◌, reject_if, map_err, if◌then◌else◌,
}
use resticpal.Config.{RepositoryMode, PathBuf, Options, SecretRefs, EffectiveConfig}
use resticpal.Config.Validate.{
  ConfigValidationError, repository_option_disables_source_snapshots, validate,
}
use resticpal.Restic.{ResticOperation, allowed_in}
use resticpal.Restic.Paths.{Texts, windows_path_is_same_or_descendant}

pub record ResticInvocation : Type 0 where
  pub operation : ResticOperation
  pub arguments : List String
  pub environment : List (String × String)
  pub secret_environment : SecretRefs

pub data InvocationError : Type 0 where
  invalid_configuration : ConfigValidationError → InvocationError
  missing_repository no_backup_paths : InvocationError
  snapshot_disabling_repository_option : String → InvocationError
  protected_backup_source unsupported_backup_source_namespace unsupported_network_backup_source :
      InvocationError
  forbidden_by_repository_mode : RepositoryMode → ResticOperation → InvocationError
  not_inspection_operation not_repository_setup_operation not_retention_operation :
      ResticOperation → InvocationError

abbrev pub Built : Type 0
Built = Result InvocationError ResticInvocation

unfoldable pub authorize_operation :
    RepositoryMode → ResticOperation → Result InvocationError (Unit {0})
authorize_operation mode operation =
    reject_if (not (allowed_in operation mode)) (forbidden_by_repository_mode mode operation)

unfoldable pub repository_options : Options → List String
repository_options [] = []
repository_options ((key, value) ∷ options) =
    "--option" ∷ (key +++ "=" +++ value) ∷ repository_options options

unfoldable pub reject_snapshot_disabling_options : Options → Result InvocationError (Unit {0})
reject_snapshot_disabling_options [] = ok tt
reject_snapshot_disabling_options ((key, value) ∷ options) =
    let rest = reject_snapshot_disabling_options options in
    if repository_option_disables_source_snapshots key
    then err (snapshot_disabling_repository_option key)
    else rest

abbrev the_repository : EffectiveConfig → Result InvocationError String
the_repository config = elim config.repository.url [
  | none ↦ err missing_repository
  | some url ↦ ok url
]

-- What every invocation of a configuration shares.
abbrev pub invocation : EffectiveConfig → ResticOperation → List String → String → ResticInvocation
invocation config operation command repository = record {
  operation = operation;
  arguments = repository_options config.repository.options ++ command;
  environment = ("RESTIC_REPOSITORY", repository) ∷ [];
  secret_environment = config.repository.secret_refs;
}

-- The steps that all the operations but a backup share.
abbrev simple : EffectiveConfig → ResticOperation → List String → Built
simple config operation command = do
  authorize_operation config.repository.mode operation
  map_err invalid_configuration (validate config)
  repository ← the_repository config
  ok (invocation config operation command repository)

unfoldable pub unlock : EffectiveConfig → Built
unlock config = simple config ResticOperation.unlock ("unlock" ∷ [])

unfoldable pub inspection : EffectiveConfig → ResticOperation → Built
inspection config ResticOperation.snapshots =
    simple config ResticOperation.snapshots ("snapshots" ∷ "--json" ∷ [])
inspection config ResticOperation.check =
    simple config ResticOperation.check ("check" ∷ "--json" ∷ [])
inspection config operation = err (not_inspection_operation operation)

unfoldable pub repository_setup : EffectiveConfig → ResticOperation → Built
repository_setup config ResticOperation.probe =
    simple config ResticOperation.probe ("cat" ∷ "config" ∷ [])
repository_setup config ResticOperation.initialize =
    simple config ResticOperation.initialize ("init" ∷ [])
repository_setup config operation = err (not_repository_setup_operation operation)

abbrev option_each : String → List String → List String
option_each flag [] = []
option_each flag (value ∷ values) = flag ∷ value ∷ option_each flag values

abbrev pub is_protected : Texts → List PathBuf → PathBuf → Bool
is_protected texts exclusions source =
    any (λ protected. windows_path_is_same_or_descendant texts source protected) exclusions

module _ (texts : Texts) where
  unfoldable pub retention : EffectiveConfig → ResticOperation → Built
  retention config ResticOperation.forget = simple config ResticOperation.forget (
      "forget"
      ∷ "--keep-daily"
      ∷ texts.to_string config.retention.daily
      ∷ "--keep-weekly"
      ∷ texts.to_string config.retention.weekly
      ∷ "--keep-monthly"
      ∷ texts.to_string config.retention.monthly
      ∷ "--keep-yearly"
      ∷ texts.to_string config.retention.yearly
      ∷ [])
  retention config ResticOperation.prune = simple config ResticOperation.prune ("prune" ∷ [])
  retention config operation = err (not_retention_operation operation)

  unfoldable pub backup_with_required_exclusions : EffectiveConfig → List PathBuf → Built
  backup_with_required_exclusions config exclusions = do
    authorize_operation config.repository.mode ResticOperation.backup
    reject_snapshot_disabling_options config.repository.options
    map_err invalid_configuration (validate config)
    repository ← the_repository config
    reject_if (is_empty config.backup.paths) no_backup_paths
    reject_if (any (is_protected texts exclusions) config.backup.paths) protected_backup_source
    ok (
        invocation config ResticOperation.backup
          (("--cleanup-cache" ∷ "backup" ∷ "--json" ∷ "--use-fs-snapshot" ∷ [])
            ++ (option_each "--exclude" config.backup.exclusions
                ++ (option_each "--iexclude" (map (λ path. path.text) exclusions)
                    ++ map (λ path. path.text) config.backup.paths)))
          repository)

  unfoldable pub backup : EffectiveConfig → Built
  backup config = backup_with_required_exclusions config []
