-- ===== src/Runtime/Sources.antt =====
-- `update_backup_sources` of apps/resticpal-service/src/runtime/ipc.rs, with what it calls to remove
-- duplicates.
pub mod Unique
use resticpal.Prelude.{
  Bool, true, false, not, ◌&&◌, ◌||◌, Option, none, some, List, [], ◌∷◌, ◌++◌, String, is_some,
  unwrap_or, ok, err, any, if◌then◌else◌, String_discrete,
}
use resticpal.Time.{Chrono}
use resticpal.Config.{PathBuf, EffectiveConfig, LocalConfig}
use resticpal.Policy.{backup_paths, backup_exclusions}
use resticpal.Restic.Builder.{
  InvocationError, unsupported_network_backup_source, unsupported_backup_source_namespace,
  protected_backup_source,
}
use resticpal.Restic.Paths.{Texts}
use resticpal.Restic.Sources.{FileSystem, validate_backup_source_paths}
use resticpal.Service.{is_running}
use resticpal.Service.Status.{apply_configuration_status}
use resticpal.Service.Effect.{Env, send, configuration_changed}
use resticpal.Service.Operation.{accepted}
use resticpal.Runtime.{ServiceRuntime, Changed, field_locked, update_blocks_configuration_mutation}
use resticpal.Runtime.Settings.{is_invalid, recorded, config_effects, guarded}

abbrev pub has_text : String → List String → Bool
has_text key seen = any (λ s. elim (String_discrete s key) [ yes _ ↦ true | no _ ↦ false ]) seen

-- `filter(|x| seen.insert(key(x)))`: the first entry of each key stays.
module _ {A : Type 0} (key : A → String) where
  unfoldable pub first_of_each : List String → List A → List A
  first_of_each seen [] = []
  first_of_each seen (x ∷ xs) =
      let without = first_of_each seen xs in
      let rest = first_of_each (key x ∷ seen) xs in
      if has_text (key x) seen then without else x ∷ rest

unfoldable pub deduplicate_exclusions : List String → List String
deduplicate_exclusions exclusions = first_of_each (λ s. s) [] exclusions

unfoldable pub deduplicate_paths : Texts → List PathBuf → List PathBuf
deduplicate_paths texts paths = first_of_each (λ path. texts.to_lowercase path.text) [] paths

pub record SourcesUpdate : Type 0 where
  pub paths : Option (List PathBuf)
  pub exclusions : Option (List String)

unfoldable pub sources_locked : ServiceRuntime → SourcesUpdate → Bool
sources_locked runtime update =
    is_some update.paths && field_locked runtime backup_paths
    || is_some update.exclusions && field_locked runtime backup_exclusions

abbrev source_error : InvocationError → String
source_error unsupported_network_backup_source = "unsupported_network_backup_source"
source_error unsupported_backup_source_namespace = "unsupported_backup_source_namespace"
source_error protected_backup_source = "protected_backup_source"
source_error error = "invalid_backup_sources"

module _ (texts : Texts) (files : FileSystem) (data_directory : Option PathBuf) where
  -- The lists of a request, each entry once.
  abbrev pub cleaned : SourcesUpdate → SourcesUpdate
  cleaned update = record {
    paths = elim update.paths [ none ↦ none | some paths ↦ some (deduplicate_paths texts paths) ];
    exclusions = elim update.exclusions [
      | none ↦ none
      | some exclusions ↦ some (deduplicate_exclusions exclusions)
    ];
  }

  abbrev pub with_sources : SourcesUpdate → EffectiveConfig → EffectiveConfig
  with_sources update config = record config {
    backup = record {
      paths = unwrap_or update.paths config.backup.paths;
      exclusions = unwrap_or update.exclusions config.backup.exclusions;
    };
  }

  abbrev pub record_sources : SourcesUpdate → LocalConfig → LocalConfig
  record_sources update local = record local {
    backup = record {
      paths = recorded update.paths local.backup.paths;
      exclusions = recorded update.exclusions local.backup.exclusions;
    };
  }

  unfoldable pub refuse_sources : Env → Bool → SourcesUpdate → ServiceRuntime → Option String
  refuse_sources env is_administrator update runtime =
      if not is_administrator
      then some "administrator_required"
      else if update_blocks_configuration_mutation runtime.state (env.clock 0)
      then some "update_pending"
      else if not (is_some update.paths) && not (is_some update.exclusions)
      then some "no_configuration_changes"
      else if sources_locked runtime update
      then some "managed_field_locked"
      else let effective = with_sources (cleaned update) runtime.config in
        elim (validate_backup_source_paths texts files effective.backup.paths data_directory) [
          | err error ↦ some (source_error error)
          | ok _ ↦
              if is_invalid effective
              then some "invalid_backup_sources"
              else if is_running runtime.state.status.state
              then some "backup_running"
              else none
        ]

  module _ (chrono : Chrono) where
    unfoldable pub update_backup_sources : Env → Bool → SourcesUpdate → ServiceRuntime → Changed
    update_backup_sources env is_administrator update runtime =
        let candidate = record_sources (cleaned update) runtime.local_config in
        let effective = with_sources (cleaned update) runtime.config in
        guarded (refuse_sources env is_administrator update runtime) env candidate runtime (
          record runtime {
            local_config = candidate;
            config = effective;
            state = apply_configuration_status chrono runtime.state effective (env.clock 1);
          },
          accepted,
          config_effects env candidate ++ (send configuration_changed ∷ []),
        )
