-- ===== src/Runtime/Rejected.antt =====
-- A request of apps/resticpal-service/src/runtime that is rejected changes nothing.
use resticpal.Prelude.{Bool, Option, ◌≡◌, ◌⊎◌, refl, arith, String}
use resticpal.Time.{Chrono}
use resticpal.Config.{LocalConfig, PathBuf}
use resticpal.Restic.Paths.{Texts}
use resticpal.Restic.Sources.{FileSystem}
use resticpal.Service.Effect.{Env}
use resticpal.Service.Operation.{accepted, rejected}
use resticpal.Runtime.{ServiceRuntime, Changed}
use resticpal.Runtime.Settings.{
  guarded, refuse_schedule, refuse_retention, refuse_update_settings, update_schedule,
  update_retention, update_update_settings,
}
use resticpal.Runtime.Sources.{refuse_sources, update_backup_sources}
use resticpal.Runtime.Secrets.{SecretChange}
use resticpal.Runtime.Repository.{
  RepositoryUpdate, secrets_changed, commit_repository, update_repository,
}
use resticpal.Runtime.Policies.{leave_management, unenroll}
use resticpal.Runtime.Restart.{
  SettingsRequest, sets_schedule, sets_retention, sets_updates, sets_sources, settings_changed,
}

-- Either a request is accepted, or the runtime is as it was.
abbrev IsAcceptedOrSame : ServiceRuntime → Changed → Type 0
IsAcceptedOrSame runtime changed = (changed.1 ≡ accepted) ⊎ (changed.0 ≡ runtime)

guarded-same :
    (refusal : Option String) (env : Env) (candidate : LocalConfig) (runtime : ServiceRuntime)
    (changed : Changed)
    → changed.1 ≡ accepted
    → IsAcceptedOrSame runtime (guarded refusal env candidate runtime changed)
guarded-same refusal env candidate runtime changed h = ground arith

module _ (texts : Texts) (files : FileSystem) (directory : Option PathBuf) (chrono : Chrono) where
  settings_changed-same :
      (env : Env) (a : Bool) (request : SettingsRequest) (runtime : ServiceRuntime)
      → IsAcceptedOrSame runtime
          (settings_changed texts files directory chrono env a request runtime)
  unfolding update_schedule update_retention update_update_settings update_backup_sources
  settings_changed-same env a (sets_schedule update) runtime =
      guarded-same (refuse_schedule env a update runtime) env _ runtime _ refl
  settings_changed-same env a (sets_retention update) runtime =
      guarded-same (refuse_retention env a update runtime) env _ runtime _ refl
  settings_changed-same env a (sets_updates automatic) runtime =
      guarded-same (refuse_update_settings env a runtime) env _ runtime _ refl
  settings_changed-same env a (sets_sources update) runtime =
      guarded-same (refuse_sources texts files directory env a update runtime) env _ runtime _ refl

commit_repository-same :
    (chrono : Chrono) (env : Env) (update : RepositoryUpdate) (secrets : SecretChange)
    (runtime : ServiceRuntime)
    → IsAcceptedOrSame runtime (commit_repository chrono env update secrets runtime)
unfolding commit_repository
commit_repository-same chrono env update secrets runtime = ground arith

update_repository-same :
    (chrono : Chrono) (env : Env) (a : Bool) (update : RepositoryUpdate) (runtime : ServiceRuntime)
    → IsAcceptedOrSame runtime (update_repository chrono env a update runtime)
unfolding update_repository
update_repository-same chrono env a update runtime =
    ground (
      arith,
      commit_repository-same chrono env update (secrets_changed env update runtime).0 runtime,
    )

unenroll-same :
    (chrono : Chrono) (env : Env) (a : Bool) (runtime : ServiceRuntime)
    → IsAcceptedOrSame runtime (unenroll chrono env a runtime)
unfolding unenroll leave_management
unenroll-same chrono env a runtime = ground arith

-- Requests that change the configuration of the service.
pub data ConfigurationRequest : Type 0 where
  changes_settings : SettingsRequest → ConfigurationRequest
  changes_repository : RepositoryUpdate → ConfigurationRequest
  ends_management : ConfigurationRequest

module _ (texts : Texts) (files : FileSystem) (directory : Option PathBuf) (chrono : Chrono) where
  abbrev pub configuration_changed_by : Env → Bool → ConfigurationRequest → ServiceRuntime → Changed
  configuration_changed_by env a (changes_settings request) runtime =
      settings_changed texts files directory chrono env a request runtime
  configuration_changed_by env a (changes_repository update) runtime =
      update_repository chrono env a update runtime
  configuration_changed_by env a ends_management runtime = unenroll chrono env a runtime

  changed-same :
      (env : Env) (a : Bool) (request : ConfigurationRequest) (runtime : ServiceRuntime)
      → IsAcceptedOrSame runtime (configuration_changed_by env a request runtime)
  changed-same env a (changes_settings request) runtime =
      settings_changed-same texts files directory chrono env a request runtime
  changed-same env a (changes_repository update) runtime =
      update_repository-same chrono env a update runtime
  changed-same env a ends_management runtime = unenroll-same chrono env a runtime

  -- When the service rejects a change of its settings or of its repository or an unenrollment, for
  -- whatever reason, a failure to store it included, then its state, its configuration, its local layer
  -- and what it knows of policy are all as before.
  pub rejected_changes_nothing :
      (env : Env) (is_administrator : Bool) (request : ConfigurationRequest)
      (runtime : ServiceRuntime) (code : String)
      → (configuration_changed_by env is_administrator request runtime).1 ≡ rejected code
      → (configuration_changed_by env is_administrator request runtime).0 ≡ runtime
  rejected_changes_nothing env a request runtime code h =
      ground (arith, changed-same env a request runtime)
