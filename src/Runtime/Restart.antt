-- ===== src/Runtime/Restart.antt =====
-- What the requests of apps/resticpal-service/src/runtime/ipc.rs change is what a restart finds.
use resticpal.Service.{ServiceStateSnapshot}
use resticpal.Runtime.Kept.{
  update_schedule-IsCoherent, update_retention-IsCoherent, update_update_settings-IsCoherent,
  update_backup_sources-IsCoherent,
}
use resticpal.Prelude.{
  Bool, Option, none, List, [], ◌∷◌, ◌≡◌, ◌≢◌, sym, ◌∙◌, ok, ap, arith, if◌then◌else◌,
}
use resticpal.Time.{Chrono, DateTime}
use resticpal.Config.{EffectiveConfig, default_config, PathBuf, LocalConfig}
use resticpal.Policy.{
  ManagedPolicy, PolicyField, ResolvedConfig, update_automatic_install, backup_paths,
  backup_exclusions, repository_display_name, repository_url, repository_mode, repository_options,
  repository_secret_refs, schedule_interval_hours, schedule_wake_grace_seconds,
  schedule_wake_lock_timeout_seconds, schedule_allow_on_battery, schedule_allow_metered_network,
  retention_daily, retention_weekly, retention_monthly, retention_yearly,
  retention_prune_interval_days, is_locked,
}
use resticpal.Policy.Resolve.{resolve_config}
use resticpal.Policy.Layers.{value_in}
use resticpal.Policy.Precedence.{resolve_config_precedence}
use resticpal.Restic.Paths.{Texts}
use resticpal.Restic.Sources.{FileSystem}
use resticpal.Service.Effect.{
  Env, Effect, save_config, save_state, append_run, diagnostic, send, put_credential,
  remove_credential, save_cache, remove_cache,
}
use resticpal.Runtime.{ServiceRuntime, Changed, load, field_locked}
use resticpal.Runtime.Settings.{
  ScheduleUpdate, RetentionUpdate, config_save_failed, update_schedule, update_retention,
  update_update_settings,
}
use resticpal.Runtime.Sources.{SourcesUpdate, update_backup_sources}
use resticpal.Runtime.Coherent.{IsCoherent}

EffectiveConfig-ext :
    (c d : EffectiveConfig) → ((field : PolicyField) → value_in field c ≡ value_in field d) → c ≡ d
EffectiveConfig-ext c d h =
    let backup : c.backup ≡ d.backup = cc (h backup_paths, h backup_exclusions) in
    let repository : c.repository ≡ d.repository = cc (
      h repository_display_name,
      h repository_url,
      h repository_mode,
      h repository_options,
      h repository_secret_refs,
    ) in
    let schedule : c.schedule ≡ d.schedule = cc (
      h schedule_interval_hours,
      h schedule_wake_grace_seconds,
      h schedule_wake_lock_timeout_seconds,
      h schedule_allow_on_battery,
      h schedule_allow_metered_network,
    ) in
    let retention : c.retention ≡ d.retention = cc (
      h retention_daily,
      h retention_weekly,
      h retention_monthly,
      h retention_yearly,
      h retention_prune_interval_days,
    ) in
    let updates : c.updates ≡ d.updates = cc (h update_automatic_install) in
    cc (backup, repository, schedule, retention, updates)

-- Where the layers agree with the configuration in force, they resolve to it.
resolves_to :
    (managed : Option ManagedPolicy) (runtime : ServiceRuntime) (r : ResolvedConfig)
    → IsCoherent managed runtime
    → resolve_config default_config runtime.local_config managed ≡ ok r
    → r.effective ≡ runtime.config
resolves_to managed runtime r c h = EffectiveConfig-ext r.effective runtime.config λ field.
    (resolve_config_precedence field default_config runtime.local_config managed r h).0
    ∙ sym (c.agrees field).0

-- As the service starts, they agree.
pub load-IsCoherent :
    (chrono : Chrono) (local : LocalConfig) (managed : Option ManagedPolicy) (r : ResolvedConfig)
    (snapshot : ServiceStateSnapshot) (now : DateTime)
    → resolve_config default_config local managed ≡ ok r
    → IsCoherent managed (load chrono r local snapshot now)
unfolding load field_locked
load-IsCoherent chrono local managed r snapshot now h = record {
  agrees = λ field.
      let o = resolve_config_precedence field default_config local managed r h in
      (o.0, ap is_locked o.1);
}

-- The requests that change a part of the configuration other than the repository.
pub data SettingsRequest : Type 0 where
  sets_schedule : ScheduleUpdate → SettingsRequest
  sets_retention : RetentionUpdate → SettingsRequest
  sets_updates : Bool → SettingsRequest
  sets_sources : SourcesUpdate → SettingsRequest

module _ (texts : Texts) (files : FileSystem) (directory : Option PathBuf) (chrono : Chrono) where
  abbrev pub settings_changed : Env → Bool → SettingsRequest → ServiceRuntime → Changed
  settings_changed env a (sets_schedule update) runtime =
      update_schedule chrono env a update runtime
  settings_changed env a (sets_retention update) runtime = update_retention env a update runtime
  settings_changed env a (sets_updates automatic) runtime =
      update_update_settings env a automatic runtime
  settings_changed env a (sets_sources update) runtime =
      update_backup_sources texts files directory chrono env a update runtime

  -- The layers of every field go on to agree with its value in force and with whether the service
  -- takes it to be locked, whatever change to the settings is asked for.
  pub settings_changed-IsCoherent :
      (managed : Option ManagedPolicy) (env : Env) (a : Bool) (request : SettingsRequest)
      (runtime : ServiceRuntime)
      → IsCoherent managed runtime
      → IsCoherent managed (settings_changed env a request runtime).0
  settings_changed-IsCoherent managed env a (sets_schedule update) runtime c =
      update_schedule-IsCoherent managed chrono env a update runtime c
  settings_changed-IsCoherent managed env a (sets_retention update) runtime c =
      update_retention-IsCoherent managed env a update runtime c
  settings_changed-IsCoherent managed env a (sets_updates automatic) runtime c =
      update_update_settings-IsCoherent managed env a automatic runtime c
  settings_changed-IsCoherent managed env a (sets_sources update) runtime c =
      update_backup_sources-IsCoherent managed texts files directory chrono env a update runtime c

  -- What the requests for saves leave in the file of the local layer.
  abbrev pub on_disk : Env → LocalConfig → List Effect → LocalConfig
  on_disk env file [] = file
  on_disk env file (save_config local ∷ effects) =
      on_disk env (if config_save_failed env then file else local) effects
  on_disk env file (save_state snapshot ∷ effects) = on_disk env file effects
  on_disk env file (append_run run ∷ effects) = on_disk env file effects
  on_disk env file (diagnostic level code detail ∷ effects) = on_disk env file effects
  on_disk env file (send event ∷ effects) = on_disk env file effects
  on_disk env file (put_credential name ∷ effects) = on_disk env file effects
  on_disk env file (remove_credential name ∷ effects) = on_disk env file effects
  on_disk env file (save_cache ∷ effects) = on_disk env file effects
  on_disk env file (remove_cache ∷ effects) = on_disk env file effects

  -- Where there is a store, the file holds the local layer before and after every request.
  settings_changed-on_disk :
      (env : Env) (a : Bool) (request : SettingsRequest) (runtime : ServiceRuntime)
      → env.config_store ≢ none
      → let (after, response, effects) = settings_changed env a request runtime in
        on_disk env runtime.local_config effects ≡ after.local_config
  unfolding update_schedule update_retention update_update_settings update_backup_sources
  settings_changed-on_disk env a (sets_schedule update) runtime stored = ground arith
  settings_changed-on_disk env a (sets_retention update) runtime stored = ground arith
  settings_changed-on_disk env a (sets_updates automatic) runtime stored = ground arith
  settings_changed-on_disk env a (sets_sources update) runtime stored = ground arith

  -- After any change to the settings, accepted or not, whether or not it could be saved, a restart of the
  -- service that reads the local layer from its file, under the same policy, resolves to the configuration
  -- that was in force. There must be a store, the file must hold the local layer before the change, the layers must agree with
  -- the configuration, and what the file holds afterwards must resolve at all.
  pub settings_survive_restart :
      (managed : Option ManagedPolicy) (env : Env) (a : Bool) (request : SettingsRequest)
      (runtime : ServiceRuntime) (r : ResolvedConfig)
      → IsCoherent managed runtime
      → env.config_store ≢ none
      → let (after, response, effects) = settings_changed env a request runtime in
        resolve_config default_config (on_disk env runtime.local_config effects) managed ≡ ok r
        → r.effective ≡ after.config
  settings_survive_restart managed env a request runtime r c stored h =
      resolves_to managed (settings_changed env a request runtime).0 r
        (settings_changed-IsCoherent managed env a request runtime c)
        (ap (λ l. resolve_config default_config l managed)
            (sym (settings_changed-on_disk env a request runtime stored))
          ∙ h)
