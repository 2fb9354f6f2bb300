-- ===== src/Runtime/Steps/Sound.antt =====
-- What every call keeps, changes of the configuration included.
use resticpal.Runtime.Guarded.{guarded-holds}
use resticpal.Prelude.{Bool, false, Option, none, ◌≡◌, arith, refl}
use resticpal.Time.{DateTime, Chrono}
use resticpal.Config.{EffectiveConfig, LocalConfig, PathBuf}
use resticpal.Config.Validate.{validate}
use resticpal.Policy.{Resolutions}
use resticpal.Restic.Paths.{Texts}
use resticpal.Restic.Sources.{FileSystem}
use resticpal.Service.{RuntimeState}
use resticpal.Service.Status.{apply_configuration_status, transition_state}
use resticpal.Service.Effect.{Env}
use resticpal.Service.Steps.Exclusive.{Exclusive}
use resticpal.Runtime.{ServiceRuntime}
use resticpal.Runtime.Settings.{
  is_invalid, refuse_schedule, refuse_retention, refuse_update_settings, update_schedule,
  update_retention, update_update_settings, with_schedule, with_retention,
}
use resticpal.Runtime.Sources.{refuse_sources, update_backup_sources, with_sources, cleaned}
use resticpal.Runtime.Restart.{
  SettingsRequest, sets_schedule, sets_retention, sets_updates, sets_sources, settings_changed,
}
use resticpal.Runtime.Steps.Alone.{IsManagedAlone, apply_configuration_status-managed}

pub record IsSound (runtime : ServiceRuntime) : Type 0 where
  pub apart : Exclusive runtime.state
  pub alone : IsManagedAlone runtime.state
  pub valid : is_invalid runtime.config ≡ false

apply_configuration_status-Exclusive :
    (chrono : Chrono) (s : RuntimeState) (config : EffectiveConfig) (now : DateTime)
    → Exclusive s
    → Exclusive (apply_configuration_status chrono s config now)
unfolding apply_configuration_status transition_state
apply_configuration_status-Exclusive chrono s config now e = ground arith

-- A valid configuration put into force in a state that is in order.
pub applied-IsSound :
    (chrono : Chrono) (s : RuntimeState) (config : EffectiveConfig) (local : LocalConfig)
    (fields : Resolutions) (now : DateTime)
    → Exclusive s
    → IsManagedAlone s
    → is_invalid config ≡ false
    → IsSound (record {
      state = apply_configuration_status chrono s config now;
      config = config;
      local_config = local;
      field_resolutions = fields;
    })
applied-IsSound chrono s config local fields now e m v = record {
  apart = apply_configuration_status-Exclusive chrono s config now e;
  alone = apply_configuration_status-managed chrono s config now m;
  valid = v;
}

schedule_valid :
    (env : Env) (a : Bool) (update : _) (runtime : ServiceRuntime)
    → refuse_schedule env a update runtime ≡ none
    → is_invalid (with_schedule update runtime.config) ≡ false
unfolding refuse_schedule
schedule_valid env a update runtime h = ground arith

retention_valid :
    (env : Env) (a : Bool) (update : _) (runtime : ServiceRuntime)
    → refuse_retention env a update runtime ≡ none
    → is_invalid (with_retention update runtime.config) ≡ false
unfolding refuse_retention
retention_valid env a update runtime h = ground arith

-- Nothing is checked of the update settings.
updates_valid :
    (config : EffectiveConfig) (automatic : Bool)
    → is_invalid (record config { updates = record { automatic_install = automatic } })
      ≡ is_invalid config
unfolding validate
updates_valid config automatic = refl

module _ (texts : Texts) (files : FileSystem) (directory : Option PathBuf) (chrono : Chrono) where
  sources_valid :
      (env : Env) (a : Bool) (update : _) (runtime : ServiceRuntime)
      → refuse_sources texts files directory env a update runtime ≡ none
      → is_invalid
          (with_sources texts files directory (cleaned texts files directory update) runtime.config)
        ≡ false
  unfolding refuse_sources
  sources_valid env a update runtime h = ground arith

  pub settings_changed-IsSound :
      (env : Env) (a : Bool) (request : SettingsRequest) (runtime : ServiceRuntime)
      → IsSound runtime
      → IsSound (settings_changed texts files directory chrono env a request runtime).0
  unfolding update_schedule update_retention update_update_settings update_backup_sources
  settings_changed-IsSound env a (sets_schedule update) runtime i =
      guarded-holds IsSound (refuse_schedule env a update runtime) env _ runtime _ i (λ free.
        applied-IsSound chrono runtime.state _ _ _ _ i.apart i.alone
          (schedule_valid env a update runtime free))
  settings_changed-IsSound env a (sets_retention update) runtime i =
      guarded-holds IsSound (refuse_retention env a update runtime) env _ runtime _ i (λ free.
        record {
          apart = i.apart;
          alone = i.alone;
          valid = retention_valid env a update runtime free;
        })
  settings_changed-IsSound env a (sets_updates automatic) runtime i =
      guarded-holds IsSound (refuse_update_settings env a runtime) env _ runtime _ i (λ free.
        record {
          apart = i.apart;
          alone = i.alone;
          valid = rw (updates_valid runtime.config automatic) i.valid;
        })
  settings_changed-IsSound env a (sets_sources update) runtime i =
      guarded-holds IsSound (refuse_sources texts files directory env a update runtime) env _
        runtime _ i
        (λ free.
          applied-IsSound chrono runtime.state _ _ _ _ i.apart i.alone
            (sources_valid env a update runtime free))
