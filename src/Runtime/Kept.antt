-- ===== src/Runtime/Kept.antt =====
-- The requests of apps/resticpal-service/src/runtime/ipc.rs keep the layers in agreement with the
-- configuration in force.
use resticpal.Runtime.Guarded.{guarded-holds}
use resticpal.Prelude.{Bool, false, Option, none, some, ◌≡◌, arith, inr}
use resticpal.Time.{Chrono}
use resticpal.Config.{PathBuf}
use resticpal.Policy.{
  ManagedPolicy, PolicyField, update_automatic_install, backup_paths, backup_exclusions,
}
use resticpal.Restic.Paths.{Texts}
use resticpal.Restic.Sources.{FileSystem}
use resticpal.Service.Effect.{Env}
use resticpal.Service.{RuntimeState}
use resticpal.Runtime.{ServiceRuntime, field_locked}
use resticpal.Runtime.Settings.{
  ScheduleUpdate, schedule_locked, RetentionUpdate, retention_locked, refuse_schedule,
  refuse_retention, refuse_update_settings, update_schedule, update_retention,
  update_update_settings,
}
use resticpal.Runtime.Sources.{
  SourcesUpdate, sources_locked, cleaned, with_sources, record_sources, refuse_sources,
  update_backup_sources,
}
use resticpal.Runtime.Coherent.{
  AgreesAt, IsCoherent, takes, with_schedule-IsCoherent, with_retention-IsCoherent,
}

module _ (managed : Option ManagedPolicy) where
  -- Nothing of it is in the state.
  any_state :
      (runtime : ServiceRuntime) (state : RuntimeState)
      → IsCoherent managed runtime
      → IsCoherent managed (record runtime { state = state })
  unfolding field_locked
  any_state runtime state c = record { agrees = c.agrees }

  schedule_unlocked :
      (env : Env) (a : Bool) (update : ScheduleUpdate) (runtime : ServiceRuntime)
      → refuse_schedule env a update runtime ≡ none
      → schedule_locked runtime update ≡ false
  unfolding refuse_schedule
  schedule_unlocked env a update runtime h = ground arith

  pub update_schedule-IsCoherent :
      (chrono : Chrono) (env : Env) (a : Bool) (update : ScheduleUpdate) (runtime : ServiceRuntime)
      → IsCoherent managed runtime
      → IsCoherent managed (update_schedule chrono env a update runtime).0
  unfolding update_schedule
  update_schedule-IsCoherent chrono env a update runtime c =
      guarded-holds (IsCoherent managed) (refuse_schedule env a update runtime) env _ runtime _ c
        (λ free. any_state _ _ (
          with_schedule-IsCoherent managed runtime c update
            (schedule_unlocked env a update runtime free)))

  retention_unlocked :
      (env : Env) (a : Bool) (update : RetentionUpdate) (runtime : ServiceRuntime)
      → refuse_retention env a update runtime ≡ none
      → retention_locked runtime update ≡ false
  unfolding refuse_retention
  retention_unlocked env a update runtime h = ground arith

  pub update_retention-IsCoherent :
      (env : Env) (a : Bool) (update : RetentionUpdate) (runtime : ServiceRuntime)
      → IsCoherent managed runtime
      → IsCoherent managed (update_retention env a update runtime).0
  unfolding update_retention
  update_retention-IsCoherent env a update runtime c =
      guarded-holds (IsCoherent managed) (refuse_retention env a update runtime) env _ runtime _ c
        (λ free.
          with_retention-IsCoherent managed runtime c update
            (retention_unlocked env a update runtime free))

  automatic_install-IsCoherent :
      (runtime : ServiceRuntime) (automatic_install : Bool)
      → IsCoherent managed runtime
      → field_locked runtime update_automatic_install ≡ false
      → IsCoherent managed (record runtime {
        local_config = record runtime.local_config {
          updates = record { automatic_install = some automatic_install };
        };
        config = record runtime.config {
          updates = record { automatic_install = automatic_install };
        };
      })
  unfolding field_locked
  automatic_install-IsCoherent runtime automatic_install c free = record { agrees = each }
    where
      each :
          (field : PolicyField)
          → AgreesAt managed
              (record runtime {
                local_config = record runtime.local_config {
                  updates = record { automatic_install = some automatic_install };
                };
                config = record runtime.config {
                  updates = record { automatic_install = automatic_install };
                };
              })
              field
      each update_automatic_install =
          takes managed runtime c update_automatic_install (some automatic_install) (inr free)
      each _ = c.agrees _

  pub update_update_settings-IsCoherent :
      (env : Env) (a automatic_install : Bool) (runtime : ServiceRuntime)
      → IsCoherent managed runtime
      → IsCoherent managed (update_update_settings env a automatic_install runtime).0
  unfolding update_update_settings refuse_update_settings
  update_update_settings-IsCoherent env a automatic_install runtime c =
      guarded-holds (IsCoherent managed) (refuse_update_settings env a runtime) env _ runtime _ c
        (λ free. automatic_install-IsCoherent runtime automatic_install c (ground arith))

  module _ (texts : Texts) (files : FileSystem) (directory : Option PathBuf) where
    with_sources-IsCoherent :
        (runtime : ServiceRuntime) (update : SourcesUpdate)
        → IsCoherent managed runtime
        → sources_locked runtime update ≡ false
        → IsCoherent managed (record runtime {
          local_config =
              record_sources texts files directory
                (cleaned texts files directory update)
                runtime.local_config;
          config =
              with_sources texts files directory
                (cleaned texts files directory update)
                runtime.config;
        })
    unfolding sources_locked field_locked
    with_sources-IsCoherent runtime update c free = record { agrees = each }
      where
        each :
            (field : PolicyField)
            → AgreesAt managed
                (record runtime {
                  local_config =
                      record_sources texts files directory
                        (cleaned texts files directory update)
                        runtime.local_config;
                  config =
                      with_sources texts files directory
                        (cleaned texts files directory update)
                        runtime.config;
                })
                field
        each backup_paths =
            takes managed runtime c backup_paths (cleaned texts files directory update).paths
              (ground arith)
        each backup_exclusions =
            takes managed runtime c backup_exclusions
              (cleaned texts files directory update).exclusions (ground arith)
        each _ = c.agrees _

    pub update_backup_sources-IsCoherent :
        (chrono : Chrono) (env : Env) (a : Bool) (update : SourcesUpdate) (runtime : ServiceRuntime)
        → IsCoherent managed runtime
        → IsCoherent managed
            (update_backup_sources texts files directory chrono env a update runtime).0
    unfolding update_backup_sources refuse_sources
    update_backup_sources-IsCoherent chrono env a update runtime c =
        guarded-holds (IsCoherent managed)
          (refuse_sources texts files directory env a update runtime) env _ runtime _ c
          (λ free. any_state _ _ (with_sources-IsCoherent runtime update c (ground arith)))
