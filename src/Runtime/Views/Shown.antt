-- ===== src/Runtime/Views/Shown.antt =====
-- What the views show after a request that changes the schedule or the retention.
use resticpal.Prelude.{Bool, Option, unwrap_or, ◌≡◌, refl, arith, String}
use resticpal.Time.{Chrono, DateTime}
use resticpal.Config.{EffectiveConfig, LocalConfig}
use resticpal.Service.{RuntimeState}
use resticpal.Service.Status.{apply_configuration_status}
use resticpal.Service.Effect.{Env}
use resticpal.Service.Operation.{accepted}
use resticpal.Runtime.{ServiceRuntime, Changed, field_locked}
use resticpal.Runtime.Repository.{is_enrolled, repository_secrets_locked}
use resticpal.Runtime.Settings.{
  ScheduleUpdate, update_schedule, refuse_schedule, guarded, with_schedule, record_schedule,
}
use resticpal.Runtime.Views.{
  ScheduleView, schedule_view, retention_view, backup_sources_view, repository_view,
  update_settings_view, management_view,
}

guarded-accepted :
    (refusal : Option String) (env : Env) (candidate : LocalConfig) (runtime : ServiceRuntime)
    (changed : Changed)
    → (guarded refusal env candidate runtime changed).1 ≡ accepted
    → (guarded refusal env candidate runtime changed).0 ≡ changed.0
guarded-accepted refusal env candidate runtime changed h = ground arith

apply_configuration_status-shown :
    (chrono : Chrono) (s : RuntimeState) (config : EffectiveConfig) (now : DateTime)
    → ((apply_configuration_status chrono s config now).repository_operation
        ≡ s.repository_operation)
      × ((apply_configuration_status chrono s config now).service_state ≡ s.service_state)
unfolding apply_configuration_status
apply_configuration_status-shown chrono s config now = (ground arith, ground arith)

-- What a view of the schedule becomes.
abbrev pub shown : ScheduleUpdate → ScheduleView → ScheduleView
shown update view = record view {
  interval_hours = unwrap_or update.interval_hours view.interval_hours;
  wake_grace_seconds = unwrap_or update.wake_grace_seconds view.wake_grace_seconds;
  wake_lock_timeout_seconds =
      unwrap_or update.wake_lock_timeout_seconds view.wake_lock_timeout_seconds;
  allow_on_battery = unwrap_or update.allow_on_battery view.allow_on_battery;
  allow_metered_network = unwrap_or update.allow_metered_network view.allow_metered_network;
}

rescheduled :
    (chrono : Chrono) (env : Env) (update : ScheduleUpdate) (runtime : ServiceRuntime)
    → let after : ServiceRuntime = record runtime {
      local_config = record_schedule update runtime.local_config;
      config = with_schedule update runtime.config;
      state =
          apply_configuration_status chrono runtime.state
            (with_schedule update runtime.config)
            (env.clock 1);
    } in
      (schedule_view after ≡ shown update (schedule_view runtime))
      × (retention_view after ≡ retention_view runtime)
      × (backup_sources_view after ≡ backup_sources_view runtime)
      × (repository_view after ≡ repository_view runtime)
      × (update_settings_view after ≡ update_settings_view runtime)
      × (management_view after ≡ management_view runtime)
unfolding schedule_view retention_view backup_sources_view repository_view update_settings_view
    management_view field_locked repository_secrets_locked is_enrolled
rescheduled chrono env update runtime =
    let (operation, state) =
      apply_configuration_status-shown chrono runtime.state (with_schedule update runtime.config)
        (env.clock 1) in
    (refl, cc (state), refl, cc (operation), refl, refl)

-- After a change of the schedule that the service accepted, the view of the schedule shows what was
-- asked for and, for the rest, what it showed before, its locks included; all other views are as before.
pub update_schedule-shown :
    (chrono : Chrono) (env : Env) (is_administrator : Bool) (update : ScheduleUpdate)
    (runtime : ServiceRuntime)
    → (update_schedule chrono env is_administrator update runtime).1 ≡ accepted
    → let after = (update_schedule chrono env is_administrator update runtime).0 in
      (schedule_view after ≡ shown update (schedule_view runtime))
      × (retention_view after ≡ retention_view runtime)
      × (backup_sources_view after ≡ backup_sources_view runtime)
      × (repository_view after ≡ repository_view runtime)
      × (update_settings_view after ≡ update_settings_view runtime)
      × (management_view after ≡ management_view runtime)
unfolding update_schedule
update_schedule-shown chrono env a update runtime h =
    rw (guarded-accepted (refuse_schedule env a update runtime) env _ runtime _ h)
      (rescheduled chrono env update runtime)
