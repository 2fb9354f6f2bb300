-- ===== src/Runtime/Views.antt =====
-- The views of apps/resticpal-service/src/runtime/ipc.rs and of `management_view` in enrollment.rs: what
-- the service shows of its configuration.
pub mod Shown
use resticpal.Prelude.{ℕ, Bool, Option, List, String, map}
use resticpal.Time.{DateTime}
use resticpal.Config.{RepositoryMode, Options, SecretEnvironmentVariable, PathBuf, ManagementMode}
use resticpal.Policy.{
  backup_paths, backup_exclusions, repository_display_name, repository_url, repository_mode,
  repository_options, schedule_interval_hours, schedule_wake_grace_seconds,
  schedule_wake_lock_timeout_seconds, schedule_allow_on_battery, schedule_allow_metered_network,
  retention_daily, retention_weekly, retention_monthly, retention_yearly,
  retention_prune_interval_days, update_automatic_install,
}
use resticpal.Service.{RepositoryOperationStatus}
use resticpal.Runtime.{ServiceRuntime, field_locked}
use resticpal.Runtime.Repository.{is_enrolled, repository_secrets_locked}

pub record ManagementView : Type 0 where
  pub mode : ManagementMode
  pub enrolled : Bool
  pub device_id : Option String
  pub manifest_url : Option String

pub record BackupSourcesView : Type 0 where
  pub paths : List PathBuf
  pub exclusions : List String
  pub paths_locked : Bool
  pub exclusions_locked : Bool

pub record RepositoryView : Type 0 where
  pub display_name : Option String
  pub url : Option String
  pub mode : RepositoryMode
  pub options : Options
  pub configured_secrets : List SecretEnvironmentVariable
  pub operation_status : RepositoryOperationStatus
  pub display_name_locked : Bool
  pub url_locked : Bool
  pub mode_locked : Bool
  pub options_locked : Bool
  pub secrets_locked : Bool

pub record ScheduleView : Type 0 where
  pub interval_hours : ℕ
  pub wake_grace_seconds : ℕ
  pub wake_lock_timeout_seconds : ℕ
  pub allow_on_battery : Bool
  pub allow_metered_network : Bool
  pub interval_hours_locked : Bool
  pub wake_grace_seconds_locked : Bool
  pub wake_lock_timeout_seconds_locked : Bool
  pub allow_on_battery_locked : Bool
  pub allow_metered_network_locked : Bool

pub record RetentionView : Type 0 where
  pub repository_mode : RepositoryMode
  pub daily : ℕ
  pub weekly : ℕ
  pub monthly : ℕ
  pub yearly : ℕ
  pub prune_interval_days : ℕ
  pub daily_locked : Bool
  pub weekly_locked : Bool
  pub monthly_locked : Bool
  pub yearly_locked : Bool
  pub prune_interval_days_locked : Bool
  pub last_retention : Option DateTime
  pub last_prune : Option DateTime
  pub last_error : Option String

pub record UpdateSettingsView : Type 0 where
  pub automatic_install : Bool
  pub automatic_install_locked : Bool

unfoldable pub management_view : ServiceRuntime → ManagementView
management_view runtime = record {
  mode = runtime.local_config.management.mode;
  enrolled = is_enrolled runtime.local_config;
  device_id = runtime.local_config.management.device_id;
  manifest_url = runtime.local_config.management.manifest_url;
}

unfoldable pub backup_sources_view : ServiceRuntime → BackupSourcesView
backup_sources_view runtime = record {
  paths = runtime.config.backup.paths;
  exclusions = runtime.config.backup.exclusions;
  paths_locked = field_locked runtime backup_paths;
  exclusions_locked = field_locked runtime backup_exclusions;
}

unfoldable pub repository_view : ServiceRuntime → RepositoryView
repository_view runtime = record {
  display_name = runtime.config.repository.display_name;
  url = runtime.config.repository.url;
  mode = runtime.config.repository.mode;
  options = runtime.config.repository.options;
  configured_secrets = map (λ entry. entry.0) runtime.config.repository.secret_refs;
  operation_status = runtime.state.repository_operation;
  display_name_locked = field_locked runtime repository_display_name;
  url_locked = field_locked runtime repository_url;
  mode_locked = field_locked runtime repository_mode;
  options_locked = field_locked runtime repository_options;
  secrets_locked = repository_secrets_locked runtime;
}

unfoldable pub update_settings_view : ServiceRuntime → UpdateSettingsView
update_settings_view runtime = record {
  automatic_install = runtime.config.updates.automatic_install;
  automatic_install_locked = field_locked runtime update_automatic_install;
}

unfoldable pub schedule_view : ServiceRuntime → ScheduleView
schedule_view runtime = record {
  interval_hours = runtime.config.schedule.interval_hours;
  wake_grace_seconds = runtime.config.schedule.wake_grace_seconds;
  wake_lock_timeout_seconds = runtime.config.schedule.wake_lock_timeout_seconds;
  allow_on_battery = runtime.config.schedule.allow_on_battery;
  allow_metered_network = runtime.config.schedule.allow_metered_network;
  interval_hours_locked = field_locked runtime schedule_interval_hours;
  wake_grace_seconds_locked = field_locked runtime schedule_wake_grace_seconds;
  wake_lock_timeout_seconds_locked = field_locked runtime schedule_wake_lock_timeout_seconds;
  allow_on_battery_locked = field_locked runtime schedule_allow_on_battery;
  allow_metered_network_locked = field_locked runtime schedule_allow_metered_network;
}

unfoldable pub retention_view : ServiceRuntime → RetentionView
retention_view runtime = record {
  repository_mode = runtime.config.repository.mode;
  daily = runtime.config.retention.daily;
  weekly = runtime.config.retention.weekly;
  monthly = runtime.config.retention.monthly;
  yearly = runtime.config.retention.yearly;
  prune_interval_days = runtime.config.retention.prune_interval_days;
  daily_locked = field_locked runtime retention_daily;
  weekly_locked = field_locked runtime retention_weekly;
  monthly_locked = field_locked runtime retention_monthly;
  yearly_locked = field_locked runtime retention_yearly;
  prune_interval_days_locked = field_locked runtime retention_prune_interval_days;
  last_retention = runtime.state.service_state.last_retention;
  last_prune = runtime.state.service_state.last_prune;
  last_error = runtime.state.service_state.last_retention_error;
}
