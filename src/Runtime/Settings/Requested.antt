-- ===== src/Runtime/Settings/Requested.antt =====
-- What the requests of apps/resticpal-service/src/runtime/ipc.rs for the schedule and the retention
-- change, and which policy locks stand against them.
use resticpal.Prelude.{ℕ, Bool, not, ◌&&◌, ◌||◌, Option, none, some, is_some, unwrap_or}
use resticpal.Config.{EffectiveConfig, LocalConfig}
use resticpal.Policy.{
  schedule_interval_hours, schedule_wake_grace_seconds, schedule_wake_lock_timeout_seconds,
  schedule_allow_on_battery, schedule_allow_metered_network, retention_daily, retention_weekly,
  retention_monthly, retention_yearly, retention_prune_interval_days,
}
use resticpal.Runtime.{ServiceRuntime, field_locked}

-- A change that a request makes to a field, in the configuration and in the local layer.
abbrev pub recorded : {A : Type 0} → Option A → Option A → Option A
recorded none old = old
recorded (some value) old = some value

pub record ScheduleUpdate : Type 0 where
  pub interval_hours : Option ℕ
  pub wake_grace_seconds : Option ℕ
  pub wake_lock_timeout_seconds : Option ℕ
  pub allow_on_battery : Option Bool
  pub allow_metered_network : Option Bool

abbrev pub schedule_unchanged : ScheduleUpdate → Bool
schedule_unchanged update =
    not (is_some update.interval_hours)
    && not (is_some update.wake_grace_seconds)
    && not (is_some update.wake_lock_timeout_seconds)
    && not (is_some update.allow_on_battery)
    && not (is_some update.allow_metered_network)

unfoldable pub schedule_locked : ServiceRuntime → ScheduleUpdate → Bool
schedule_locked runtime update =
    is_some update.interval_hours && field_locked runtime schedule_interval_hours
    || is_some update.wake_grace_seconds && field_locked runtime schedule_wake_grace_seconds
    || is_some update.wake_lock_timeout_seconds
      && field_locked runtime schedule_wake_lock_timeout_seconds
    || is_some update.allow_on_battery && field_locked runtime schedule_allow_on_battery
    || is_some update.allow_metered_network && field_locked runtime schedule_allow_metered_network

abbrev pub with_schedule : ScheduleUpdate → EffectiveConfig → EffectiveConfig
with_schedule update config = record config {
  schedule = record config.schedule {
    interval_hours = unwrap_or update.interval_hours config.schedule.interval_hours;
    wake_grace_seconds = unwrap_or update.wake_grace_seconds config.schedule.wake_grace_seconds;
    wake_lock_timeout_seconds =
        unwrap_or update.wake_lock_timeout_seconds config.schedule.wake_lock_timeout_seconds;
    allow_on_battery = unwrap_or update.allow_on_battery config.schedule.allow_on_battery;
    allow_metered_network =
        unwrap_or update.allow_metered_network config.schedule.allow_metered_network;
  };
}

abbrev pub record_schedule : ScheduleUpdate → LocalConfig → LocalConfig
record_schedule update local = record local {
  schedule = record local.schedule {
    interval_hours = recorded update.interval_hours local.schedule.interval_hours;
    wake_grace_seconds = recorded update.wake_grace_seconds local.schedule.wake_grace_seconds;
    wake_lock_timeout_seconds =
        recorded update.wake_lock_timeout_seconds local.schedule.wake_lock_timeout_seconds;
    allow_on_battery = recorded update.allow_on_battery local.schedule.allow_on_battery;
    allow_metered_network =
        recorded update.allow_metered_network local.schedule.allow_metered_network;
  };
}

pub record RetentionUpdate : Type 0 where
  pub daily : Option ℕ
  pub weekly : Option ℕ
  pub monthly : Option ℕ
  pub yearly : Option ℕ
  pub prune_interval_days : Option ℕ

abbrev pub retention_unchanged : RetentionUpdate → Bool
retention_unchanged update =
    not (is_some update.daily)
    && not (is_some update.weekly)
    && not (is_some update.monthly)
    && not (is_some update.yearly)
    && not (is_some update.prune_interval_days)

unfoldable pub retention_locked : ServiceRuntime → RetentionUpdate → Bool
retention_locked runtime update =
    is_some update.daily && field_locked runtime retention_daily
    || is_some update.weekly && field_locked runtime retention_weekly
    || is_some update.monthly && field_locked runtime retention_monthly
    || is_some update.yearly && field_locked runtime retention_yearly
    || is_some update.prune_interval_days && field_locked runtime retention_prune_interval_days

abbrev pub with_retention : RetentionUpdate → EffectiveConfig → EffectiveConfig
with_retention update config = record config {
  retention = record {
    daily = unwrap_or update.daily config.retention.daily;
    weekly = unwrap_or update.weekly config.retention.weekly;
    monthly = unwrap_or update.monthly config.retention.monthly;
    yearly = unwrap_or update.yearly config.retention.yearly;
    prune_interval_days = unwrap_or update.prune_interval_days config.retention.prune_interval_days;
  };
}

abbrev pub record_retention : RetentionUpdate → LocalConfig → LocalConfig
record_retention update local = record local {
  retention = record {
    daily = recorded update.daily local.retention.daily;
    weekly = recorded update.weekly local.retention.weekly;
    monthly = recorded update.monthly local.retention.monthly;
    yearly = recorded update.yearly local.retention.yearly;
    prune_interval_days = recorded update.prune_interval_days local.retention.prune_interval_days;
  };
}
