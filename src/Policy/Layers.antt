-- ===== src/Policy/Layers.antt =====
-- The value of each `PolicyField` of crates/resticpal-core/src/policy.rs in every layer.
use mathlib.Core.Option
use resticpal.Prelude.{ℕ, Bool, false, Option, none, some, List, String, unwrap_or}
use resticpal.Config.{RepositoryMode, PathBuf, Options, SecretRefs, EffectiveConfig, LocalConfig}
use resticpal.Policy.{
  Managed, ManagedPolicy, PolicyField, no_updates, backup_paths, backup_exclusions,
  repository_display_name, repository_url, repository_mode, repository_options,
  repository_secret_refs, schedule_interval_hours, schedule_wake_grace_seconds,
  schedule_wake_lock_timeout_seconds, schedule_allow_on_battery, schedule_allow_metered_network,
  retention_daily, retention_weekly, retention_monthly, retention_yearly,
  retention_prune_interval_days, update_automatic_install,
}

-- The type of a field's value, and its value in each layer.
abbrev pub Value : PolicyField → Type 0
Value backup_paths = List PathBuf
Value backup_exclusions = List String
Value repository_display_name = Option String
Value repository_url = Option String
Value repository_mode = RepositoryMode
Value repository_options = Options
Value repository_secret_refs = SecretRefs
Value schedule_interval_hours = ℕ
Value schedule_wake_grace_seconds = ℕ
Value schedule_wake_lock_timeout_seconds = ℕ
Value schedule_allow_on_battery = Bool
Value schedule_allow_metered_network = Bool
Value retention_daily = ℕ
Value retention_weekly = ℕ
Value retention_monthly = ℕ
Value retention_yearly = ℕ
Value retention_prune_interval_days = ℕ
Value update_automatic_install = Bool

abbrev pub value_in : (field : PolicyField) → EffectiveConfig → Value field
value_in backup_paths config = config.backup.paths
value_in backup_exclusions config = config.backup.exclusions
value_in repository_display_name config = config.repository.display_name
value_in repository_url config = config.repository.url
value_in repository_mode config = config.repository.mode
value_in repository_options config = config.repository.options
value_in repository_secret_refs config = config.repository.secret_refs
value_in schedule_interval_hours config = config.schedule.interval_hours
value_in schedule_wake_grace_seconds config = config.schedule.wake_grace_seconds
value_in schedule_wake_lock_timeout_seconds config = config.schedule.wake_lock_timeout_seconds
value_in schedule_allow_on_battery config = config.schedule.allow_on_battery
value_in schedule_allow_metered_network config = config.schedule.allow_metered_network
value_in retention_daily config = config.retention.daily
value_in retention_weekly config = config.retention.weekly
value_in retention_monthly config = config.retention.monthly
value_in retention_yearly config = config.retention.yearly
value_in retention_prune_interval_days config = config.retention.prune_interval_days
value_in update_automatic_install config = config.updates.automatic_install

abbrev pub local_value : (field : PolicyField) → LocalConfig → Option (Value field)
local_value backup_paths local = local.backup.paths
local_value backup_exclusions local = local.backup.exclusions
local_value repository_display_name local = Option.map some local.repository.display_name
local_value repository_url local = Option.map some local.repository.url
local_value repository_mode local = local.repository.mode
local_value repository_options local = local.repository.options
local_value repository_secret_refs local = local.repository.secret_refs
local_value schedule_interval_hours local = local.schedule.interval_hours
local_value schedule_wake_grace_seconds local = local.schedule.wake_grace_seconds
local_value schedule_wake_lock_timeout_seconds local = local.schedule.wake_lock_timeout_seconds
local_value schedule_allow_on_battery local = local.schedule.allow_on_battery
local_value schedule_allow_metered_network local = local.schedule.allow_metered_network
local_value retention_daily local = local.retention.daily
local_value retention_weekly local = local.retention.weekly
local_value retention_monthly local = local.retention.monthly
local_value retention_yearly local = local.retention.yearly
local_value retention_prune_interval_days local = local.retention.prune_interval_days
local_value update_automatic_install local = local.updates.automatic_install

abbrev policy_value : (field : PolicyField) → ManagedPolicy → Option (Managed (Value field))
policy_value backup_paths policy = policy.backup.paths
policy_value backup_exclusions policy = policy.backup.exclusions
policy_value repository_display_name policy = policy.repository.display_name
policy_value repository_url policy = policy.repository.url
policy_value repository_mode policy = policy.repository.mode
policy_value repository_options policy = policy.repository.options
policy_value repository_secret_refs policy = policy.repository.secret_refs
policy_value schedule_interval_hours policy = policy.schedule.interval_hours
policy_value schedule_wake_grace_seconds policy = policy.schedule.wake_grace_seconds
policy_value schedule_wake_lock_timeout_seconds policy = policy.schedule.wake_lock_timeout_seconds
policy_value schedule_allow_on_battery policy = policy.schedule.allow_on_battery
policy_value schedule_allow_metered_network policy = policy.schedule.allow_metered_network
policy_value retention_daily policy = policy.retention.daily
policy_value retention_weekly policy = policy.retention.weekly
policy_value retention_monthly policy = policy.retention.monthly
policy_value retention_yearly policy = policy.retention.yearly
policy_value retention_prune_interval_days policy = policy.retention.prune_interval_days
policy_value update_automatic_install policy =
    (unwrap_or policy.updates no_updates).automatic_install

abbrev pub managed_value :
    (field : PolicyField) → Option ManagedPolicy → Option (Managed (Value field))
managed_value field none = none
managed_value field (some policy) = policy_value field policy

abbrev pub locks : {A : Type 0} → Option (Managed A) → Bool
locks none = false
locks (some managed) = managed.locked
