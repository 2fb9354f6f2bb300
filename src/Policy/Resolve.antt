-- ===== src/Policy/Resolve.antt =====
-- `resolve_config` of crates/resticpal-core/src/policy.rs.
use resticpal.Prelude.{
  ℕ, Bool, true, false, not, ◌&&◌, ◌||◌, Option, none, some, unwrap_or, ltb, ◌==◌, is_some, Result,
  ok, ◌>>◌, reject_if, map_err, if◌then◌else◌,
}
use mathlib.Core.Option
use resticpal.Text.{is_blank, chars_count, has_break}
use resticpal.Config.{LocalConfig, EffectiveConfig, config_schema_version}
use resticpal.Config.Validate.{ConfigValidationError, validate}
use resticpal.Policy.{
  Managed, ManagedPolicy, ManagedUpdatePolicy, PolicyField, ValueSource, product_default,
  local_administrator, managed_recommendation, managed_locked, Resolutions, no_resolutions, insert,
  ResolvedConfig, no_backup, no_repository, no_schedule, no_retention, no_updates, backup_paths,
  backup_exclusions, repository_display_name, repository_url, repository_mode, repository_options,
  repository_secret_refs, schedule_interval_hours, schedule_wake_grace_seconds,
  schedule_wake_lock_timeout_seconds, schedule_allow_on_battery, schedule_allow_metered_network,
  retention_daily, retention_weekly, retention_monthly, retention_yearly,
  retention_prune_interval_days, update_automatic_install,
}

pub data PolicyError : Type 0 where
  unsupported_local_schema unsupported_managed_schema : ℕ → PolicyError
  updates_require_managed_schema_v2 invalid_managed_revision : PolicyError
  invalid_effective_config : ConfigValidationError → PolicyError

-- The `match` of `choose`: the value, its source, and whether it is locked.
abbrev pub pick : {A : Type 0} → A → Option A → Option (Managed A) → A × ValueSource × Bool
pick default none none = (default, product_default, false)
pick default (some local) none = (local, local_administrator, false)
pick default none (some managed) =
    if managed.locked
    then (managed.value, managed_locked, true)
    else (managed.value, managed_recommendation, false)
pick default (some local) (some managed) =
    if managed.locked
    then (managed.value, managed_locked, true)
    else (local, local_administrator, false)

abbrev pub choose :
    {A : Type 0} → PolicyField → A → Option A → Option (Managed A) → Resolutions → A × Resolutions
choose field default local managed resolutions =
    let (value, source, locked) = pick default local managed in
    (value, insert field (record { source = source; locked = locked }) resolutions)

abbrev section_of : {A : Type 0} → A → (ManagedPolicy → A) → Option ManagedPolicy → A
section_of absent get none = absent
section_of absent get (some policy) = get policy

-- The sections of an absent policy manage nothing, and `updates` may be absent by itself.
abbrev pub updates_of : Option ManagedPolicy → ManagedUpdatePolicy
updates_of managed = unwrap_or (section_of none (λ policy. policy.updates) managed) no_updates

-- The effective configuration and the resolution of each field: one `choose` for each, in the
-- order of the source.
unfoldable pub resolve_fields :
    EffectiveConfig → LocalConfig → Option ManagedPolicy → EffectiveConfig × Resolutions
resolve_fields defaults local managed =
    let managed_backup = section_of no_backup (λ policy. policy.backup) managed in
    let managed_repository = section_of no_repository (λ policy. policy.repository) managed in
    let managed_schedule = section_of no_schedule (λ policy. policy.schedule) managed in
    let managed_retention = section_of no_retention (λ policy. policy.retention) managed in
    let managed_updates = updates_of managed in
    let (backup_paths_value, fields1) =
      choose backup_paths defaults.backup.paths local.backup.paths managed_backup.paths
        no_resolutions in
    let (backup_exclusions_value, fields2) =
      choose backup_exclusions defaults.backup.exclusions local.backup.exclusions
        managed_backup.exclusions fields1 in
    let (repository_display_name_value, fields3) =
      choose repository_display_name defaults.repository.display_name
        (Option.map some local.repository.display_name) managed_repository.display_name fields2 in
    let (repository_url_value, fields4) =
      choose repository_url defaults.repository.url (Option.map some local.repository.url)
        managed_repository.url fields3 in
    let (repository_mode_value, fields5) =
      choose repository_mode defaults.repository.mode local.repository.mode managed_repository.mode
        fields4 in
    let (repository_options_value, fields6) =
      choose repository_options defaults.repository.options local.repository.options
        managed_repository.options fields5 in
    let (repository_secret_refs_value, fields7) =
      choose repository_secret_refs defaults.repository.secret_refs local.repository.secret_refs
        managed_repository.secret_refs fields6 in
    let (schedule_interval_hours_value, fields8) =
      choose schedule_interval_hours defaults.schedule.interval_hours local.schedule.interval_hours
        managed_schedule.interval_hours fields7 in
    let (schedule_wake_grace_seconds_value, fields9) =
      choose schedule_wake_grace_seconds defaults.schedule.wake_grace_seconds
        local.schedule.wake_grace_seconds managed_schedule.wake_grace_seconds fields8 in
    let (schedule_wake_lock_timeout_seconds_value, fields10) =
      choose schedule_wake_lock_timeout_seconds defaults.schedule.wake_lock_timeout_seconds
        local.schedule.wake_lock_timeout_seconds managed_schedule.wake_lock_timeout_seconds
        fields9 in
    let (schedule_allow_on_battery_value, fields11) =
      choose schedule_allow_on_battery defaults.schedule.allow_on_battery
        local.schedule.allow_on_battery managed_schedule.allow_on_battery fields10 in
    let (schedule_allow_metered_network_value, fields12) =
      choose schedule_allow_metered_network defaults.schedule.allow_metered_network
        local.schedule.allow_metered_network managed_schedule.allow_metered_network fields11 in
    let (retention_daily_value, fields13) =
      choose retention_daily defaults.retention.daily local.retention.daily managed_retention.daily
        fields12 in
    let (retention_weekly_value, fields14) =
      choose retention_weekly defaults.retention.weekly local.retention.weekly
        managed_retention.weekly fields13 in
    let (retention_monthly_value, fields15) =
      choose retention_monthly defaults.retention.monthly local.retention.monthly
        managed_retention.monthly fields14 in
    let (retention_yearly_value, fields16) =
      choose retention_yearly defaults.retention.yearly local.retention.yearly
        managed_retention.yearly fields15 in
    let (retention_prune_interval_days_value, fields17) =
      choose retention_prune_interval_days defaults.retention.prune_interval_days
        local.retention.prune_interval_days managed_retention.prune_interval_days fields16 in
    let (update_automatic_install_value, fields18) =
      choose update_automatic_install defaults.updates.automatic_install
        local.updates.automatic_install managed_updates.automatic_install fields17 in
    (
      record {
        backup = record { paths = backup_paths_value; exclusions = backup_exclusions_value };
        repository = record {
          display_name = repository_display_name_value;
          url = repository_url_value;
          mode = repository_mode_value;
          options = repository_options_value;
          secret_refs = repository_secret_refs_value;
        };
        schedule = record {
          interval_hours = schedule_interval_hours_value;
          wake_grace_seconds = schedule_wake_grace_seconds_value;
          wake_lock_timeout_seconds = schedule_wake_lock_timeout_seconds_value;
          allow_on_battery = schedule_allow_on_battery_value;
          allow_metered_network = schedule_allow_metered_network_value;
        };
        retention = record {
          daily = retention_daily_value;
          weekly = retention_weekly_value;
          monthly = retention_monthly_value;
          yearly = retention_yearly_value;
          prune_interval_days = retention_prune_interval_days_value;
        };
        updates = record { automatic_install = update_automatic_install_value };
      },
      fields18,
    )

-- The guards on a managed policy, in the order of the source.
unfoldable pub check_policy : Option ManagedPolicy → Result PolicyError (Unit {0})
check_policy none = ok tt
check_policy (some policy) = do
  reject_if (not (policy.schema_version == 1 || policy.schema_version == 2))
      (unsupported_managed_schema policy.schema_version)
  reject_if (policy.schema_version == 1 && is_some policy.updates) updates_require_managed_schema_v2
  reject_if
      (is_blank policy.revision
        || (ltb 256 (chars_count policy.revision) || has_break policy.revision))
      invalid_managed_revision

unfoldable pub resolve_config :
    EffectiveConfig → LocalConfig → Option ManagedPolicy → Result PolicyError ResolvedConfig
resolve_config defaults local managed = do
  reject_if (not (local.schema_version == config_schema_version))
      (unsupported_local_schema local.schema_version)
  check_policy managed
  let resolved = resolve_fields defaults local managed
  map_err invalid_effective_config (validate resolved.0)
  ok (record {
    effective = resolved.0;
    managed_revision = Option.map (λ policy. policy.revision) managed;
    fields = resolved.1;
  })
