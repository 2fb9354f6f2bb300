-- ===== src/Tests/Requests.antt =====
-- Requests that change the configuration, and what they check, at concrete inputs.
use resticpal.Service.Snapshot.{repository_requires_validation}
use resticpal.Runtime.Views.Shown.{shown, update_schedule-shown}
use resticpal.Runtime.Views.{
  schedule_view, retention_view, backup_sources_view, repository_view, update_settings_view,
  management_view,
}
use resticpal.Service.Status.{from_resolved_with_state, loaded_operation}
use resticpal.Text.{is_blank, chars_count, has_break}
use resticpal.Config.Validate.{
  validate, each, check_url, check_display_name, check_schedule, check_retention,
}
use mathlib.Core.List.{Memᴰ}
use resticpal.Prelude.{
  ◌*◌, ◌≤◌, ◌≡◌, ◌⊎◌, refl, true, false, none, some, [], ◌∷◌, ok, any, String_discrete,
}
use resticpal.Config.{
  default_config, LocalManagementConfig, plain_manifest, no_management, PathBuf, is_configured,
}
use resticpal.Config.Management.{
  Url, Urls, refresh_interval_minutes, validate_management, validate_management_url,
  validate_signed_transport,
}
use resticpal.Config.Management.Transport.{IsProtectedUrl, validate_management_safe}
use resticpal.Policy.{ResolvedConfig}
use resticpal.Policy.Acceptance.{resolved}
use resticpal.Policy.Resolve.{resolve_config, check_policy, resolve_fields}
use resticpal.Restic.Paths.{
  windows_path_is_same_or_descendant, normalized_windows_path, normalize, starts_with,
  normalized_windows_prefix,
}
use resticpal.Restic.Sources.{
  canonical, validate_backup_source_paths, check_sources, check_source, ordinary_windows_path,
}
use resticpal.Restic.Sources.Admitted.{IsLocal, accepted_sources_outside}
use resticpal.Restic.Paths.Within.{LiesIn}
use resticpal.Service.Operation.{rejected, accepted}
use resticpal.Runtime.{ServiceRuntime, load, field_locked, update_blocks_configuration_mutation}
use resticpal.Runtime.Settings.{
  ScheduleUpdate, update_schedule, refuse_schedule, schedule_locked, update_update_settings,
  refuse_update_settings,
}
use resticpal.Runtime.Restart.{
  sets_schedule, sets_updates, on_disk, settings_changed, settings_survive_restart, load-IsCoherent,
}
use resticpal.Runtime.Coherent.{IsCoherent}
use resticpal.Runtime.Rejected.{
  changes_settings, configuration_changed_by, rejected_changes_nothing,
}
use resticpal.Tests.Data.{calendar, noon, local_layer, policy, snapshot, env, documents}
use resticpal.Tests.Policies.{layers_resolve}
use resticpal.Tests.Invocations.{texts, program_data}
use resticpal.Tests.Configuration.{files}

-- A device on which policy locks the interval.
abbrev locked_runtime : ServiceRuntime
locked_runtime =
    load calendar (resolved default_config local_layer (some policy)) local_layer snapshot noon

locked_runtime-IsCoherent : IsCoherent (some policy) locked_runtime
locked_runtime-IsCoherent =
    load-IsCoherent calendar local_layer (some policy)
      (resolved default_config local_layer (some policy)) snapshot noon layers_resolve

abbrev changed_runtime : ServiceRuntime
changed_runtime =
    (settings_changed texts files none calendar env true (sets_updates false) locked_runtime).0

abbrev reloaded : ResolvedConfig
reloaded = resolved default_config changed_runtime.local_config (some policy)

reloaded_resolves :
    resolve_config default_config
      (on_disk texts files none calendar env locked_runtime.local_config
        (settings_changed texts files none calendar env true (sets_updates false) locked_runtime).2)
      (some policy)
    ≡ ok reloaded
unfolding resolve_config check_policy resolve_fields validate each check_url check_display_name
    check_schedule check_retention is_blank chars_count has_break update_update_settings
    refuse_update_settings field_locked load update_blocks_configuration_mutation
    from_resolved_with_state
reloaded_resolves = refl

settings_survive_restart_example : reloaded.effective ≡ changed_runtime.config
settings_survive_restart_example =
    settings_survive_restart texts files none calendar (some policy) env true (sets_updates false)
      locked_runtime reloaded locked_runtime-IsCoherent (λ e. cc) reloaded_resolves

-- The interval is locked: a request for another one is rejected.
abbrev daily : ScheduleUpdate
daily = record {
  interval_hours = some 24;
  wake_grace_seconds = none;
  wake_lock_timeout_seconds = none;
  allow_on_battery = none;
  allow_metered_network = none;
}

abbrev metered : ScheduleUpdate
metered = record daily { interval_hours = none; allow_metered_network = some true }

metered-accepted : (update_schedule calendar env true metered locked_runtime).1 ≡ accepted
unfolding update_schedule refuse_schedule update_blocks_configuration_mutation load
    from_resolved_with_state schedule_locked field_locked resolve_fields validate each check_url
    check_display_name check_schedule check_retention chars_count has_break is_blank is_configured
    loaded_operation repository_requires_validation
metered-accepted = refl

update_schedule-shown_example :
    let after = (update_schedule calendar env true metered locked_runtime).0 in
    (schedule_view after ≡ shown metered (schedule_view locked_runtime))
    × (retention_view after ≡ retention_view locked_runtime)
    × (backup_sources_view after ≡ backup_sources_view locked_runtime)
    × (repository_view after ≡ repository_view locked_runtime)
    × (update_settings_view after ≡ update_settings_view locked_runtime)
    × (management_view after ≡ management_view locked_runtime)
update_schedule-shown_example =
    update_schedule-shown calendar env true metered locked_runtime metered-accepted

locked_rejected :
    (configuration_changed_by texts files none calendar env true
      (changes_settings (sets_schedule daily))
      locked_runtime).1
    ≡ rejected "managed_field_locked"
unfolding update_schedule refuse_schedule update_blocks_configuration_mutation load
    from_resolved_with_state schedule_locked field_locked resolve_fields
locked_rejected = refl

rejected_changes_nothing_example :
    (configuration_changed_by texts files none calendar env true
      (changes_settings (sets_schedule daily))
      locked_runtime).0
    ≡ locked_runtime
rejected_changes_nothing_example =
    rejected_changes_nothing texts files none calendar env true
      (changes_settings (sets_schedule daily)) locked_runtime "managed_field_locked" locked_rejected

sources_accepted :
    validate_backup_source_paths texts files (documents ∷ []) (some program_data) ≡ ok tt
unfolding validate_backup_source_paths check_sources check_source any
    windows_path_is_same_or_descendant normalized_windows_path normalize starts_with String_discrete
    normalized_windows_prefix ordinary_windows_path
sources_accepted = refl

accepted_sources_outside_example :
    IsLocal texts files documents
    × ((path home : PathBuf)
        → (path ≡ documents) ⊎ (canonical texts files documents ≡ some path)
        → (home ≡ program_data) ⊎ (canonical texts files program_data ≡ some home)
        → ¬ (LiesIn texts path home))
accepted_sources_outside_example =
    accepted_sources_outside texts files (documents ∷ []) program_data documents sources_accepted
      (Memᴰ.head refl)

abbrev manifest : Url
manifest = record {
  scheme = "https";
  host_str = some "policy.example";
  username = "";
  password = none;
  fragment = none;
}

abbrev pub one_url : Urls
one_url = record { parse = λ text. some manifest; is_loopback_address = λ host. false }

abbrev pub managed : LocalManagementConfig
managed = record no_management {
  mode = plain_manifest;
  manifest_url = some "https://policy.example/device";
}

pub managed_valid : validate_management one_url managed ≡ ok tt
unfolding validate_management validate_management_url chars_count has_break String_discrete
    validate_signed_transport
managed_valid = refl

validate_management_safe_example :
    (5 ≤ refresh_interval_minutes managed)
    × (refresh_interval_minutes managed ≤ 24 * 60)
    × IsProtectedUrl one_url managed.manifest_url
    × IsProtectedUrl one_url managed.status_url
validate_management_safe_example = validate_management_safe one_url managed managed_valid
