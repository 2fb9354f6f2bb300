-- ===== src/Tests/Configuration.antt =====
-- Changes of the configuration at concrete inputs.
use resticpal.Service.Network.{repository_requires_network}
use resticpal.Schedule.{decide, next_deadline, completion_deadline, blockers, grace_block, trigger}
use resticpal.Service.Status.{from_resolved_with_state, loaded_operation}
use resticpal.Prelude.{
  ◌+◌, ◌≤◌, ◌≡◌, refl, true, false, none, some, Option, [], ◌∷◌, ok, inl, String_discrete,
}
use resticpal.Text.{is_blank, chars_count, has_break, utf16_count, is_whitespace}
use resticpal.Time.{hours}
use resticpal.Config.{default_config, LocalConfig, restic_password, is_configured}
use resticpal.Config.Bounds.{IsValid}
use resticpal.Config.Validate.{
  each, check_url, check_display_name, check_schedule, check_retention, check_path, check_prefix,
  check_exclusion, validate, is_valid_secret_reference,
}
use resticpal.Policy.Resolve.{check_policy, resolve_fields, resolve_config}
use resticpal.Policy.{ResolvedConfig}
use resticpal.Policy.Acceptance.{resolved}
use resticpal.Service.{
  RuntimeState, ServiceStateSnapshot, is_running, is_repository_running, ScheduleAction,
  RepositoryIdentity-discrete,
}
use resticpal.Service.Snapshot.{
  mark_repository_verified, repository_requires_validation, repository_verified_at,
}
use resticpal.Service.Scheduler.{evaluate_schedule, evaluate_released, release_hold, apply_decision}
use resticpal.Service.Steps.{evaluates}
use resticpal.Service.Steps.Reachable.{tally}
use resticpal.Restic.Sources.{FileSystem}
use resticpal.Config.Management.{Urls}
use resticpal.Runtime.{ServiceRuntime, load}
use resticpal.Runtime.Restart.{sets_updates, settings_changed}
use resticpal.Runtime.Steps.{Device, Move, Runs, works, changes_settings}
use resticpal.Runtime.Steps.Reachable.{runtime_exclusive, load-IsSound, Runs-IsSound}
use resticpal.Runtime.Steps.Running.{Move-running}
use resticpal.Runtime.Steps.Trusted.{running_on_verified}
use resticpal.Tests.Data.{calendar, env, noon, local_layer, snapshot, good_conditions, documents}
use resticpal.Tests.Invocations.{texts}

abbrev pub files : FileSystem
files = record {
  canonicalize = λ path. some path;
  is_remote_drive = λ drive. false;
  path_from = λ text. documents;
  push = λ path part. path;
}

abbrev urls : Urls
urls = record { parse = λ text. none; is_loopback_address = λ host. false }

abbrev device : Device
device = record {
  chrono = calendar;
  texts = texts;
  files = files;
  urls = urls;
  data_directory = none;
}

-- A device without policy that backs up its documents.
abbrev pub own_layer : LocalConfig
own_layer = record local_layer {
  backup = record { paths = some (documents ∷ []); exclusions = none };
  repository = record local_layer.repository {
    secret_refs = some ((restic_password, "restic-password-1") ∷ []);
  };
}

abbrev pub own : ResolvedConfig
own = resolved default_config own_layer none

own_layer_resolves : resolve_config default_config own_layer none ≡ ok own
unfolding resolve_config check_policy resolve_fields validate each check_url check_display_name
    check_schedule check_retention check_path check_prefix check_exclusion is_blank chars_count
    has_break is_valid_secret_reference utf16_count
own_layer_resolves = refl

abbrev verified : ServiceStateSnapshot
verified = mark_repository_verified snapshot own.effective noon

abbrev fresh : ServiceRuntime
fresh = load calendar own own_layer verified noon

abbrev outcome : Option (RuntimeState × ScheduleAction)
outcome = evaluate_schedule calendar own.effective good_conditions fresh.state (noon + hours 100)

abbrev evaluated : RuntimeState
evaluated = elim outcome [ none ↦ fresh.state | some (t, action) ↦ t ]

abbrev action_taken : ScheduleAction
action_taken = elim outcome [ none ↦ ScheduleAction.none | some (t, action) ↦ action ]

evaluated_running :
    (outcome ≡ some (evaluated, action_taken)) × (is_running evaluated.status.state ≡ true)
unfolding load from_resolved_with_state loaded_operation repository_requires_validation
    mark_repository_verified evaluate_schedule evaluate_released release_hold apply_decision
    is_configured decide next_deadline completion_deadline blockers grace_block trigger
    resolve_fields RepositoryIdentity-discrete String_discrete repository_verified_at
    repository_requires_network is_whitespace
evaluated_running = (refl, refl)

abbrev backing_up_now : ServiceRuntime
backing_up_now = record fresh { state = evaluated }

abbrev first_run : Runs device fresh backing_up_now
unfolding load resolve_fields
first_run = Runs.next Runs.here (
    works evaluated (evaluates good_conditions (noon + hours 100) action_taken evaluated_running.0)
      (inl refl) refl)

runtime_exclusive_example :
    (tally (is_running backing_up_now.state.status.state)
        + tally (is_repository_running backing_up_now.state.repository_operation)
        + tally backing_up_now.state.update_install_active
        + tally backing_up_now.state.management_operation_active
      ≤ 1)
    × IsValid backing_up_now.config
runtime_exclusive_example =
    runtime_exclusive device own_layer none own verified noon backing_up_now own_layer_resolves
      first_run

running_on_verified_example :
    repository_requires_validation backing_up_now.state.service_state backing_up_now.config ≡ false
unfolding load resolve_fields
running_on_verified_example =
    running_on_verified device own_layer none own verified noon backing_up_now own_layer_resolves
      first_run refl evaluated_running.1

-- While the backup runs, the setting for updates changes.
abbrev reset : ServiceRuntime
reset = (settings_changed texts files none calendar env true (sets_updates false) backing_up_now).0

resets : Move device backing_up_now reset
unfolding load from_resolved_with_state loaded_operation repository_requires_validation
    mark_repository_verified evaluate_schedule evaluate_released release_hold apply_decision
    is_configured decide next_deadline completion_deadline blockers grace_block trigger
    resolve_fields RepositoryIdentity-discrete String_discrete repository_verified_at
    repository_requires_network is_whitespace
resets = changes_settings env true (sets_updates false) refl refl

Move-running_example : is_running reset.state.status.state ≡ true
unfolding resets
Move-running_example =
    Move-running device resets
      (Runs-IsSound device
        (load-IsSound calendar own_layer none own verified noon own_layer_resolves) first_run)
      refl refl evaluated_running.1
