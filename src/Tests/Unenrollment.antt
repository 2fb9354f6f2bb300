-- ===== src/Tests/Unenrollment.antt =====
-- An unenrollment that changes the repository.
use resticpal.Text.{utf16_count, chars_count, has_break, is_blank, is_whitespace}
use resticpal.Schedule.{completion_deadline}
use resticpal.Config.Validate.{
  validate, check_display_name, check_path, check_prefix, check_retention, check_schedule,
  check_url, each, is_valid_secret_reference,
}
use resticpal.Prelude.{◌≡◌, refl, true, some, String_discrete}
use resticpal.Config.{default_config, LocalConfig, no_management, signed_manifest, is_configured}
use resticpal.Policy.{ManagedPolicy, ResolvedConfig, no_repository}
use resticpal.Policy.Acceptance.{resolved}
use resticpal.Policy.Resolve.{resolve_config, resolve_fields, check_policy}
use resticpal.Service.{RepositoryIdentity-discrete}
use resticpal.Service.Snapshot.{
  mark_repository_verified, repository_requires_validation, repository_verified_at,
}
use resticpal.Service.Status.{
  from_resolved_with_state, loaded_operation, repository_operation_allows_backup,
  apply_configuration_status, transition_state,
}
use resticpal.Runtime.{ServiceRuntime, load, update_blocks_configuration_mutation}
use resticpal.Runtime.Policies.{leave_management, unenroll, is_busy, adopt}
use resticpal.Tests.Data.{calendar, noon, policy, snapshot, env}
use resticpal.Tests.Configuration.{own_layer}

-- The policy locks the repository to another URL than the local layer names.
abbrev server_policy : ManagedPolicy
server_policy = record policy {
  repository = record no_repository {
    url = some (record { value = some "rest:https://managed.example/"; locked = true });
  };
}

abbrev enrolled_layer : LocalConfig
enrolled_layer = record own_layer { management = record no_management { mode = signed_manifest } }

abbrev managed_config : ResolvedConfig
managed_config = resolved default_config enrolled_layer (some server_policy)

abbrev enrolled : ServiceRuntime
enrolled =
    load calendar managed_config enrolled_layer
      (mark_repository_verified snapshot managed_config.effective noon) noon

abbrev left_management : ServiceRuntime
left_management = (unenroll calendar env true enrolled).0

-- The URL of the local layer is in force, no one has verified that repository, and backups are allowed.
unenroll_unverified :
    (left_management.config.repository.url ≡ some "local:D:/backup")
    × (repository_requires_validation left_management.state.service_state left_management.config
        ≡ true)
    × (repository_operation_allows_backup left_management.state.repository_operation ≡ true)
unfolding unenroll is_busy load from_resolved_with_state is_configured resolve_fields
    loaded_operation repository_requires_validation mark_repository_verified
    RepositoryIdentity-discrete String_discrete repository_verified_at
    update_blocks_configuration_mutation leave_management resolve_config check_policy validate
    check_display_name check_path check_prefix check_retention check_schedule check_url each
    is_valid_secret_reference adopt completion_deadline apply_configuration_status transition_state
    utf16_count chars_count has_break is_blank is_whitespace
unenroll_unverified = (refl, refl, refl)
