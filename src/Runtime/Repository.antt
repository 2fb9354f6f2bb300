-- ===== src/Runtime/Repository.antt =====
-- `update_repository` of apps/resticpal-service/src/runtime/ipc.rs.
use resticpal.Prelude.{
  ℕ, Bool, false, not, ◌&&◌, ◌||◌, Option, none, some, List, [], ◌∷◌, ◌++◌, String, is_some,
  is_empty, unwrap_or, length, ltb, if◌then◌else◌,
}
use resticpal.Text.{codes, trimmed}
use resticpal.Time.{Chrono}
use resticpal.Config.{
  RepositoryMode, Options, SecretRefs, EffectiveConfig, LocalConfig, disabled, plain_manifest,
  signed_manifest,
}
use resticpal.Policy.{
  repository_display_name, repository_url, repository_mode, repository_options,
  repository_secret_refs,
}
use resticpal.Service.{RepositoryOperationStatus, RuntimeState, is_running, is_repository_running}
use resticpal.Service.Snapshot.{require_repository_validation}
use resticpal.Service.Status.{apply_configuration_status}
use resticpal.Service.Effect.{Env, send, configuration_changed, save_effects, save_failed}
use resticpal.Service.Operation.{accepted, rejected}
use resticpal.Runtime.{
  ServiceRuntime, Changed, reject, field_locked, update_blocks_configuration_mutation,
}
use resticpal.Runtime.Settings.{is_invalid, recorded, config_effects, config_save_failed}
use resticpal.Runtime.Secrets.{
  RepositorySecretUpdate, has_duplicate, SecretChange, change_secrets, remove_credentials,
  still_retired,
}

pub record RepositoryUpdate : Type 0 where
  pub display_name : Option String
  pub url : Option String
  pub mode : Option RepositoryMode
  pub options : Option Options
  pub secret_updates : List RepositorySecretUpdate

-- Whether the request names another connection.
abbrev pub connection_changed : RepositoryUpdate → Bool
connection_changed update =
    is_some update.url || is_some update.options || not (is_empty update.secret_updates)

-- `enrolled` of `management_view`.
unfoldable pub is_enrolled : LocalConfig → Bool
is_enrolled local = elim local.management.mode [
  | disabled ↦ false
  | plain_manifest ↦ false
  | signed_manifest ↦
      is_some local.management.status_token_ref && is_some local.management.enrollment_key_ref
]

unfoldable pub repository_secrets_locked : ServiceRuntime → Bool
repository_secrets_locked runtime =
    field_locked runtime repository_secret_refs || is_enrolled runtime.local_config

unfoldable pub repository_locked : ServiceRuntime → RepositoryUpdate → Bool
repository_locked runtime update =
    is_some update.display_name && field_locked runtime repository_display_name
    || is_some update.url && field_locked runtime repository_url
    || is_some update.mode && field_locked runtime repository_mode
    || is_some update.options && field_locked runtime repository_options
    || not (is_empty update.secret_updates) && repository_secrets_locked runtime

unfoldable pub nonempty_trimmed : String → Option String
nonempty_trimmed value =
    let trimmed_value = trimmed value in
    if is_empty (codes trimmed_value) then none else some trimmed_value

-- A name that a request gives: blank clears it.
abbrev pub renamed : Option String → Option String → Option String
renamed none old = old
renamed (some name) old = nonempty_trimmed name

abbrev pub max_secret_updates : ℕ
max_secret_updates = 16

-- The configuration and the local layer with all but the secrets changed.
abbrev pub with_repository : RepositoryUpdate → EffectiveConfig → EffectiveConfig
with_repository update config = record config {
  repository = record config.repository {
    display_name = renamed update.display_name config.repository.display_name;
    url = renamed update.url config.repository.url;
    mode = unwrap_or update.mode config.repository.mode;
    options = unwrap_or update.options config.repository.options;
  };
}

abbrev pub record_repository : RepositoryUpdate → LocalConfig → LocalConfig
record_repository update local = record local {
  repository = record local.repository {
    display_name = renamed update.display_name local.repository.display_name;
    url = renamed update.url local.repository.url;
    mode = recorded update.mode local.repository.mode;
    options = recorded update.options local.repository.options;
  };
}

abbrev pub with_secrets : SecretRefs → EffectiveConfig → EffectiveConfig
with_secrets refs config = record config {
  repository = record config.repository { secret_refs = refs };
}

-- The local layer has a table of secrets as soon as one is changed.
abbrev pub record_secrets : List RepositorySecretUpdate → SecretRefs → LocalConfig → LocalConfig
record_secrets [] refs local = local
record_secrets (update ∷ updates) refs local = record local {
  repository = record local.repository { secret_refs = some refs };
}

unfoldable pub refuse_repository : Env → Bool → RepositoryUpdate → ServiceRuntime → Option String
unfolding has_duplicate
refuse_repository env is_administrator update runtime =
    if not is_administrator
    then some "administrator_required"
    else if update_blocks_configuration_mutation runtime.state (env.clock 0)
    then some "update_pending"
    else if not (is_some update.display_name)
        && not (is_some update.mode)
        && not (connection_changed update)
    then some "no_configuration_changes"
    else if repository_locked runtime update
    then some "managed_field_locked"
    else if ltb max_secret_updates (length update.secret_updates)
    then some "too_many_secret_updates"
    else if has_duplicate [] update.secret_updates
    then some "duplicate_secret_update"
    else if not (is_empty update.secret_updates) && not (is_some env.credential_store)
    then some "credential_store_unavailable"
    else if is_invalid (with_repository update runtime.config)
    then some "invalid_repository"
    else if is_running runtime.state.status.state
    then some "backup_running"
    else if is_repository_running runtime.state.repository_operation
    then some "repository_operation_running"
    else none

-- The loop over the credentials, from the references in force and the local ones.
unfoldable pub secrets_changed : Env → RepositoryUpdate → ServiceRuntime → SecretChange × Bool
secrets_changed env update runtime =
    change_secrets (elim env.credential_store [ none ↦ λ n. none | some put_new ↦ put_new ]) 0
      update.secret_updates
      (record {
        effective = runtime.config.repository.secret_refs;
        local = unwrap_or runtime.local_config.repository.secret_refs [];
        created = [];
        retired = [];
        asked = [];
      })

-- The state with the need for a validation, where the connection changed.
abbrev pub revalidated : RepositoryUpdate → RuntimeState → RuntimeState
revalidated update state =
    if connection_changed update
    then record state {
      repository_operation = RepositoryOperationStatus.validation_required;
      service_state = require_repository_validation state.service_state;
    }
    else state

module _ (chrono : Chrono) where
  -- The runtime once everything is stored.
  abbrev pub repository_set :
      Env → RepositoryUpdate → SecretChange → ServiceRuntime → ServiceRuntime
  repository_set env update secrets runtime =
      let effective = with_secrets secrets.effective (with_repository update runtime.config) in
      record runtime {
        local_config =
            record_secrets update.secret_updates secrets.local
              (record_repository update runtime.local_config);
        config = effective;
        state =
            apply_configuration_status chrono (revalidated update runtime.state) effective
              (env.clock 1);
      }

  -- What follows once the credentials are stored.
  unfoldable pub commit_repository :
      Env → RepositoryUpdate → SecretChange → ServiceRuntime → Changed
  commit_repository env update secrets runtime =
      let effective = with_secrets secrets.effective (with_repository update runtime.config) in
      let candidate =
        record_secrets update.secret_updates secrets.local
          (record_repository update runtime.local_config) in
      let state = revalidated update runtime.state in
      let saves = if connection_changed update then save_effects env state.service_state else [] in
      let undone = remove_credentials secrets.created in
      if is_invalid effective
      then (runtime, rejected "invalid_repository", secrets.asked ++ undone)
      else if connection_changed update && save_failed env
      then (runtime, rejected "state_save_failed", secrets.asked ++ (saves ++ undone))
      else if config_save_failed env
      then (
        runtime,
        rejected "configuration_save_failed",
        secrets.asked ++ (saves ++ (config_effects env candidate ++ undone)),
      )
      else (
        repository_set env update secrets runtime,
        accepted,
        secrets.asked
            ++ (saves
                ++ (config_effects env candidate
                    ++ (remove_credentials (still_retired secrets.effective secrets.retired)
                        ++ (send configuration_changed ∷ [])))),
      )

  unfoldable pub update_repository : Env → Bool → RepositoryUpdate → ServiceRuntime → Changed
  update_repository env is_administrator update runtime =
      elim (refuse_repository env is_administrator update runtime) [
        | some code ↦ reject runtime code
        | none ↦
            let (secrets, stored) = secrets_changed env update runtime in
            if stored then commit_repository env update secrets runtime else (
              runtime,
              rejected "credential_save_failed",
              secrets.asked ++ remove_credentials secrets.created,
            )
      ]
