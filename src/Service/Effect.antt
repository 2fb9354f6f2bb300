-- ===== src/Service/Effect.antt =====
-- What the service asks of the world outside its state: its stores, its event channel and its
-- diagnostic log. A handler returns the requests that it makes, in order; how they end is given to it
-- as an `Env`. Messages for people are left out.
use resticpal.Config.{LocalConfig}
use resticpal.Prelude.{ℕ, Bool, true, false, Option, none, some, List, [], ◌∷◌, String}
use resticpal.Time.{DateTime}
use resticpal.Config.{LocalConfig}
use resticpal.Service.{RepositoryOperationKind, ServiceStateSnapshot}

-- `DiagnosticLevel` of crates/resticpal-protocol/src/lib.rs.
pub data DiagnosticLevel : Type 0 where
  information warning error : DiagnosticLevel

-- `BackupRunOutcome` of crates/resticpal-core/src/status.rs.
pub data BackupRunOutcome : Type 0 where
  succeeded succeeded_with_warnings failed cancelled : BackupRunOutcome

-- `CompletedBackupRun` of history.rs.
pub record CompletedBackupRun : Type 0 where
  pub started_at : DateTime
  pub completed_at : DateTime
  pub outcome : BackupRunOutcome
  pub error_code : Option String
  pub files_processed : Option ℕ
  pub bytes_processed : Option ℕ
  pub data_added : Option ℕ
  pub snapshot_id : Option String
  pub failed_items : List String
  pub failed_items_omitted : ℕ

-- The `RuntimeEvent`s that the modelled requests send.
pub data RuntimeEvent : Type 0 where
  run_now cancel deferred : RuntimeEvent
  repository_operation_requested : RepositoryOperationKind → RuntimeEvent
  update_install_requested configuration_changed : RuntimeEvent

pub data Effect : Type 0 where
  save_state : ServiceStateSnapshot → Effect
  append_run : CompletedBackupRun → Effect
  diagnostic : DiagnosticLevel → String → Option String → Effect
  send : RuntimeEvent → Effect
  save_config : LocalConfig → Effect
  put_credential : String → Effect
  remove_credential : String → Effect
  save_cache remove_cache : Effect

-- `clock n` is the n-th reading of `Utc::now()` in a call; `state_store` is absent where the service
-- has no store, and says whether a save succeeds, as `config_store` does; `credential_store` gives the
-- reference that the n-th `put_new` of a call answers with, if it succeeds; `sent` says whether the channel is open.
pub record Env : Type 0 where
  pub clock : ℕ → DateTime
  pub state_store : Option Bool
  pub history_store : Bool
  pub config_store : Option Bool
  pub credential_store : Option (ℕ → Option String)
  pub sent : Bool

-- A save that is requested only where there is a store, and whether it failed.
abbrev pub save_effects : Env → ServiceStateSnapshot → List Effect
save_effects env snapshot = elim env.state_store [ none ↦ [] | some _ ↦ save_state snapshot ∷ [] ]

abbrev pub save_failed : Env → Bool
save_failed env = elim env.state_store [ none ↦ false | some true ↦ false | some false ↦ true ]
