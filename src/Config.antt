-- ===== src/Config.antt =====
-- crates/resticpal-core/src/config.rs: the configuration layers and the effective configuration.
pub mod Validate
pub mod Bounds
pub mod Management
use native.Mathlib.Decide.{ℕ_discrete}
use resticpal.Prelude.{
  ℕ, Bool, true, false, Option, none, some, List, [], ◌&&◌, not, String, is_some, is_empty,
  String_discrete,
}
use resticpal.Schedule.{ScheduleConfig}

pub data RepositoryMode : Type 0 where
  standard append_only : RepositoryMode

pub data SecretEnvironmentVariable : Type 0 where
  restic_password aws_access_key_id aws_secret_access_key aws_session_token azure_account_key
        b2_account_key google_application_credentials rclone_config_password :
      SecretEnvironmentVariable

-- `std::path::Prefix`.
pub data Prefix : Type 0 where
  verbatim : String → Prefix
  verbatim_unc : String → String → Prefix
  verbatim_disk : ℕ → Prefix
  device_ns : String → Prefix
  unc : String → String → Prefix
  disk : ℕ → Prefix

-- `std::path::Component`.
pub data Component : Type 0 where
  prefix : Prefix → Component
  root_dir cur_dir parent_dir : Component
  normal : String → Component

-- `PathBuf`: a text with what the standard library reads in it on Windows.
pub record PathBuf : Type 0 where
  pub text : String
  pub is_absolute : Bool
  pub components : List Component

-- A `BTreeMap<String, String>` and a `BTreeMap<SecretEnvironmentVariable, String>`, in key order.
abbrev pub Options : Type 0
Options = List (String × String)

abbrev pub SecretRefs : Type 0
SecretRefs = List (SecretEnvironmentVariable × String)

pub record BackupConfig : Type 0 where
  pub paths : List PathBuf
  pub exclusions : List String

pub record RepositoryConfig : Type 0 where
  pub display_name : Option String
  pub url : Option String
  pub mode : RepositoryMode
  pub options : Options
  pub secret_refs : SecretRefs

pub record RetentionConfig : Type 0 where
  pub daily : ℕ
  pub weekly : ℕ
  pub monthly : ℕ
  pub yearly : ℕ
  pub prune_interval_days : ℕ

pub record UpdateConfig : Type 0 where
  pub automatic_install : Bool

pub record EffectiveConfig : Type 0 where
  pub backup : BackupConfig
  pub repository : RepositoryConfig
  pub schedule : ScheduleConfig
  pub retention : RetentionConfig
  pub updates : UpdateConfig

pub record LocalBackupConfig : Type 0 where
  pub paths : Option (List PathBuf)
  pub exclusions : Option (List String)

pub record LocalRepositoryConfig : Type 0 where
  pub display_name : Option String
  pub url : Option String
  pub mode : Option RepositoryMode
  pub options : Option Options
  pub secret_refs : Option SecretRefs

pub record LocalScheduleConfig : Type 0 where
  pub interval_hours : Option ℕ
  pub wake_grace_seconds : Option ℕ
  pub wake_lock_timeout_seconds : Option ℕ
  pub allow_on_battery : Option Bool
  pub allow_metered_network : Option Bool

pub record LocalRetentionConfig : Type 0 where
  pub daily : Option ℕ
  pub weekly : Option ℕ
  pub monthly : Option ℕ
  pub yearly : Option ℕ
  pub prune_interval_days : Option ℕ

pub record LocalUpdateConfig : Type 0 where
  pub automatic_install : Option Bool

pub data ManagementMode : Type 0 where
  disabled plain_manifest signed_manifest : ManagementMode

pub record LocalManagementConfig : Type 0 where
  pub mode : ManagementMode
  pub manifest_url : Option String
  pub signing_public_key : Option String
  pub refresh_interval_minutes : Option ℕ
  pub status_url : Option String
  pub device_id : Option String
  pub status_token_ref : Option String
  pub enrollment_key_ref : Option String

pub LocalManagementConfig-discrete : Discrete LocalManagementConfig
LocalManagementConfig-discrete = hlevel (String_discrete, ℕ_discrete)

-- `LocalManagementConfig::default()`.
abbrev pub no_management : LocalManagementConfig
no_management = record {
  mode = disabled;
  manifest_url = none;
  signing_public_key = none;
  refresh_interval_minutes = none;
  status_url = none;
  device_id = none;
  status_token_ref = none;
  enrollment_key_ref = none;
}

pub record LocalConfig : Type 0 where
  pub schema_version : ℕ
  pub backup : LocalBackupConfig
  pub repository : LocalRepositoryConfig
  pub schedule : LocalScheduleConfig
  pub retention : LocalRetentionConfig
  pub updates : LocalUpdateConfig
  pub management : LocalManagementConfig

abbrev pub config_schema_version : ℕ
config_schema_version = 1

-- `EffectiveConfig::default()`.
abbrev pub default_config : EffectiveConfig
default_config = record {
  backup = record { paths = []; exclusions = [] };
  repository = record {
    display_name = none;
    url = none;
    mode = standard;
    options = [];
    secret_refs = [];
  };
  schedule = record {
    interval_hours = 24;
    wake_grace_seconds = 300;
    wake_lock_timeout_seconds = 7200;
    allow_on_battery = true;
    allow_metered_network = true;
  };
  retention = record { daily = 7; weekly = 5; monthly = 12; yearly = 3; prune_interval_days = 7 };
  updates = record { automatic_install = false };
}

unfoldable pub is_configured : EffectiveConfig → Bool
is_configured config = is_some config.repository.url && not (is_empty config.backup.paths)
