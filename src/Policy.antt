-- ===== src/Policy.antt =====
-- crates/resticpal-core/src/policy.rs: managed policy, and how the layers resolve to one effective
-- configuration.
pub mod Resolve
pub mod Layers
pub mod Precedence
pub mod Locked
pub mod Acceptance
use resticpal.Prelude.{ℕ, suc, Bool, Option, none, some, List, [], ◌∷◌, String, ◌==◌, if◌then◌else◌}
use resticpal.Config.{RepositoryMode, PathBuf, Options, SecretRefs, EffectiveConfig}

pub record Managed (A : Type 0) : Type 0 where
  pub value : A
  pub locked : Bool

pub record ManagedBackupPolicy : Type 0 where
  pub paths : Option (Managed (List PathBuf))
  pub exclusions : Option (Managed (List String))

pub record ManagedRepositoryPolicy : Type 0 where
  pub display_name : Option (Managed (Option String))
  pub url : Option (Managed (Option String))
  pub mode : Option (Managed RepositoryMode)
  pub options : Option (Managed Options)
  pub secret_refs : Option (Managed SecretRefs)

pub record ManagedSchedulePolicy : Type 0 where
  pub interval_hours : Option (Managed ℕ)
  pub wake_grace_seconds : Option (Managed ℕ)
  pub wake_lock_timeout_seconds : Option (Managed ℕ)
  pub allow_on_battery : Option (Managed Bool)
  pub allow_metered_network : Option (Managed Bool)

pub record ManagedRetentionPolicy : Type 0 where
  pub daily : Option (Managed ℕ)
  pub weekly : Option (Managed ℕ)
  pub monthly : Option (Managed ℕ)
  pub yearly : Option (Managed ℕ)
  pub prune_interval_days : Option (Managed ℕ)

pub record ManagedUpdatePolicy : Type 0 where
  pub automatic_install : Option (Managed Bool)

pub record ManagedPolicy : Type 0 where
  pub schema_version : ℕ
  pub revision : String
  pub backup : ManagedBackupPolicy
  pub repository : ManagedRepositoryPolicy
  pub schedule : ManagedSchedulePolicy
  pub retention : ManagedRetentionPolicy
  pub updates : Option ManagedUpdatePolicy

-- The `Default` instances: nothing is managed.
abbrev pub no_backup : ManagedBackupPolicy
no_backup = record { paths = none; exclusions = none }

abbrev pub no_repository : ManagedRepositoryPolicy
no_repository = record {
  display_name = none;
  url = none;
  mode = none;
  options = none;
  secret_refs = none;
}

abbrev pub no_schedule : ManagedSchedulePolicy
no_schedule = record {
  interval_hours = none;
  wake_grace_seconds = none;
  wake_lock_timeout_seconds = none;
  allow_on_battery = none;
  allow_metered_network = none;
}

abbrev pub no_retention : ManagedRetentionPolicy
no_retention = record {
  daily = none;
  weekly = none;
  monthly = none;
  yearly = none;
  prune_interval_days = none;
}

abbrev pub no_updates : ManagedUpdatePolicy
no_updates = record { automatic_install = none }

pub data PolicyField : Type 0 where
  backup_paths backup_exclusions repository_display_name repository_url repository_mode
        repository_options repository_secret_refs schedule_interval_hours
        schedule_wake_grace_seconds schedule_wake_lock_timeout_seconds schedule_allow_on_battery
        schedule_allow_metered_network retention_daily retention_weekly retention_monthly
        retention_yearly retention_prune_interval_days update_automatic_install :
      PolicyField

-- The place of a field in the derived order of `PolicyField`.
abbrev pub index : PolicyField → ℕ
index backup_paths = 0
index backup_exclusions = 1
index repository_display_name = 2
index repository_url = 3
index repository_mode = 4
index repository_options = 5
index repository_secret_refs = 6
index schedule_interval_hours = 7
index schedule_wake_grace_seconds = 8
index schedule_wake_lock_timeout_seconds = 9
index schedule_allow_on_battery = 10
index schedule_allow_metered_network = 11
index retention_daily = 12
index retention_weekly = 13
index retention_monthly = 14
index retention_yearly = 15
index retention_prune_interval_days = 16
index update_automatic_install = 17

-- All fields, in that order.
abbrev pub all_fields : List PolicyField
all_fields =
    backup_paths ∷ backup_exclusions ∷ repository_display_name ∷ repository_url ∷ repository_mode
    ∷ repository_options ∷ repository_secret_refs ∷ schedule_interval_hours
    ∷ schedule_wake_grace_seconds ∷ schedule_wake_lock_timeout_seconds ∷ schedule_allow_on_battery
    ∷ schedule_allow_metered_network ∷ retention_daily ∷ retention_weekly ∷ retention_monthly
    ∷ retention_yearly ∷ retention_prune_interval_days ∷ update_automatic_install ∷ []

pub data ValueSource : Type 0 where
  product_default local_administrator managed_recommendation managed_locked : ValueSource

pub record FieldResolution : Type 0 where
  pub source : ValueSource
  pub locked : Bool

-- A `BTreeMap<PolicyField, FieldResolution>`, by its lookup.
abbrev pub Resolutions : Type 0
Resolutions = PolicyField → Option FieldResolution

abbrev pub no_resolutions : Resolutions
no_resolutions field = none

abbrev pub insert : PolicyField → FieldResolution → Resolutions → Resolutions
insert field resolution fields other =
    if index other == index field then some resolution else fields other

pub record ResolvedConfig : Type 0 where
  pub effective : EffectiveConfig
  pub managed_revision : Option String
  pub fields : Resolutions

abbrev pub is_locked : Option FieldResolution → Bool
is_locked none = Bool.false
is_locked (some resolution) = resolution.locked

keep_locked : Resolutions → List PolicyField → List PolicyField
keep_locked fields [] = []
keep_locked fields (f ∷ fs) =
    let rest = keep_locked fields fs in if is_locked (fields f) then f ∷ rest else rest

-- `ResolvedConfig::locked_fields`, in the order of the `BTreeSet`.
pub locked_fields : ResolvedConfig → List PolicyField
unfolding keep_locked
locked_fields resolved = keep_locked resolved.fields all_fields
