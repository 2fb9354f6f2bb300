-- ===== src/Tests/Data.antt =====
-- Concrete inputs: a calendar, configurations, policies and service states.
use resticpal.Prelude.{
  ◌+◌, ◌^◌, ◌≤◌, ◌<◌, true, false, Option, none, some, [], ◌∷◌, leb, if◌then◌else◌, ◌≡◌, refl,
  arith,
}
use resticpal.Time.{DateTime, Duration, Chrono, hours}
use resticpal.Config.{
  standard, restic_password, PathBuf, prefix, disk, root_dir, normal, EffectiveConfig, LocalConfig,
  default_config, no_management,
}
use resticpal.Schedule.{SchedulerSnapshot}
use resticpal.Policy.{
  ManagedPolicy, ResolvedConfig, no_backup, no_repository, no_schedule, no_retention,
  no_resolutions,
}
use resticpal.Service.{
  BackupState, BackupPhase, WaitingReason, RepositoryOperationKind, RepositoryOperationStatus,
  ServiceStateSnapshot, ServiceStatus, RuntimeState,
}
use resticpal.Service.Scheduler.{SystemConditions}
use resticpal.Service.Effect.{Env}
use resticpal.Service.Lifecycle.{BackupOutcomeKind, BackupOutcome}

abbrev pub latest : DateTime
latest = 10 ^ 20

abbrev pub checked_add : DateTime → Duration → Option DateTime
checked_add t d = if leb (t + d) latest then some (t + d) else none

pub checked_add_within :
    (t : DateTime) (d : Duration) → t + d ≤ latest → checked_add t d ≡ some (t + d)
checked_add_within t d h = ground arith

pub checked_add_beyond : (t : DateTime) (d : Duration) → latest < t + d → checked_add t d ≡ none
checked_add_beyond t d h = ground arith

pub add_exact : (t : DateTime) (d : Duration) → t + d ≤ latest → t + d ≡ t + d
add_exact t d h = refl

abbrev pub calendar : Chrono
calendar = record {
  max_utc = latest;
  checked_add_signed = checked_add;
  add = λ t d. t + d;
  checked_within = checked_add_within;
  checked_beyond = checked_add_beyond;
  add_within = add_exact;
}

abbrev pub noon : DateTime
noon = hours 1000

abbrev pub documents : PathBuf
documents = record {
  text = "C:\\Users";
  is_absolute = true;
  components = prefix (disk b'C') ∷ root_dir ∷ normal "Users" ∷ [];
}

abbrev pub configured : EffectiveConfig
configured = record default_config {
  backup = record { paths = documents ∷ []; exclusions = "*.tmp" ∷ [] };
  repository = record {
    display_name = some "Home";
    url = some "rest:https://backup.example/";
    mode = standard;
    options = ("rest.connections", "5") ∷ [];
    secret_refs = (restic_password, "restic-password-1") ∷ [];
  };
}

abbrev pub local_layer : LocalConfig
local_layer = record {
  schema_version = 1;
  backup = record { paths = none; exclusions = none };
  repository = record {
    display_name = none;
    url = some "local:D:/backup";
    mode = none;
    options = none;
    secret_refs = none;
  };
  schedule = record {
    interval_hours = some 12;
    wake_grace_seconds = none;
    wake_lock_timeout_seconds = none;
    allow_on_battery = some false;
    allow_metered_network = none;
  };
  retention = record {
    daily = none;
    weekly = none;
    monthly = none;
    yearly = none;
    prune_interval_days = none;
  };
  updates = record { automatic_install = none };
  management = no_management;
}

abbrev pub other_layer : LocalConfig
other_layer = record local_layer {
  schedule = record {
    interval_hours = some 48;
    wake_grace_seconds = none;
    wake_lock_timeout_seconds = none;
    allow_on_battery = none;
    allow_metered_network = none;
  };
}

abbrev pub policy : ManagedPolicy
policy = record {
  schema_version = 2;
  revision = "policy-7";
  backup = no_backup;
  repository = no_repository;
  schedule = record no_schedule { interval_hours = some (record { value = 6; locked = true }) };
  retention = no_retention;
  updates = none;
}

abbrev pub resolution : ResolvedConfig
resolution = record { effective = configured; managed_revision = none; fields = no_resolutions }

abbrev pub snapshot : ServiceStateSnapshot
snapshot = record {
  last_success = none;
  last_retention = none;
  last_prune = none;
  last_retention_error = none;
  repository_validation_required = false;
  verified_repository = none;
  repository_verified_at = none;
}

abbrev status : BackupState → ServiceStatus
status state = record {
  state = state;
  state_since = noon;
  last_attempt = none;
  last_success = none;
  next_deadline = none;
  repository_display_name = none;
  repository_mode = standard;
  managed_revision = none;
  progress = none;
}

abbrev in_state : BackupState → RuntimeState
in_state state = record {
  status = status state;
  resumed_at = none;
  not_before = none;
  update_hold_until = none;
  update_hold_previous_status = none;
  update_install_active = false;
  manual_requested = false;
  consecutive_failures = 0;
  repository_operation = RepositoryOperationStatus.succeeded RepositoryOperationKind.validate noon;
  service_state = snapshot;
  management_operation_active = false;
}

abbrev pub ready : RuntimeState
ready = in_state BackupState.idle

abbrev pub backing_up : RuntimeState
backing_up = in_state (BackupState.running BackupPhase.uploading)

abbrev pub installing : RuntimeState
installing = record (in_state (BackupState.waiting WaitingReason.update)) {
  update_install_active = true;
}

abbrev pub good_conditions : SystemConditions
good_conditions = record { network_available = true; on_battery = false; metered_network = false }

abbrev pub env : Env
env = record {
  clock = λ n. noon;
  state_store = some true;
  history_store = true;
  config_store = some true;
  credential_store = some (λ n. some "restic-password-2");
  sent = true;
}

abbrev pub failure : BackupOutcome
failure = record {
  kind = BackupOutcomeKind.failed "restic_failed";
  summary = none;
  warning_code = none;
  failure_details = record { items = []; omitted = 0 };
}

abbrev pub success : BackupOutcome
success = record failure { kind = BackupOutcomeKind.succeeded }

-- The snapshot of the scheduler's own tests: the last success was an hour ago.
abbrev pub quiet : SchedulerSnapshot
quiet = record {
  now = noon;
  last_success = some (hours 999);
  resumed_at = none;
  not_before = none;
  manual_requested = false;
  backup_running = false;
  network_required = true;
  network_available = true;
  on_battery = false;
  metered_network = false;
}
