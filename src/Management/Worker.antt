-- ===== src/Management/Worker.antt =====
-- The thread for managed policies: `start_management_worker` of apps/resticpal-service/src/main.rs, one turn
-- of its loop at a time. Instants of the thread's own clock are counted in nanoseconds.
use resticpal.Prelude.{
  ℕ, ◌+◌, ◌-◌, ◌*◌, ◌^◌, Bool, true, false, not, Option, none, some, ltb, min, is_some,
  if◌then◌else◌, Result, ok, err,
}
use resticpal.Time.{Chrono, seconds}
use resticpal.Config.{LocalConfig, LocalManagementConfig, LocalManagementConfig-discrete}
use resticpal.Config.Management.{Urls, refresh_interval_minutes}
use resticpal.Policy.{ManagedPolicy}
use resticpal.Policy.Resolve.{PolicyError}
use resticpal.Service.{BackupState, BackupState-discrete, is_running}
use resticpal.Runtime.Policies.{ManagedPolicyApplyOutcome, applied, runtime_busy, source_changed}
use resticpal.EventLoop.Refresh.{ManagementRefreshOutcome, management_refresh_delay}
use resticpal.Text.{Bytes}
use resticpal.Management.{Json, Signatures}
use resticpal.Management.Cache.{ManagementError, LoadedPolicy, CacheCodec}
use resticpal.Management.Client.{World, is_disabled, load_best_policy, refresh_policy}

abbrev pub Instant : Type 0
Instant = ℕ

-- What the loop keeps from turn to turn.
pub record Worker : Type 0 where
  pub sequence : ℕ
  pub source_identity : Option LocalManagementConfig
  pub next_refresh : Instant
  pub refresh_failures : ℕ
  pub next_report : Instant
  pub report_failures : ℕ
  pub last_observed_state : Option BackupState

abbrev pub fresh_worker : Instant → Worker
fresh_worker now = record {
  sequence = 0;
  source_identity = none;
  next_refresh = now;
  refresh_failures = 0;
  next_report = now;
  report_failures = 0;
  last_observed_state = none;
}

-- How the runtime answers the request to apply a policy from a source.
abbrev pub Apply : Type 0
Apply = ManagedPolicy → LocalManagementConfig → Result PolicyError ManagedPolicyApplyOutcome

-- `saturating_add(1)` on a `u32`.
abbrev one_more : ℕ → ℕ
one_more failures = min (failures + 1) (2 ^ 32 - 1)

abbrev counted : ManagementRefreshOutcome → ℕ → ℕ
counted ManagementRefreshOutcome.synchronized failures = 0
counted ManagementRefreshOutcome.runtime_busy failures = 0
counted ManagementRefreshOutcome.failed failures = one_more failures

-- The sequence after an attempt to apply a policy, and what the attempt came to.
unfoldable pub settle :
    Result PolicyError ManagedPolicyApplyOutcome → LoadedPolicy → ℕ → ℕ × ManagementRefreshOutcome
settle (ok applied) policy sequence = (policy.sequence, ManagementRefreshOutcome.synchronized)
settle (ok runtime_busy) policy sequence = (sequence, ManagementRefreshOutcome.runtime_busy)
settle (ok source_changed) policy sequence = (sequence, ManagementRefreshOutcome.synchronized)
settle (err error) policy sequence = (sequence, ManagementRefreshOutcome.failed)

unfoldable pub activate :
    Apply
    → LocalManagementConfig
    → Result ManagementError (Option LoadedPolicy)
    → ℕ
    → ℕ × ManagementRefreshOutcome
activate apply management (ok (some policy)) sequence =
    settle (apply policy.policy management) policy sequence
activate apply management (ok none) sequence = (0, ManagementRefreshOutcome.synchronized)
activate apply management (err error) sequence = (sequence, ManagementRefreshOutcome.failed)

unfoldable pub update :
    Apply
    → LocalManagementConfig
    → Result ManagementError LoadedPolicy
    → ℕ
    → ℕ × ManagementRefreshOutcome
update apply management (ok policy) sequence =
    if ltb sequence policy.sequence
    then settle (apply policy.policy management) policy sequence
    else (sequence, ManagementRefreshOutcome.synchronized)
update apply management (err error) sequence = (sequence, ManagementRefreshOutcome.failed)

abbrev is_identity : LocalManagementConfig → Option LocalManagementConfig → Bool
is_identity management none = false
is_identity management (some identity) = elim (LocalManagementConfig-discrete management identity) [
  | yes _ ↦ true
  | no _ ↦ false
]

-- The worker with the sequence and the failures that an attempt leaves, and the time of the next one.
abbrev paced : LocalManagementConfig → Instant → ℕ × ManagementRefreshOutcome → Worker → Worker
paced management now (sequence, outcome) worker =
    let failures = counted outcome worker.refresh_failures in
    record worker {
      sequence = sequence;
      refresh_failures = failures;
      next_refresh =
          now
          + seconds
              (management_refresh_delay (refresh_interval_minutes management) outcome failures);
    }

module _ (chrono : Chrono) (json : Json) (signatures : Signatures) (codec : CacheCodec) where
  -- The first half of a turn: a source that the thread did not know is taken up.
  unfoldable pub take_source :
      Urls → World → Apply → LocalConfig → Instant → Option Bytes × Worker → Option Bytes × Worker
  take_source urls world apply local now (file, worker) =
      if is_identity local.management worker.source_identity
      then (file, worker)
      else let best = load_best_policy chrono json signatures codec urls world local file in
        let attempt = activate apply local.management best.1 worker.sequence in
        (
          best.0,
          record (paced local.management now attempt (record worker { refresh_failures = 0 })) {
            source_identity = some local.management;
            next_report = now;
            report_failures = 0;
            last_observed_state = none;
          },
        )

  -- The second half: where it is time, the server is asked for a newer policy.
  unfoldable pub refresh :
      World → Apply → LocalConfig → Instant → Option Bytes × Worker → Option Bytes × Worker
  refresh world apply local now (file, worker) =
      if ltb now worker.next_refresh
      then (file, worker)
      else let fetched =
          refresh_policy chrono json signatures codec world local worker.sequence file in
        (
          fetched.0,
          paced local.management now (update apply local.management fetched.1 worker.sequence)
              worker,
        )

-- What the thread forgets where management is disabled.
unfoldable pub rest : Worker → Worker
rest worker = record worker {
  sequence = 0;
  source_identity = none;
  refresh_failures = 0;
  last_observed_state = none;
}

abbrev is_observed : BackupState → Option BackupState → Bool
is_observed state none = false
is_observed state (some previous) = elim (BackupState-discrete previous state) [
  | yes _ ↦ true
  | no _ ↦ false
]

-- A state that was not seen yet is reported at once.
unfoldable pub observe : BackupState → Instant → Worker → Worker
observe state now worker =
    if is_observed state worker.last_observed_state
    then worker
    else record worker { next_report = now; last_observed_state = some state }

-- The time of the next report, after one that was delivered or not.
unfoldable pub report : BackupState → Instant → Result ManagementError (Unit {0}) → Worker → Worker
report state now (ok _) worker = record worker {
  report_failures = 0;
  next_report = now + seconds (if is_running state then 5 * 60 else 6 * 60 * 60);
}
report state now (err error) worker =
    let failures = one_more worker.report_failures in
    record worker {
      report_failures = failures;
      next_report = now + seconds (60 * 2 ^ min (failures - 1) 6);
    }

unfoldable pub report_if_due :
    LocalManagementConfig
    → BackupState
    → Instant
    → Result ManagementError (Unit {0})
    → Worker
    → Worker
report_if_due management state now delivered worker =
    let observed = observe state now worker in
    if not (is_some management.status_url)
    then worker
    else if ltb now observed.next_report
    then observed
    else report state now delivered observed

-- What a turn meets: the configuration, where it can be loaded, the clock, the world and the runtime at
-- the activation and at the refresh, the state that is to be reported and whether the report arrives.
pub record WorkerTurn : Type 0 where
  pub local_config : Option LocalConfig
  pub now : Instant
  pub at_activation : World
  pub at_refresh : World
  pub activates : Apply
  pub updates : Apply
  pub state : BackupState
  pub delivered : Result ManagementError (Unit {0})

module _ (chrono : Chrono) (json : Json) (signatures : Signatures) (codec : CacheCodec)
    (urls : Urls) where
  -- A turn under a source of policies.
  unfoldable pub managed_turn :
      LocalConfig → WorkerTurn → Option Bytes × Worker → Option Bytes × Worker
  managed_turn local t before =
      let taken =
        take_source chrono json signatures codec urls t.at_activation t.activates local t.now
          before in
      let refreshed =
        refresh chrono json signatures codec t.at_refresh t.updates local t.now taken in
      (refreshed.0, report_if_due local.management t.state t.now t.delivered refreshed.1)

  unfoldable pub turn : WorkerTurn → Option Bytes × Worker → Option Bytes × Worker
  turn t (file, worker) = elim t.local_config [
    | none ↦ (file, worker)
    | some local ↦
        if is_disabled local.management.mode
        then (file, rest worker)
        else managed_turn local t (file, worker)
  ]
