-- ===== src/Service/Scheduler.antt =====
-- apps/resticpal-service/src/runtime/scheduler.rs: the service's side of the scheduler. (Its test for
-- network repositories is in Service/Network.)
pub mod Start
pub mod Held
use resticpal.Service.Network.{repository_requires_network}
use resticpal.Prelude.{
  ℕ, ◌-◌, ◌*◌, ◌/◌, Bool, true, false, not, ◌&&◌, ◌||◌, Option, none, some, unwrap_or, List, [],
  ◌∷◌, String, ltb, leb, ◌==◌, if◌then◌else◌, any, is_some,
}
use mathlib.Core.List.{reverse}
use resticpal.Text.{codes, is_whitespace, is_ascii_lowercase}
use resticpal.Time.{DateTime, Chrono, seconds}
use resticpal.Config.{EffectiveConfig, is_configured}
use resticpal.Schedule.{
  ScheduleBlocker, wake_grace, network_unavailable, battery_disallowed, metered_network_disallowed,
  ScheduleDecision, already_running, idle, waiting, start, SchedulerSnapshot, decide,
}
use resticpal.Service.{
  BackupState, BackupPhase, WaitingReason, ServiceStatus, RuntimeState, ScheduleAction, is_running,
  is_update_wait, is_pending,
}
use resticpal.Service.Status.{repository_operation_allows_backup, transition_state}

-- `SystemConditions` of conditions.rs, as Windows reports them.
pub record SystemConditions : Type 0 where
  pub network_available : Bool
  pub on_battery : Bool
  pub metered_network : Bool

abbrev pub condition_retry_seconds : ℕ
condition_retry_seconds = 60

abbrev pub waiting_reason : ScheduleBlocker → WaitingReason
waiting_reason wake_grace = WaitingReason.wake_grace
waiting_reason network_unavailable = WaitingReason.network
waiting_reason battery_disallowed = WaitingReason.battery
waiting_reason metered_network_disallowed = WaitingReason.metered_network

unfoldable pub record_resume : RuntimeState → DateTime → RuntimeState
record_resume state now = record state { resumed_at = some now }

-- A status restored from before the update hold.
abbrev pub restored : ServiceStatus → BackupState × Option DateTime → DateTime → ServiceStatus
restored status (previous, deadline) now = record status {
  state = previous;
  state_since = now;
  next_deadline = deadline;
}

-- What is done first when no update holds backups any more.
unfoldable pub release_hold : RuntimeState → DateTime → RuntimeState
release_hold state now = elim state.update_hold_previous_status [
  | none ↦ record state { update_hold_until = none }
  | some previous ↦ record state {
    update_hold_until = none;
    update_hold_previous_status = none;
    status =
        if is_update_wait state.status.state
        then restored state.status previous now
        else state.status;
  }
]

abbrev is_waiting : BackupState → Bool
is_waiting (BackupState.waiting reason) = true
is_waiting state = false

abbrev first_some : Option DateTime → Option DateTime → DateTime → DateTime
first_some (some t) other now = t
first_some none (some t) now = t
first_some none none now = now

-- The `match decision`; no result stands for the panic of `blockers[0]` on an empty list.
unfoldable pub apply_decision :
    RuntimeState → DateTime → ScheduleDecision → Option (RuntimeState × ScheduleAction)
apply_decision state now already_running = some (state, ScheduleAction.none)
apply_decision state now (start trigger) = some (
  record state {
    status = record state.status {
      state = BackupState.running BackupPhase.preparing_snapshot;
      state_since = now;
      last_attempt = some now;
      progress = none;
      next_deadline = none;
    };
    manual_requested = false;
    resumed_at = none;
    not_before = none;
  },
  ScheduleAction.start trigger,
)
apply_decision state now (idle next_deadline) =
    let status = record state.status { next_deadline = some next_deadline } in
    some (
      record state {
        status =
            if is_waiting status.state
            then transition_state status BackupState.idle now
            else status;
        resumed_at = none;
      },
      ScheduleAction.none,
    )
apply_decision state now (waiting trigger [] retry_at) = none
apply_decision state now (waiting trigger (blocker ∷ more) retry_at) = some (
  record state {
    status =
        record (transition_state state.status (BackupState.waiting (waiting_reason blocker)) now) {
          next_deadline = some (first_some retry_at state.not_before now);
        };
  },
  ScheduleAction.none,
)

abbrev pub snapshot_of :
    EffectiveConfig → SystemConditions → RuntimeState → DateTime → SchedulerSnapshot
snapshot_of config conditions state now = record {
  now = now;
  last_success = state.status.last_success;
  resumed_at = state.resumed_at;
  not_before = state.not_before;
  manual_requested = state.manual_requested;
  backup_running = is_running state.status.state;
  network_required = repository_requires_network (unwrap_or config.repository.url "");
  network_available = conditions.network_available;
  on_battery = conditions.on_battery;
  metered_network = conditions.metered_network;
}

module _ (chrono : Chrono) where
  -- The part of `evaluate_schedule` below the update holds.
  unfoldable pub evaluate_released :
      EffectiveConfig
      → SystemConditions
      → RuntimeState
      → DateTime
      → Option (RuntimeState × ScheduleAction)
  evaluate_released config conditions state now =
      if not (is_configured config)
        || state.management_operation_active
        || not (repository_operation_allows_backup state.repository_operation)
      then some (state, ScheduleAction.none)
      else apply_decision state now
          (decide chrono config.schedule (snapshot_of config conditions state now))

  unfoldable pub evaluate_schedule :
      EffectiveConfig
      → SystemConditions
      → RuntimeState
      → DateTime
      → Option (RuntimeState × ScheduleAction)
  evaluate_schedule config conditions state now =
      let held = transition_state state.status (BackupState.waiting WaitingReason.update) now in
      if state.update_install_active
      then some (
        record state {
          status = record held {
            next_deadline = some (chrono.add now (seconds condition_retry_seconds));
          };
        },
        ScheduleAction.none,
      )
      else if is_pending state.update_hold_until now
      then some (
        record state { status = record held { next_deadline = state.update_hold_until } },
        ScheduleAction.none,
      )
      else evaluate_released config conditions (release_hold state now) now

abbrev is_condition_wait : BackupState → Bool
is_condition_wait (BackupState.waiting WaitingReason.network) = true
is_condition_wait (BackupState.waiting WaitingReason.battery) = true
is_condition_wait (BackupState.waiting WaitingReason.metered_network) = true
is_condition_wait state = false

-- In milliseconds. A deadline that has passed gives no delay: the subtraction stops at 0, as
-- `max(0)` does, and `num_milliseconds` rounds towards zero.
unfoldable pub next_evaluation_delay : RuntimeState → DateTime → ℕ
next_evaluation_delay state now =
    if state.management_operation_active || is_condition_wait state.status.state
    then condition_retry_seconds * 1000
    else elim state.status.next_deadline [
      | none ↦ 60 * 60 * 1000
      | some deadline ↦ (deadline - now) / 1_000_000
    ]
