-- ===== src/Schedule.antt =====
-- crates/resticpal-core/src/schedule.rs: when the next backup is due, and whether it may start.
pub mod Deadline
pub mod Decision
use resticpal.Prelude.{
  ℕ, ◌^◌, ◌-◌, min, max, Bool, true, false, not, ◌&&◌, ◌||◌, Option, none, some, List, [], ◌∷◌,
  ◌++◌, ltb, leb, if◌then◌else◌, is_some, unwrap_or,
}
use resticpal.Time.{DateTime, Chrono, seconds, hours}

-- `ScheduleConfig` of crates/resticpal-core/src/config.rs.
pub record ScheduleConfig : Type 0 where
  pub interval_hours : ℕ
  pub wake_grace_seconds : ℕ
  pub wake_lock_timeout_seconds : ℕ
  pub allow_on_battery : Bool
  pub allow_metered_network : Bool

pub record SchedulerSnapshot : Type 0 where
  pub now : DateTime
  pub last_success : Option DateTime
  pub resumed_at : Option DateTime
  pub not_before : Option DateTime
  pub manual_requested : Bool
  pub backup_running : Bool
  pub network_required : Bool
  pub network_available : Bool
  pub on_battery : Bool
  pub metered_network : Bool

pub data BackupTrigger : Type 0 where
  manual scheduled resume_catch_up : BackupTrigger

pub data ScheduleBlocker : Type 0 where
  wake_grace network_unavailable battery_disallowed metered_network_disallowed : ScheduleBlocker

pub data ScheduleDecision : Type 0 where
  already_running : ScheduleDecision
  idle : DateTime → ScheduleDecision
  waiting : BackupTrigger → List ScheduleBlocker → Option DateTime → ScheduleDecision
  start : BackupTrigger → ScheduleDecision

-- `Vec::push` under an `if`.
abbrev pub push_if {ℓ} : {A : Type ℓ} → Bool → A → List A → List A
push_if true a xs = xs ++ (a ∷ [])
push_if false a xs = xs

-- The largest `i64`, to which `i64::try_from(..).unwrap_or(i64::MAX)` cuts a `u64`.
abbrev pub i64_max : ℕ
i64_max = 2 ^ 63 - 1

unfoldable pub trigger : SchedulerSnapshot → BackupTrigger
trigger snapshot =
    if snapshot.manual_requested
    then manual
    else if is_some snapshot.resumed_at
    then resume_catch_up
    else scheduled

module _ (chrono : Chrono) where
  unfoldable pub completion_deadline : Option DateTime → DateTime → ℕ → DateTime
  completion_deadline none now interval_hours = now
  completion_deadline (some completed) now interval_hours =
      unwrap_or (chrono.checked_add_signed (min completed now) (hours interval_hours)) now

  -- The deadline that `decide` compares with: a deferral postpones it, unless a backup was asked for.
  unfoldable pub next_deadline : ScheduleConfig → SchedulerSnapshot → DateTime
  next_deadline config snapshot =
      let scheduled_deadline =
        completion_deadline snapshot.last_success snapshot.now config.interval_hours in
      if snapshot.manual_requested then scheduled_deadline else elim snapshot.not_before [
        | none ↦ scheduled_deadline
        | some not_before ↦ max scheduled_deadline not_before
      ]

  -- The end of the wake grace period, while it blocks the backup.
  unfoldable pub grace_block : ScheduleConfig → SchedulerSnapshot → Option DateTime
  grace_block config snapshot =
      if snapshot.manual_requested then none else elim snapshot.resumed_at [
        | none ↦ none
        | some resumed_at ↦
            let grace_end =
              unwrap_or
                (chrono.checked_add_signed resumed_at
                  (seconds (min config.wake_grace_seconds i64_max)))
                snapshot.now in
            if ltb snapshot.now grace_end then some grace_end else none
      ]

  unfoldable pub blockers : ScheduleConfig → SchedulerSnapshot → List ScheduleBlocker
  blockers config snapshot =
      push_if (snapshot.metered_network && not config.allow_metered_network)
        metered_network_disallowed
        (push_if
          (not snapshot.manual_requested && (snapshot.on_battery && not config.allow_on_battery))
          battery_disallowed
          (push_if (snapshot.network_required && not snapshot.network_available) network_unavailable
            (push_if (is_some (grace_block config snapshot)) wake_grace [])))

  unfoldable pub decide : ScheduleConfig → SchedulerSnapshot → ScheduleDecision
  decide config snapshot =
      if snapshot.backup_running
      then already_running
      else if snapshot.manual_requested || leb (next_deadline config snapshot) snapshot.now
      then elim (blockers config snapshot) [
        | [] ↦ start (trigger snapshot)
        | b ∷ bs ↦ waiting (trigger snapshot) (b ∷ bs) (grace_block config snapshot)
      ]
      else idle (next_deadline config snapshot)
