-- ===== src/Schedule/Decision.antt =====
-- What `decide` of crates/resticpal-core/src/schedule.rs answers, and when.
use mathlib.Core.List.{head?}
use mathlib.Core.Option
use resticpal.Prelude.{
  unwrap_or, ◌+◌, ◌≤◌, ◌<◌, ◌≡◌, ◌≢◌, ◌⊎◌, ◌↔◌, true, false, Option, none, some, List, [], arith,
}
use resticpal.Time.{DateTime, Chrono, seconds, hours, checked_cases}
use resticpal.Schedule.{
  ScheduleConfig, SchedulerSnapshot, BackupTrigger, ScheduleBlocker, wake_grace, idle, waiting,
  start, completion_deadline, next_deadline, trigger, grace_block, blockers, decide,
}
use resticpal.Schedule.Deadline.{completion_deadline-le}

-- Every one of these holds of an absent value.
abbrev pub IsPast : DateTime → Option DateTime → Type 0
IsPast now none = Unit
IsPast now (some t) = t ≤ now

module _ (chrono : Chrono) (config : ScheduleConfig) (s : SchedulerSnapshot) where
  -- An idle decision is made only when no backup runs and none was asked for. It names a deadline in
  -- the future, at most one interval away unless it is the time that a deferral or a retry set.
  pub decide-idle :
      {d : DateTime}
      → decide chrono config s ≡ idle d
      → (s.now < d)
        × (s.manual_requested ≡ false)
        × (s.backup_running ≡ false)
        × ((d ≤ s.now + hours config.interval_hours) ⊎ (s.not_before ≡ some d))
  unfolding decide next_deadline
  decide-idle h =
      ground (arith, completion_deadline-le chrono s.last_success s.now config.interval_hours)

  -- A waiting decision names what it waits for: the list is not empty, and a retry time is given
  -- exactly when the wake grace period is its first entry; it lies in the future.
  pub decide-waiting :
      {t : BackupTrigger} {b : List ScheduleBlocker} {retry : Option DateTime}
      → decide chrono config s ≡ waiting t b retry
      → (b ≢ [])
        × (t ≡ trigger s)
        × ((retry ≡ none) × (head? b ≢ some wake_grace)
            ⊎ (g : DateTime) × (retry ≡ some g) × (s.now < g) × (head? b ≡ some wake_grace))
  unfolding decide blockers grace_block
  decide-waiting h = ground arith

  -- The conditions for a backup to start, stated without the code's intermediate values.
  pub record IsReady : Type 0 where
    pub not_running : s.backup_running ≡ false
    pub due :
        (s.manual_requested ≡ true)
        ⊎ (completion_deadline chrono s.last_success s.now config.interval_hours ≤ s.now)
          × IsPast s.now s.not_before
    pub rested :
        (s.manual_requested ≡ true)
        ⊎ IsPast s.now (Option.map (λ r. r + seconds config.wake_grace_seconds) s.resumed_at)
    pub connected : (s.network_required ≡ false) ⊎ (s.network_available ≡ true)
    pub powered :
        (s.manual_requested ≡ true) ⊎ (s.on_battery ≡ false) ⊎ (config.allow_on_battery ≡ true)
    pub unmetered : (s.metered_network ≡ false) ⊎ (config.allow_metered_network ≡ true)

  -- A backup starts exactly when it is ready, with the trigger that applies. A grace period is at
  -- most a day, and its end is representable.
  pub decide-start_iff :
      {t : BackupTrigger}
      → config.wake_grace_seconds ≤ 86400
      → IsPast chrono.max_utc (Option.map (λ r. r + seconds config.wake_grace_seconds) s.resumed_at)
      → (decide chrono config s ≡ start t) ↔ (IsReady × (t ≡ trigger s))
  unfolding decide next_deadline blockers grace_block
  decide-start_iff g fits =
      let within =
        checked_cases chrono (unwrap_or s.resumed_at 0) (seconds config.wake_grace_seconds) in
      (λ h. ground arith, λ r. ground arith)

-- Two requests of a user get the same decision where they agree on whether a backup runs, on the
-- network and on whether metered networks are allowed: the schedule, the wake grace period, a
-- deferral and battery power make no difference.
pub decide_manual :
    (chrono : Chrono) (config config' : ScheduleConfig) (s s' : SchedulerSnapshot)
    → s.manual_requested ≡ true
    → s'.manual_requested ≡ true
    → s.backup_running ≡ s'.backup_running
    → s.network_required ≡ s'.network_required
    → s.network_available ≡ s'.network_available
    → s.metered_network ≡ s'.metered_network
    → config.allow_metered_network ≡ config'.allow_metered_network
    → decide chrono config s ≡ decide chrono config' s'
unfolding decide blockers grace_block trigger
decide_manual chrono config config' s s' m m' r n a w c = ground arith
