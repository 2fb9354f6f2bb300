-- ===== src/Runtime/Coherent.antt =====
-- The configuration in force is the one that its layers resolve to, also after the requests of
-- apps/resticpal-service/src/runtime/ipc.rs that change it.
use resticpal.Prelude.{false, Option, none, some, unwrap_or, ◌≡◌, ◌⊎◌, arith, is_some}
use resticpal.Config.{default_config}
use resticpal.Policy.{
  Managed, ManagedPolicy, PolicyField, schedule_interval_hours, schedule_wake_grace_seconds,
  schedule_wake_lock_timeout_seconds, schedule_allow_on_battery, schedule_allow_metered_network,
  retention_daily, retention_weekly, retention_monthly, retention_yearly,
  retention_prune_interval_days,
}
use resticpal.Policy.Layers.{Value, value_in, local_value, managed_value, locks}
use resticpal.Policy.Precedence.{winner}
use resticpal.Runtime.{ServiceRuntime, field_locked}
use resticpal.Runtime.Settings.{
  recorded, ScheduleUpdate, schedule_locked, with_schedule, record_schedule, RetentionUpdate,
  retention_locked, with_retention, record_retention,
}

-- The layers of a field agree with its value in force and with what the service takes to be locked.
abbrev pub AgreesAt : Option ManagedPolicy → ServiceRuntime → PolicyField → Type 0
AgreesAt managed runtime field =
    (value_in field runtime.config
      ≡ winner (value_in field default_config) (local_value field runtime.local_config)
          (managed_value field managed))
    × (field_locked runtime field ≡ locks (managed_value field managed))

pub record IsCoherent (managed : Option ManagedPolicy) (runtime : ServiceRuntime) : Type 0 where
  pub agrees : (field : PolicyField) → AgreesAt managed runtime field

-- A field that no policy locks takes the value that is recorded for it.
recorded_wins :
    {A : Type 0} (default : A) (change local : Option A) (managed : Option (Managed A)) (old : A)
    → old ≡ winner default local managed
    → (is_some change ≡ false) ⊎ (locks managed ≡ false)
    → unwrap_or change old ≡ winner default (recorded change local) managed
recorded_wins default none local managed old h free = h
recorded_wins default (some new) local managed old h free = ground arith

module _ (managed : Option ManagedPolicy) (runtime : ServiceRuntime)
    (coherent : IsCoherent managed runtime) where
  pub takes :
      (field : PolicyField) (change : Option (Value field))
      → (is_some change ≡ false) ⊎ (field_locked runtime field ≡ false)
      → (unwrap_or change (value_in field runtime.config)
          ≡ winner
              (value_in field default_config)
              (recorded change (local_value field runtime.local_config))
              (managed_value field managed))
        × (field_locked runtime field ≡ locks (managed_value field managed))
  takes field change guard =
      let (value, same) = coherent.agrees field in
      (
        recorded_wins _ change _ (managed_value field managed) _ value
            (ground (arith, same, guard)),
        same,
      )

  pub with_schedule-IsCoherent :
      (update : ScheduleUpdate)
      → schedule_locked runtime update ≡ false
      → IsCoherent managed (record runtime {
        config = with_schedule update runtime.config;
        local_config = record_schedule update runtime.local_config;
      })
  unfolding schedule_locked field_locked
  with_schedule-IsCoherent update unlocked = record { agrees = each }
    where
      each :
          (field : PolicyField)
          → AgreesAt managed
              (record runtime {
                config = with_schedule update runtime.config;
                local_config = record_schedule update runtime.local_config;
              })
              field
      each schedule_interval_hours =
          takes schedule_interval_hours update.interval_hours (ground arith)
      each schedule_wake_grace_seconds =
          takes schedule_wake_grace_seconds update.wake_grace_seconds (ground arith)
      each schedule_wake_lock_timeout_seconds =
          takes schedule_wake_lock_timeout_seconds update.wake_lock_timeout_seconds (ground arith)
      each schedule_allow_on_battery =
          takes schedule_allow_on_battery update.allow_on_battery (ground arith)
      each schedule_allow_metered_network =
          takes schedule_allow_metered_network update.allow_metered_network (ground arith)
      each _ = coherent.agrees _

  pub with_retention-IsCoherent :
      (update : RetentionUpdate)
      → retention_locked runtime update ≡ false
      → IsCoherent managed (record runtime {
        config = with_retention update runtime.config;
        local_config = record_retention update runtime.local_config;
      })
  unfolding retention_locked field_locked
  with_retention-IsCoherent update unlocked = record { agrees = each }
    where
      each :
          (field : PolicyField)
          → AgreesAt managed
              (record runtime {
                config = with_retention update runtime.config;
                local_config = record_retention update runtime.local_config;
              })
              field
      each retention_daily = takes retention_daily update.daily (ground arith)
      each retention_weekly = takes retention_weekly update.weekly (ground arith)
      each retention_monthly = takes retention_monthly update.monthly (ground arith)
      each retention_yearly = takes retention_yearly update.yearly (ground arith)
      each retention_prune_interval_days =
          takes retention_prune_interval_days update.prune_interval_days (ground arith)
      each _ = coherent.agrees _
