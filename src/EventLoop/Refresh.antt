-- ===== src/EventLoop/Refresh.antt =====
-- `management_refresh_delay` of apps/resticpal-service/src/main.rs: when the thread for managed policies
-- asks its server again. Delays are in seconds.
use resticpal.Config.Management.Transport.{validate_management_safe}
use resticpal.Prelude.{ℕ, ◌*◌, ◌-◌, ◌^◌, ◌≤◌, ◌≡◌, min, arith, zero, suc, ok}
use resticpal.Config.{LocalManagementConfig}
use resticpal.Config.Management.{Urls, refresh_interval_minutes, validate_management}

pub data ManagementRefreshOutcome : Type 0 where
  synchronized runtime_busy failed : ManagementRefreshOutcome

abbrev pub management_busy_retry : ℕ
management_busy_retry = 30

-- The shift by at most 6 keeps the product far below the saturation of a u64.
unfoldable pub management_refresh_delay : ℕ → ManagementRefreshOutcome → ℕ → ℕ
management_refresh_delay minutes ManagementRefreshOutcome.synchronized failures = minutes * 60
management_refresh_delay minutes ManagementRefreshOutcome.runtime_busy failures =
    management_busy_retry
management_refresh_delay minutes ManagementRefreshOutcome.failed failures =
    min (60 * 2 ^ min (failures - 1) 6) (minutes * 60)

-- After a failure, at least a minute.
backoff_bounds : (k : ℕ) → k ≤ 6 → 60 ≤ 60 * 2 ^ k
backoff_bounds zero h = omega arith
backoff_bounds (suc zero) h = omega arith
backoff_bounds (suc (suc zero)) h = omega arith
backoff_bounds (suc (suc (suc zero))) h = omega arith
backoff_bounds (suc (suc (suc (suc zero)))) h = omega arith
backoff_bounds (suc (suc (suc (suc (suc zero))))) h = omega arith
backoff_bounds (suc (suc (suc (suc (suc (suc zero)))))) h = omega arith
backoff_bounds (suc (suc (suc (suc (suc (suc (suc k))))))) h = absurd (omega arith)

delay_bounds :
    (minutes failures : ℕ) (outcome : ManagementRefreshOutcome)
    → 5 ≤ minutes
    → (30 ≤ management_refresh_delay minutes outcome failures)
      × (management_refresh_delay minutes outcome failures ≤ minutes * 60)
unfolding management_refresh_delay
delay_bounds minutes failures ManagementRefreshOutcome.synchronized h = (omega arith, omega arith)
delay_bounds minutes failures ManagementRefreshOutcome.runtime_busy h = (omega arith, omega arith)
delay_bounds minutes failures ManagementRefreshOutcome.failed h =
    let low = backoff_bounds (min (failures - 1) 6) (omega arith) in (omega arith, omega arith)

-- Under a management configuration that passes validation, whatever came of the last attempt and however
-- many failed, the service waits at least half a minute before it asks its server again, and at most the
-- configured interval, which is no longer than a day.
pub management_refresh_delay-bounds :
    (urls : Urls) (management : LocalManagementConfig) (outcome : ManagementRefreshOutcome)
    (failures : ℕ)
    → validate_management urls management ≡ ok tt
    → let delay = management_refresh_delay (refresh_interval_minutes management) outcome failures in
      (30 ≤ delay) × (delay ≤ refresh_interval_minutes management * 60) × (delay ≤ 24 * 60 * 60)
management_refresh_delay-bounds urls management outcome failures h =
    let (low, high, manifest, status) = validate_management_safe urls management h in
    let (least, most) = delay_bounds (refresh_interval_minutes management) failures outcome low in
    (least, most, omega arith)
