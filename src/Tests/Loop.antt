-- ===== src/Tests/Loop.antt =====
-- The event loop at concrete inputs, and the source's own tests of the refresh delay.
use resticpal.Prelude.{◌*◌, ◌≤◌, ◌≡◌, refl, true, false, some, List, [], ◌∷◌}
use resticpal.Service.{RepositoryOperationKind, RepositoryOperationStatus, is_running}
use resticpal.Config.Management.{refresh_interval_minutes}
use resticpal.EventLoop.Orderly.{System}
use resticpal.EventLoop.Turns.{asked, asks, Turns}
use resticpal.EventLoop.Conflicts.{first_system, operations_never_conflict}
use resticpal.EventLoop.Refresh.{
  ManagementRefreshOutcome, management_refresh_delay, management_refresh_delay-bounds,
}
use resticpal.Tests.Data.{calendar, noon, snapshot, env}
use resticpal.Tests.Configuration.{own}
use resticpal.Tests.Requests.{one_url, managed, managed_valid}

-- An administrator asks for a validation.
abbrev asking : System
asking =
    asked own.effective env true RepositoryOperationKind.validate
      (first_system calendar own snapshot noon)

operations_never_conflict_example :
    ((o : RepositoryOperationKind) (rest : List RepositoryOperationKind)
      → asking.requested ≡ o ∷ rest
      → (asking.loop.active_backup ≡ false)
        × (asking.loop.active_repository_operation ≡ false)
        × (rest ≡ []))
    × ((o : RepositoryOperationKind)
        → asking.working ≡ some o
        → asking.loop.state.repository_operation ≡ RepositoryOperationStatus.running o)
    × (is_running asking.loop.state.status.state ≡ asking.loop.active_backup)
operations_never_conflict_example =
    operations_never_conflict calendar own snapshot noon asking
      (Turns.turn Turns.here (asks env true RepositoryOperationKind.validate refl))

management_refresh_delay-bounds_example :
    (30
      ≤ management_refresh_delay
          (refresh_interval_minutes managed)
          ManagementRefreshOutcome.failed
          8)
    × (management_refresh_delay (refresh_interval_minutes managed) ManagementRefreshOutcome.failed 8
        ≤ refresh_interval_minutes managed * 60)
    × (management_refresh_delay (refresh_interval_minutes managed) ManagementRefreshOutcome.failed 8
        ≤ 24 * 60 * 60)
management_refresh_delay-bounds_example =
    management_refresh_delay-bounds one_url managed ManagementRefreshOutcome.failed 8 managed_valid

busy_runtime_retries : management_refresh_delay 15 ManagementRefreshOutcome.runtime_busy 0 ≡ 30
unfolding management_refresh_delay
busy_runtime_retries = refl

failed_fetch_backs_off :
    (management_refresh_delay 15 ManagementRefreshOutcome.failed 1 ≡ 60)
    × (management_refresh_delay 15 ManagementRefreshOutcome.failed 8 ≡ 15 * 60)
    × (management_refresh_delay 15 ManagementRefreshOutcome.synchronized 0 ≡ 15 * 60)
unfolding management_refresh_delay
failed_fetch_backs_off = (refl, refl, refl)
