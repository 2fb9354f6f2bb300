-- ===== src/Runtime/Steps/Reachable.antt =====
-- What holds of every runtime that the service reaches.
use resticpal.Prelude.{◌+◌, ◌≤◌, Option, ◌≡◌, ok, arith}
use resticpal.Time.{DateTime, Chrono}
use resticpal.Config.{LocalConfig, default_config}
use resticpal.Config.Bounds.{IsValid, validate-ok_iff}
use resticpal.Policy.{ManagedPolicy, ResolvedConfig}
use resticpal.Policy.Resolve.{resolve_config}
use resticpal.Service.{ServiceStateSnapshot, is_running, is_repository_running}
use resticpal.Service.Status.{from_resolved_with_state}
use resticpal.Service.Steps.Reachable.{tally, Step-Exclusive, from_resolved_with_state-Exclusive}
use resticpal.Runtime.{ServiceRuntime, load}
use resticpal.Runtime.Steps.{
  Device, Move, works, changes_settings, changes_repository, applies_policy, begins_enrollment,
  commits_enrollment, ends_enrollment, unenrolls, Runs, here, next,
}
use resticpal.Runtime.Steps.Alone.{Step-managed}
use resticpal.Runtime.Steps.Sound.{IsSound, settings_changed-IsSound}
use resticpal.Runtime.Steps.Connected.{
  resolved_valid, update_repository-IsSound, apply_managed_policy-IsSound, leave_management-IsSound,
  begin_enrollment-IsSound, end_enrollment-IsSound, commit_enrollment-IsSound,
}

pub load-IsSound :
    (chrono : Chrono) (local : LocalConfig) (managed : Option ManagedPolicy)
    (resolved : ResolvedConfig) (snapshot : ServiceStateSnapshot) (now : DateTime)
    → resolve_config default_config local managed ≡ ok resolved
    → IsSound (load chrono resolved local snapshot now)
unfolding load from_resolved_with_state
load-IsSound chrono local managed resolved snapshot now h = record {
  apart = from_resolved_with_state-Exclusive chrono resolved snapshot now;
  alone = ground arith;
  valid = resolved_valid local managed resolved h;
}

module _ (device : Device) where
  Move-IsSound : {s t : ServiceRuntime} → Move device s t → IsSound s → IsSound t
  Move-IsSound {s} (works state st allowed h) i = rw h (record {
    apart = Step-Exclusive device.chrono s.config st i.apart;
    alone = Step-managed device.chrono s.config st allowed i.apart i.alone;
    valid = i.valid;
  })
  Move-IsSound {s} (changes_settings env a request m h) i = rw h (
      settings_changed-IsSound device.texts device.files device.data_directory device.chrono env a
        request s i)
  Move-IsSound {s} (changes_repository env a update m h) i =
      rw h (update_repository-IsSound device.chrono env a update s i)
  Move-IsSound {s} (applies_policy env policy expected h) i =
      rw h (apply_managed_policy-IsSound device.chrono env policy expected s i)
  Move-IsSound {s} (begins_enrollment env a m h) i =
      rw h (begin_enrollment-IsSound device.chrono env a s i)
  Move-IsSound {s} (commits_enrollment env pending m h) i =
      rw h (commit_enrollment-IsSound device.chrono device.urls env pending s m i)
  Move-IsSound {s} (ends_enrollment m h) i = rw h (end_enrollment-IsSound device.chrono s i)
  Move-IsSound {s} (unenrolls env m h) i = rw h (leave_management-IsSound device.chrono env s i)

  pub Runs-IsSound : {s t : ServiceRuntime} → IsSound s → Runs device s t → IsSound t
  Runs-IsSound i here = i
  Runs-IsSound i (next r move) = Move-IsSound move (Runs-IsSound i r)

IsSound-tally :
    (t : ServiceRuntime)
    → IsSound t
    → tally (is_running t.state.status.state)
        + tally (is_repository_running t.state.repository_operation)
        + tally t.state.update_install_active
        + tally t.state.management_operation_active
      ≤ 1
IsSound-tally t i = ground (arith, i.apart.backup_alone, i.apart.operation_alone, i.alone)

IsSound-IsValid : (t : ServiceRuntime) → IsSound t → IsValid t.config
IsSound-IsValid t i = (validate-ok_iff t.config).0 (ground (arith, i.valid))

-- In every runtime that the service reaches from its start, whatever is asked of it and whatever
-- happens to its configuration, at most one of a backup, a repository operation, an update installation
-- and an enrollment is under way, and the configuration in force is a valid one.
pub runtime_exclusive :
    (device : Device) (local : LocalConfig) (managed : Option ManagedPolicy)
    (resolved : ResolvedConfig) (snapshot : ServiceStateSnapshot) (now : DateTime)
    (t : ServiceRuntime)
    → resolve_config default_config local managed ≡ ok resolved
    → Runs device (load device.chrono resolved local snapshot now) t
    → (tally (is_running t.state.status.state)
          + tally (is_repository_running t.state.repository_operation)
          + tally t.state.update_install_active
          + tally t.state.management_operation_active
        ≤ 1)
      × IsValid t.config
runtime_exclusive device local managed resolved snapshot now t h r =
    let i =
      Runs-IsSound device (load-IsSound device.chrono local managed resolved snapshot now h) r in
    (IsSound-tally t i, IsSound-IsValid t i)
