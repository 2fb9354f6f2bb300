-- ===== src/Runtime/Steps/Running.antt =====
-- What cannot end a running backup, changes of the configuration included
-- (apps/resticpal-service/src/runtime/ipc.rs and enrollment.rs).
use resticpal.Prelude.{Bool, true, false, none, Option, ◌≡◌, inl, inr, arith}
use resticpal.Time.{Chrono}
use resticpal.Config.{PathBuf}
use resticpal.Restic.Paths.{Texts}
use resticpal.Restic.Sources.{FileSystem}
use resticpal.Service.{is_running}
use resticpal.Service.Effect.{Env}
use resticpal.Service.Steps.Persistence.{ends_the_backup, Step-running}
use resticpal.Runtime.{ServiceRuntime}
use resticpal.Runtime.Settings.{
  ScheduleUpdate, refuse_schedule, refuse_retention, refuse_update_settings, update_schedule,
  update_retention, update_update_settings,
}
use resticpal.Runtime.Sources.{SourcesUpdate, refuse_sources, update_backup_sources}
use resticpal.Runtime.Policies.{is_busy}
use resticpal.Runtime.Enrollment.{begin_enrollment, end_enrollment}
use resticpal.Runtime.Guarded.{guarded-holds}
use resticpal.Runtime.Restart.{
  SettingsRequest, sets_schedule, sets_retention, sets_updates, sets_sources, settings_changed,
}
use resticpal.Runtime.Outcomes.{update_repository_cases, apply_managed_policy_cases}
use resticpal.Runtime.Steps.{
  Device, Move, works, changes_settings, changes_repository, applies_policy, begins_enrollment,
  commits_enrollment, ends_enrollment, unenrolls, is_unenrollment,
}
use resticpal.Runtime.Steps.Sound.{IsSound}

abbrev IsBackingUp : ServiceRuntime → Type 0
IsBackingUp runtime = is_running runtime.state.status.state ≡ true

schedule_idle :
    (env : Env) (a : Bool) (update : ScheduleUpdate) (runtime : ServiceRuntime)
    → refuse_schedule env a update runtime ≡ none
    → is_running runtime.state.status.state ≡ false
unfolding refuse_schedule
schedule_idle env a update runtime h = ground arith

module _ (texts : Texts) (files : FileSystem) (directory : Option PathBuf) (chrono : Chrono) where
  sources_idle :
      (env : Env) (a : Bool) (update : SourcesUpdate) (runtime : ServiceRuntime)
      → refuse_sources texts files directory env a update runtime ≡ none
      → is_running runtime.state.status.state ≡ false
  unfolding refuse_sources
  sources_idle env a update runtime h = ground arith

  settings_changed-running :
      (env : Env) (a : Bool) (request : SettingsRequest) (runtime : ServiceRuntime)
      → IsBackingUp runtime
      → IsBackingUp (settings_changed texts files directory chrono env a request runtime).0
  unfolding update_schedule update_retention update_update_settings update_backup_sources
  settings_changed-running env a (sets_schedule update) runtime r =
      guarded-holds IsBackingUp (refuse_schedule env a update runtime) env _ runtime _ r
        (λ free. let idle = schedule_idle env a update runtime free in absurd (cc))
  settings_changed-running env a (sets_retention update) runtime r =
      guarded-holds IsBackingUp (refuse_retention env a update runtime) env _ runtime _ r
        (λ free. r)
  settings_changed-running env a (sets_updates automatic) runtime r =
      guarded-holds IsBackingUp (refuse_update_settings env a runtime) env _ runtime _ r (λ free. r)
  settings_changed-running env a (sets_sources update) runtime r =
      guarded-holds IsBackingUp (refuse_sources texts files directory env a update runtime) env _
        runtime _ r (λ free. let idle = sources_idle env a update runtime free in absurd (cc))

module _ (device : Device) where
  -- The report of the end of a backup.
  abbrev pub reports_the_end : {s t : ServiceRuntime} → Move device s t → Bool
  reports_the_end {s} (works state st allowed h) = ends_the_backup device.chrono s.config st
  reports_the_end move = false

  -- From a runtime with the invariants in which a backup runs, whatever is asked of the service and whatever
  -- happens to its configuration, the report of the end of the backup and an unenrollment excepted, leads to
  -- a runtime in which a backup runs.
  pub Move-running :
      {s t : ServiceRuntime} (move : Move device s t)
      → IsSound s
      → reports_the_end move ≡ false
      → is_unenrollment device move ≡ false
      → is_running s.state.status.state ≡ true
      → is_running t.state.status.state ≡ true
  unfolding begin_enrollment end_enrollment is_busy
  Move-running {s} (works state st allowed h) i e n r =
      rw h (Step-running device.chrono s.config st i.apart r e)
  Move-running {s} (changes_settings env a request m h) i e n r = rw h (
      settings_changed-running device.texts device.files device.data_directory device.chrono env a
        request s r)
  Move-running {s} (changes_repository env a update m h) i e n r =
      rw h (elim (update_repository_cases device.chrono env a update s) [
        | inl same ↦ rw same r
        | inr (idle, changed) ↦ absurd (cc)
      ])
  Move-running {s} (applies_policy env policy expected h) i e n r =
      rw h (elim (apply_managed_policy_cases device.chrono env policy expected s) [
        | inl same ↦ rw same r
        | inr (resolved, given, free, changed) ↦ absurd (ground arith)
      ])
  Move-running {s} (begins_enrollment env a m h) i e n r = rw h (ground arith)
  Move-running {s} (commits_enrollment env pending m h) i e n r =
      let alone = i.alone in absurd (ground arith)
  Move-running {s} (ends_enrollment m h) i e n r = rw h r
  Move-running {s} (unenrolls env m h) i e n r = absurd (cc)
