-- ===== src/Runtime/Steps/Trusted.antt =====
-- Which repository a backup of the service goes to, whatever happens to its configuration.
use resticpal.Prelude.{Bool, true, false, Option, ◌≡◌, inl, inr, arith, is_empty, ok}
use resticpal.Time.{DateTime, Chrono}
use resticpal.Config.{EffectiveConfig, LocalConfig, default_config, PathBuf}
use resticpal.Policy.{ManagedPolicy, ResolvedConfig}
use resticpal.Policy.Resolve.{resolve_config}
use resticpal.Restic.Paths.{Texts}
use resticpal.Restic.Sources.{FileSystem}
use resticpal.Service.{ServiceStateSnapshot, RuntimeState, is_running}
use resticpal.Service.Snapshot.{repository_requires_validation, identity_of}
use resticpal.Service.Status.{loaded_operation, from_resolved_with_state}
use resticpal.Service.Effect.{Env}
use resticpal.Service.Steps.Exclusive.{Exclusive}
use resticpal.Runtime.{ServiceRuntime, load}
use resticpal.Runtime.Settings.{
  refuse_schedule, refuse_retention, refuse_update_settings, update_schedule, update_retention,
  update_update_settings,
}
use resticpal.Runtime.Sources.{refuse_sources, update_backup_sources}
use resticpal.Runtime.Secrets.{change_secrets}
use resticpal.Runtime.Repository.{
  RepositoryUpdate, revalidated, secrets_changed, update_repository, with_secrets, with_repository,
}
use resticpal.Runtime.Policies.{demand_validation, adopt}
use resticpal.Runtime.Enrollment.{begin_enrollment, end_enrollment}
use resticpal.Runtime.Guarded.{guarded-holds}
use resticpal.Runtime.Restart.{
  SettingsRequest, sets_schedule, sets_retention, sets_updates, sets_sources, settings_changed,
}
use resticpal.Runtime.Outcomes.{
  update_repository_cases, apply_managed_policy_cases, commit_enrollment_cases,
}
use resticpal.Runtime.Steps.{
  Device, Move, works, changes_settings, changes_repository, applies_policy, begins_enrollment,
  commits_enrollment, ends_enrollment, unenrolls, Runs, here, next, has_unenrolled, is_unenrollment,
}
use resticpal.Runtime.Steps.Reachable.{load-IsSound, Runs-IsSound}
use resticpal.Runtime.Steps.Verified.{
  IsVerifiedFor, apply_configuration_status-verified, Step-verified,
}

abbrev IsTrusted : ServiceRuntime → Type 0
IsTrusted runtime = IsVerifiedFor runtime.config runtime.state

-- Only the part of the repository counts.
same_connection :
    (s : RuntimeState) (config other : EffectiveConfig)
    → identity_of config ≡ identity_of other
    → IsVerifiedFor config s
    → IsVerifiedFor other s
unfolding repository_requires_validation
same_connection s config other e v = ground arith

module _ (texts : Texts) (files : FileSystem) (directory : Option PathBuf) (chrono : Chrono) where
  settings_changed-IsTrusted :
      (env : Env) (a : Bool) (request : SettingsRequest) (runtime : ServiceRuntime)
      → IsTrusted runtime
      → IsTrusted (settings_changed texts files directory chrono env a request runtime).0
  unfolding update_schedule update_retention update_update_settings update_backup_sources
      repository_requires_validation
  settings_changed-IsTrusted env a (sets_schedule update) runtime i =
      guarded-holds IsTrusted (refuse_schedule env a update runtime) env _ runtime _ i
        (λ free. apply_configuration_status-verified chrono runtime.state _ runtime.config _ i)
  settings_changed-IsTrusted env a (sets_retention update) runtime i =
      guarded-holds IsTrusted (refuse_retention env a update runtime) env _ runtime _ i (λ free. i)
  settings_changed-IsTrusted env a (sets_updates automatic) runtime i =
      guarded-holds IsTrusted (refuse_update_settings env a runtime) env _ runtime _ i (λ free. i)
  settings_changed-IsTrusted env a (sets_sources update) runtime i =
      guarded-holds IsTrusted (refuse_sources texts files directory env a update runtime) env _
        runtime _ i
        (λ free. apply_configuration_status-verified chrono runtime.state _ runtime.config _ i)

-- Without a change of the connection, the connection is what it was.
secrets_unchanged :
    (env : Env) (update : RepositoryUpdate) (runtime : ServiceRuntime)
    → is_empty update.secret_updates ≡ true
    → (secrets_changed env update runtime).0.effective ≡ runtime.config.repository.secret_refs
unfolding secrets_changed change_secrets
secrets_unchanged env update runtime h = ground arith

repository_set-IsTrusted :
    (env : Env) (update : RepositoryUpdate) (runtime : ServiceRuntime)
    → IsTrusted runtime
    → IsVerifiedFor
        (with_secrets
          (secrets_changed env update runtime).0.effective
          (with_repository update runtime.config))
        (revalidated update runtime.state)
unfolding repository_requires_validation
repository_set-IsTrusted env update runtime i = ground (arith, secrets_unchanged env update runtime)

demanded :
    (config : EffectiveConfig) (s : RuntimeState)
    → IsVerifiedFor config (demand_validation config s)
unfolding demand_validation
demanded config s = ground arith

module _ (chrono : Chrono) where
  update_repository-IsTrusted :
      (env : Env) (a : Bool) (update : RepositoryUpdate) (runtime : ServiceRuntime)
      → IsTrusted runtime
      → IsTrusted (update_repository chrono env a update runtime).0
  update_repository-IsTrusted env a update runtime i =
      elim (update_repository_cases chrono env a update runtime) [
        | inl same ↦ rw same i
        | inr (q, (v, changed)) ↦ rw changed (
            apply_configuration_status-verified chrono (revalidated update runtime.state) _ _ _
              (repository_set-IsTrusted env update runtime i))
      ]

  -- A configuration that is put into force with a demand for validation is trusted, whatever was.
  adopt-IsTrusted :
      (r : ResolvedConfig) (now : DateTime) (state : RuntimeState) (runtime : ServiceRuntime)
      → IsTrusted (adopt chrono r (demand_validation r.effective state) now runtime)
  unfolding adopt
  adopt-IsTrusted r now state runtime =
      apply_configuration_status-verified chrono _ _ _ _ (demanded r.effective state)

module _ (device : Device) where
  Move-IsTrusted :
      {s t : ServiceRuntime} (move : Move device s t)
      → is_unenrollment device move ≡ false
      → IsTrusted s
      → IsTrusted t
  unfolding begin_enrollment end_enrollment
  Move-IsTrusted {s} (works state st allowed h) n i =
      rw h (Step-verified device.chrono s.config st i)
  Move-IsTrusted {s} (changes_settings env a request m h) n i = rw h (
      settings_changed-IsTrusted device.texts device.files device.data_directory device.chrono env a
        request s i)
  Move-IsTrusted {s} (changes_repository env a update m h) n i =
      rw h (update_repository-IsTrusted device.chrono env a update s i)
  Move-IsTrusted {s} (applies_policy env policy expected h) n i =
      rw h (elim (apply_managed_policy_cases device.chrono env policy expected s) [
        | inl same ↦ rw same i
        | inr (r, resolved, free, changed) ↦
            rw changed (adopt-IsTrusted device.chrono r (env.clock 0) s.state s)
      ])
  Move-IsTrusted {s} (begins_enrollment env a m h) n i = rw h (ground arith)
  Move-IsTrusted {s} (commits_enrollment env pending m h) n i =
      rw h (elim (commit_enrollment_cases device.chrono device.urls env pending s) [
        | inl same ↦ rw same i
        | inr (local, r, resolved, changed) ↦
            rw changed (adopt-IsTrusted device.chrono r (env.clock 0) s.state _)
      ])
  Move-IsTrusted {s} (ends_enrollment m h) n i = rw h i
  Move-IsTrusted {s} (unenrolls env m h) n i = ground arith

  Runs-IsTrusted :
      {s t : ServiceRuntime} (r : Runs device s t)
      → has_unenrolled device r ≡ false
      → IsTrusted s
      → IsTrusted t
  Runs-IsTrusted here n i = i
  Runs-IsTrusted (next r move) n i =
      Move-IsTrusted move (ground arith) (Runs-IsTrusted r (ground arith) i)

load-IsTrusted :
    (chrono : Chrono) (resolved : ResolvedConfig) (local : LocalConfig)
    (snapshot : ServiceStateSnapshot) (now : DateTime)
    → IsTrusted (load chrono resolved local snapshot now)
unfolding load from_resolved_with_state loaded_operation
load-IsTrusted chrono resolved local snapshot now = ground arith

running_verified :
    (t : ServiceRuntime)
    → Exclusive t.state
    → IsTrusted t
    → is_running t.state.status.state ≡ true
    → repository_requires_validation t.state.service_state t.config ≡ false
running_verified t e i h = ground (arith, e.backup_alone)

-- From the start of the service, whatever is asked of it and whatever happens to its configuration, an
-- unenrollment excepted, while a backup runs, the repository of the configuration in force needs no
-- validation.
pub running_on_verified :
    (device : Device) (local : LocalConfig) (managed : Option ManagedPolicy)
    (resolved : ResolvedConfig) (snapshot : ServiceStateSnapshot) (now : DateTime)
    (t : ServiceRuntime)
    → resolve_config default_config local managed ≡ ok resolved
    → (r : Runs device (load device.chrono resolved local snapshot now) t)
    → has_unenrolled device r ≡ false
    → is_running t.state.status.state ≡ true
    → repository_requires_validation t.state.service_state t.config ≡ false
running_on_verified device local managed resolved snapshot now t h r n running =
    let i =
      Runs-IsSound device (load-IsSound device.chrono local managed resolved snapshot now h) r in
    running_verified t i.apart
      (Runs-IsTrusted device r n (load-IsTrusted device.chrono resolved local snapshot now)) running
