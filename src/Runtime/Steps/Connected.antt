-- ===== src/Runtime/Steps/Connected.antt =====
-- Changes of the repository and of the management keep what holds of the service.
use resticpal.Runtime.Outcomes.{
  update_repository_cases, apply_managed_policy_cases, leave_management_cases,
  commit_enrollment_cases,
}
use resticpal.Prelude.{Bool, true, false, Option, none, some, ◌≡◌, arith, inl, inr, ok, refl}
use resticpal.Time.{DateTime, Chrono}
use resticpal.Config.{EffectiveConfig, LocalConfig, LocalManagementConfig, default_config}
use resticpal.Config.Management.{Urls}
use resticpal.Policy.{ManagedPolicy, ResolvedConfig}
use resticpal.Policy.Resolve.{resolve_config}
use resticpal.Policy.Acceptance.{resolve_config_inversion}
use resticpal.Service.{RuntimeState, is_running}
use resticpal.Service.Effect.{Env}
use resticpal.Service.Steps.Exclusive.{Exclusive}
use resticpal.Runtime.{ServiceRuntime, update_blocks_configuration_mutation}
use resticpal.Runtime.Settings.{is_invalid}
use resticpal.Runtime.Repository.{RepositoryUpdate, revalidated, update_repository}
use resticpal.Runtime.Policies.{
  demand_validation, is_busy, adopt, apply_managed_policy, leave_management,
}
use resticpal.Runtime.Enrollment.{
  PendingEnrollment, begin_enrollment, end_enrollment, commit_enrollment,
}
use resticpal.Runtime.Steps.Alone.{IsManagedAlone}
use resticpal.Runtime.Steps.Sound.{IsSound, applied-IsSound}

demand_validation_lem :
    (config : EffectiveConfig) (s : RuntimeState)
    → is_running s.status.state ≡ false
    → Exclusive s
    → IsManagedAlone s
    → Exclusive (demand_validation config s) × IsManagedAlone (demand_validation config s)
unfolding demand_validation
demand_validation_lem config s q e m = ground arith

pub resolved_valid :
    (local : LocalConfig) (managed : Option ManagedPolicy) (r : ResolvedConfig)
    → resolve_config default_config local managed ≡ ok r
    → is_invalid r.effective ≡ false
resolved_valid local managed r h =
    let (_, _, v, e) = resolve_config_inversion default_config local managed h in
    rw e (rw (is_invalid, v) refl)

adopt-IsSound :
    (chrono : Chrono) (local : LocalConfig) (managed : Option ManagedPolicy) (r : ResolvedConfig)
    (s : RuntimeState) (now : DateTime) (runtime : ServiceRuntime)
    → resolve_config default_config local managed ≡ ok r
    → Exclusive s
    → IsManagedAlone s
    → IsSound (adopt chrono r s now runtime)
unfolding adopt
adopt-IsSound chrono local managed r s now runtime h e m =
    applied-IsSound chrono
      (record s { status = record s.status { managed_revision = r.managed_revision } }) _ _ _ _
      (record {
        backup_alone = e.backup_alone;
        operation_alone = e.operation_alone;
        hold_quiet = e.hold_quiet;
      })
      m (resolved_valid local managed r h)

revalidated_lem :
    (update : RepositoryUpdate) (s : RuntimeState)
    → is_running s.status.state ≡ false
    → Exclusive s
    → IsManagedAlone s
    → Exclusive (revalidated update s) × IsManagedAlone (revalidated update s)
revalidated_lem update s q e m = ground arith

not_busy :
    (s : RuntimeState) (now : DateTime) → is_busy s now ≡ false → is_running s.status.state ≡ false
unfolding is_busy
not_busy s now h = ground arith

module _ (chrono : Chrono) where
  pub update_repository-IsSound :
      (env : Env) (a : Bool) (update : RepositoryUpdate) (runtime : ServiceRuntime)
      → IsSound runtime
      → IsSound (update_repository chrono env a update runtime).0
  update_repository-IsSound env a update runtime i =
      elim (update_repository_cases chrono env a update runtime) [
        | inl same ↦ rw same i
        | inr (q, (v, changed)) ↦
            let (e, m) = revalidated_lem update runtime.state q i.apart i.alone in
            rw changed (applied-IsSound chrono (revalidated update runtime.state) _ _ _ _ e m v)
      ]

  -- A resolved configuration that is put into force when no backup runs.
  demanded-IsSound :
      (local : LocalConfig) (managed : Option ManagedPolicy) (r : ResolvedConfig) (now : DateTime)
      (runtime : ServiceRuntime)
      → resolve_config default_config local managed ≡ ok r
      → is_running runtime.state.status.state ≡ false
      → IsSound runtime
      → (changed : ServiceRuntime)
      → IsSound (adopt chrono r (demand_validation r.effective runtime.state) now changed)
  demanded-IsSound local managed r now runtime h q i changed =
      let (e, m) = demand_validation_lem r.effective runtime.state q i.apart i.alone in
      adopt-IsSound chrono local managed r (demand_validation r.effective runtime.state) now changed
        h e m

  pub apply_managed_policy-IsSound :
      (env : Env) (policy : ManagedPolicy) (expected : Option LocalManagementConfig)
      (runtime : ServiceRuntime)
      → IsSound runtime
      → IsSound (apply_managed_policy chrono env policy expected runtime).0
  apply_managed_policy-IsSound env policy expected runtime i =
      elim (apply_managed_policy_cases chrono env policy expected runtime) [
        | inl same ↦ rw same i
        | inr (r, h, free, changed) ↦ rw changed (
            demanded-IsSound runtime.local_config (some policy) r (env.clock 0) runtime h
              (not_busy runtime.state (env.clock 1) free) i runtime)
      ]

  pub leave_management-IsSound :
      (env : Env) (runtime : ServiceRuntime)
      → IsSound runtime
      → IsSound (leave_management chrono env runtime).0
  leave_management-IsSound env runtime i = elim (leave_management_cases chrono env runtime) [
    | inl same ↦ rw same i
    | inr (local, r, h, changed) ↦
        rw changed (adopt-IsSound chrono local none r runtime.state _ _ h i.apart i.alone)
  ]

  -- Enrollments.
  pub begin_enrollment-IsSound :
      (env : Env) (a : Bool) (runtime : ServiceRuntime)
      → IsSound runtime
      → IsSound (begin_enrollment env a runtime).0
  unfolding begin_enrollment is_busy update_blocks_configuration_mutation
  begin_enrollment-IsSound env a runtime i = ground arith

  pub end_enrollment-IsSound :
      (runtime : ServiceRuntime) → IsSound runtime → IsSound (end_enrollment runtime)
  unfolding end_enrollment
  end_enrollment-IsSound runtime i = ground arith

  pub commit_enrollment-IsSound :
      (urls : Urls) (env : Env) (pending : PendingEnrollment) (runtime : ServiceRuntime)
      → runtime.state.management_operation_active ≡ true
      → IsSound runtime
      → IsSound (commit_enrollment chrono urls env pending runtime).0
  commit_enrollment-IsSound urls env pending runtime active i =
      elim (commit_enrollment_cases chrono urls env pending runtime) [
        | inl same ↦ rw same i
        | inr (local, r, h, changed) ↦ rw changed (
            demanded-IsSound local (some pending.policy) r (env.clock 0) runtime h (ground arith) i
              (record runtime { local_config = local }))
      ]
