-- ===== src/Runtime/Steps.antt =====
-- The service over time, with its configuration: the calls of Service/Steps and those of
-- apps/resticpal-service/src/runtime that change the configuration, in any order. One thread serves all
-- requests (`start_ipc_server` of main.rs), so that none is served while an enrollment asks the network;
-- the other threads go on.
pub mod Alone
pub mod Sound
pub mod Connected
pub mod Reachable
pub mod Verified
pub mod Trusted
pub mod Running
use resticpal.Prelude.{Bool, true, false, Option, some, ◌≡◌, ◌⊎◌, ◌||◌}
use resticpal.Time.{DateTime, Chrono}
use resticpal.Config.{LocalConfig, LocalManagementConfig, PathBuf, EffectiveConfig}
use resticpal.Config.Management.{Urls}
use resticpal.Policy.{ManagedPolicy, ResolvedConfig}
use resticpal.Restic.Paths.{Texts}
use resticpal.Restic.Sources.{FileSystem}
use resticpal.Service.{RuntimeState, ServiceStateSnapshot}
use resticpal.Service.Status.{from_resolved_with_state}
use resticpal.Service.Effect.{Env}
use resticpal.Service.Steps.{
  Step, asks_run, asks_cancel, asks_defer, asks_operation, asks_hold, asks_install,
}
use resticpal.Runtime.{ServiceRuntime}
use resticpal.Runtime.Restart.{SettingsRequest, settings_changed}
use resticpal.Runtime.Repository.{RepositoryUpdate, update_repository}
use resticpal.Runtime.Policies.{apply_managed_policy, leave_management}
use resticpal.Runtime.Enrollment.{
  PendingEnrollment, begin_enrollment, end_enrollment, commit_enrollment,
}

-- What belongs to the device and to other libraries.
pub record Device : Type 0 where
  pub chrono : Chrono
  pub texts : Texts
  pub files : FileSystem
  pub urls : Urls
  pub data_directory : Option PathBuf

-- Whether a call is a request of a client.
abbrev pub is_request :
    {chrono : Chrono} {config : EffectiveConfig} {s t : RuntimeState}
    → Step chrono config s t
    → Bool
is_request (asks_run env h) = true
is_request (asks_cancel env h) = true
is_request (asks_defer env m h) = true
is_request (asks_operation env a o h) = true
is_request (asks_hold env a n h) = true
is_request (asks_install env v h) = true
is_request st = false

module _ (device : Device) where
  pub data Move (s t : ServiceRuntime) : Type 0 where
    works :
        (state : RuntimeState) (st : Step device.chrono s.config s.state state)
        → (is_request st ≡ false) ⊎ (s.state.management_operation_active ≡ false)
        → t ≡ record s { state = state }
        → Move s t
    changes_settings :
        (env : Env) (is_administrator : Bool) (request : SettingsRequest)
        → s.state.management_operation_active ≡ false
        → t
          ≡ (settings_changed device.texts device.files device.data_directory device.chrono env
              is_administrator request s).0
        → Move s t
    changes_repository :
        (env : Env) (is_administrator : Bool) (update : RepositoryUpdate)
        → s.state.management_operation_active ≡ false
        → t ≡ (update_repository device.chrono env is_administrator update s).0
        → Move s t
    applies_policy :
        (env : Env) (policy : ManagedPolicy) (expected : Option LocalManagementConfig)
        → t ≡ (apply_managed_policy device.chrono env policy expected s).0
        → Move s t
    begins_enrollment :
        (env : Env) (is_administrator : Bool)
        → s.state.management_operation_active ≡ false
        → t ≡ (begin_enrollment env is_administrator s).0
        → Move s t
    commits_enrollment :
        (env : Env) (pending : PendingEnrollment)
        → s.state.management_operation_active ≡ true
        → t ≡ (commit_enrollment device.chrono device.urls env pending s).0
        → Move s t
    ends_enrollment : s.state.management_operation_active ≡ true → t ≡ end_enrollment s → Move s t
    unenrolls :
        (env : Env)
        → s.state.management_operation_active ≡ false
        → t ≡ (leave_management device.chrono env s).0
        → Move s t

  -- What the calls reach from a runtime.
  pub data Runs (s : ServiceRuntime) : ServiceRuntime → Type 0 where
    here : Runs s s
    next : {t u : ServiceRuntime} → Runs s t → Move t u → Runs s u

  abbrev pub is_unenrollment : {s t : ServiceRuntime} → Move s t → Bool
  is_unenrollment (unenrolls env m h) = true
  is_unenrollment move = false

  -- Whether an unenrollment is among the calls.
  abbrev pub has_unenrolled : {s t : ServiceRuntime} → Runs s t → Bool
  has_unenrolled here = false
  has_unenrolled (next r move) = is_unenrollment move || has_unenrolled r
