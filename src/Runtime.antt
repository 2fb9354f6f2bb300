-- ===== src/Runtime.antt =====
-- `ServiceRuntime` of apps/resticpal-service/src/runtime/state.rs: the state of the service with the
-- configuration in force, its local layer and what policy says of each field.
pub mod Settings
pub mod Sources
pub mod Coherent
pub mod Guarded
pub mod Kept
pub mod Restart
pub mod Secrets
pub mod Repository
pub mod Policies
pub mod Enrollment
pub mod Outcomes
pub mod Rejected
pub mod Views
pub mod Steps
use resticpal.Service.Status.{from_resolved_with_state}
use resticpal.Prelude.{Bool, ◌||◌, String, List, []}
use resticpal.Time.{DateTime, Chrono}
use resticpal.Config.{EffectiveConfig, LocalConfig}
use resticpal.Policy.{PolicyField, Resolutions, is_locked, ResolvedConfig}
use resticpal.Service.{RuntimeState, is_pending, ServiceStateSnapshot}
use resticpal.Service.Effect.{Effect}
use resticpal.Service.Operation.{Response, rejected}

pub record ServiceRuntime : Type 0 where
  pub state : RuntimeState
  pub config : EffectiveConfig
  pub local_config : LocalConfig
  pub field_resolutions : Resolutions

-- The service as it starts.
unfoldable pub load :
    Chrono → ResolvedConfig → LocalConfig → ServiceStateSnapshot → DateTime → ServiceRuntime
load chrono resolved local snapshot now = record {
  state = from_resolved_with_state chrono resolved snapshot now;
  config = resolved.effective;
  local_config = local;
  field_resolutions = resolved.fields;
}

-- What a request leaves, answers and asks of the world.
abbrev pub Changed : Type 0
Changed = ServiceRuntime × Response × List Effect

abbrev pub reject : ServiceRuntime → String → Changed
reject runtime code = (runtime, rejected code, [])

unfoldable pub field_locked : ServiceRuntime → PolicyField → Bool
field_locked runtime field = is_locked (runtime.field_resolutions field)

-- `update_blocks_configuration_mutation` of runtime/ipc.rs.
unfoldable pub update_blocks_configuration_mutation : RuntimeState → DateTime → Bool
update_blocks_configuration_mutation state now =
    state.update_install_active || is_pending state.update_hold_until now
