-- ===== src/Runtime/Guarded.antt =====
-- What the guards of the requests of apps/resticpal-service/src/runtime/ipc.rs come to.
use resticpal.Prelude.{Option, none, some, ◌≡◌, ◌⊎◌, refl, arith, inl, inr, Bool-cases, String}
use resticpal.Config.{LocalConfig}
use resticpal.Service.Effect.{Env}
use resticpal.Service.Operation.{rejected}
use resticpal.Runtime.{ServiceRuntime, Changed}
use resticpal.Runtime.Settings.{config_save_failed, guarded}

-- What a guarded change comes to: nothing, or the change itself.
abbrev pub Decided : Option String → ServiceRuntime → Changed → Changed → Type 0
Decided refusal runtime (next, answer, asked) (after, response, effects) =
    ((code : String) × (response ≡ rejected code) × (after ≡ runtime))
    ⊎ ((refusal ≡ none) × (response ≡ answer) × (after ≡ next))

pub guarded-Decided :
    (refusal : Option String) (env : Env) (candidate : LocalConfig) (runtime : ServiceRuntime)
    (changed : Changed)
    → Decided refusal runtime changed (guarded refusal env candidate runtime changed)
guarded-Decided refusal env candidate runtime changed = ground arith

-- So what holds before and after the change holds in any case.
pub guarded-holds :
    (P : ServiceRuntime → Type 0) (refusal : Option String) (env : Env) (candidate : LocalConfig)
    (runtime : ServiceRuntime) (changed : Changed)
    → P runtime
    → (refusal ≡ none → P changed.0)
    → P (guarded refusal env candidate runtime changed).0
guarded-holds P (some code) env candidate runtime changed before after = before
guarded-holds P none env candidate runtime changed before after =
    elim (Bool-cases (config_save_failed env)) [
      | inl bad ↦ rw bad before
      | inr good ↦ rw good (after refl)
    ]
