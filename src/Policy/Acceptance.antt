-- ===== src/Policy/Acceptance.antt =====
-- When `resolve_config` of crates/resticpal-core/src/policy.rs accepts its layers.
use mathlib.Core.Option
use resticpal.Prelude.{◌≤◌, ◌≡◌, ◌⊎◌, ◌↔◌, refl, false, Option, none, some, ok, arith}
use resticpal.Text.{is_blank, chars_count, has_break}
use resticpal.Config.{EffectiveConfig, LocalConfig}
use resticpal.Config.Validate.{validate}
use resticpal.Config.Bounds.{IsValid, validate-ok_iff}
use resticpal.Policy.{ManagedPolicy, ResolvedConfig}
use resticpal.Policy.Resolve.{check_policy, resolve_fields, resolve_config}

-- The shape that a managed policy must have; an absent one has it.
pub record IsWellFormed (policy : ManagedPolicy) : Type 0 where
  pub schema : (policy.schema_version ≡ 2) ⊎ (policy.schema_version ≡ 1) × (policy.updates ≡ none)
  pub named : is_blank policy.revision ≡ false
  pub short : chars_count policy.revision ≤ 256
  pub one_line : has_break policy.revision ≡ false

abbrev pub IsPolicy : Option ManagedPolicy → Type 0
IsPolicy none = Unit
IsPolicy (some policy) = IsWellFormed policy

check_policy_iff :
    (managed : Option ManagedPolicy) → (check_policy managed ≡ ok tt) ↔ IsPolicy managed
unfolding check_policy
check_policy_iff none = (λ h. tt, λ h. refl)
check_policy_iff (some policy) = (λ h. ground arith, λ h. ground arith)

abbrev pub resolved : EffectiveConfig → LocalConfig → Option ManagedPolicy → ResolvedConfig
resolved defaults local managed =
    let (effective, fields) = resolve_fields defaults local managed in
    record {
      effective = effective;
      managed_revision = Option.map (λ policy. policy.revision) managed;
      fields = fields;
    }

-- What a successful resolution went through.
pub resolve_config_inversion :
    (defaults : EffectiveConfig) (local : LocalConfig) (managed : Option ManagedPolicy)
    {r : ResolvedConfig}
    → resolve_config defaults local managed ≡ ok r
    → (local.schema_version ≡ 1)
      × (check_policy managed ≡ ok tt)
      × (validate (resolve_fields defaults local managed).0 ≡ ok tt)
      × (r ≡ resolved defaults local managed)
unfolding resolve_config
resolve_config_inversion defaults local managed h = ground arith

accepts :
    (defaults : EffectiveConfig) (local : LocalConfig) (managed : Option ManagedPolicy)
    → local.schema_version ≡ 1
    → check_policy managed ≡ ok tt
    → validate (resolve_fields defaults local managed).0 ≡ ok tt
    → resolve_config defaults local managed ≡ ok (resolved defaults local managed)
unfolding resolve_config
accepts defaults local managed s p v = ground arith

-- The layers are accepted exactly when the local schema is the supported one, the managed policy is
-- well formed and the configuration that they resolve to is valid.
pub resolve_config-ok_iff :
    (defaults : EffectiveConfig) (local : LocalConfig) (managed : Option ManagedPolicy)
    → (resolve_config defaults local managed ≡ ok (resolved defaults local managed)) ↔ (
        (local.schema_version ≡ 1)
        × IsPolicy managed
        × IsValid (resolve_fields defaults local managed).0)
resolve_config-ok_iff defaults local managed = (
  λ h.
      let i = resolve_config_inversion defaults local managed h in
      (i.0, (check_policy_iff managed).0 i.1, (validate-ok_iff _).0 i.2),
  λ h.
      accepts defaults local managed h.0 ((check_policy_iff managed).1 h.1)
        ((validate-ok_iff _).1 h.2),
)
