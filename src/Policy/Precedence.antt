-- ===== src/Policy/Precedence.antt =====
-- Which layer wins each field of a configuration resolved by crates/resticpal-core/src/policy.rs,
-- stated without the code's `choose`.
use mathlib.Core.Option
use resticpal.Prelude.{
  true, Option, none, some, unwrap_or, if◌then◌else◌, ◌≡◌, refl, is_some, ok, Bool-cases, inl, inr,
  sym, ◌∙◌,
}
use resticpal.Config.{EffectiveConfig, LocalConfig}
use resticpal.Policy.{
  Managed, ManagedPolicy, PolicyField, ValueSource, product_default, local_administrator,
  managed_recommendation, managed_locked, FieldResolution, Resolutions, ResolvedConfig,
  backup_paths,
}
use resticpal.Policy.Layers.{value_in, local_value, managed_value, locks}
use resticpal.Policy.Resolve.{pick, resolve_fields, resolve_config}
use resticpal.Policy.Acceptance.{resolve_config_inversion}

-- A locked managed value wins, then a local value, then a managed recommendation, then the default.
abbrev pub winner : {A : Type 0} → A → Option A → Option (Managed A) → A
winner default local managed =
    let recommended = unwrap_or (Option.map (λ m. m.value) managed) default in
    if locks managed then recommended else unwrap_or local recommended

-- The layer that the value is reported to come from.
abbrev pub winner_source : {A : Type 0} → Option A → Option (Managed A) → ValueSource
winner_source local managed =
    if locks managed
    then managed_locked
    else if is_some local
    then local_administrator
    else if is_some managed
    then managed_recommendation
    else product_default

pick_lem :
    {A : Type 0} (default : A) (local : Option A) (managed : Option (Managed A))
    → pick default local managed
      ≡ (winner default local managed, winner_source local managed, locks managed)
pick_lem default none none = refl
pick_lem default (some l) none = refl
pick_lem default none (some m) = elim (Bool-cases m.locked) [ inl e ↦ rw e | inr e ↦ rw e ]
pick_lem default (some l) (some m) = elim (Bool-cases m.locked) [ inl e ↦ rw e | inr e ↦ rw e ]

-- The outcome of a field: its value, and the resolution that is reported for it.
abbrev pub Outcome :
    (field : PolicyField)
    → EffectiveConfig
    → LocalConfig
    → Option ManagedPolicy
    → EffectiveConfig
    → Resolutions
    → Type 0
Outcome field defaults local managed effective fields =
    (value_in field effective
      ≡ winner (value_in field defaults) (local_value field local) (managed_value field managed))
    × (fields field
        ≡ some (record {
          source = winner_source (local_value field local) (managed_value field managed);
          locked = locks (managed_value field managed);
        }))

pick-Outcome :
    {A : Type 0} (default : A) (local : Option A) (managed : Option (Managed A))
    → let (value, source, locked) = pick default local managed in
      (value ≡ winner default local managed)
      × (◌≡◌ {A = Option FieldResolution}
          (some (record { source = source; locked = locked }))
          (some (record { source = winner_source local managed; locked = locks managed })))
pick-Outcome default local managed = rw (pick_lem default local managed) (refl, refl)

resolve_fields-none :
    (field : PolicyField) (defaults : EffectiveConfig) (local : LocalConfig)
    → let (effective, fields) = resolve_fields defaults local none in
      Outcome field defaults local none effective fields
unfolding resolve_fields
resolve_fields-none backup_paths defaults local = pick-Outcome _ _ _
resolve_fields-none _ defaults local = pick-Outcome _ _ _

resolve_fields-some :
    (field : PolicyField) (defaults : EffectiveConfig) (local : LocalConfig)
    (policy : ManagedPolicy)
    → let (effective, fields) = resolve_fields defaults local (some policy) in
      Outcome field defaults local (some policy) effective fields
unfolding resolve_fields
resolve_fields-some backup_paths defaults local policy = pick-Outcome _ _ _
resolve_fields-some _ defaults local policy = pick-Outcome _ _ _

-- A locked value wins whatever the other layers hold.
forced :
    {A : Type 0} (d d' : A) (l l' : Option A) (managed : Option (Managed A))
    → locks managed ≡ true
    → winner d l managed ≡ winner d' l' managed
forced d d' l l' none h = cc
forced d d' l l' (some m) h = rw h

resolve_fields_lem :
    (field : PolicyField) (defaults : EffectiveConfig) (local : LocalConfig)
    (managed : Option ManagedPolicy)
    → let (effective, fields) = resolve_fields defaults local managed in
      Outcome field defaults local managed effective fields
resolve_fields_lem field defaults local none = resolve_fields-none field defaults local
resolve_fields_lem field defaults local (some policy) =
    resolve_fields-some field defaults local policy

-- Every field of a resolved configuration has the value of the layer that wins it, and the
-- resolution reported for the field names that layer and says whether policy locks the field.
pub resolve_config_precedence :
    (field : PolicyField) (defaults : EffectiveConfig) (local : LocalConfig)
    (managed : Option ManagedPolicy) (r : ResolvedConfig)
    → resolve_config defaults local managed ≡ ok r
    → Outcome field defaults local managed r.effective r.fields
resolve_config_precedence field defaults local managed r h =
    rw ((resolve_config_inversion defaults local managed h).3)
      (resolve_fields_lem field defaults local managed)

-- Neither the local administrator nor the product defaults can change a field that policy locks.
pub resolve_config_locked :
    (field : PolicyField) (policy : ManagedPolicy) (defaults defaults' : EffectiveConfig)
    (local local' : LocalConfig) (r r' : ResolvedConfig)
    → resolve_config defaults local (some policy) ≡ ok r
    → resolve_config defaults' local' (some policy) ≡ ok r'
    → locks (managed_value field (some policy)) ≡ true
    → value_in field r.effective ≡ value_in field r'.effective
resolve_config_locked field policy defaults defaults' local local' r r' h h' locked =
    (resolve_config_precedence field defaults local (some policy) r h).0
    ∙ forced _ _ (local_value field local) (local_value field local')
        (managed_value field (some policy)) locked
    ∙ sym (resolve_config_precedence field defaults' local' (some policy) r' h').0
