-- ===== src/Policy/Locked.antt =====
-- `ResolvedConfig::locked_fields` of crates/resticpal-core/src/policy.rs.
use mathlib.Core.List.{Memᴰ}
use resticpal.Prelude.{
  ℕ, zero, suc, Bool, true, false, Option, some, List, [], ◌∷◌, ◌≡◌, sym, refl, ap, ◌∙◌, ◌↔◌, ok,
  get_elem?, Bool-cases, inl, inr, if◌then◌else◌, ◌⊎◌,
}
use resticpal.Config.{EffectiveConfig, LocalConfig}
use resticpal.Policy.{
  ManagedPolicy, PolicyField, backup_paths, Resolutions, ResolvedConfig, index, all_fields,
  is_locked, keep_locked, locked_fields,
}
use resticpal.Policy.Resolve.{resolve_config}
use resticpal.Policy.Layers.{managed_value, locks}
use resticpal.Policy.Precedence.{resolve_config_precedence}

mem_of_get_elem? {ℓ} :
    {A : Type ℓ} (xs : List A) (i : ℕ) {a : A} → get_elem? xs i ≡ some a → Memᴰ a xs
mem_of_get_elem? [] i h = cc
mem_of_get_elem? (x ∷ xs) zero h = Memᴰ.head (cc)
mem_of_get_elem? (x ∷ xs) (suc i) h = Memᴰ.tail (mem_of_get_elem? xs i h)

mem-all_fields : (field : PolicyField) → Memᴰ field all_fields
mem-all_fields field = mem_of_get_elem? all_fields (index field) (listed field)
  where
    listed : (f : PolicyField) → get_elem? all_fields (index f) ≡ some f
    listed backup_paths = refl
    listed _ = refl

mem-cond :
    {f g : PolicyField} {rest : List PolicyField} (b : Bool)
    → Memᴰ f (if b then g ∷ rest else rest)
    → (b ≡ true) × (f ≡ g) ⊎ Memᴰ f rest
mem-cond true (Memᴰ.head e) = inl (refl, e)
mem-cond true (Memᴰ.tail m) = inr m
mem-cond false m = inr m

keep_locked-locked :
    (fields : Resolutions) (f : PolicyField) (fs : List PolicyField)
    → Memᴰ f (keep_locked fields fs)
    → is_locked (fields f) ≡ true
unfolding keep_locked
keep_locked-locked fields f [] m = elim m [ ]
keep_locked-locked fields f (g ∷ fs) m = elim (mem-cond (is_locked (fields g)) m) [
  | inl (b, e) ↦ rw e b
  | inr t ↦ keep_locked-locked fields f fs t
]

mem-keep_locked :
    (fields : Resolutions) (f : PolicyField) (fs : List PolicyField)
    → Memᴰ f fs
    → is_locked (fields f) ≡ true
    → Memᴰ f (keep_locked fields fs)
unfolding keep_locked
mem-keep_locked fields f [] m h = elim m [ ]
mem-keep_locked fields f (g ∷ fs) (Memᴰ.head e) h = rw (← e) (rw h (Memᴰ.head refl))
mem-keep_locked fields f (g ∷ fs) (Memᴰ.tail m) h = elim (Bool-cases (is_locked (fields g))) [
  | inl e ↦ rw e (Memᴰ.tail (mem-keep_locked fields f fs m h))
  | inr e ↦ rw e (mem-keep_locked fields f fs m h)
]

-- The locked fields of a resolved configuration are exactly those that the policy locks.
pub mem-locked_fields_iff :
    (field : PolicyField) (defaults : EffectiveConfig) (local : LocalConfig)
    (managed : Option ManagedPolicy) (r : ResolvedConfig)
    → resolve_config defaults local managed ≡ ok r
    → Memᴰ field (locked_fields r) ↔ (locks (managed_value field managed) ≡ true)
unfolding locked_fields
mem-locked_fields_iff field defaults local managed r h =
    let reported : is_locked (r.fields field) ≡ locks (managed_value field managed) =
      ap is_locked (resolve_config_precedence field defaults local managed r h).1 in
    (
      λ m. sym reported ∙ keep_locked-locked r.fields field all_fields m,
      λ l. mem-keep_locked r.fields field all_fields (mem-all_fields field) (reported ∙ l),
    )
