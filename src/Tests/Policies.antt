-- ===== src/Tests/Policies.antt =====
-- Configurations and policies at concrete inputs.
use mathlib.Core.List.{Memᴰ}
use resticpal.Prelude.{◌≡◌, ◌↔◌, refl, true, none, some, ok, err}
use resticpal.Text.{is_blank, chars_count, has_break}
use resticpal.Config.{default_config}
use resticpal.Config.Validate.{
  each, check_url, check_display_name, check_schedule, check_retention, validate,
}
use resticpal.Config.Bounds.{IsValid, validate-ok_iff}
use resticpal.Policy.{schedule_interval_hours, locked_fields}
use resticpal.Policy.Resolve.{
  check_policy, resolve_fields, resolve_config, updates_require_managed_schema_v2,
}
use resticpal.Policy.Acceptance.{IsPolicy, resolved, resolve_config-ok_iff}
use resticpal.Policy.Precedence.{Outcome, resolve_config_precedence, resolve_config_locked}
use resticpal.Policy.Layers.{value_in, locks, managed_value}
use resticpal.Policy.Locked.{mem-locked_fields_iff}
use resticpal.Tests.Data.{configured, local_layer, other_layer, policy}

validate-ok_iff_example : (validate configured ≡ ok tt) ↔ IsValid configured
validate-ok_iff_example = validate-ok_iff configured

resolve_config-ok_iff_example :
    (resolve_config default_config local_layer (some policy)
      ≡ ok (resolved default_config local_layer (some policy)))
    ↔ ((local_layer.schema_version ≡ 1)
        × IsPolicy (some policy)
        × IsValid (resolve_fields default_config local_layer (some policy)).0)
resolve_config-ok_iff_example = resolve_config-ok_iff default_config local_layer (some policy)

pub layers_resolve :
    resolve_config default_config local_layer (some policy)
    ≡ ok (resolved default_config local_layer (some policy))
unfolding resolve_config check_policy resolve_fields validate each check_url check_display_name
    check_schedule check_retention is_blank chars_count has_break
layers_resolve = refl

other_layers_resolve :
    resolve_config default_config other_layer (some policy)
    ≡ ok (resolved default_config other_layer (some policy))
unfolding resolve_config check_policy resolve_fields validate each check_url check_display_name
    check_schedule check_retention is_blank chars_count has_break
other_layers_resolve = refl

resolve_config_precedence_example :
    Outcome schedule_interval_hours default_config local_layer
      (some policy)
      (resolved default_config local_layer (some policy)).effective
      (resolved default_config local_layer (some policy)).fields
resolve_config_precedence_example =
    resolve_config_precedence schedule_interval_hours default_config local_layer (some policy)
      (resolved default_config local_layer (some policy)) layers_resolve

-- The local administrator asks for 12 hours or for 48: the policy's 6 hours stand.
resolve_config_locked_example :
    value_in schedule_interval_hours (resolved default_config local_layer (some policy)).effective
    ≡ value_in schedule_interval_hours (resolved default_config other_layer (some policy)).effective
resolve_config_locked_example =
    resolve_config_locked schedule_interval_hours policy default_config default_config local_layer
      other_layer (resolved default_config local_layer (some policy))
      (resolved default_config other_layer (some policy)) layers_resolve other_layers_resolve refl

mem-locked_fields_iff_example :
    Memᴰ schedule_interval_hours (locked_fields (resolved default_config local_layer (some policy)))
    ↔ (locks (managed_value schedule_interval_hours (some policy)) ≡ true)
mem-locked_fields_iff_example =
    mem-locked_fields_iff schedule_interval_hours default_config local_layer (some policy)
      (resolved default_config local_layer (some policy)) layers_resolve

-- A policy of the first schema cannot speak of updates.
legacy_updates_refused :
    resolve_config default_config local_layer (
      some (record policy {
        schema_version = 1;
        updates = some (record { automatic_install = none });
      }))
    ≡ err updates_require_managed_schema_v2
unfolding resolve_config check_policy
legacy_updates_refused = refl
