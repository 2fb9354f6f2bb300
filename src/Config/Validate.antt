-- ===== src/Config/Validate.antt =====
-- `EffectiveConfig::validate` of crates/resticpal-core/src/config.rs, with the checks that it calls.
use resticpal.Prelude.{
  ℕ, ◌*◌, Bool, false, not, ◌&&◌, ◌||◌, Option, none, some, List, [], ◌∷◌, String, ltb, leb, ◌==◌,
  length, any, all, is_empty, Result, ok, err, ◌>>◌, reject_if,
}
use resticpal.Text.{
  codes, is_blank, chars_count, has_break, byte_len, utf16_count, is_ascii_alphanumeric,
  is_ascii_lowercase, is_ascii_digit, eq_ignore_ascii_case,
}
use resticpal.Schedule.{ScheduleConfig}
use resticpal.Config.{
  verbatim, verbatim_unc, device_ns, unc, Component, prefix, PathBuf, RetentionConfig,
  EffectiveConfig,
}

pub data ConfigValidationError : Type 0 where
  empty_repository_url invalid_repository_url invalid_repository_display_name
        invalid_schedule_interval wake_grace_too_long invalid_wake_lock_timeout
        too_many_backup_paths :
      ConfigValidationError
  invalid_backup_path unsupported_network_backup_path unsupported_backup_path_namespace :
      PathBuf → ConfigValidationError
  too_many_exclusions invalid_exclusion : ConfigValidationError
  invalid_repository_option snapshot_disabling_repository_option invalid_repository_option_value :
      String → ConfigValidationError
  too_many_repository_options invalid_secret_reference invalid_retention_count
        empty_retention_policy invalid_prune_interval :
      ConfigValidationError

abbrev pub Checked : Type 0
Checked = Result ConfigValidationError (Unit {0})

unfoldable pub repository_option_disables_source_snapshots : String → Bool
unfolding any eq_ignore_ascii_case
repository_option_disables_source_snapshots option =
    any (λ reserved. eq_ignore_ascii_case option reserved)
      ("vss.exclude-volumes" ∷ "vss.exclude-all-mount-points" ∷ [])

is_option_character : ℕ → Bool
is_option_character c = is_ascii_alphanumeric c || c == b'.' || c == b'_' || c == b'-'

option_name_codes : List ℕ → Bool
unfolding is_option_character all
option_name_codes [] = false
option_name_codes (first ∷ rest) = is_ascii_alphanumeric first && all is_option_character rest

unfoldable pub is_valid_option_name : String → Bool
unfolding option_name_codes
is_valid_option_name value = option_name_codes (codes value)

unfoldable pub is_valid_secret_reference : String → Bool
unfolding byte_len all
is_valid_secret_reference reference =
    not (is_empty (codes reference))
    && leb (byte_len reference) 64
    && all (λ c. is_ascii_lowercase c || is_ascii_digit c || c == b'-') (codes reference)

unfoldable pub check_url : Option String → Checked
check_url none = ok tt
check_url (some url) = do
  reject_if (is_blank url) empty_repository_url
  reject_if (ltb 8192 (chars_count url) || has_break url) invalid_repository_url

unfoldable pub check_display_name : Option String → Checked
check_display_name none = ok tt
check_display_name (some name) =
    reject_if (is_blank name || ltb 256 (chars_count name) || has_break name)
      invalid_repository_display_name

unfoldable pub check_schedule : ScheduleConfig → Checked
check_schedule schedule = do
  reject_if (not (leb 1 schedule.interval_hours && leb schedule.interval_hours (24 * 365)))
      invalid_schedule_interval
  reject_if (ltb (24 * 60 * 60) schedule.wake_grace_seconds) wake_grace_too_long
  reject_if
      (schedule.wake_lock_timeout_seconds == 0
        || ltb (24 * 60 * 60) schedule.wake_lock_timeout_seconds)
      invalid_wake_lock_timeout

unfoldable pub check_prefix : PathBuf → List Component → Checked
check_prefix path (prefix (unc server share) ∷ rest) = err (unsupported_network_backup_path path)
check_prefix path (prefix (verbatim_unc server share) ∷ rest) =
    err (unsupported_network_backup_path path)
check_prefix path (prefix (device_ns device) ∷ rest) = err (unsupported_backup_path_namespace path)
check_prefix path (prefix (verbatim value) ∷ rest) = err (unsupported_backup_path_namespace path)
check_prefix path components = ok tt

unfoldable pub check_path : PathBuf → Checked
unfolding check_prefix
check_path path = do
  reject_if
      (is_empty (codes path.text)
        || not path.is_absolute
        || ltb 32767 (utf16_count path.text)
        || any (λ c. c == 0) (codes path.text))
      (invalid_backup_path path)
  check_prefix path path.components

unfoldable pub check_exclusion : String → Checked
check_exclusion exclusion =
    reject_if
      (is_empty (codes exclusion) || ltb 1024 (chars_count exclusion) || has_break exclusion)
      invalid_exclusion

unfoldable pub check_option : String × String → Checked
check_option (key, value) = do
  reject_if (repository_option_disables_source_snapshots key)
      (snapshot_disabling_repository_option key)
  reject_if (not (is_valid_option_name key)) (invalid_repository_option key)
  reject_if (ltb 4096 (chars_count value) || has_break value) (invalid_repository_option_value key)

-- A `for` loop that returns the first error.
module _ {ℓ} {A : Type ℓ} where
  unfoldable pub each : (A → Checked) → List A → Checked
  each check [] = ok tt
  each check (x ∷ xs) = check x >> each check xs

unfoldable pub check_retention : RetentionConfig → Checked
check_retention retention = do
  reject_if
      (ltb 10000 retention.daily
        || ltb 10000 retention.weekly
        || ltb 10000 retention.monthly
        || ltb 10000 retention.yearly)
      invalid_retention_count
  reject_if
      (retention.daily == 0
        && retention.weekly == 0
        && retention.monthly == 0
        && retention.yearly == 0)
      empty_retention_policy
  reject_if (not (leb 1 retention.prune_interval_days && leb retention.prune_interval_days 365))
      invalid_prune_interval

unfoldable pub validate : EffectiveConfig → Checked
validate config = do
  check_url config.repository.url
  check_display_name config.repository.display_name
  check_schedule config.schedule
  reject_if (ltb 128 (length config.backup.paths)) too_many_backup_paths
  each check_path config.backup.paths
  reject_if (ltb 512 (length config.backup.exclusions)) too_many_exclusions
  each check_exclusion config.backup.exclusions
  reject_if (ltb 64 (length config.repository.options)) too_many_repository_options
  each check_option config.repository.options
  each (λ secret. reject_if (not (is_valid_secret_reference secret.1)) invalid_secret_reference)
      config.repository.secret_refs
  check_retention config.retention
