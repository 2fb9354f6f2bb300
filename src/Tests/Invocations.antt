-- ===== src/Tests/Invocations.antt =====
-- The restic command builder at concrete configurations.
use resticpal.Prelude.{◌≡◌, ◌↔◌, refl, true, [], ◌∷◌, All, ok, any, all, String_discrete}
use resticpal.Config.{
  append_only, PathBuf, EffectiveConfig, prefix, disk, root_dir, normal, parent_dir,
}
use resticpal.Config.Validate.{
  validate, each, check_url, check_display_name, check_schedule, check_path, check_prefix,
  check_exclusion, check_option, check_retention, repository_option_disables_source_snapshots,
  is_valid_option_name, is_valid_secret_reference,
}
use resticpal.Text.{is_blank, chars_count, has_break, utf16_count, byte_len, eq_ignore_ascii_case}
use resticpal.Restic.{ResticOperation}
use resticpal.Restic.Paths.{
  Texts, normalized_windows_path, normalize, normalized_windows_prefix, starts_with,
  windows_path_is_same_or_descendant,
}
use resticpal.Restic.Paths.Within.{LiesIn}
use resticpal.Restic.Paths.Exactly.{same_or_descendant_iff}
use resticpal.Restic.Builder.{
  ResticInvocation, invocation, unlock, authorize_operation, reject_snapshot_disabling_options,
  backup_with_required_exclusions,
}
use resticpal.Restic.Authorized.{
  unlocks, IsAuthorized, built, built-IsAuthorized, keeps_snapshots, append_only_keeps,
  backup_sources_unprotected,
}
use resticpal.Tests.Data.{configured, documents}

abbrev pub texts : Texts
texts = record { to_lowercase = λ s. s; from_char = λ c. "c"; to_string = λ n. "7" }

abbrev pub program_data : PathBuf
program_data = record {
  text = "C:\\ProgramData\\resticpal";
  is_absolute = true;
  components = prefix (disk 67) ∷ root_dir ∷ normal "programdata" ∷ normal "resticpal" ∷ [];
}

abbrev detour : PathBuf
detour = record program_data {
  components =
      prefix (disk 99)
      ∷ root_dir
      ∷ normal "users"
      ∷ parent_dir
      ∷ normal "programdata"
      ∷ normal "resticpal"
      ∷ normal "credentials"
      ∷ [];
}

same_or_descendant_iff_example :
    (windows_path_is_same_or_descendant texts detour program_data ≡ true)
    ↔ LiesIn texts detour program_data
same_or_descendant_iff_example =
    same_or_descendant_iff texts detour program_data
      (record {
        start = disk 99;
        rest =
            normal "users"
            ∷ parent_dir
            ∷ normal "programdata"
            ∷ normal "resticpal"
            ∷ normal "credentials"
            ∷ [];
        rooted = refl;
        relative = tt;
      })
      (record {
        start = disk 67;
        rest = normal "programdata" ∷ normal "resticpal" ∷ [];
        rooted = refl;
        relative = tt;
      })
      (λ e. refl)

abbrev kept : EffectiveConfig
kept = record configured { repository = record configured.repository { mode = append_only } }

abbrev unlocked : ResticInvocation
unlocked = invocation kept ResticOperation.unlock ("unlock" ∷ []) "rest:https://backup.example/"

kept_unlocks : built texts kept unlocks ≡ ok unlocked
unfolding unlock authorize_operation validate each check_url check_display_name check_schedule
    check_path check_prefix check_exclusion check_option check_retention is_blank chars_count
    has_break utf16_count repository_option_disables_source_snapshots eq_ignore_ascii_case
    is_valid_option_name is_valid_secret_reference byte_len any all
kept_unlocks = refl

built-IsAuthorized_example : IsAuthorized kept unlocked
built-IsAuthorized_example = built-IsAuthorized texts kept unlocks unlocked kept_unlocks

append_only_keeps_example : keeps_snapshots ResticOperation.unlock ≡ true
append_only_keeps_example = append_only_keeps texts kept unlocks unlocked refl kept_unlocks

abbrev backed_up : ResticInvocation
backed_up =
    invocation kept ResticOperation.backup
      ("--cleanup-cache" ∷ "backup" ∷ "--json" ∷ "--use-fs-snapshot" ∷ "--exclude" ∷ "*.tmp"
        ∷ "--iexclude" ∷ "C:\\ProgramData\\resticpal" ∷ "C:\\Users" ∷ [])
      "rest:https://backup.example/"

kept_backs_up : backup_with_required_exclusions texts kept (program_data ∷ []) ≡ ok backed_up
unfolding backup_with_required_exclusions authorize_operation reject_snapshot_disabling_options
    windows_path_is_same_or_descendant normalized_windows_path normalize normalized_windows_prefix
    starts_with validate each check_url check_display_name check_schedule check_path check_prefix
    check_exclusion check_option check_retention is_blank chars_count has_break utf16_count
    repository_option_disables_source_snapshots eq_ignore_ascii_case is_valid_option_name
    is_valid_secret_reference byte_len any all String_discrete
kept_backs_up = refl

backup_sources_unprotected_example :
    All
      (λ source. All (λ protected. ¬ (LiesIn texts source protected)) (program_data ∷ []))
      (documents ∷ [])
backup_sources_unprotected_example =
    backup_sources_unprotected texts kept (program_data ∷ []) backed_up kept_backs_up

-- A path that reaches the protected directory by a detour is found out.
detour_found : windows_path_is_same_or_descendant texts detour program_data ≡ true
unfolding windows_path_is_same_or_descendant normalized_windows_path normalize
    normalized_windows_prefix starts_with String_discrete
detour_found = refl
