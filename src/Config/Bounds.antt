-- ===== src/Config/Bounds.antt =====
-- What a configuration that `EffectiveConfig::validate` accepts guarantees.
use resticpal.Prelude.{
  ℕ, ◌+◌, ◌≤◌, ◌<◌, ◌≡◌, ◌↔◌, refl, true, false, Option, none, some, List, [], ◌∷◌, String, any,
  length, is_empty, ◌==◌, All, ok, err, ◌>>◌, reject_if, arith, not, ltb,
}
use resticpal.Text.{codes, is_blank, chars_count, has_break, utf16_count}
use resticpal.Schedule.{ScheduleConfig}
use resticpal.Config.{
  SecretEnvironmentVariable, verbatim, verbatim_unc, device_ns, unc, Component, prefix, PathBuf,
  RetentionConfig, EffectiveConfig,
}
use resticpal.Config.Validate.{
  ConfigValidationError, too_many_backup_paths, too_many_exclusions, too_many_repository_options,
  invalid_secret_reference, Checked, repository_option_disables_source_snapshots,
  is_valid_option_name, is_valid_secret_reference, check_url, check_display_name, check_schedule,
  check_prefix, check_path, check_exclusion, check_option, each, check_retention, validate,
}

-- A single line of at most `n` characters.
abbrev pub IsLine : ℕ → String → Type 0
IsLine n s = (chars_count s ≤ n) × (has_break s ≡ false)

abbrev pub IsName : ℕ → Option String → Type 0
IsName n none = Unit
IsName n (some s) = (is_blank s ≡ false) × IsLine n s

-- The first component of a path is no network share and no device namespace.
abbrev pub IsLocal : List Component → Type 0
IsLocal (prefix (unc server share) ∷ rest) = ⊥
IsLocal (prefix (verbatim_unc server share) ∷ rest) = ⊥
IsLocal (prefix (device_ns device) ∷ rest) = ⊥
IsLocal (prefix (verbatim value) ∷ rest) = ⊥
IsLocal components = Unit

abbrev pub IsSource : PathBuf → Type 0
IsSource path =
    (is_empty (codes path.text) ≡ false)
    × (path.is_absolute ≡ true)
    × (utf16_count path.text ≤ 32767)
    × (any (λ c. c == 0) (codes path.text) ≡ false)
    × IsLocal path.components

abbrev pub IsOption : String × String → Type 0
IsOption (key, value) =
    (repository_option_disables_source_snapshots key ≡ false)
    × (is_valid_option_name key ≡ true)
    × IsLine 4096 value

abbrev pub IsExclusion : String → Type 0
IsExclusion s = (is_empty (codes s) ≡ false) × IsLine 1024 s

pub record IsRetention (r : RetentionConfig) : Type 0 where
  pub daily : r.daily ≤ 10000
  pub weekly : r.weekly ≤ 10000
  pub monthly : r.monthly ≤ 10000
  pub yearly : r.yearly ≤ 10000
  pub keeps : 0 < r.daily + r.weekly + r.monthly + r.yearly
  pub prune : (1 ≤ r.prune_interval_days) × (r.prune_interval_days ≤ 365)

pub record IsSchedule (s : ScheduleConfig) : Type 0 where
  pub interval : (1 ≤ s.interval_hours) × (s.interval_hours ≤ 8760)
  pub grace : s.wake_grace_seconds ≤ 86400
  pub lock : (1 ≤ s.wake_lock_timeout_seconds) × (s.wake_lock_timeout_seconds ≤ 86400)

pub record IsValid (c : EffectiveConfig) : Type 0 where
  pub url : IsName 8192 c.repository.url
  pub display_name : IsName 256 c.repository.display_name
  pub schedule : IsSchedule c.schedule
  pub paths_count : length c.backup.paths ≤ 128
  pub paths : All IsSource c.backup.paths
  pub exclusions_count : length c.backup.exclusions ≤ 512
  pub exclusions : All IsExclusion c.backup.exclusions
  pub options_count : length c.repository.options ≤ 64
  pub options : All IsOption c.repository.options
  pub secrets : All (λ secret. is_valid_secret_reference secret.1 ≡ true) c.repository.secret_refs
  pub retention : IsRetention c.retention

-- Each check accepts exactly what its predicate admits.
check_url_iff : (url : Option String) → (check_url url ≡ ok tt) ↔ IsName 8192 url
unfolding check_url
check_url_iff none = (λ h. tt, λ h. refl)
check_url_iff (some s) = (λ h. ground arith, λ h. ground arith)

check_display_name_iff :
    (name : Option String) → (check_display_name name ≡ ok tt) ↔ IsName 256 name
unfolding check_display_name
check_display_name_iff none = (λ h. tt, λ h. refl)
check_display_name_iff (some s) = (λ h. ground arith, λ h. ground arith)

check_schedule_iff : (s : ScheduleConfig) → (check_schedule s ≡ ok tt) ↔ IsSchedule s
unfolding check_schedule
check_schedule_iff s = (λ h. ground arith, λ h. ground arith)

check_retention_iff : (r : RetentionConfig) → (check_retention r ≡ ok tt) ↔ IsRetention r
unfolding check_retention
check_retention_iff r = (λ h. ground arith, λ h. ground arith)

check_prefix_iff : (p : PathBuf) (cs : List Component) → (check_prefix p cs ≡ ok tt) ↔ IsLocal cs
unfolding check_prefix
check_prefix_iff p cs = (λ h. ground arith, λ h. ground arith)

check_path_iff : (p : PathBuf) → (check_path p ≡ ok tt) ↔ IsSource p
unfolding check_path
check_path_iff p = (
  λ h. ground (arith, (check_prefix_iff p p.components).0),
  λ h. ground (arith, (check_prefix_iff p p.components).1),
)

check_exclusion_iff : (s : String) → (check_exclusion s ≡ ok tt) ↔ IsExclusion s
unfolding check_exclusion
check_exclusion_iff s = (λ h. ground arith, λ h. ground arith)

check_option_iff : (o : String × String) → (check_option o ≡ ok tt) ↔ IsOption o
unfolding check_option
check_option_iff (k, v) = (λ h. ground arith, λ h. ground arith)

-- `a >> b` succeeds when both do.
seq_iff {ℓ κ} :
    {P : Type ℓ} {Q : Type κ} (m n : Checked)
    → (m ≡ ok tt) ↔ P
    → (n ≡ ok tt) ↔ Q
    → ((m >> n) ≡ ok tt) ↔ (P × Q)
seq_iff (ok tt) n p q = (λ h. (p.0 refl, q.0 h), λ h. q.1 h.1)
seq_iff (err e) n p q = (λ h. cc, λ h. p.1 h.0)

limit_iff {ℓ} :
    {A : Type ℓ} (n : ℕ) (e : ConfigValidationError) (xs : List A)
    → (reject_if (ltb n (length xs)) e ≡ ok tt) ↔ (length xs ≤ n)
limit_iff n e xs = (λ h. ground arith, λ h. ground arith)

secret_iff :
    (s : SecretEnvironmentVariable × String)
    → (reject_if (not (is_valid_secret_reference s.1)) invalid_secret_reference ≡ ok tt)
      ↔ (is_valid_secret_reference s.1 ≡ true)
secret_iff s = (λ h. ground arith, λ h. ground arith)

each_iff {ℓ} :
    {A : Type ℓ} (P : A → Type 0) (check : A → Checked)
    → ((x : A) → (check x ≡ ok tt) ↔ P x)
    → (xs : List A) → (each check xs ≡ ok tt) ↔ All P xs
unfolding each
each_iff P check one [] = (λ h. tt, λ h. refl)
each_iff P check one (x ∷ xs) = seq_iff (check x) (each check xs) (one x) (each_iff P check one xs)

-- A configuration is accepted exactly when it is valid.
pub validate-ok_iff : (c : EffectiveConfig) → (validate c ≡ ok tt) ↔ IsValid c
unfolding validate
validate-ok_iff c =
    let steps = seq_iff _ _ (check_url_iff c.repository.url) (
      seq_iff _ _ (check_display_name_iff c.repository.display_name) (
        seq_iff _ _ (check_schedule_iff c.schedule) (
          seq_iff _ _ (limit_iff 128 too_many_backup_paths c.backup.paths) (
            seq_iff _ _ (each_iff IsSource check_path check_path_iff c.backup.paths) (
              seq_iff _ _ (limit_iff 512 too_many_exclusions c.backup.exclusions) (
                seq_iff _ _
                  (each_iff IsExclusion check_exclusion check_exclusion_iff c.backup.exclusions)
                  (seq_iff _ _ (limit_iff 64 too_many_repository_options c.repository.options) (
                    seq_iff _ _
                      (each_iff IsOption check_option check_option_iff c.repository.options)
                      (seq_iff _ _ (each_iff _ _ secret_iff c.repository.secret_refs)
                        (check_retention_iff c.retention)))))))))) in
    (
      λ h.
          let v = steps.0 h in
          record {
            url = v.0;
            display_name = v.1.0;
            schedule = v.1.1.0;
            paths_count = v.1.1.1.0;
            paths = v.1.1.1.1.0;
            exclusions_count = v.1.1.1.1.1.0;
            exclusions = v.1.1.1.1.1.1.0;
            options_count = v.1.1.1.1.1.1.1.0;
            options = v.1.1.1.1.1.1.1.1.0;
            secrets = v.1.1.1.1.1.1.1.1.1.0;
            retention = v.1.1.1.1.1.1.1.1.1.1;
          },
      λ v. steps.1 (
        v.url,
        (
          v.display_name,
          (
            v.schedule,
            (
              v.paths_count,
              (
                v.paths,
                (
                  v.exclusions_count,
                  (v.exclusions, (v.options_count, (v.options, (v.secrets, v.retention)))),
                ),
              ),
            ),
          ),
        ),
      ),
    )
