-- ===== src/Tests/Retention.antt =====
-- Retention at concrete outcomes.
use resticpal.Prelude.{◌+◌, true, false, some, none, leb, ◌≡◌, ◌≢◌, ◌⊎◌, Bool, if◌then◌else◌, refl}
use resticpal.Time.{days, hours}
use resticpal.Service.Effect.{save_failed}
use resticpal.Service.{RuntimeState}
use resticpal.Service.Scheduler.{record_resume}
use resticpal.Service.Steps.{ends_backup, resumes}
use resticpal.Service.Steps.Pruning.{Unretained}
use resticpal.Service.Lifecycle.{BackupOutcomeKind, is_success, finished, finish_backup_at}
use resticpal.Service.Retention.{
  RetentionOutcomeKind, prune_due, begin_retention, retained, finish_retention,
}
use resticpal.Service.Retention.Outcome.{finish_retention_outcome, begin_retention-retained}
use resticpal.Tests.Data.{calendar, configured, env, noon, ready, success}

finish_retention_outcome_example :
    let (state', outcome, effects) =
      finish_retention env ready success (RetentionOutcomeKind.failed "prune") noon in
    (is_success outcome.kind ≡ is_success success.kind)
    × ((outcome.kind ≢ BackupOutcomeKind.succeeded)
        ⊎ (success.kind ≡ BackupOutcomeKind.succeeded)
          × (save_failed env ≡ false)
          × ((pruned : Bool) × (RetentionOutcomeKind.failed "prune"
                ≡ RetentionOutcomeKind.succeeded pruned)))
    × ((success.warning_code ≡ none) ⊎ (outcome.warning_code ≡ success.warning_code))
finish_retention_outcome_example =
    finish_retention_outcome env ready success (RetentionOutcomeKind.failed "prune") noon

abbrev pruned : RuntimeState
pruned = (finish_retention env ready success (RetentionOutcomeKind.succeeded true) noon).0

-- The backup ends, and the machine resumes.
abbrev resumed : RuntimeState
resumed = record_resume (finish_backup_at calendar configured env pruned success noon).0 noon

between : Unretained calendar configured pruned resumed
between =
    Unretained.next (Unretained.next Unretained.here (ends_backup env success noon refl) refl)
      (resumes noon refl) refl

-- A day after a prune, none is due.
next_day :
    (begin_retention configured resumed (noon + hours 24)).1 ≡ some (record { prune_due = false })
unfolding begin_retention finish_retention retained record_resume finish_backup_at finished
next_day = refl

begin_retention-retained_example : false ≡ (
    if true
    then leb (noon + days 7) (noon + hours 24)
    else prune_due configured none (noon + hours 24))
begin_retention-retained_example =
    begin_retention-retained calendar configured env ready resumed success true noon
      (noon + hours 24) (record { prune_due = false }) between next_day
