-- ===== src/Service/Retention/Outcome.antt =====
-- What retention (apps/resticpal-service/src/runtime/lifecycle.rs) makes of the backup before it, and
-- when the next one prunes.
use resticpal.Prelude.{
  ◌+◌, Bool, false, some, none, leb, ◌≡◌, ◌≢◌, ◌⊎◌, arith, if◌then◌else◌, ap, ◌∙◌,
}
use resticpal.Time.{DateTime, Chrono, days}
use resticpal.Service.Steps.Pruning.{Unretained, Unretained-last_prune}
use resticpal.Config.{EffectiveConfig}
use resticpal.Service.{RuntimeState}
use resticpal.Service.Effect.{Env, save_failed}
use resticpal.Service.Lifecycle.{BackupOutcomeKind, BackupOutcome, is_success}
use resticpal.Service.Retention.{
  RetentionPlan, RetentionOutcomeKind, prune_due, begin_retention, with_warning, retained,
  finish_retention,
}

-- Retention never turns a successful backup into a failed one or a failed one into a success. A backup
-- ends without a warning only if it did so before, the retention succeeded and its state was saved;
-- a warning that the backup had stays.
pub finish_retention_outcome :
    (env : Env) (state : RuntimeState) (backup : BackupOutcome) (retention : RetentionOutcomeKind)
    (now : DateTime)
    → let (state', outcome, effects) = finish_retention env state backup retention now in
      (is_success outcome.kind ≡ is_success backup.kind)
      × ((outcome.kind ≢ BackupOutcomeKind.succeeded)
          ⊎ (backup.kind ≡ BackupOutcomeKind.succeeded)
            × (save_failed env ≡ false)
            × ((pruned : Bool) × (retention ≡ RetentionOutcomeKind.succeeded pruned)))
      × ((backup.warning_code ≡ none) ⊎ (outcome.warning_code ≡ backup.warning_code))
unfolding finish_retention with_warning
finish_retention_outcome env state backup retention now = ground arith

prune_due-retained :
    (env : Env) (config : EffectiveConfig) (state : RuntimeState) (backup : BackupOutcome)
    (pruned : Bool) (now later : DateTime)
    → prune_due config
        (finish_retention env state backup
          (RetentionOutcomeKind.succeeded pruned)
          now).0.service_state.last_prune
        later
      ≡ (if pruned
          then leb (now + days config.retention.prune_interval_days) later
          else prune_due config state.service_state.last_prune later)
unfolding finish_retention retained
prune_due-retained env config state backup pruned now later = ground arith

begin_retention-plan :
    (config : EffectiveConfig) (state : RuntimeState) (later : DateTime) (plan : RetentionPlan)
    → (begin_retention config state later).1 ≡ some plan
    → plan.prune_due ≡ prune_due config state.service_state.last_prune later
unfolding begin_retention
begin_retention-plan config state later plan h = ground arith

-- A retention that pruned at some time makes the next one prune exactly from one prune interval later
-- on, and one that succeeded without a prune leaves that decision as it was, whatever is asked of the
-- service under the same configuration between the end of the one and the start of the next.
pub begin_retention-retained :
    (chrono : Chrono) (config : EffectiveConfig) (env : Env) (state next : RuntimeState)
    (backup : BackupOutcome) (pruned : Bool) (now later : DateTime) (plan : RetentionPlan)
    → Unretained chrono config
        (finish_retention env state backup (RetentionOutcomeKind.succeeded pruned) now).0
        next
    → (begin_retention config next later).1 ≡ some plan
    → plan.prune_due ≡ (
        if pruned
        then leb (now + days config.retention.prune_interval_days) later
        else prune_due config state.service_state.last_prune later)
begin_retention-retained chrono config env state next backup pruned now later plan between h =
    begin_retention-plan config next later plan h
    ∙ ap (λ t. prune_due config t later) (Unretained-last_prune chrono config between)
    ∙ prune_due-retained env config state backup pruned now later
