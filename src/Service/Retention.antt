-- ===== src/Service/Retention.antt =====
-- Retention after a backup: `begin_retention` and `finish_retention` of
-- apps/resticpal-service/src/runtime/lifecycle.rs, and `with_warning` of executor.rs.
pub mod Outcome
use resticpal.Prelude.{
  ◌+◌, Bool, true, Option, none, some, List, [], ◌∷◌, ◌++◌, String, leb, if◌then◌else◌,
}
use resticpal.Time.{DateTime, days}
use resticpal.Config.{standard, append_only, EffectiveConfig}
use resticpal.Service.{BackupState, BackupPhase, RuntimeState}
use resticpal.Service.Effect.{DiagnosticLevel, Effect, Env, diagnostic, save_effects, save_failed}
use resticpal.Service.Lifecycle.{BackupOutcomeKind, BackupOutcome, is_success}

pub record RetentionPlan : Type 0 where
  pub prune_due : Bool

pub data RetentionOutcomeKind : Type 0 where
  succeeded : Bool → RetentionOutcomeKind
  failed : String → RetentionOutcomeKind
  cancelled : RetentionOutcomeKind

-- `now - last_prune >= interval`, as signed durations.
abbrev pub prune_due : EffectiveConfig → Option DateTime → DateTime → Bool
prune_due config none now = true
prune_due config (some last_prune) now =
    leb (last_prune + days config.retention.prune_interval_days) now

unfoldable pub begin_retention :
    EffectiveConfig → RuntimeState → DateTime → RuntimeState × Option RetentionPlan × List Effect
begin_retention config state now = elim config.repository.mode [
  | append_only ↦ (state, none, [])
  | standard ↦ (
    record state {
      status = record state.status {
        state = BackupState.running BackupPhase.retention;
        state_since = now;
        progress = none;
      };
    },
    some (record { prune_due = prune_due config state.service_state.last_prune now }),
    diagnostic DiagnosticLevel.information "retention.started" none ∷ [],
  )
]

-- The first warning of a run stays.
unfoldable pub with_warning : BackupOutcome → String → BackupOutcome
with_warning outcome code =
    if is_success outcome.kind
    then record outcome {
      kind = BackupOutcomeKind.succeeded_with_warnings;
      warning_code = elim outcome.warning_code [ none ↦ some code | some first ↦ some first ];
    }
    else outcome

-- The warning that a retention outcome leaves.
abbrev pub retention_warning : RetentionOutcomeKind → Option String
retention_warning (RetentionOutcomeKind.succeeded pruned) = none
retention_warning (RetentionOutcomeKind.failed code) = some code
retention_warning RetentionOutcomeKind.cancelled = some "retention_cancelled"

-- The state after `finish_retention`.
unfoldable pub retained : RuntimeState → RetentionOutcomeKind → DateTime → RuntimeState
retained state (RetentionOutcomeKind.succeeded pruned) now = record state {
  service_state = record state.service_state {
    last_retention = some now;
    last_prune = if pruned then some now else state.service_state.last_prune;
    last_retention_error = none;
  };
}
retained state (RetentionOutcomeKind.failed code) now = record state {
  service_state = record state.service_state { last_retention_error = some code };
}
retained state RetentionOutcomeKind.cancelled now = record state {
  service_state = record state.service_state { last_retention_error = some "retention_cancelled" };
}

unfoldable pub finish_retention :
    Env
    → RuntimeState
    → BackupOutcome
    → RetentionOutcomeKind
    → DateTime
    → RuntimeState × BackupOutcome × List Effect
finish_retention env state backup retention now =
    let state' = retained state retention now in
    let saves = save_effects env state'.service_state in
    elim (retention_warning retention) [
      | some code ↦ (
        state',
        with_warning backup code,
        saves ++ (diagnostic DiagnosticLevel.warning "retention.failed" (some code) ∷ []),
      )
      | none ↦
          if save_failed env
          then (
            state',
            with_warning backup "retention_state_save_failed",
            saves
                ++ (diagnostic DiagnosticLevel.warning "retention.state_save_failed"
                      (some "retention_state_save_failed")
                    ∷ []),
          )
          else (
            state',
            backup,
            saves ++ (diagnostic DiagnosticLevel.information "retention.succeeded" none ∷ []),
          )
    ]
