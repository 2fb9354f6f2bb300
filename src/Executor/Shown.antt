-- ===== src/Executor/Shown.antt =====
-- What the outcome of a backup shows of its sources (apps/resticpal-service/src/executor.rs).
use resticpal.Executor.Honest.{all_of}
use resticpal.Prelude.{
  ℕ, zero, suc, Bool, true, false, Option, none, some, [], ◌≡◌, ◌⊎◌, inl, inr, refl, sym, subst,
  arith, ok, err, Result-cases, Option-cases, Bool-cases, some-inj, ok-inj, ◌||◌,
}
use resticpal.Config.{PathBuf, EffectiveConfig}
use resticpal.Service.Lifecycle.{
  BackupSummary, BackupFailureDetails, BackupOutcome, failed_outcome, RepositoryOutcomeKind,
}
use resticpal.Restic.Paths.{Texts}
use resticpal.Restic.Builder.{ResticInvocation}
use resticpal.Restic.Sources.{FileSystem}
use resticpal.Text.{Bytes}
use resticpal.Executor.{no_details}
use resticpal.Executor.Output.{
  Stream, Wire, OutputEvent, progress, summary, failure_item, failure_item_omitted, vss_fallback,
  vss_cleanup_failed, ParsedOutput, nothing_parsed, parse_output_event, read_bounded_line,
  take_event, take_in, read_json_output,
}
use resticpal.Executor.Process.{
  Process, Waited, ended, cancelled, timed_out, wait_failed, Output, wait, start_process, size,
  finish_outcome, judge, with_summary, without_summary, complete_backup, partial_backup, add_stderr,
  finish_backup, read_output, execute_invocation, execute_repository_invocation, is_code,
}
use resticpal.Executor.Runs.{
  build_backup_invocations, backup_outcome_for_lock_cleanup, start_backup, run_backup,
}
use resticpal.Executor.Details.{IsBounded, push-IsBounded, merge-IsBounded}

nothing-IsBounded : IsBounded no_details
nothing-IsBounded = record { few = omega arith; safe = tt; distinct = tt }

abbrev IsBoundedOutput : ParsedOutput → Type 0
IsBoundedOutput parsed = IsBounded parsed.failure_details

take_event-IsBounded :
    (event : OutputEvent) (parsed : ParsedOutput)
    → IsBoundedOutput parsed
    → IsBoundedOutput (take_event event parsed)
unfolding take_event
take_event-IsBounded (progress update) parsed b = b
take_event-IsBounded (summary report) parsed b = b
take_event-IsBounded (failure_item item) parsed b = push-IsBounded parsed.failure_details item b
take_event-IsBounded failure_item_omitted parsed b = record {
  few = b.few;
  safe = b.safe;
  distinct = b.distinct;
}
take_event-IsBounded vss_fallback parsed b = b
take_event-IsBounded vss_cleanup_failed parsed b = b

module _ (wire : Wire) where
  take_in-IsBounded :
      (valid : Bool) (line : Bytes) (parsed : ParsedOutput)
      → IsBoundedOutput parsed
      → IsBoundedOutput (take_in wire valid line parsed)
  unfolding take_in
  take_in-IsBounded false line parsed b = b
  take_in-IsBounded true line parsed b = elim (Result-cases (parse_output_event wire line)) [
    | inl (e, bad) ↦ rw (bad, take_in) b
    | inr (none, nothing) ↦ rw (nothing, take_in) b
    | inr (some event, found) ↦ rw (found, take_in) (take_event-IsBounded event parsed b)
  ]

  read-IsBounded :
      (n : ℕ) (stream : Stream) (parsed result : ParsedOutput)
      → IsBoundedOutput parsed
      → read_json_output wire n stream parsed ≡ some (ok result)
      → IsBoundedOutput result
  unfolding read_json_output
  read-IsBounded zero stream parsed result b h = absurd (cc)
  read-IsBounded (suc n) stream parsed result b h =
      elim (Result-cases (read_bounded_line stream [] false false)) [
        | inl (e, failed) ↦ absurd (cc (rw (failed, read_json_output) at h))
        | inr ((none, line, rest), over) ↦
            subst IsBoundedOutput (ok-inj (some-inj (rw (over, read_json_output) at h))) b
        | inr ((some valid, line, rest), one) ↦
            read-IsBounded n rest (take_in wire valid line parsed) result
              (take_in-IsBounded valid line parsed b) (rw (one, read_json_output) at h)
      ]

  output-IsBounded :
      (stream : Stream) (parsed : ParsedOutput)
      → read_output wire stream ≡ ok parsed
      → IsBoundedOutput parsed
  unfolding read_output
  output-IsBounded stream parsed h =
      elim (Option-cases (read_json_output wire (suc (size stream)) stream nothing_parsed)) [
        | inl e ↦ absurd (cc (rw (e, read_output) at h))
        | inr (result, e) ↦
            read-IsBounded (suc (size stream)) stream nothing_parsed parsed nothing-IsBounded (
              subst (λ r. read_json_output wire (suc (size stream)) stream nothing_parsed ≡ some r)
                (rw (e, read_output) at h) e)
      ]

  abbrev IsBoundedOutcome : BackupOutcome → Type 0
  IsBoundedOutcome outcome = IsBounded outcome.failure_details

  with_summary-details :
      (code : Option ℕ) (report : BackupSummary) (fallback cleanup : Bool)
      (details : BackupFailureDetails) (stderr : Bytes)
      → ((with_summary wire code report fallback cleanup details stderr).failure_details ≡ details)
        ⊎ ((with_summary wire code report fallback cleanup details stderr).failure_details
            ≡ no_details)
  unfolding with_summary complete_backup partial_backup failed_outcome
  with_summary-details none report fallback cleanup details stderr = inr refl
  with_summary-details (some code) report fallback cleanup details stderr = ground arith

  without_summary-details :
      (code : Option ℕ) (invalid : Bool) (stderr : Bytes)
      → (without_summary wire code invalid stderr).failure_details ≡ no_details
  unfolding without_summary failed_outcome
  without_summary-details none invalid stderr = refl
  without_summary-details (some zero) invalid stderr = refl
  without_summary-details (some (suc code)) invalid stderr = refl

  either-IsBounded :
      (details shown : BackupFailureDetails)
      → IsBounded details
      → (shown ≡ details) ⊎ (shown ≡ no_details)
      → IsBounded shown
  either-IsBounded details shown b (inl e) = subst IsBounded (sym e) b
  either-IsBounded details shown b (inr e) = subst IsBounded (sym e) nothing-IsBounded

  add_stderr-IsBounded :
      (parsed : ParsedOutput) (stderr_output : Output)
      → IsBoundedOutput parsed
      → IsBoundedOutput (add_stderr parsed stderr_output)
  unfolding add_stderr
  add_stderr-IsBounded parsed (err e) b = b
  add_stderr-IsBounded parsed (ok other) b =
      merge-IsBounded parsed.failure_details other.failure_details b

  judge-IsBounded :
      (code : Option ℕ) (parsed : ParsedOutput) (stderr_output : Output) (stderr : Bytes)
      (known : Bool)
      → IsBoundedOutput parsed
      → IsBoundedOutcome (judge wire code parsed stderr_output stderr known)
  unfolding judge
  judge-IsBounded code parsed stderr_output stderr known b = elim (Option-cases parsed.summary) [
    | inl missing ↦
        rw (missing, judge)
          (either-IsBounded no_details _ nothing-IsBounded
            (inr (without_summary-details code parsed.invalid_message stderr)))
    | inr (report, found) ↦
        let all = all_of wire parsed known stderr_output in
        rw (found, judge)
          (either-IsBounded all.failure_details _
            (add_stderr-IsBounded (record parsed { vss_fallback = parsed.vss_fallback || known })
              stderr_output b)
            (with_summary-details code report all.vss_fallback all.vss_cleanup_failed
              all.failure_details stderr))
  ]

  finish_outcome-IsBounded :
      (code : Option ℕ) (stdout stderr_output : Output) (stderr : Bytes) (known : Bool)
      → ((parsed : ParsedOutput) → stdout ≡ ok parsed → IsBoundedOutput parsed)
      → IsBoundedOutcome (finish_outcome wire code stdout stderr_output stderr known)
  unfolding finish_outcome failed_outcome
  finish_outcome-IsBounded code (err e) stderr_output stderr known b =
      elim (Bool-cases (is_code 130 code)) [
        | inl interrupted ↦ rw (interrupted) nothing-IsBounded
        | inr other ↦ rw (other) nothing-IsBounded
      ]
  finish_outcome-IsBounded code (ok parsed) stderr_output stderr known b =
      elim (Bool-cases (is_code 130 code)) [
        | inl interrupted ↦ rw (interrupted) nothing-IsBounded
        | inr other ↦
            rw (other) (judge-IsBounded code parsed stderr_output stderr known (b parsed refl))
      ]

  finish_backup-IsBounded :
      (process : Process) (known : Bool) (waited : Waited)
      → IsBoundedOutcome (finish_backup wire process known waited)
  unfolding finish_backup failed_outcome
  finish_backup-IsBounded process known (ended code) =
      finish_outcome-IsBounded code _ _ _ known (output-IsBounded process.stdout)
  finish_backup-IsBounded process known cancelled = elim (Bool-cases process.terminates) [
    | inl e ↦ rw (e) nothing-IsBounded
    | inr e ↦ rw (e) nothing-IsBounded
  ]
  finish_backup-IsBounded process known timed_out = nothing-IsBounded
  finish_backup-IsBounded process known wait_failed = nothing-IsBounded

  execute-IsBounded :
      (invocation : ResticInvocation) (process : Process) (known : Bool) (outcome : BackupOutcome)
      → execute_invocation wire invocation process known ≡ some outcome
      → IsBoundedOutcome outcome
  unfolding execute_invocation failed_outcome
  execute-IsBounded invocation process known outcome h =
      elim (Option-cases (start_process process invocation.secret_environment)) [
        | inr (none, e) ↦
            subst IsBoundedOutcome (some-inj (rw (e, execute_invocation) at h)) nothing-IsBounded
        | inr (some code, e) ↦
            subst IsBoundedOutcome (some-inj (rw (e, execute_invocation) at h)) nothing-IsBounded
        | inl e ↦ elim (Option-cases (wait false process.polls)) [
          | inl under_way ↦ absurd (cc (rw (e, under_way, execute_invocation) at h))
          | inr (waited, over) ↦
              subst IsBoundedOutcome (some-inj (rw (e, over, execute_invocation) at h))
                (finish_backup-IsBounded process known waited)
        ]
      ]

cleanup-IsBounded :
    (kind : RepositoryOutcomeKind) (outcome : BackupOutcome)
    → backup_outcome_for_lock_cleanup kind ≡ some outcome
    → IsBounded outcome.failure_details
unfolding backup_outcome_for_lock_cleanup failed_outcome
cleanup-IsBounded RepositoryOutcomeKind.succeeded outcome h = absurd (cc)
cleanup-IsBounded RepositoryOutcomeKind.cancelled outcome h =
    subst (λ o. IsBounded o.failure_details) (some-inj h) nothing-IsBounded
cleanup-IsBounded (RepositoryOutcomeKind.failed code) outcome h =
    subst (λ o. IsBounded o.failure_details) (some-inj h) nothing-IsBounded

module _ (texts : Texts) (wire : Wire) (data_directory : PathBuf) (config : EffectiveConfig) where
  start_backup-IsBounded :
      (files : FileSystem) (process : Process) (outcome : BackupOutcome)
      → start_backup texts wire files data_directory config process ≡ some outcome
      → IsBounded outcome.failure_details
  unfolding start_backup failed_outcome
  start_backup-IsBounded files process outcome h =
      elim (Result-cases (build_backup_invocations texts files data_directory config)) [
        | inl (error, e) ↦
            subst (λ o. IsBounded o.failure_details) (some-inj (rw (e, start_backup) at h))
              nothing-IsBounded
        | inr ((unlocking, running), e) ↦
            execute-IsBounded wire running process false outcome (rw (e, start_backup) at h)
      ]

  -- Whatever restic prints and however a backup ends, its outcome names at most 100 sources, all different,
  -- and each name is not empty, has at most 4 KiB in UTF-8, and holds no control character and none of
  -- U+202A to U+202E and U+2066 to U+2069, which turn the direction of a text.
  pub run_backup-IsBounded :
      (before after : FileSystem) (cleanup backup : Process) (outcome : BackupOutcome)
      → run_backup texts wire before after data_directory config cleanup backup ≡ some outcome
      → IsBounded outcome.failure_details
  unfolding run_backup failed_outcome
  run_backup-IsBounded before after cleanup backup outcome h =
      elim (Result-cases (build_backup_invocations texts before data_directory config)) [
        | inl (error, e) ↦
            subst (λ o. IsBounded o.failure_details) (some-inj (rw (e, run_backup) at h))
              nothing-IsBounded
        | inr ((unlocking, planned), e) ↦
            elim (Option-cases (execute_repository_invocation unlocking cleanup)) [
              | inl under_way ↦ absurd (cc (rw (e, under_way, run_backup) at h))
              | inr (kind, over) ↦ elim (Option-cases (backup_outcome_for_lock_cleanup kind)) [
                | inr (failure, stopped) ↦
                    subst (λ o. IsBounded o.failure_details)
                      (some-inj (rw (e, over, stopped, run_backup) at h))
                      (cleanup-IsBounded kind failure stopped)
                | inl passed ↦
                    start_backup-IsBounded after backup outcome
                      (rw (e, over, passed, run_backup) at h)
              ]
            ]
      ]
