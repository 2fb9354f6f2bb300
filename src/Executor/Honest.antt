-- ===== src/Executor/Honest.antt =====
-- What the outcome of a run of restic says of the processes (apps/resticpal-service/src/executor.rs).
use resticpal.Prelude.{
  ℕ, zero, suc, Bool, false, ◌||◌, Option, none, some, String, ◌≡◌, ◌≢◌, inl, inr, refl, sym, ap,
  ◌∙◌, arith, ok, err, Option-cases, Bool-cases, some-inj, ok-inj,
}
use resticpal.Config.{SecretRefs}
use resticpal.Service.Lifecycle.{BackupSummary, BackupOutcomeKind, BackupOutcome, failed_outcome}
use resticpal.Restic.Builder.{ResticInvocation}
use resticpal.Text.{Bytes}
use resticpal.Executor.Output.{Wire, ParsedOutput}
use resticpal.Executor.Process.{
  Process, Waited, ended, cancelled, timed_out, wait_failed, Output, wait, start_process,
  finish_outcome, judge, with_summary, without_summary, complete_backup, partial_backup, add_stderr,
  finish_backup, read_output, execute_invocation, is_code, read_bounded, max_stderr_bytes,
}

-- The output of a complete backup: a summary, and no word of a snapshot that could not be made or removed.
pub record IsComplete (stdout stderr : Output) (known_vss_fallback : Bool) (report : BackupSummary)
    : Type 0 where
  pub parsed : ParsedOutput
  pub read : stdout ≡ ok parsed
  pub reported : parsed.summary ≡ some report
  pub snapshots : (parsed.vss_fallback || known_vss_fallback) ≡ false
  pub removed : parsed.vss_cleanup_failed ≡ false
  pub quiet :
      (other : ParsedOutput)
      → stderr ≡ ok other
      → (other.vss_fallback ≡ false) × (other.vss_cleanup_failed ≡ false)

module _ (wire : Wire) where
  with_summary-success :
      (code : Option ℕ) (report : BackupSummary) (all : ParsedOutput) (stderr : Bytes)
      → (with_summary wire code report all.vss_fallback all.vss_cleanup_failed all.failure_details
          stderr).kind
        ≡ BackupOutcomeKind.succeeded
      → (code ≡ some 0)
        × (all.vss_fallback ≡ false)
        × (all.vss_cleanup_failed ≡ false)
        × ((with_summary wire code report all.vss_fallback all.vss_cleanup_failed
              all.failure_details stderr).summary
            ≡ some report)
  unfolding with_summary complete_backup partial_backup failed_outcome
  with_summary-success none report all stderr h = absurd (cc)
  with_summary-success (some code) report all stderr h =
      (ground arith, ground arith, ground arith, ground arith)

  without_summary-failed :
      (code : Option ℕ) (invalid : Bool) (stderr : Bytes)
      → (without_summary wire code invalid stderr).kind ≢ BackupOutcomeKind.succeeded
  unfolding without_summary failed_outcome
  without_summary-failed none invalid stderr h = cc
  without_summary-failed (some zero) invalid stderr h = cc
  without_summary-failed (some (suc code)) invalid stderr h = cc

  -- The output and the error output together.
  abbrev pub all_of : ParsedOutput → Bool → Output → ParsedOutput
  all_of parsed known stderr_output =
      add_stderr (record parsed { vss_fallback = parsed.vss_fallback || known }) stderr_output

  quiet_of :
      (parsed : ParsedOutput) (known : Bool) (stderr_output : Output)
      → (all_of parsed known stderr_output).vss_fallback ≡ false
      → (all_of parsed known stderr_output).vss_cleanup_failed ≡ false
      → ((parsed.vss_fallback || known) ≡ false)
        × (parsed.vss_cleanup_failed ≡ false)
        × ((other : ParsedOutput)
            → stderr_output ≡ ok other
            → (other.vss_fallback ≡ false) × (other.vss_cleanup_failed ≡ false))
  unfolding add_stderr
  quiet_of parsed known (err e) fallback cleanup = (fallback, cleanup, λ other is. absurd (cc))
  quiet_of parsed known (ok errors) fallback cleanup =
      (ground arith, ground arith, λ other is. rw (sym (ok-inj is)) (ground arith, ground arith))

  judge-success :
      (code : Option ℕ) (parsed : ParsedOutput) (stderr_output : Output) (stderr : Bytes)
      (known : Bool)
      → (judge wire code parsed stderr_output stderr known).kind ≡ BackupOutcomeKind.succeeded
      → (code ≡ some 0)
        × (report : BackupSummary) × ((judge wire code parsed stderr_output stderr known).summary
            ≡ some report)
        × IsComplete (ok parsed) stderr_output known report
  unfolding judge
  judge-success code parsed stderr_output stderr known h = elim (Option-cases parsed.summary) [
    | inl missing ↦
        absurd
          (without_summary-failed code parsed.invalid_message stderr (rw (missing, judge) at h))
    | inr (report, found) ↦
        let (zero_code, fallback, cleanup, shown) =
          with_summary-success code report (all_of parsed known stderr_output) stderr
            (rw (found, judge) at h) in
        let (snapshots, removed, quiet) = quiet_of parsed known stderr_output fallback cleanup in
        (
          zero_code,
          report,
          rw (found, judge) shown,
          record {
            parsed = parsed;
            read = refl;
            reported = found;
            snapshots = snapshots;
            removed = removed;
            quiet = quiet;
          },
        )
  ]

  finish_outcome-success :
      (code : Option ℕ) (stdout stderr_output : Output) (stderr : Bytes) (known : Bool)
      → (finish_outcome wire code stdout stderr_output stderr known).kind
        ≡ BackupOutcomeKind.succeeded
      → (code ≡ some 0)
        × (report : BackupSummary) × ((finish_outcome wire code stdout stderr_output stderr
              known).summary
            ≡ some report)
        × IsComplete stdout stderr_output known report
  unfolding finish_outcome failed_outcome
  finish_outcome-success code (err e) stderr_output stderr known h = absurd (ground arith)
  finish_outcome-success code (ok parsed) stderr_output stderr known h =
      elim (Bool-cases (is_code 130 code)) [
        | inl interrupted ↦ absurd (cc (rw (interrupted, finish_outcome) at h))
        | inr e ↦
            let (zero_code, report, shown, complete) =
              judge-success code parsed stderr_output stderr known (rw (e, finish_outcome) at h) in
            (zero_code, report, rw (e) shown, complete)
      ]

  -- What a backup process must have done.
  pub record IsDone (process : Process) (references : SecretRefs) (known : Bool)
      (outcome : BackupOutcome) : Type 0 where
    pub started : start_process process references ≡ none
    pub exited : wait false process.polls ≡ some (ended (some 0))
    pub report : BackupSummary
    pub shown : outcome.summary ≡ some report
    pub complete :
        IsComplete (read_output wire process.stdout) (read_output wire process.stderr) known report

  waited-success :
      (process : Process) (known : Bool) (waited : Waited)
      → (finish_backup wire process known waited).kind ≡ BackupOutcomeKind.succeeded
      → (waited ≡ ended (some 0))
        × (report : BackupSummary) × ((finish_backup wire process known waited).summary
            ≡ some report)
        × IsComplete
            (read_output wire process.stdout)
            (read_output wire process.stderr)
            known
            report
  unfolding finish_backup failed_outcome
  waited-success process known (ended code) h =
      let (zero_code, report, shown, complete) =
        finish_outcome-success code (read_output wire process.stdout)
          (read_output wire process.stderr) (read_bounded max_stderr_bytes process.stderr) known
          h in
      (ap ended zero_code, report, shown, complete)
  waited-success process known cancelled h = absurd (ground arith)
  waited-success process known timed_out h = absurd (cc)
  waited-success process known wait_failed h = absurd (cc)

  unstarted :
      (invocation : ResticInvocation) (process : Process) (known : Bool) (outcome : BackupOutcome)
      (code : Option String)
      → start_process process invocation.secret_environment ≡ some code
      → execute_invocation wire invocation process known ≡ some outcome
      → outcome.kind ≢ BackupOutcomeKind.succeeded
  unfolding execute_invocation failed_outcome
  unstarted invocation process known outcome none e h good =
      cc (rw (e, execute_invocation) at h, good)
  unstarted invocation process known outcome (some code) e h good =
      cc (rw (e, execute_invocation) at h, good)

  -- An invocation that succeeded.
  pub execute_invocation-success :
      (invocation : ResticInvocation) (process : Process) (known : Bool) (outcome : BackupOutcome)
      → execute_invocation wire invocation process known ≡ some outcome
      → outcome.kind ≡ BackupOutcomeKind.succeeded
      → IsDone process invocation.secret_environment known outcome
  unfolding execute_invocation
  execute_invocation-success invocation process known outcome h good =
      elim (Option-cases (start_process process invocation.secret_environment)) [
        | inr (code, e) ↦ absurd (unstarted invocation process known outcome code e h good)
        | inl e ↦ elim (Option-cases (wait false process.polls)) [
          | inl under_way ↦ absurd (cc (rw (e, under_way, execute_invocation) at h))
          | inr (waited, over) ↦
              let same = some-inj (rw (e, over, execute_invocation) at h) in
              let (zero_code, report, shown, complete) =
                waited-success process known waited (ap (λ o. o.kind) same ∙ good) in
              record {
                started = e;
                exited = over ∙ ap some zero_code;
                report = report;
                shown = ap (λ o. o.summary) (sym same) ∙ shown;
                complete = complete;
              }
        ]
      ]
