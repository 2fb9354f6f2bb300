-- ===== src/Tests/Processes.antt =====
-- A run of restic at concrete processes.
use native.Mathlib.Decide.{ℕ_discrete}
use resticpal.Prelude.{
  true, false, none, some, [], ◌∷◌, ◌≡◌, refl, any, all, ◌==◌, if◌then◌else◌, String_discrete,
}
use resticpal.Text.{is_blank, chars_count, has_break, utf16_count, byte_len, eq_ignore_ascii_case}
use resticpal.Config.Validate.{
  validate, each, check_url, check_display_name, check_schedule, check_path, check_prefix,
  check_exclusion, check_option, check_retention, repository_option_disables_source_snapshots,
  is_valid_option_name, is_valid_secret_reference,
}
use resticpal.Service.Lifecycle.{BackupOutcome, BackupOutcomeKind}
use resticpal.Restic.Paths.{
  normalized_windows_path, normalize, normalized_windows_prefix, starts_with,
  windows_path_is_same_or_descendant,
}
use resticpal.Restic.Builder.{
  unlock, authorize_operation, reject_snapshot_disabling_options, backup_with_required_exclusions,
}
use resticpal.Restic.Sources.{
  validate_backup_source_paths, check_sources, check_source, ordinary_windows_path,
}
use resticpal.Executor.Output.{
  Stream, ends, buffer, Wire, WireMessage, take_line, read_bounded_line, parse_plain_missing_item,
  error_event, message_event, parse_output_event, take_event, take_in, read_json_output,
}
use resticpal.Executor.Process.{
  Process, exited, succeeded_outcome, wait, start_process, resolve_secrets, size, read_output,
  finish_outcome, judge, with_summary, complete_backup, partial_backup, add_stderr, finish_backup,
  finish_repository, execute_invocation, execute_repository_invocation,
}
use resticpal.Executor.{
  merge, push_all, saturating_add, push, is_safe_backup_failed_item, is_vss_fallback_error,
  is_vss_cleanup_error, contains, begins, lowercase,
}
use resticpal.Executor.Runs.{
  Components-discrete, build_backup_invocations, backup_outcome_for_lock_cleanup, start_backup,
  run_backup,
}
use resticpal.Executor.Details.{IsBounded}
use resticpal.Executor.Shown.{run_backup-IsBounded}
use resticpal.Tests.Data.{configured}
use resticpal.Tests.Invocations.{texts, program_data}
use resticpal.Tests.Configuration.{files}

abbrev summary_message : WireMessage
summary_message = record {
  message_type = "summary";
  percent_done = none;
  total_files = none;
  files_done = 0;
  total_bytes = none;
  bytes_done = 0;
  error_count = 0;
  total_files_processed = 3;
  total_bytes_processed = 40;
  data_added = 5;
  snapshot_id = some "abc";
  item = none;
  error = none;
}

-- Every line is that message.
abbrev wire : Wire
wire = record {
  from_slice = λ line. some summary_message;
  from_utf8 = λ bytes. none;
  is_finite = λ bits. true;
  to_percent = λ bits. 0;
  exit_text = λ code. "1";
}

abbrev clean : Stream → Process
clean stdout = record {
  resolve = λ reference. some "secret";
  acquires_wake_lock = true;
  is_cancelled = false;
  creates_job = true;
  spawns = true;
  assigns_job = true;
  has_stdout = true;
  has_stderr = true;
  polls = record { child = exited (some 0); is_cancelled = false; is_overdue = false } ∷ [];
  terminates = true;
  stdout = stdout;
  stderr = ends;
}

-- One line, in two buffers.
abbrev printed : Stream
printed = buffer b'{' [] (buffer b'}' (10 ∷ []) ends)

abbrev done : BackupOutcome
done =
    succeeded_outcome (record {
      files_processed = 3;
      bytes_processed = 40;
      data_added = 5;
      snapshot_id = some "abc";
    })

abbrev error_message : WireMessage
error_message = record summary_message {
  message_type = "error";
  item = some "C:\\Users\\a";
  error = some "Access denied.";
}

-- A line that begins with an e is an error, and every other one the summary.
abbrev two_wires : Wire
two_wires = record wire {
  from_slice = λ line. elim line [
    | [] ↦ none
    | b ∷ bytes ↦ if b == b'e' then some error_message else some summary_message
  ];
}

-- Two lines that name the same source, and the summary; restic ends with the code 3.
abbrev reporting : Process
reporting = record (clean (buffer b'e' (10 ∷ b'e' ∷ []) (buffer 10 (b'{' ∷ 10 ∷ []) ends))) {
  polls = record { child = exited (some 3); is_cancelled = false; is_overdue = false } ∷ [];
}

abbrev partly_done : BackupOutcome
partly_done = record done {
  kind = BackupOutcomeKind.succeeded_with_warnings;
  warning_code = some "restic_partial_source";
  failure_details = record { items = "C:\\Users\\a" ∷ []; omitted = 0 };
}

backup_reports :
    run_backup texts two_wires files files program_data configured (clean ends) reporting
    ≡ some partly_done
unfolding run_backup start_backup build_backup_invocations validate_backup_source_paths
    check_sources check_source any windows_path_is_same_or_descendant normalized_windows_path
    normalize starts_with String_discrete normalized_windows_prefix ordinary_windows_path
    backup_with_required_exclusions authorize_operation reject_snapshot_disabling_options validate
    each check_url check_display_name check_schedule check_path check_prefix check_exclusion
    check_option check_retention is_blank chars_count has_break utf16_count
    repository_option_disables_source_snapshots eq_ignore_ascii_case is_valid_option_name
    is_valid_secret_reference byte_len all unlock execute_repository_invocation start_process
    resolve_secrets wait finish_repository backup_outcome_for_lock_cleanup execute_invocation
    finish_backup finish_outcome judge with_summary complete_backup add_stderr read_output size
    read_json_output read_bounded_line take_line take_in parse_output_event parse_plain_missing_item
    message_event take_event merge push_all saturating_add Components-discrete ℕ_discrete push
    is_safe_backup_failed_item error_event is_vss_fallback_error is_vss_cleanup_error contains
    begins lowercase partial_backup
backup_reports = refl

run_backup-IsBounded_example : IsBounded partly_done.failure_details
run_backup-IsBounded_example =
    run_backup-IsBounded texts two_wires program_data configured files files (clean ends) reporting
      partly_done backup_reports
