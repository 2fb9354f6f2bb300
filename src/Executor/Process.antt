-- ===== src/Executor/Process.antt =====
-- One restic process (apps/resticpal-service/src/executor.rs): how it is started, waited for and judged.
-- What Windows and the process do is an argument; the pipes are read in full before the judgement.
use resticpal.Prelude.{
  ℕ, zero, suc, ◌*◌, Bool, true, false, not, ◌&&◌, ◌||◌, Option, none, some, List, [], ◌∷◌, String,
  ◌==◌, if◌then◌else◌, unwrap_or, Result, ok, err, is_some, ◌+◌, ◌-◌, ◌++◌, length,
}
use Prim.Native.String.{◌++◌ as ◌+++◌}
use resticpal.Config.{SecretEnvironmentVariable, SecretRefs}
use resticpal.Service.Lifecycle.{
  BackupSummary, BackupOutcomeKind, BackupFailureDetails, BackupOutcome, failed_outcome,
  RepositoryOutcomeKind,
}
use resticpal.Restic.{ResticOperation, probe, initialize}
use resticpal.Restic.Builder.{ResticInvocation}
use resticpal.Text.{Bytes}
use resticpal.Executor.{no_details, merge, classify_stderr}
use resticpal.Executor.Output.{
  Stream, ends, fails, buffer, Wire, ParsedOutput, nothing_parsed, read_json_output,
}

abbrev pub max_stderr_bytes : ℕ
max_stderr_bytes = 64 * 1024

abbrev pub finished_with :
    BackupOutcomeKind → BackupSummary → Option String → BackupFailureDetails → BackupOutcome
finished_with kind report code details = record {
  kind = kind;
  summary = some report;
  warning_code = code;
  failure_details = details;
}

-- `BackupOutcome::warnings`, `succeeded` and `cancelled`.
abbrev pub warnings : BackupSummary → String → BackupFailureDetails → BackupOutcome
warnings report code details =
    finished_with BackupOutcomeKind.succeeded_with_warnings report (some code) details

abbrev pub succeeded_outcome : BackupSummary → BackupOutcome
succeeded_outcome report = finished_with BackupOutcomeKind.succeeded report none no_details

abbrev pub cancelled_outcome : BackupOutcome
cancelled_outcome = record {
  kind = BackupOutcomeKind.cancelled;
  summary = none;
  warning_code = none;
  failure_details = no_details;
}

abbrev pub Output : Type 0
Output = Result (Unit {0}) ParsedOutput

-- The failure that an exit code stands for.
abbrev exit_failure : Wire → ℕ → Bytes → BackupOutcome
exit_failure wire code stderr =
    failed_outcome (unwrap_or (classify_stderr stderr) ("restic_exit_" +++ wire.exit_text code))

unfoldable pub without_summary : Wire → Option ℕ → Bool → Bytes → BackupOutcome
without_summary wire none invalid_message stderr = failed_outcome "restic_terminated"
without_summary wire (some zero) invalid_message stderr =
    failed_outcome (if invalid_message then "restic_output_invalid" else "restic_summary_missing")
without_summary wire (some (suc code)) invalid_message stderr = exit_failure wire (suc code) stderr

unfoldable pub complete_backup : BackupSummary → Bool → Bool → BackupFailureDetails → BackupOutcome
complete_backup report vss_fallback vss_cleanup_failed details =
    if vss_fallback && vss_cleanup_failed
    then warnings report "restic_vss_fallback_and_cleanup_failed" details
    else if vss_fallback
    then warnings report "restic_vss_fallback" details
    else if vss_cleanup_failed
    then warnings report "restic_vss_cleanup_failed" details
    else succeeded_outcome report

unfoldable pub partial_backup : BackupSummary → Bool → Bool → BackupFailureDetails → BackupOutcome
partial_backup report vss_fallback vss_cleanup_failed details =
    if vss_fallback && vss_cleanup_failed
    then warnings report "restic_vss_fallback_partial_source_and_cleanup_failed" details
    else if vss_fallback
    then warnings report "restic_vss_fallback_and_partial_source" details
    else if vss_cleanup_failed
    then warnings report "restic_partial_source_and_vss_cleanup_failed" details
    else warnings report "restic_partial_source" details

unfoldable pub with_summary :
    Wire → Option ℕ → BackupSummary → Bool → Bool → BackupFailureDetails → Bytes → BackupOutcome
with_summary wire none report vss_fallback vss_cleanup_failed details stderr =
    failed_outcome "restic_terminated"
with_summary wire (some code) report vss_fallback vss_cleanup_failed details stderr =
    if code == 0
    then complete_backup report vss_fallback vss_cleanup_failed details
    else if code == 3
    then partial_backup report vss_fallback vss_cleanup_failed details
    else exit_failure wire code stderr

-- What the error output adds to what was read of the output.
unfoldable pub add_stderr : ParsedOutput → Output → ParsedOutput
add_stderr parsed (err _) = parsed
add_stderr parsed (ok other) = record parsed {
  failure_details = merge parsed.failure_details other.failure_details;
  vss_fallback = parsed.vss_fallback || other.vss_fallback;
  vss_cleanup_failed = parsed.vss_cleanup_failed || other.vss_cleanup_failed;
}

abbrev pub is_code : ℕ → Option ℕ → Bool
is_code expected none = false
is_code expected (some code) = code == expected

unfoldable pub judge : Wire → Option ℕ → ParsedOutput → Output → Bytes → Bool → BackupOutcome
judge wire code parsed stderr_output stderr known_vss_fallback = elim parsed.summary [
  | none ↦ without_summary wire code parsed.invalid_message stderr
  | some report ↦
      let all =
        add_stderr (record parsed { vss_fallback = parsed.vss_fallback || known_vss_fallback })
          stderr_output in
      with_summary wire code report all.vss_fallback all.vss_cleanup_failed all.failure_details
        stderr
]

unfoldable pub finish_outcome : Wire → Option ℕ → Output → Output → Bytes → Bool → BackupOutcome
finish_outcome wire code (err _) stderr_output stderr known_vss_fallback =
    if is_code 130 code then cancelled_outcome else failed_outcome "restic_output_invalid"
finish_outcome wire code (ok parsed) stderr_output stderr known_vss_fallback =
    if is_code 130 code
    then cancelled_outcome
    else judge wire code parsed stderr_output stderr known_vss_fallback

-- What one look at the process says: its exit code if it ended, that it runs, or that Windows cannot say.
pub data Child : Type 0 where
  exited : Option ℕ → Child
  runs unknown : Child

-- One turn of the loop that waits: the child, whether the run was cancelled, and whether it takes too long.
pub record Poll : Type 0 where
  pub child : Child
  pub is_cancelled : Bool
  pub is_overdue : Bool

pub data Waited : Type 0 where
  ended : Option ℕ → Waited
  cancelled timed_out wait_failed : Waited

-- The wait for a process, of the looks at it, with a limit or without. Without a last look it is still
-- under way.
unfoldable pub wait : Bool → List Poll → Option Waited
wait limited [] = none
wait limited (poll ∷ polls) =
    let rest = wait limited polls in
    elim poll.child [
      | exited code ↦ some (ended code)
      | unknown ↦ some wait_failed
      | runs ↦
          if poll.is_cancelled
          then some cancelled
          else if limited && poll.is_overdue
          then some timed_out
          else rest
    ]

-- What a run of a process meets.
pub record Process : Type 0 where
  pub resolve : String → Option String
  pub acquires_wake_lock : Bool
  pub is_cancelled : Bool
  pub creates_job : Bool
  pub spawns : Bool
  pub assigns_job : Bool
  pub has_stdout : Bool
  pub has_stderr : Bool
  pub polls : List Poll
  pub terminates : Bool
  pub stdout : Stream
  pub stderr : Stream

-- `resolve_secrets`: all of them, or nothing.
unfoldable pub resolve_secrets :
    (String → Option String) → SecretRefs → Option (List (SecretEnvironmentVariable × String))
resolve_secrets resolve [] = some []
resolve_secrets resolve ((variable, reference) ∷ references) = elim (resolve reference) [
  | none ↦ none
  | some secret ↦ elim (resolve_secrets resolve references) [
    | none ↦ none
    | some secrets ↦ some ((variable, secret) ∷ secrets)
  ]
]

-- What keeps a process from being started and watched, with the code of the failure; a run that was
-- cancelled before it started has none.
unfoldable pub start_process : Process → SecretRefs → Option (Option String)
start_process process references =
    if not (is_some (resolve_secrets process.resolve references))
    then some (some "credential_unavailable")
    else if not process.acquires_wake_lock
    then some (some "wake_lock_unavailable")
    else if process.is_cancelled
    then some none
    else if not process.creates_job
    then some (some "process_isolation_failed")
    else if not process.spawns
    then some (some "restic_start_failed")
    else if not process.assigns_job
    then some (some "process_isolation_failed")
    else if not process.has_stdout || not process.has_stderr
    then some (some "restic_output_unavailable")
    else none

-- The bytes that a stream still holds, and the first of them, which are kept of the error output.
unfoldable pub size : Stream → ℕ
size ends = 0
size fails = 0
size (buffer b bytes stream) = suc (length bytes + size stream)

abbrev first : ℕ → Bytes → Bytes
first zero bytes = []
first (suc n) [] = []
first (suc n) (b ∷ bytes) = b ∷ first n bytes

unfoldable pub read_bounded : ℕ → Stream → Bytes
read_bounded limit ends = []
read_bounded limit fails = []
read_bounded limit (buffer b bytes stream) =
    first limit (b ∷ bytes) ++ read_bounded (limit - suc (length bytes)) stream

-- What a reader's thread comes to. (A line takes a byte at least, so the number of turns is enough.)
unfoldable pub read_output : Wire → Stream → Output
read_output wire stream =
    unwrap_or (read_json_output wire (suc (size stream)) stream nothing_parsed) (err tt)

-- The code of a failed run of an operation on the repository.
unfoldable pub repository_failure : ResticOperation → Option ℕ → Bytes → String
repository_failure operation code stderr =
    let classified = classify_stderr stderr in
    elim operation [
      | probe ↦
          if is_code 10 code
          then "repository_not_found"
          else unwrap_or classified "repository_validation_failed"
      | initialize ↦ unwrap_or classified "repository_initialization_failed"
      | other ↦ unwrap_or classified "repository_operation_failed"
    ]

unfoldable pub finish_repository : ResticOperation → Process → Waited → RepositoryOutcomeKind
finish_repository operation process (ended code) =
    if is_code 0 code
    then RepositoryOutcomeKind.succeeded
    else RepositoryOutcomeKind.failed
        (repository_failure operation code (read_bounded max_stderr_bytes process.stderr))
finish_repository operation process cancelled =
    if process.terminates
    then RepositoryOutcomeKind.cancelled
    else RepositoryOutcomeKind.failed "restic_termination_failed"
finish_repository operation process timed_out =
    if process.terminates
    then RepositoryOutcomeKind.failed "repository_operation_timed_out"
    else RepositoryOutcomeKind.failed "restic_termination_failed"
finish_repository operation process wait_failed =
    if process.terminates
    then RepositoryOutcomeKind.failed "restic_wait_failed"
    else RepositoryOutcomeKind.failed "restic_termination_failed"

-- A run that is still under way has no outcome yet.
unfoldable pub execute_repository_invocation :
    ResticInvocation → Process → Option RepositoryOutcomeKind
execute_repository_invocation invocation process =
    elim (start_process process invocation.secret_environment) [
      | some none ↦ some RepositoryOutcomeKind.cancelled
      | some (some code) ↦ some (RepositoryOutcomeKind.failed code)
      | none ↦ elim (wait true process.polls) [
        | none ↦ none
        | some waited ↦ some (finish_repository invocation.operation process waited)
      ]
    ]

unfoldable pub finish_backup : Wire → Process → Bool → Waited → BackupOutcome
finish_backup wire process known_vss_fallback (ended code) =
    finish_outcome wire code (read_output wire process.stdout) (read_output wire process.stderr)
      (read_bounded max_stderr_bytes process.stderr) known_vss_fallback
finish_backup wire process known_vss_fallback cancelled =
    if process.terminates then cancelled_outcome else failed_outcome "restic_termination_failed"
finish_backup wire process known_vss_fallback other =
    failed_outcome
      (if process.terminates then "restic_wait_failed" else "restic_termination_failed")

-- A backup may take as long as it wants.
unfoldable pub execute_invocation : Wire → ResticInvocation → Process → Bool → Option BackupOutcome
execute_invocation wire invocation process known_vss_fallback =
    elim (start_process process invocation.secret_environment) [
      | some none ↦ some cancelled_outcome
      | some (some code) ↦ some (failed_outcome code)
      | none ↦ elim (wait false process.polls) [
        | none ↦ none
        | some waited ↦ some (finish_backup wire process known_vss_fallback waited)
      ]
    ]
