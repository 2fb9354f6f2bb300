-- ===== src/Executor/Output.antt =====
-- What the service reads of restic's output (apps/resticpal-service/src/executor.rs): lines of bounded
-- length, the events in them, and the outcome that they make with the exit code.
use resticpal.Prelude.{
  ℕ, zero, suc, ◌+◌, ◌*◌, Bool, true, false, not, ◌&&◌, ◌||◌, Option, none, some, [], ◌∷◌, ◌++◌,
  String, leb, ◌==◌, if◌then◌else◌, length, unwrap_or, Result, ok, err,
}
use resticpal.Text.{Bytes, codes}
use resticpal.Service.{BackupProgress}
use resticpal.Service.Lifecycle.{BackupSummary, BackupFailureDetails}
use resticpal.Config.Management.{is_text}
use resticpal.Executor.{
  no_details, push, saturating_add, is_vss_fallback_error, is_vss_cleanup_error,
}

abbrev pub max_json_line_bytes : ℕ
max_json_line_bytes = 1024 * 1024

-- What a buffered reader gives from now on: buffers of at least one byte, up to the end or an error.
pub data Stream : Type 0 where
  ends fails : Stream
  buffer : ℕ → Bytes → Stream → Stream

-- A buffer up to its first line feed, what is left of it, and whether there is one.
unfoldable pub take_line : Bytes → Bytes × Bytes × Bool
take_line [] = ([], [], false)
take_line (b ∷ bytes) =
    let (taken, left, ended) = take_line bytes in
    if b == 10 then (b ∷ [], bytes, true) else (b ∷ taken, left, ended)

abbrev pub unread : Bytes → Stream → Stream
unread [] stream = stream
unread (b ∷ bytes) stream = buffer b bytes stream

-- One line: whether there is one that is not too long, its bytes, and the stream after it.
unfoldable pub read_bounded_line :
    Stream → Bytes → Bool → Bool → Result (Unit {0}) (Option Bool × Bytes × Stream)
read_bounded_line ends line oversized read_any =
    ok (if read_any then some (not oversized) else none, line, ends)
read_bounded_line fails line oversized read_any = err tt
read_bounded_line (buffer b bytes stream) line oversized read_any =
    let available = take_line (b ∷ bytes) in
    let fits = not oversized && leb (length line + length available.0) max_json_line_bytes in
    let longer = if fits then line ++ available.0 else line in
    let following = read_bounded_line stream longer (not fits) true in
    if available.2 then ok (some fits, longer, unread available.1 stream) else following

pub record WireMessage : Type 0 where
  pub message_type : String
  -- The bits of a 64-bit floating-point number.
  pub percent_done : Option ℕ
  pub total_files : Option ℕ
  pub files_done : ℕ
  pub total_bytes : Option ℕ
  pub bytes_done : ℕ
  pub error_count : ℕ
  pub total_files_processed : ℕ
  pub total_bytes_processed : ℕ
  pub data_added : ℕ
  pub snapshot_id : Option String
  pub item : Option String
  pub error : Option String

-- The JSON package on a message of restic, `str::from_utf8`, and the arithmetic of floating-point numbers:
-- whether one is finite, and the percentage that it stands for, clamped and rounded.
pub record Wire : Type 0 where
  pub from_slice : Bytes → Option WireMessage
  pub from_utf8 : Bytes → Option String
  pub is_finite : ℕ → Bool
  pub to_percent : ℕ → ℕ
  -- The printing of an exit code, which is the 32 bits of an `i32`.
  pub exit_text : ℕ → String

pub data OutputEvent : Type 0 where
  progress : BackupProgress → OutputEvent
  summary : BackupSummary → OutputEvent
  failure_item : String → OutputEvent
  failure_item_omitted vss_fallback vss_cleanup_failed : OutputEvent

-- The end of a line without its line feeds, in reverse.
abbrev trim_break : Bytes → Bytes
trim_break [] = []
trim_break (b ∷ bytes) = if b == 13 || b == 10 then trim_break bytes else b ∷ bytes

abbrev reversed : Bytes → Bytes → Bytes
reversed [] done = done
reversed (b ∷ bytes) done = reversed bytes (b ∷ done)

-- `strip_suffix`, on reversed bytes.
abbrev strip : Bytes → Bytes → Option Bytes
strip [] bytes = some bytes
strip (s ∷ suffix) [] = none
strip (s ∷ suffix) (b ∷ bytes) = let rest = strip suffix bytes in if s == b then rest else none

abbrev named : Wire → Option Bytes → Option String
named wire none = none
named wire (some []) = none
named wire (some (b ∷ bytes)) = wire.from_utf8 (reversed (b ∷ bytes) [])

-- A line that is a text and names a missing source. (A part of a text without its last characters is one.)
unfoldable pub parse_plain_missing_item : Wire → Bytes → Option String
parse_plain_missing_item wire line = elim (wire.from_utf8 line) [
  | none ↦ none
  | some text ↦
      named wire
        (strip (reversed (codes " does not exist, skipping") []) (trim_break (reversed line [])))
]

abbrev progress_of : Wire → WireMessage → BackupProgress
progress_of wire message = record {
  percent_done = elim message.percent_done [
    | none ↦ none
    | some percent ↦ if wire.is_finite percent then some (wire.to_percent percent) else none
  ];
  files_done = message.files_done;
  total_files = message.total_files;
  bytes_done = message.bytes_done;
  total_bytes = message.total_bytes;
  error_count = message.error_count;
}

unfoldable pub error_event : Option String → Option String → OutputEvent
error_event error item =
    let message = unwrap_or error "" in
    if is_vss_fallback_error message
    then vss_fallback
    else if is_vss_cleanup_error message
    then vss_cleanup_failed
    else elim item [ none ↦ failure_item_omitted | some name ↦ failure_item name ]

unfoldable pub message_event : Wire → WireMessage → Option OutputEvent
message_event wire message =
    if is_text message.message_type "status"
    then some (progress (progress_of wire message))
    else if is_text message.message_type "summary"
    then some (
        summary (record {
          files_processed = message.total_files_processed;
          bytes_processed = message.total_bytes_processed;
          data_added = message.data_added;
          snapshot_id = message.snapshot_id;
        }))
    else if is_text message.message_type "error"
    then some (error_event message.error message.item)
    else none

unfoldable pub parse_output_event : Wire → Bytes → Result (Unit {0}) (Option OutputEvent)
parse_output_event wire line = elim (parse_plain_missing_item wire line) [
  | some item ↦ ok (some (failure_item item))
  | none ↦ elim (wire.from_slice line) [
    | none ↦ err tt
    | some message ↦ ok (message_event wire message)
  ]
]

pub record ParsedOutput : Type 0 where
  pub summary : Option BackupSummary
  pub invalid_message : Bool
  pub failure_details : BackupFailureDetails
  pub vss_fallback : Bool
  pub vss_cleanup_failed : Bool

abbrev pub nothing_parsed : ParsedOutput
nothing_parsed = record {
  summary = none;
  invalid_message = false;
  failure_details = no_details;
  vss_fallback = false;
  vss_cleanup_failed = false;
}

-- What an event does to what was read before.
unfoldable pub take_event : OutputEvent → ParsedOutput → ParsedOutput
take_event (progress update) parsed = parsed
take_event (summary report) parsed = record parsed { summary = some report }
take_event (failure_item item) parsed = record parsed {
  failure_details = push parsed.failure_details item;
}
take_event failure_item_omitted parsed = record parsed {
  failure_details = record parsed.failure_details {
    omitted = saturating_add parsed.failure_details.omitted 1;
  };
}
take_event vss_fallback parsed = record parsed { vss_fallback = true }
take_event vss_cleanup_failed parsed = record parsed { vss_cleanup_failed = true }

-- A line that was read, where it is not too long.
unfoldable pub take_in : Wire → Bool → Bytes → ParsedOutput → ParsedOutput
take_in wire false line parsed = record parsed { invalid_message = true }
take_in wire true line parsed = elim (parse_output_event wire line) [
  | err _ ↦ record parsed { invalid_message = true }
  | ok none ↦ parsed
  | ok (some event) ↦ take_event event parsed
]

-- The whole output. Progress goes to whoever shows it, and is left out. The number bounds the lines.
unfoldable pub read_json_output :
    Wire → ℕ → Stream → ParsedOutput → Option (Result (Unit {0}) ParsedOutput)
read_json_output wire zero stream parsed = none
read_json_output wire (suc n) stream parsed = elim (read_bounded_line stream [] false false) [
  | err _ ↦ some (err tt)
  | ok (none, line, rest) ↦ some (ok parsed)
  | ok (some valid, line, rest) ↦ read_json_output wire n rest (take_in wire valid line parsed)
]
