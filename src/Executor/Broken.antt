-- ===== src/Executor/Broken.antt =====
-- What is read of restic's output, also where the reading fails
-- (`read_json_output` of apps/resticpal-service/src/executor.rs).
use resticpal.Prelude.{◌<◌, Bool, true, false, some, ◌≡◌, ok}
use resticpal.Text.{Bytes}
use resticpal.Executor.Output.{Stream, ends, fails, buffer, read_bounded_line}
use resticpal.Executor.Process.{size}

-- Whether an error ends the stream.
abbrev pub breaks : Stream → Bool
breaks ends = false
breaks fails = true
breaks (buffer b bytes stream) = breaks stream

-- A line that was read off a stream that an error ends, with less of it left.
record IsTaken (stream : Stream) (line : Bytes) (oversized read_any : Bool) : Type 0 where
  valid : Bool
  bytes : Bytes
  after : Stream
  read : read_bounded_line stream line oversized read_any ≡ ok (some valid, bytes, after)
  broken : breaks after ≡ true
  less : size after < size stream
