-- ===== src/Executor/Lines.antt =====
-- The lines of restic's output do not depend on how it arrives
-- (`read_bounded_line` and `read_json_output` of apps/resticpal-service/src/executor.rs).
use resticpal.Prelude.{
  ℕ, zero, suc, ◌+◌, ◌≤◌, ◌<◌, Bool, true, false, not, ◌&&◌, ◌||◌, Option, none, some, List, [],
  ◌∷◌, ◌++◌, leb, ◌==◌, if◌then◌else◌, length, is_empty, ◌≡◌, ◌⊎◌, inl, inr, refl, sym, ap, ◌∙◌,
  arith, ok, Bool-cases, some-inj,
}
use resticpal.Text.{Bytes}
use resticpal.Executor.Output.{
  Stream, ends, fails, buffer, take_line, unread, read_bounded_line, max_json_line_bytes, Wire,
  ParsedOutput, take_in, read_json_output, nothing_parsed,
}
use resticpal.Executor.Process.{size, read_output}

-- All bytes of a stream, and that no error ends it.
abbrev pub flatten : Stream → Bytes
flatten ends = []
flatten fails = []
flatten (buffer b bytes stream) = (b ∷ bytes) ++ flatten stream

abbrev pub IsHealthy : Stream → Type 0
IsHealthy ends = Unit
IsHealthy fails = ⊥
IsHealthy (buffer b bytes stream) = IsHealthy stream

-- The lines of the whole output, each with its line feed; the last one may have none.
unfoldable pub split_lines : Bytes → Bytes → List Bytes
split_lines [] current = if is_empty current then [] else current ∷ []
split_lines (b ∷ bytes) current =
    let line = current ++ (b ∷ []) in
    let ended = split_lines bytes [] in
    let longer = split_lines bytes line in if b == 10 then line ∷ ended else longer

-- What they come to, one after the other.
unfoldable pub take_all : Wire → List Bytes → ParsedOutput → ParsedOutput
take_all wire [] parsed = parsed
take_all wire (line ∷ lines) parsed =
    take_all wire lines (take_in wire (leb (length line) max_json_line_bytes) line parsed)

append_nil : (a : Bytes) → a ++ [] ≡ a
append_nil [] = refl
append_nil (x ∷ a) = ap (λ t. x ∷ t) (append_nil a)

append_assoc : (a b c : Bytes) → (a ++ b) ++ c ≡ a ++ (b ++ c)
append_assoc [] b c = refl
append_assoc (x ∷ a) b c = ap (λ t. x ∷ t) (append_assoc a b c)

length-append : (a b : Bytes) → length (a ++ b) ≡ length a + length b
length-append [] b = omega arith
length-append (x ∷ a) b = let ih = length-append a b in omega arith

take_line-append :
    (a b : Bytes)
    → ((take_line a).2 ≡ true)
        × (take_line (a ++ b) ≡ ((take_line a).0, (take_line a).1 ++ b, true))
      ⊎ ((take_line a).2 ≡ false)
        × ((take_line a).0 ≡ a)
        × ((take_line a).1 ≡ [])
        × (take_line (a ++ b) ≡ (a ++ (take_line b).0, (take_line b).1, (take_line b).2))
unfolding take_line
take_line-append [] b = inr (refl, refl, refl, refl)
take_line-append (x ∷ a) b = elim (Bool-cases (x == 10)) [
  | inl feed ↦ inl (rw (feed) refl, rw (feed) refl)
  | inr other ↦ elim (take_line-append a b) [
    | inl (e, whole) ↦ inl (rw (other) e, rw (other, whole) refl)
    | inr (e, all, rest, whole) ↦
        inr
          (rw (other) e, rw (other) (ap (λ t. x ∷ t) all), rw (other) rest, rw (other, whole) refl)
  ]
]

flatten-unread : (a : Bytes) (stream : Stream) → flatten (unread a stream) ≡ a ++ flatten stream
flatten-unread [] stream = refl
flatten-unread (b ∷ a) stream = refl

unread-IsHealthy : (a : Bytes) (stream : Stream) → IsHealthy stream → IsHealthy (unread a stream)
unread-IsHealthy [] stream h = h
unread-IsHealthy (b ∷ a) stream h = h

-- What reading a line off a healthy stream gives, in terms of the bytes that the stream holds.
record IsTaken (stream : Stream) (line : Bytes) (oversized read_any : Bool) : Type 0 where
  valid : Option Bool
  bytes : Bytes
  after : Stream
  read : read_bounded_line stream line oversized read_any ≡ ok (valid, bytes, after)
  left : flatten after ≡ (take_line (flatten stream)).1
  healthy : IsHealthy after
  judged : valid ≡ (
      if read_any || not (is_empty (flatten stream))
      then some (
          not oversized
          && leb (length line + length (take_line (flatten stream)).0) max_json_line_bytes)
      else none)
  kept : valid ≡ some true → bytes ≡ line ++ (take_line (flatten stream)).0

-- The line so far, with a buffer that still fits.
longer_than : Bytes → Bool → Bytes → Bytes
longer_than line oversized taken =
    if not oversized && leb (length line + length taken) max_json_line_bytes
    then line ++ taken
    else line

fits_in : Bytes → Bool → Bytes → Bool
fits_in line oversized taken = not oversized && leb (length line + length taken) max_json_line_bytes

small_line :
    (line : Bytes) (oversized : Bool) (taken : Bytes)
    → length line ≤ max_json_line_bytes
    → length (longer_than line oversized taken) ≤ max_json_line_bytes
unfolding longer_than
small_line line oversized taken h = ground (arith, length-append line taken)

-- What follows a buffer is judged as if it had come with it.
judged_together :
    (line taken more : Bytes) (oversized : Bool)
    → (not (not (fits_in line oversized taken))
        && leb (length (longer_than line oversized taken) + length more) max_json_line_bytes)
      ≡ (not oversized && leb (length line + length (taken ++ more)) max_json_line_bytes)
unfolding fits_in longer_than
judged_together line taken more oversized =
    ground (arith, length-append line taken, length-append taken more)

fits_lem :
    (line taken more : Bytes) (oversized : Bool)
    → (not oversized && leb (length line + length (taken ++ more)) max_json_line_bytes) ≡ true
    → longer_than line oversized taken ≡ line ++ taken
unfolding longer_than
fits_lem line taken more oversized h = ground (arith, length-append taken more)

fits_def :
    (line : Bytes) (oversized : Bool) (taken : Bytes)
    → fits_in line oversized taken
      ≡ (not oversized && leb (length line + length taken) max_json_line_bytes)
unfolding fits_in
fits_def line oversized taken = refl

grown :
    (line : Bytes) (oversized : Bool) (taken : Bytes)
    → fits_in line oversized taken ≡ true
    → longer_than line oversized taken ≡ line ++ taken
unfolding fits_in longer_than
grown line oversized taken e = rw e refl

module _ (b : ℕ) (bytes : Bytes) (stream : Stream) (line : Bytes) (oversized read_any : Bool) where
  ended_read :
      (take_line (b ∷ bytes)).2 ≡ true
      → read_bounded_line (buffer b bytes stream) line oversized read_any
        ≡ ok (
          some (fits_in line oversized (take_line (b ∷ bytes)).0),
          longer_than line oversized (take_line (b ∷ bytes)).0,
          unread (take_line (b ∷ bytes)).1 stream,
        )
  unfolding read_bounded_line fits_in longer_than
  ended_read e = rw e refl

  going_on :
      (take_line (b ∷ bytes)).2 ≡ false
      → read_bounded_line (buffer b bytes stream) line oversized read_any
        ≡ read_bounded_line stream
            (longer_than line oversized (take_line (b ∷ bytes)).0)
            (not (fits_in line oversized (take_line (b ∷ bytes)).0))
            true
  unfolding read_bounded_line fits_in longer_than
  going_on e = rw e refl

or_true : (a : Bool) → (a || true) ≡ true
or_true true = refl
or_true false = refl

module _ (b : ℕ) (bytes : Bytes) (stream : Stream) (line : Bytes) (oversized read_any : Bool) where
  abbrev available : Bytes
  available = b ∷ bytes

  ended_line :
      IsHealthy stream
      → (take_line available).2 ≡ true
      → take_line (available ++ flatten stream)
        ≡ ((take_line available).0, (take_line available).1 ++ flatten stream, true)
      → IsTaken (buffer b bytes stream) line oversized read_any
  ended_line h e whole =
      let taken = (take_line available).0 in
      let first : (take_line (available ++ flatten stream)).0 ≡ taken = ap (λ r. r.0) whole in
      record {
        valid = some (fits_in line oversized taken);
        bytes = longer_than line oversized taken;
        after = unread (take_line available).1 stream;
        read = ended_read b bytes stream line oversized read_any e;
        left = flatten-unread (take_line available).1 stream ∙ sym (ap (λ r. r.1) whole);
        healthy = unread-IsHealthy (take_line available).1 stream h;
        judged = rw (or_true read_any, first) (ap some (fits_def line oversized taken));
        kept = λ good. rw first (grown line oversized taken (some-inj good));
      }

  following_line :
      (take_line available).2 ≡ false
      → (take_line available).0 ≡ available
      → take_line (available ++ flatten stream) ≡ (
        available ++ (take_line (flatten stream)).0,
        (take_line (flatten stream)).1,
        (take_line (flatten stream)).2,
      )
      → IsTaken stream
          (longer_than line oversized (take_line available).0)
          (not (fits_in line oversized (take_line available).0))
          true
      → IsTaken (buffer b bytes stream) line oversized read_any
  following_line e all whole next =
      let taken = (take_line available).0 in
      let more = (take_line (flatten stream)).0 in
      let first : (take_line (available ++ flatten stream)).0 ≡ taken ++ more =
        ap (λ r. r.0) whole ∙ sym (ap (λ t. t ++ more) all) in
      let judged = next.judged ∙ ap some (judged_together line taken more oversized) in
      record {
        valid = next.valid;
        bytes = next.bytes;
        after = next.after;
        read = going_on b bytes stream line oversized read_any e ∙ next.read;
        left = next.left ∙ sym (ap (λ r. r.1) whole);
        healthy = next.healthy;
        judged = rw (or_true read_any, first) judged;
        kept = λ good. rw first (
            next.kept good
            ∙ ap (λ t. t ++ more)
                (fits_lem line taken more oversized (some-inj (sym judged ∙ good)))
            ∙ append_assoc line taken more);
      }

read_bounded_line-IsTaken :
    (stream : Stream) (line : Bytes) (oversized read_any : Bool)
    → length line ≤ max_json_line_bytes
    → IsHealthy stream
    → IsTaken stream line oversized read_any
unfolding take_line read_bounded_line
read_bounded_line-IsTaken ends line oversized read_any small h = record {
  valid = if read_any then some (not oversized) else none;
  bytes = line;
  after = ends;
  read = refl;
  left = refl;
  healthy = tt;
  judged = ground arith;
  kept = λ _. sym (append_nil line);
}
read_bounded_line-IsTaken fails line oversized read_any small h = absurd h
read_bounded_line-IsTaken (buffer b bytes stream) line oversized read_any small h =
    elim (take_line-append (b ∷ bytes) (flatten stream)) [
      | inl (e, whole) ↦ ended_line b bytes stream line oversized read_any h e whole
      | inr (e, all, rest, whole) ↦
          let longer = longer_than line oversized (take_line (b ∷ bytes)).0 in
          let spoilt = not (fits_in line oversized (take_line (b ∷ bytes)).0) in
          following_line b bytes stream line oversized read_any e all whole (
            read_bounded_line-IsTaken stream longer spoilt true
              (small_line line oversized (take_line (b ∷ bytes)).0 small) h)
    ]

-- The first line off the reference.
split_lines-take :
    (bytes current : Bytes)
    → ((take_line bytes).2 ≡ true)
        × (split_lines bytes current
            ≡ (current ++ (take_line bytes).0) ∷ split_lines (take_line bytes).1 [])
      ⊎ ((take_line bytes).2 ≡ false)
        × ((take_line bytes).0 ≡ bytes)
        × ((take_line bytes).1 ≡ [])
        × (split_lines bytes current ≡ split_lines [] (current ++ bytes))
unfolding take_line split_lines
split_lines-take [] current = inr (refl, refl, refl, rw (append_nil current) refl)
split_lines-take (b ∷ bytes) current = elim (Bool-cases (b == 10)) [
  | inl feed ↦ inl (rw (feed) refl, rw (feed) refl)
  | inr other ↦ elim (split_lines-take bytes (current ++ (b ∷ []))) [
    | inl (e, split) ↦ inl (
      rw (other) e,
      rw (other) (
          split
          ∙ ap (λ t. t ∷ split_lines (take_line bytes).1 [])
              (append_assoc current (b ∷ []) (take_line bytes).0)),
    )
    | inr (e, all, rest, split) ↦ inr (
      rw (other) e,
      rw (other) (ap (λ t. b ∷ t) all),
      rw (other) rest,
      rw (other) (split ∙ ap (λ t. split_lines [] t) (append_assoc current (b ∷ []) bytes)),
    )
  ]
]

-- The reference on output that is not empty.
split_lines-first :
    (b : ℕ) (bytes : Bytes)
    → split_lines (b ∷ bytes) []
      ≡ (take_line (b ∷ bytes)).0 ∷ split_lines (take_line (b ∷ bytes)).1 []
unfolding split_lines
split_lines-first b bytes = elim (split_lines-take (b ∷ bytes) []) [
  | inl (e, split) ↦ split
  | inr (e, all, rest, split) ↦ split ∙ rw (all, rest) refl
]

not_longer : (bytes : Bytes) → length (take_line bytes).1 ≤ length bytes
unfolding take_line
not_longer [] = omega arith
not_longer (b ∷ bytes) = let ih = not_longer bytes in ground arith

shorter : (b : ℕ) (bytes : Bytes) → length (take_line (b ∷ bytes)).1 < length (b ∷ bytes)
unfolding take_line
shorter b bytes = let ih = not_longer bytes in ground arith

-- A line that is too long leaves no trace but the mark.
take_in-same :
    (wire : Wire) (valid : Bool) (bytes line : Bytes) (parsed : ParsedOutput)
    → (valid ≡ true → bytes ≡ line)
    → take_in wire valid bytes parsed ≡ take_in wire valid line parsed
unfolding take_in
take_in-same wire false bytes line parsed e = refl
take_in-same wire true bytes line parsed e = ap (λ t. take_in wire true t parsed) (e refl)

bytes-cases : (bytes : Bytes) → (bytes ≡ []) ⊎ ((b : ℕ) × (rest : Bytes) × (bytes ≡ b ∷ rest))
bytes-cases [] = inl refl
bytes-cases (b ∷ bytes) = inr (b, bytes, refl)

from_nothing : (n : ℕ) → leb (length {A = ℕ} [] + n) max_json_line_bytes ≡ leb n max_json_line_bytes
from_nothing n = ground arith

-- The first line off a stream that is not empty.
record IsFirst (stream : Stream) (b : ℕ) (bytes : Bytes) : Type 0 where
  line : Bytes
  after : Stream
  read :
      read_bounded_line stream [] false false
      ≡ ok (some (leb (length (take_line (b ∷ bytes)).0) max_json_line_bytes), line, after)
  left : flatten after ≡ (take_line (b ∷ bytes)).1
  healthy : IsHealthy after
  kept :
      leb (length (take_line (b ∷ bytes)).0) max_json_line_bytes ≡ true
      → line ≡ (take_line (b ∷ bytes)).0

read_bounded_line-IsFirst :
    (stream : Stream) (b : ℕ) (bytes : Bytes)
    → IsHealthy stream
    → flatten stream ≡ b ∷ bytes
    → IsFirst stream b bytes
read_bounded_line-IsFirst stream b bytes h e =
    let l = read_bounded_line-IsTaken stream [] false false (omega arith) h in
    let same = ap take_line e in
    let valid : l.valid ≡ some (leb (length (take_line (b ∷ bytes)).0) max_json_line_bytes) =
      (rw e at l.judged) ∙ ap some (from_nothing (length (take_line (b ∷ bytes)).0)) in
    record {
      line = l.bytes;
      after = l.after;
      read = l.read ∙ ap (λ v. ok (v, l.bytes, l.after)) valid;
      left = l.left ∙ ap (λ r. r.1) same;
      healthy = l.healthy;
      kept = λ fits. l.kept (valid ∙ ap some fits) ∙ ap (λ r. r.0) same;
    }

size-flatten : (stream : Stream) → length (flatten stream) ≤ size stream
unfolding size
size-flatten ends = omega arith
size-flatten fails = omega arith
size-flatten (buffer b bytes stream) =
    let ih = size-flatten stream in let both = length-append bytes (flatten stream) in omega arith

module _ (wire : Wire) where
  read_empty :
      (n : ℕ) (stream : Stream) (parsed : ParsedOutput)
      → IsHealthy stream
      → flatten stream ≡ []
      → read_json_output wire (suc n) stream parsed ≡ some (ok parsed)
  unfolding read_json_output
  read_empty n stream parsed h e =
      let l = read_bounded_line-IsTaken stream [] false false (omega arith) h in
      let none_left : l.valid ≡ none = rw e at l.judged in
      let read = l.read ∙ ap (λ v. ok (v, l.bytes, l.after)) none_left in
      rw (read, read_json_output) refl

  read_first :
      (n : ℕ) (stream : Stream) (parsed : ParsedOutput) (b : ℕ) (bytes : Bytes)
      (l : IsFirst stream b bytes)
      → read_json_output wire (suc n) stream parsed
        ≡ read_json_output wire n l.after (
            take_in wire
              (leb (length (take_line (b ∷ bytes)).0) max_json_line_bytes)
              (take_line (b ∷ bytes)).0
              parsed)
  unfolding read_json_output
  read_first n stream parsed b bytes l =
      rw (l.read, read_json_output)
        (ap (read_json_output wire n l.after) (
          take_in-same wire (leb (length (take_line (b ∷ bytes)).0) max_json_line_bytes) l.line
            (take_line (b ∷ bytes)).0 parsed l.kept))

  read_json_output-lines :
      (n : ℕ) (stream : Stream) (parsed : ParsedOutput)
      → IsHealthy stream
      → length (flatten stream) < n
      → read_json_output wire n stream parsed
        ≡ some (ok (take_all wire (split_lines (flatten stream) []) parsed))
  unfolding split_lines take_all
  read_json_output-lines zero stream parsed h enough = absurd (omega arith)
  read_json_output-lines (suc n) stream parsed h enough = elim (bytes-cases (flatten stream)) [
    | inl e ↦ read_empty n stream parsed h e ∙ rw (e) refl
    | inr (b, bytes, e) ↦
        let l = read_bounded_line-IsFirst stream b bytes h e in
        let fits = leb (length (take_line (b ∷ bytes)).0) max_json_line_bytes in
        let next = take_in wire fits (take_line (b ∷ bytes)).0 parsed in
        let less = shorter b bytes in
        let ih =
          read_json_output-lines n l.after next l.healthy
            (omega (arith, ap length l.left, ap length e)) in
        read_first n stream parsed b bytes l
        ∙ ih
        ∙ ap (λ t. some (ok (take_all wire (split_lines t []) next))) l.left
        ∙ ap (λ t. some (ok (take_all wire t parsed)))
            (sym (ap (λ t. split_lines t []) e ∙ split_lines-first b bytes))
  ]

  -- Where restic's output can be read without an error, however it arrives, what is read of it is what its
  -- lines come to, one after the other, where each line of more than 1 MiB only leaves its mark; the reading
  -- comes to an end.
  pub read_output-lines :
      (stream : Stream)
      → IsHealthy stream
      → read_output wire stream
        ≡ ok (take_all wire (split_lines (flatten stream) []) nothing_parsed)
  unfolding read_output
  read_output-lines stream h =
      let bytes = size-flatten stream in
      rw (read_json_output-lines (suc (size stream)) stream nothing_parsed h (omega arith)) refl
