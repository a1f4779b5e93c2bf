-- ===== src/Logger/Writer.antt =====
-- src/logger.rs: the writer thread. A sink is known by what its two operations do to its state; a
-- call that panics leaves a state behind as well.
use xoslog.Prelude.{ℕ, ◌+◌, Bool, true, false, not, ◌&&◌, List, [], ◌∷◌, ◌++◌, leb, if◌then◌else◌}
use xoslog.Prelude.Text.{Text, Bytes, codes, as_bytes, is_empty}
use xoslog.Level.{Level, as_str, level_lt}
use xoslog.Time.{display}
use xoslog.Entry.{LogEntry, location}
use xoslog.Json.{write_record}

pub data CallResult : Type 0 where
  ok failed panicked : CallResult

-- The trait `Sink`, of a sink with states in `S`
pub record SinkOps {ℓ} (S : Type ℓ) : Type ℓ where
  pub write_entry : S → LogEntry → Bytes → CallResult × S
  pub flush : S → CallResult × S

pub data Message : Type 0 where
  log : LogEntry → Message
  flush shutdown : ℕ → Message

pub record SinkSlot {ℓ} (S : Type ℓ) : Type ℓ where
  pub sink : S
  pub min_level : Level
  pub consecutive_errors : ℕ
  pub degraded : Bool

abbrev pub new_slot {ℓ} : {S : Type ℓ} → S → Level → SinkSlot S
new_slot sink min_level = record {
  sink = sink;
  min_level = min_level;
  consecutive_errors = 0;
  degraded = false;
}

-- What handling one message has done; `panics` if a panic escaped it.
pub record Handled {ℓ} (S : Type ℓ) : Type ℓ where
  pub panics : Bool
  pub stop : Bool
  pub slots : List (SinkSlot S)
  pub stderr : Bytes
  pub acks : List ℕ

-- The writer thread: what it has put out, and the acknowledgements that it has sent.
pub record Writer {ℓ} (S : Type ℓ) : Type ℓ where
  pub running : Bool
  pub slots : List (SinkSlot S)
  pub stderr : Bytes
  pub acks : List ℕ

abbrev pub max_consecutive_write_errors : ℕ
max_consecutive_write_errors = 8

-- `format_record` appends to `out`.
unfoldable pub format_record : LogEntry → Bool → Bytes → Bytes
format_record e include_location out =
    let line = display e.timestamp ++ codes " [" ++ as_str e.level ++ codes "] " ++ e.message in
    let place =
      if include_location && not (is_empty (location e))
      then codes " (" ++ location e ++ codes ")"
      else [] in
    out ++ as_bytes (line ++ place) ++ codes "\n"

abbrev pub sink_failed_notice : Bytes
sink_failed_notice = codes "[xoslog] a sink failed, falling back to stderr\n"

-- What a step leaves behind, with what it wrote to standard error.
abbrev pub WithStderr {ℓ} : Type ℓ → Type ℓ
WithStderr A = A × Bytes

module _ {ℓ} {S : Type ℓ} (ops : SinkOps S) where
  -- The end of a write to a sink that is not degraded
  unfoldable pub count_outcome : SinkSlot S → CallResult × S → WithStderr (SinkSlot S)
  count_outcome slot (ok, sink) = (record slot { sink = sink; consecutive_errors = 0 }, [])
  count_outcome slot (_, sink) =
      let errors = slot.consecutive_errors + 1 in
      if leb max_consecutive_write_errors errors
      then (
        record slot { sink = sink; consecutive_errors = errors; degraded = true },
        sink_failed_notice,
      )
      else (record slot { sink = sink; consecutive_errors = errors }, [])

  -- One round of the loop over the slots
  unfoldable pub write_slot : LogEntry → Bytes → SinkSlot S → WithStderr (SinkSlot S)
  write_slot entry buf slot =
      if level_lt entry.level slot.min_level
      then (slot, [])
      else if slot.degraded
      then (slot, buf)
      else count_outcome slot (ops.write_entry slot.sink entry buf)

  unfoldable pub write_slots : LogEntry → Bytes → List (SinkSlot S) → WithStderr (List (SinkSlot S))
  write_slots entry buf [] = ([], [])
  write_slots entry buf (slot ∷ slots) =
      let (next, err) = write_slot entry buf slot in
      let (rest, errs) = write_slots entry buf slots in (next ∷ rest, err ++ errs)

  abbrev pub is_panic : CallResult → Bool
  is_panic panicked = true
  is_panic _ = false

  -- Flushing all slots, up to the first that panics; its errors are ignored.
  unfoldable pub flush_slots : List (SinkSlot S) → Bool × List (SinkSlot S)
  flush_slots [] = (false, [])
  flush_slots (slot ∷ slots) =
      let (result, sink) = ops.flush slot.sink in
      let (panics, rest) = flush_slots slots in
      if is_panic result
      then (true, record slot { sink = sink } ∷ slots)
      else (panics, record slot { sink = sink } ∷ rest)

  -- Flush and acknowledge; a panic ends the closure before the acknowledgement.
  abbrev pub acknowledge : ℕ → Bool → Bool × List (SinkSlot S) → Handled S
  acknowledge ack stop (panics, slots) = record {
    panics = panics;
    stop = stop;
    slots = slots;
    stderr = [];
    acks = if panics then [] else ack ∷ [];
  }

  module _ (fmt_f64 : ℕ → Text) (include_location json : Bool) where
    abbrev pub format : LogEntry → Bytes
    format entry =
        if json
        then write_record fmt_f64 entry include_location []
        else format_record entry include_location []

    unfoldable pub handle_message : Message → List (SinkSlot S) → Handled S
    handle_message (log entry) slots =
        let (next, err) = write_slots entry (format entry) slots in
        record { panics = false; stop = false; slots = next; stderr = err; acks = [] }
    handle_message (flush ack) slots = acknowledge ack false (flush_slots slots)
    handle_message (shutdown ack) slots = acknowledge ack true (flush_slots slots)

    abbrev pub degrade_all : List (SinkSlot S) → List (SinkSlot S)
    degrade_all [] = []
    degrade_all (slot ∷ slots) = record slot { degraded = true } ∷ degrade_all slots

    abbrev pub caught : Writer S → Handled S → Writer S
    caught w h = record {
      running = if h.panics then true else not h.stop;
      slots = if h.panics then degrade_all h.slots else h.slots;
      stderr = w.stderr ++ h.stderr;
      acks = w.acks ++ h.acks;
    }

    -- One round of `writer_loop`
    unfoldable pub writer_step : Message → Writer S → Writer S
    writer_step m w = caught w (handle_message m w.slots)

    -- `writer_loop` on the messages that it receives before the channel is closed
    unfoldable pub writer_loop : List Message → Writer S → Writer S
    writer_loop [] w = w
    writer_loop (m ∷ ms) w =
        let rest = writer_loop ms (writer_step m w) in if w.running then rest else w

    -- The last flush, when the loop has ended
    unfoldable pub finish : Writer S → Writer S
    finish w = record w { slots = (flush_slots w.slots).1 }
