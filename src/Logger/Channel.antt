-- ===== src/Logger/Channel.antt =====
-- src/logger.rs: `Logger::log` and the control messages, in front of the bounded queue.
use xoslog.Prelude.{
  ℕ, ◌+◌, ◌%◌, ◌^◌, Bool, true, false, Option, none, some, List, [], ◌∷◌, ◌++◌, ltb, not,
  if◌then◌else◌, length,
}
use xoslog.Prelude.Text.{Text, Bytes, codes}
use xoslog.Prelude.Int.{ℤ}
use xoslog.Level.{Level}
use xoslog.Filter.{TargetFilter, enabled}
use xoslog.Time.{SystemTime, now}
use xoslog.Entry.{LogEntry, Field, new_entry, merge_context}
use xoslog.Json.{write_record}
use xoslog.Logger.Writer.{Message, log, flush, shutdown, format_record}

pub data Backpressure : Type 0 where
  block drop_newest : Backpressure

-- The part of `Inner` that is fixed when the logger is built, with the capacity of its queue
pub record Config : Type 0 where
  pub level : Level
  pub filter : TargetFilter
  pub time_offset_seconds : ℤ
  pub backpressure : Backpressure
  pub json : Bool
  pub capacity : ℕ

-- The part that changes: `connected` while the writer thread holds its end of the queue.
pub record Shared : Type 0 where
  pub queue : List Message
  pub connected : Bool
  pub closed : Bool
  pub dropped : ℕ

-- How a call ends: it waits for the queue to have room, or it returns, having written `stderr`.
pub data Call : Type 0 where
  waits : Call
  returns : Shared → Bytes → Call

unfoldable pub is_enabled : Config → Level → Bool
is_enabled c level = enabled c.filter [] level c.level

unfoldable pub is_enabled_for : Config → Level → Text → Bool
is_enabled_for c level target = enabled c.filter target level c.level

-- The getters `level` and `filter` of `Logger`, and `dropped_message_count`
abbrev pub logger_level : Config → Level
logger_level c = c.level

abbrev pub logger_filter : Config → TargetFilter
logger_filter c = c.filter

abbrev pub dropped_message_count : Shared → ℕ
dropped_message_count s = s.dropped

abbrev pub unavailable_notice : Bytes
unavailable_notice = codes "[xoslog] writer thread unavailable, logging synchronously\n"

abbrev pub enqueue : Message → Shared → Shared
enqueue m s = record s { queue = s.queue ++ (m ∷ []) }

-- `DropNewest` on a full queue
abbrev pub count_dropped : Shared → Shared
count_dropped s = record s { dropped = (s.dropped + 1) % 2 ^ 64 }

-- A call on a queue that is full
abbrev pub on_full : Backpressure → Shared → Call
on_full block s = waits
on_full drop_newest s = returns (count_dropped s) []

-- `send_ctrl`, and whether the message was sent
unfoldable pub send_ctrl : Config → Message → Shared → Option (Shared × Bool)
send_ctrl c m s =
    if not s.connected
    then some (s, false)
    else if ltb (length s.queue) c.capacity
    then some (enqueue m s, true)
    else none

-- `flush`, up to its wait for the acknowledgement
unfoldable pub flush_call : Config → ℕ → Shared → Option (Shared × Bool)
flush_call c ack s = send_ctrl c (flush ack) s

-- `shutdown`, up to its wait for the acknowledgement; the flag is set before the message is sent.
unfoldable pub close : Shared → Shared
close s = record s { closed = true }

unfoldable pub shutdown_call : Config → ℕ → Shared → Option (Shared × Bool)
shutdown_call c ack s = send_ctrl c (shutdown ack) (close s)

unfoldable pub stamp : Config → SystemTime → List Field → LogEntry → LogEntry
stamp c clock context entry =
    merge_context (record entry { timestamp = now clock c.time_offset_seconds }) context

-- The first half of `Logger::log`, before it takes the lock of the sender: the record that is to be
-- sent, if the logger is open and the record enabled.
unfoldable pub admit : Config → SystemTime → List Field → LogEntry → Shared → Option LogEntry
admit c clock context entry s =
    if s.closed
    then none
    else if not (is_enabled_for c entry.level entry.target)
    then none
    else some (stamp c clock context entry)

module _ (fmt_f64 : ℕ → Text) where
  unfoldable pub emergency_write : LogEntry → Bool → Bytes
  emergency_write entry json =
      unavailable_notice
      ++ (if json then write_record fmt_f64 entry false [] else format_record entry false [])

  -- The second half of `Logger::log`, under the lock of the sender
  unfoldable pub send_log : Config → LogEntry → Shared → Call
  send_log c entry s =
      if not s.connected
      then returns s (emergency_write entry c.json)
      else if ltb (length s.queue) c.capacity
      then returns (enqueue (log entry) s) []
      else on_full c.backpressure s

  unfoldable pub send_admitted : Config → Option LogEntry → Shared → Call
  send_admitted c none s = returns s []
  send_admitted c (some entry) s = send_log c entry s

  -- `Logger::log` where nothing comes between its halves; `clock` is the reading of the clock,
  -- `context` the thread's `current_context`.
  unfoldable pub log_call : Config → SystemTime → List Field → LogEntry → Shared → Call
  log_call c clock context entry s = send_admitted c (admit c clock context entry s) s

  -- `trace`, `debug`, `info`, `warn` and `error`, by their level
  unfoldable pub log_message : Config → SystemTime → List Field → Level → Text → Shared → Call
  log_message c clock context level message s =
      log_call c clock context (new_entry clock level message [] [] 0) s
