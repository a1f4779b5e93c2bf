-- ===== src/Logger/Queue.antt =====
-- src/logger.rs: calls of all threads and the rounds of the writer thread, in any order. A call of
-- `log` has two steps, since other threads may come between its test and its lock of the sender.
use xoslog.Prelude.{ℕ, ◌+◌, ◌≡◌, Bool, true, false, some, List, [], ◌∷◌, ◌++◌, if◌then◌else◌, arith}
use xoslog.Prelude.Text.{Text, Bytes}
use xoslog.Time.{SystemTime}
use xoslog.Entry.{LogEntry, Field}
use xoslog.Logger.Writer.{Message, log, flush, shutdown, SinkOps, Writer, writer_step, writer_loop}
use xoslog.Logger.Channel.{Config, Shared, returns, admit, send_log, send_ctrl, close}

-- All that is fixed when a logger is built
pub record Setup {ℓ} (S : Type ℓ) : Type ℓ where
  pub ops : SinkOps S
  pub fmt_f64 : ℕ → Text
  pub include_location : Bool
  pub config : Config

-- `received` are the messages that the writer has taken from the queue, `admitted` the records of
-- the calls of `log` that are between their two steps, `offered` counts the records that were
-- brought to a connected queue, and `stderr` is what callers have written there.
pub record System {ℓ} (S : Type ℓ) : Type ℓ where
  pub shared : Shared
  pub writer : Writer S
  pub received : List Message
  pub admitted : List LogEntry
  pub offered : ℕ
  pub stderr : Bytes

-- A logger whose writer has just been started
abbrev pub begun {ℓ} : {S : Type ℓ} → Writer S → System S
begun w = record {
  shared = record { queue = []; connected = true; closed = false; dropped = 0 };
  writer = w;
  received = [];
  admitted = [];
  offered = 0;
  stderr = [];
}

abbrev pub offer : Bool → ℕ → ℕ
offer b n = if b then n + 1 else n

abbrev pub is_log : Message → Bool
is_log (log e) = true
is_log (flush ack) = false
is_log (shutdown ack) = false

abbrev pub count_logs : List Message → ℕ
count_logs [] = 0
count_logs (m ∷ ms) = if is_log m then count_logs ms + 1 else count_logs ms

pub count_logs-append : (a b : List Message) → count_logs (a ++ b) ≡ count_logs a + count_logs b
count_logs-append [] b = omega arith
count_logs-append (m ∷ a) b = ground (arith, count_logs-append a b)

module _ {ℓ} {S : Type ℓ} where
  -- All messages that the queue has taken, in their order
  abbrev pub accepted : System S → List Message
  accepted p = p.received ++ p.shared.queue

  abbrev pub handle : Setup S → Message → Writer S → Writer S
  handle g m w = writer_step g.ops g.fmt_f64 g.include_location g.config.json m w

  abbrev pub handle_all : Setup S → List Message → Writer S → Writer S
  handle_all g ms w = writer_loop g.ops g.fmt_f64 g.include_location g.config.json ms w

  -- The writer takes one message; when its loop ends it lets go of the queue. The source flushes the
  -- sinks once more between the two (`finish`); here they are one step.
  abbrev pub receive : Setup S → Message → List Message → System S → System S
  receive g m rest p = record p {
    shared = record (p.shared) { queue = rest; connected = (handle g m p.writer).running };
    writer = handle g m p.writer;
    received = p.received ++ (m ∷ []);
  }

  -- The end of a call of `log` with the record `sent`
  abbrev pub send : List LogEntry → Shared → Bytes → System S → System S
  send waiting s err p = record p {
    shared = s;
    admitted = waiting;
    offered = offer p.shared.connected p.offered;
    stderr = p.stderr ++ err;
  }

  module _ (g : Setup S) where
    pub data Step (p : System S) : System S → Type ℓ where
      admits :
          (clock : SystemTime) (context : List Field) (entry sent : LogEntry)
          → admit g.config clock context entry p.shared ≡ some sent
          → Step p (record p { admitted = sent ∷ p.admitted })
      sends :
          (a : List LogEntry) (sent : LogEntry) (b : List LogEntry) (s : Shared) (err : Bytes)
          → p.admitted ≡ a ++ (sent ∷ b)
          → send_log g.fmt_f64 g.config sent p.shared ≡ returns s err
          → Step p (send (a ++ b) s err p)
      controls :
          (m : Message) (s : Shared) (sent : Bool)
          → is_log m ≡ false
          → send_ctrl g.config m p.shared ≡ some (s, sent)
          → Step p (record p { shared = s })
      closes : Step p (record p { shared = close p.shared })
      receives :
          (m : Message) (rest : List Message)
          → p.shared.connected ≡ true
          → p.shared.queue ≡ m ∷ rest
          → Step p (receive g m rest p)

    pub data Reach (p : System S) : System S → Type ℓ where
      start : Reach p p
      step : {q r : System S} → Reach p q → Step q r → Reach p r
