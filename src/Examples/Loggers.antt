-- ===== src/Examples/Loggers.antt =====
-- The writer thread on concrete runs.
use xoslog.Prelude.{◌≡◌, ◌+◌, refl, inl, some, true, false, [], ◌∷◌, ◌++◌, ℕ, if◌then◌else◌, leb}
use xoslog.Prelude.Text.{Text, Bytes, codes}
use xoslog.Prelude.Int.{pos}
use xoslog.Level.{trace, info, warn}
use xoslog.Entry.{LogEntry}
use xoslog.Logger.Writer.{
  SinkOps, ok, failed, panicked, flush, shutdown, SinkSlot, new_slot, Writer, writer_loop,
  writer_step, flush_slots, sink_failed_notice, handle_message,
}
use xoslog.Logger.Degrade.{run, texts_after, run_failing}
use xoslog.Logger.Fanout.{writer_loop-shutdown}
use xoslog.Logger.Panics.{HasBroken, BreaksFlush, Reach-never_ends}
use xoslog.Logger.Channel.{block, enqueue, send_ctrl}
use xoslog.Logger.Queue.{Setup, System, begun, receive, controls, receives, Reach, start, step}

abbrev pub entry : LogEntry
entry = record {
  timestamp = record {
    year = pos 2026;
    month = 1;
    day = 2;
    hour = 12;
    minute = 0;
    second = 0;
    microsecond = 0;
    offset_seconds = pos 0;
  };
  level = warn;
  message = codes "hi";
  target = [];
  file = [];
  line = 0;
  fields = [];
}

-- Sinks that hold how often they were called: one takes every record, one fails every write, and
-- one panics when it is flushed.
abbrev pub good : SinkOps ℕ
good = record { write_entry = λ s e b. (ok, s + 1); flush = λ s. (ok, s) }

abbrev bad : SinkOps ℕ
bad = record { write_entry = λ s e b. (failed, s + 1); flush = λ s. (panicked, s) }

abbrev pub no_float : ℕ → Text
no_float f = codes "0"

abbrev pub writer : Writer ℕ
writer = record {
  running = true;
  slots = new_slot 0 trace ∷ new_slot 0 info ∷ [];
  stderr = [];
  acks = [];
}

abbrev slot : SinkSlot ℕ
slot = new_slot 0 trace

abbrev pair : LogEntry × Bytes
pair = (entry, codes "hi\n")

run_failing_example :
    ((run bad (pair ∷ pair ∷ []) slot).0.degraded ≡ leb 8 2)
    × ((run bad (pair ∷ pair ∷ []) slot).1
        ≡ (if leb 8 2 then sink_failed_notice ++ texts_after bad 8 (pair ∷ pair ∷ []) else []))
run_failing_example =
    run_failing bad (λ s e b. refl) (pair ∷ pair ∷ []) slot 7 refl refl (refl, (refl, tt))

abbrev bad_setup : Setup ℕ
bad_setup = record {
  ops = bad;
  fmt_f64 = no_float;
  include_location = true;
  config = record {
    level = trace;
    filter = record { directives = [] };
    time_offset_seconds = pos 0;
    backpressure = block;
    json = false;
    capacity = 4;
  };
}

-- Every sink of `bad` panics when it is flushed.
bad_breaks : BreaksFlush {S = ℕ} (λ s. Unit) bad
bad_breaks = record { panics = λ s h. refl; flushed = λ s h. tt; written = λ s e buf h. tt }

asked :
    send_ctrl bad_setup.config (shutdown 5) (begun writer).shared
    ≡ some (enqueue (shutdown 5) (begun writer).shared, true)
unfolding send_ctrl
asked = refl

-- The writer has taken a shutdown message.
abbrev after_shutdown : System ℕ
after_shutdown =
    receive bad_setup (shutdown 5) []
      (record (begun writer) { shared = enqueue (shutdown 5) (begun writer).shared })

after_shutdown-Reach : Reach bad_setup (begun writer) after_shutdown
after_shutdown-Reach =
    step
      (step start
        (controls (shutdown 5) (enqueue (shutdown 5) (begun writer).shared) true refl asked))
      (receives (shutdown 5) [] refl refl)

Reach-never_ends_example :
    (after_shutdown.writer.running ≡ true)
    × (after_shutdown.shared.connected ≡ true)
    × (after_shutdown.writer.acks ≡ [])
    × HasBroken {S = ℕ} (λ s. Unit) after_shutdown.writer.slots
Reach-never_ends_example =
    Reach-never_ends {S = ℕ} (λ s. Unit) bad_setup bad_breaks after_shutdown-Reach refl refl
      (inl tt)

flushed_runs : (writer_loop good no_float true false (flush 1 ∷ []) writer).running ≡ true
unfolding writer_loop writer_step handle_message flush_slots
flushed_runs = refl

writer_loop-shutdown_example :
    (writer_loop good no_float true false ((flush 1 ∷ []) ++ (shutdown 2 ∷ flush 3 ∷ [])) writer
      ≡ writer_step good no_float true false
          (shutdown 2)
          (writer_loop good no_float true false (flush 1 ∷ []) writer))
    × ((writer_loop good no_float true false
          ((flush 1 ∷ []) ++ (shutdown 2 ∷ flush 3 ∷ []))
          writer).running
        ≡ false)
    × ((writer_loop good no_float true false
          ((flush 1 ∷ []) ++ (shutdown 2 ∷ flush 3 ∷ []))
          writer).acks
        ≡ (writer_loop good no_float true false (flush 1 ∷ []) writer).acks ++ (2 ∷ []))
writer_loop-shutdown_example =
    writer_loop-shutdown good no_float true false (λ s. refl) (flush 1 ∷ []) (flush 3 ∷ []) 2 writer
      flushed_runs
