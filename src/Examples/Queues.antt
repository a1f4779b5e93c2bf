-- ===== src/Examples/Queues.antt =====
-- The queue between callers and writer on concrete runs.
use xoslog.Prelude.{◌≡◌, refl, true, false, some, List, [], ◌∷◌, ◌++◌, arith, ℕ, inr, length}
use xoslog.Prelude.Text.{codes}
use xoslog.Prelude.Int.{pos}
use xoslog.Level.{trace, info}
use xoslog.Time.{after_epoch}
use xoslog.Entry.{LogEntry}
use xoslog.Filter.{enabled, effective_level, best_match, default_level, global_default, find_global}
use xoslog.Logger.Writer.{
  Message, log, flush, shutdown, SinkSlot, new_slot, writer_step, handle_message, flush_slots,
  write_slots, write_slot, count_outcome,
}
use xoslog.Logger.Channel.{Config, drop_newest, admit, send_log, is_enabled_for, stamp, close}
use xoslog.Logger.Race.{Reach_lost}
use xoslog.Logger.Queue.{
  begun, Setup, System, Step, admits, sends, closes, receives, Reach, start, step, accepted, handle,
}
use xoslog.Logger.Sound.{IsSound, Reach-IsSound}
use xoslog.Logger.Order.{Reach-accepted}
use xoslog.Logger.Admission.{IsFiltered, Reach-IsFiltered}
use xoslog.Logger.Flushing.{has, Reach-acknowledged}
use xoslog.Logger.Ending.{Reach_answered, Reach-IsStuck, IsStuck}
use xoslog.Logger.Slots.{deliver_all}
use xoslog.Logger.Delivery.{Reach-deliver_all}
use xoslog.Logger.Channel.{log_call}
use xoslog.Logger.Global.{Place, log_macro, macro_entry, log_macro-log_call}
use xoslog.Examples.Loggers.{entry, good, no_float, writer}

abbrev pub config : Config
config = record {
  level = info;
  filter = record { directives = [] };
  time_offset_seconds = pos 0;
  backpressure = drop_newest;
  json = false;
  capacity = 1;
}

abbrev setup : Setup ℕ
setup = record { ops = good; fmt_f64 = no_float; include_location = true; config = config }

abbrev wide : Setup ℕ
wide = record setup { config = record config { capacity = 2 } }

abbrev sent : LogEntry
sent = stamp config (after_epoch 0 0) [] entry

-- Two threads bring one record each to a queue with room for one message: the first is accepted, the
-- other dropped, and the first received.
abbrev p0 : System ℕ
p0 = begun writer

abbrev p1 : System ℕ
p1 = record p0 { admitted = sent ∷ [] }

abbrev p2 : System ℕ
p2 = record p0 { admitted = sent ∷ sent ∷ [] }

abbrev p3 : System ℕ
p3 = record p0 {
  shared = record { queue = log sent ∷ []; connected = true; closed = false; dropped = 0 };
  admitted = sent ∷ [];
  offered = 1;
}

abbrev p4 : System ℕ
p4 = record p0 {
  shared = record { queue = log sent ∷ []; connected = true; closed = false; dropped = 1 };
  offered = 2;
}

abbrev p5 : System ℕ
p5 = record p0 {
  shared = record { queue = []; connected = true; closed = false; dropped = 1 };
  writer = handle setup (log sent) writer;
  received = log sent ∷ [];
  offered = 2;
}

first_admitted : Step setup p0 p1
unfolding admit is_enabled_for enabled effective_level best_match default_level global_default
    find_global
first_admitted = admits (after_epoch 0 0) [] entry sent refl

second_admitted : Step setup p1 p2
unfolding admit is_enabled_for enabled effective_level best_match default_level global_default
    find_global
second_admitted = admits (after_epoch 0 0) [] entry sent refl

first_sent : Step setup p2 p3
unfolding send_log
first_sent = sends [] sent (sent ∷ []) p3.shared [] refl refl

second_sent : Step setup p3 p4
unfolding send_log
second_sent = sends [] sent [] p4.shared [] refl refl

first_received : Step setup p4 p5
unfolding writer_step handle_message
first_received = receives (log sent) [] refl refl

p5-Reach : Reach setup p0 p5
p5-Reach =
    step (step (step (step (step start first_admitted) second_admitted) first_sent) second_sent)
      first_received

p0-IsSound : IsSound setup p0
p0-IsSound = record {
  bounded = omega arith;
  counted = omega arith;
  lossless = inr refl;
  linked = refl;
}

Reach-IsSound_example : IsSound setup p5
Reach-IsSound_example = Reach-IsSound setup p5-Reach (omega arith) p0-IsSound

Reach-accepted_example : (l : List Message) × (accepted p5 ≡ accepted p0 ++ l)
Reach-accepted_example = Reach-accepted setup p5-Reach

Reach-IsFiltered_example : IsFiltered setup p5
Reach-IsFiltered_example = Reach-IsFiltered setup p5-Reach (record { waiting = tt; messages = tt })

-- A flush waits behind a record, and a shutdown behind it.
abbrev w0 : System ℕ
w0 = record (begun writer) {
  shared = record {
    queue = log sent ∷ flush 7 ∷ [];
    connected = true;
    closed = false;
    dropped = 0;
  };
}

abbrev w2 : System ℕ
w2 = record w0 {
  shared = record { queue = []; connected = true; closed = false; dropped = 0 };
  writer = handle wide (flush 7) (handle wide (log sent) writer);
  received = log sent ∷ flush 7 ∷ [];
}

w2-Reach : Reach wide w0 w2
unfolding writer_step handle_message flush_slots write_slots write_slot count_outcome
w2-Reach =
    step (step start (receives (log sent) (flush 7 ∷ []) refl refl))
      (receives (flush 7) [] refl refl)

w2_acknowledged : has 7 w2.writer.acks ≡ true
unfolding writer_step handle_message flush_slots write_slots write_slot count_outcome
w2_acknowledged = refl

Reach-acknowledged_example :
    (rest : List Message) × (w2.received ≡ (log sent ∷ []) ++ (flush 7 ∷ rest))
Reach-acknowledged_example =
    Reach-acknowledged wide 7 (flush 7) (log sent ∷ []) w2-Reach refl refl (refl, tt) refl
      w2_acknowledged

Reach_answered_example :
    (q : System ℕ) × Reach wide w0 q
    × (q.received ≡ log sent ∷ flush 7 ∷ [])
    × (acks : List ℕ) × (q.writer.acks ≡ acks ++ (7 ∷ []))
Reach_answered_example =
    Reach_answered wide (log sent ∷ []) [] 7 w0 refl refl (refl, tt) (λ s. refl)

-- The writer is gone, a record waits, and the logger is closed once more.
abbrev gone : System ℕ
gone = record w0 {
  shared = record { queue = log sent ∷ []; connected = false; closed = false; dropped = 0 };
}

abbrev gone_closed : System ℕ
gone_closed = record gone { shared = close gone.shared }

gone-Reach : Reach setup gone gone_closed
gone-Reach = step start closes

Reach-IsStuck_example : IsStuck setup gone gone_closed
Reach-IsStuck_example = Reach-IsStuck setup gone-Reach refl

entry_enabled : is_enabled_for (record config { capacity = 2 }) entry.level entry.target ≡ true
unfolding is_enabled_for enabled effective_level best_match default_level global_default find_global
entry_enabled = refl

Reach_lost_example :
    (q : System ℕ) × Reach wide (begun writer) q
    × (q.shared.queue
        ≡ log (stamp (record config { capacity = 2 }) (after_epoch 0 0) [] entry) ∷ [])
    × (q.received ≡ shutdown 3 ∷ [])
    × (q.shared.connected ≡ false)
    × (q.shared.dropped ≡ 0)
    × (q.stderr ≡ [])
Reach_lost_example =
    Reach_lost wide (after_epoch 0 0) [] entry 3 writer entry_enabled (omega arith) (λ s. refl)

Reach-deliver_all_example :
    (l : List Message) × (c : List (SinkSlot ℕ)) × (d : List (SinkSlot ℕ)) × (last : SinkSlot ℕ)
    × (p5.received ≡ p0.received ++ l)
    × (p5.writer.slots ≡ c ++ (last ∷ d))
    × (length c ≡ 1)
    × (last.sink ≡ deliver_all good no_float true false info l 0)
    × (last.degraded ≡ false)
Reach-deliver_all_example =
    Reach-deliver_all setup (λ s. refl) (λ s. Unit {0}) (λ s e b h. (refl, tt)) (λ s h. tt)
      (new_slot 0 trace ∷ []) [] (new_slot 0 info) p5-Reach refl refl tt

abbrev place : Place
place = record { module_path = codes "app"; file = codes "main.rs"; line = 3 }

log_macro-log_call_example :
    log_macro no_float
      (some config)
      (after_epoch 0 0)
      (after_epoch 1 0)
      []
      info
      []
      (codes "up")
      place
      p0.shared
    ≡ log_call no_float config
        (after_epoch 1 0)
        []
        (macro_entry no_float (after_epoch 0 0) info [] (codes "up") place)
        p0.shared
log_macro-log_call_example =
    log_macro-log_call no_float config (after_epoch 0 0) (after_epoch 1 0) [] info [] (codes "up")
      place p0.shared
