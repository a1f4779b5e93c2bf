-- ===== src/Logger/Files.antt =====
-- src/logger.rs with src/sink.rs: a logger that writes to a file.
use xoslog.Prelude.{
  ℕ, ◌+◌, ◌^◌, ◌<◌, ◌≡◌, ◌∙◌, sym, ap, Bool, false, none, [], ◌∷◌, ◌++◌, map, length, arith,
}
use xoslog.Prelude.Text.{Text, Bytes}
use xoslog.Sink.FileSink.{Faults}
use xoslog.Sink.Rotation.{IsQuiet}
use xoslog.Sink.Retained.{IsReady, retained}
use xoslog.Logger.Writer.{SinkSlot}
use xoslog.Logger.Delivery.{Reach-slots, receive_all}
use xoslog.Logger.Channel.{Config}
use xoslog.Logger.Queue.{Setup, System, Reach}
use xoslog.Logger.FileSlots.{FileState, Clock, file_ops, file_calm, written, slot_messages-written}

abbrev pub file_setup : Faults → Clock → (ℕ → Text) → Bool → Config → Setup FileState
file_setup faults clock fmt_f64 include_location config = record {
  ops = file_ops faults clock;
  fmt_f64 = fmt_f64;
  include_location = include_location;
  config = config;
}

module _ (faults : Faults) (clock : Clock) (fmt_f64 : ℕ → Text) (include_location : Bool)
    (config : Config) where
  abbrev logger : Setup FileState
  logger = file_setup faults clock fmt_f64 include_location config

  -- A logger with one file sink, which is open, not given up and has backups that are not its
  -- active file, and whose kernel refuses nothing, from a state where its writer has received
  -- nothing: however the threads run, the files of the sink hold, from the oldest backup to the
  -- active file, an end of what they held at first followed by the records received that the
  -- sink's floor lets pass, each formatted, once, in the order in which the queue accepted them.
  -- The size of the active file and those bytes stay below 2 ^ 64.
  pub Reach-written :
      (slot : SinkSlot FileState) {p q : System FileState}
      → IsQuiet faults
      → faults.write_stops ≡ none
      → Reach logger p q
      → p.received ≡ []
      → p.writer.slots ≡ slot ∷ []
      → slot.degraded ≡ false
      → IsReady slot.sink.sink slot.sink.disk
      → slot.sink.sink.size
          + length
              (written faults clock fmt_f64 include_location config.json slot.min_level q.received)
        < 2 ^ 64
      → (last : SinkSlot FileState) × (lost : Bytes) × (q.writer.slots ≡ last ∷ [])
        × (last.degraded ≡ false)
        × (lost ++ retained last.sink.sink last.sink.disk
            ≡ retained slot.sink.sink slot.sink.disk
              ++ written faults clock fmt_f64 include_location config.json slot.min_level
                  q.received)
  Reach-written slot {p} {q} quiet writes r none_yet one up ready room =
      let (l, received, slots) = Reach-slots logger (file_calm faults clock) r in
      let all : q.received ≡ l = received ∙ ap (λ r. r ++ l) none_yet in
      let bytes = written faults clock fmt_f64 include_location config.json slot.min_level in
      let (working, lost, kept) =
        slot_messages-written faults clock fmt_f64 include_location config.json quiet writes l slot
          (up, ready) (omega (arith, room, ap (λ ms. length (bytes ms)) all)) in
      (
        receive_all logger (file_calm faults clock) l slot,
        lost,
        slots ∙ ap (map (receive_all logger (file_calm faults clock) l)) one,
        working.0,
        kept ∙ ap (λ ms. retained slot.sink.sink slot.sink.disk ++ bytes ms) (sym all),
      )
