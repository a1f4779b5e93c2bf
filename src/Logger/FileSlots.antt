-- ===== src/Logger/FileSlots.antt =====
-- src/logger.rs with src/sink.rs: a slot of the writer whose sink is a file.
use xoslog.Prelude.{
  ℕ, ◌+◌, ◌≤◌, ◌^◌, ◌<◌, ◌≡◌, ◌∙◌, refl, sym, ap, Bool, false, Option, none, some, List, [], ◌∷◌,
  ◌++◌, length, length-append, append_assoc, append-nil, if_true, if_false, if◌then◌else◌,
  Bool-cases, inl, inr, subst, arith, ◌||◌,
}
use xoslog.Prelude.Text.{Text, Bytes}
use xoslog.Time.{SystemTime}
use xoslog.Level.{Level, level_lt}
use xoslog.Entry.{LogEntry}
use xoslog.Sink.Disk.{Disk}
use xoslog.Sink.FileSink.{FileSink, Faults, FileError, flush_failed, write_bytes}
use xoslog.Sink.FileSink
use xoslog.Sink.Rotation.{IsQuiet}
use xoslog.Sink.Retained.{IsReady, retained, oldest}
use xoslog.Sink.Stream.{write_bytes-retained}
use xoslog.Logger.Writer.{
  CallResult, ok, failed, panicked, SinkOps, SinkSlot, Message, log, flush, shutdown, format,
  write_slot, count_outcome, is_panic,
}
use xoslog.Logger.Degrade.{write_slot_skipped, write_slot_called}
use xoslog.Logger.Slots.{slot_message, slot_messages}

-- A file sink with its file system; `writes` counts the calls of `write_bytes`.
pub record FileState : Type 0 where
  pub sink : FileSink
  pub disk : Disk
  pub writes : ℕ

abbrev pub result : Option FileError → CallResult
result none = ok
result (some e) = failed

-- The two readings of the clock that a call of `write_bytes` may make
pub record Clock : Type 0 where
  pub now : ℕ → SystemTime
  pub later : ℕ → SystemTime

module _ (faults : Faults) (clock : Clock) where
  -- `Sink::write_entry` passes the formatted record on to `write_bytes`.
  unfoldable pub write_file : FileState → Bytes → CallResult × FileState
  write_file s bytes =
      let r = write_bytes faults (clock.now s.writes) (clock.later s.writes) bytes s.sink s.disk in
      (result r.error, record { sink = r.sink; disk = r.disk; writes = s.writes + 1 })

  unfoldable pub flush_file : FileState → CallResult × FileState
  flush_file s = (result (FileSink.flush faults s.sink), s)

  -- `impl Sink for FileSink`
  abbrev pub file_ops : SinkOps FileState
  file_ops = record { write_entry = λ s e bytes. write_file s bytes; flush = flush_file }

  pub file_calm : (s : FileState) → is_panic file_ops (file_ops.flush s).0 ≡ false
  unfolding flush_file FileSink.flush
  file_calm s = elim (Bool-cases faults.flush_fails) [ inl e ↦ rw e refl | inr e ↦ rw e refl ]

  -- A file sink that has not been given up, and is in order
  abbrev pub IsWorking : SinkSlot FileState → Type 0
  IsWorking slot = (slot.degraded ≡ false) × IsReady slot.sink.sink slot.sink.disk

  taken :
      (slot : SinkSlot FileState) (r : CallResult × FileState)
      → r.0 ≡ ok
      → let next = (count_outcome file_ops slot r).0 in
        (next.sink ≡ r.1) × (next.degraded ≡ slot.degraded) × (next.min_level ≡ slot.min_level)
  unfolding count_outcome
  taken slot (ok, s) e = (refl, refl, refl)
  taken slot (failed, s) e = cc
  taken slot (panicked, s) e = cc

  module _ (fmt_f64 : ℕ → Text) (include_location json : Bool) where
    -- What a message has a sink with this floor write
    abbrev pub record_text : Level → Message → Bytes
    record_text min_level (log e) =
        if level_lt e.level min_level then [] else format file_ops fmt_f64 include_location json e
    record_text min_level (flush ack) = []
    record_text min_level (shutdown ack) = []

    -- The records among the messages that pass the floor, formatted, one after the other
    abbrev pub written : Level → List Message → Bytes
    written min_level [] = []
    written min_level (m ∷ ms) = record_text min_level m ++ written min_level ms

    abbrev text : SinkSlot FileState → Bytes
    text slot = retained slot.sink.sink slot.sink.disk

    -- What has become of a slot to which `bytes` were written.
    record Wrote (bytes : Bytes) (slot next : SinkSlot FileState) : Type 0 where
      pub working : IsWorking next
      pub floor : next.min_level ≡ slot.min_level
      pub lost : Bytes
      pub kept : lost ++ text next ≡ text slot ++ bytes
      pub size : next.sink.sink.size ≤ slot.sink.sink.size + length bytes

    unchanged-Wrote :
        (slot next : SinkSlot FileState) → next ≡ slot → IsWorking slot → Wrote [] slot next
    unchanged-Wrote slot next e h = subst (Wrote [] slot) (sym e) (record {
      working = h;
      floor = refl;
      lost = [];
      kept = sym (append-nil (text slot));
      size = omega arith;
    })

    module _ (quiet : IsQuiet faults) (writes : faults.write_stops ≡ none) where
      write_slot-Wrote :
          (e : LogEntry) (slot : SinkSlot FileState)
          → level_lt e.level slot.min_level ≡ false
          → IsWorking slot
          → let bytes = format file_ops fmt_f64 include_location json e in
            slot.sink.sink.size + length bytes < 2 ^ 64
            → Wrote bytes slot (write_slot file_ops e bytes slot).0
      unfolding write_file
      write_slot-Wrote e slot meant (up, ready) room =
          let bytes = format file_ops fmt_f64 include_location json e in
          let s = slot.sink in
          let now = clock.now s.writes in
          let later = clock.later s.writes in
          let (no_error, still, text_is, size) =
            write_bytes-retained faults now later bytes s.sink s.disk quiet writes ready room in
          let given_up =
            if FileSink.size_hit s.sink bytes || FileSink.interval_elapsed now s.sink
            then oldest s.sink s.disk
            else [] in
          let (sink, same, floor) = taken slot (write_file s bytes) (ap result no_error) in
          subst (λ (r : SinkSlot FileState × Bytes). Wrote bytes slot r.0)
            (sym (write_slot_called file_ops e bytes slot meant up))
            (record {
              working =
                  (same ∙ up, subst (λ (f : FileState). IsReady f.sink f.disk) (sym sink) still);
              floor = floor;
              lost = given_up;
              kept = ap (λ (f : FileState). given_up ++ retained f.sink f.disk) sink ∙ text_is;
              size =
                  subst (λ (f : FileState). f.sink.size ≤ s.sink.size + length bytes) (sym sink)
                    size;
            })

      slot_message-Wrote :
          (m : Message) (slot : SinkSlot FileState)
          → IsWorking slot
          → slot.sink.sink.size + length (record_text slot.min_level m) < 2 ^ 64
          → Wrote
              (record_text slot.min_level m)
              slot
              (slot_message file_ops fmt_f64 include_location json m slot)
      unfolding flush_file
      slot_message-Wrote (log e) slot h room = elim (Bool-cases (level_lt e.level slot.min_level)) [
        | inl k ↦
            let bytes = format file_ops fmt_f64 include_location json e in
            let skipped = write_slot_skipped file_ops e bytes slot k in
            subst (λ (b : Bytes). Wrote b slot (write_slot file_ops e bytes slot).0)
              (sym (if_true _ _ k))
              (unchanged-Wrote slot (write_slot file_ops e bytes slot).0
                (ap (λ (r : SinkSlot FileState × Bytes). r.0) skipped) h)
        | inr k ↦
            let bytes = format file_ops fmt_f64 include_location json e in
            let fits =
              subst (λ (b : Bytes). slot.sink.sink.size + length b < 2 ^ 64) (if_false _ _ k)
                room in
            subst (λ (b : Bytes). Wrote b slot (write_slot file_ops e bytes slot).0)
              (sym (if_false _ _ k)) (write_slot-Wrote e slot k h fits)
      ]
      slot_message-Wrote (flush ack) slot h room = unchanged-Wrote slot slot refl h
      slot_message-Wrote (shutdown ack) slot h room = unchanged-Wrote slot slot refl h

      pub slot_messages-written :
          (ms : List Message) (slot : SinkSlot FileState)
          → IsWorking slot
          → slot.sink.sink.size + length (written slot.min_level ms) < 2 ^ 64
          → let last = slot_messages file_ops fmt_f64 include_location json ms slot in
            IsWorking last
            × (lost : Bytes) × (lost ++ retained last.sink.sink last.sink.disk
                ≡ retained slot.sink.sink slot.sink.disk ++ written slot.min_level ms)
      slot_messages-written [] slot h room = (h, [], sym (append-nil (text slot)))
      slot_messages-written (m ∷ ms) slot h room =
          let next = slot_message file_ops fmt_f64 include_location json m slot in
          let here = record_text slot.min_level m in
          let total = length-append here (written slot.min_level ms) in
          let w = slot_message-Wrote m slot h (omega (arith, total)) in
          let same : written next.min_level ms ≡ written slot.min_level ms =
            ap (λ f. written f ms) w.floor in
          let (working, lost, kept) =
            slot_messages-written ms next w.working
              (omega (arith, total, w.size, ap length same)) in
          let last = slot_messages file_ops fmt_f64 include_location json ms next in
          (
            working,
            w.lost ++ lost,
            append_assoc w.lost lost (text last)
                ∙ ap (λ t. w.lost ++ t) (kept ∙ ap (λ t. text next ++ t) same)
                ∙ sym (append_assoc w.lost (text next) (written slot.min_level ms))
                ∙ ap (λ t. t ++ written slot.min_level ms) w.kept
                ∙ append_assoc (text slot) here (written slot.min_level ms),
          )
