-- ===== src/Logger/Fanout.antt =====
-- src/logger.rs, `writer_loop`: what one sink gets does not depend on the others, and how it ends.
use xoslog.Prelude.{
  ℕ, ◌≡◌, ◌∙◌, refl, sym, ap, Bool, true, false, List, [], ◌∷◌, ◌++◌, map, Bool-cases, inl, inr,
  if_true, if_false,
}
use xoslog.Prelude.Text.{Text, Bytes}
use xoslog.Entry.{LogEntry}
use xoslog.Logger.Writer.{
  SinkOps, Message, log, shutdown, SinkSlot, Writer, write_slot, write_slots, flush_slots, is_panic,
  format, handle_message, writer_step, writer_loop,
}
use xoslog.Logger.Degrade.{run}

module _ {ℓ} {S : Type ℓ} (ops : SinkOps S) (fmt_f64 : ℕ → Text)
    (include_location json : Bool) where
  pub write_slots-map :
      (entry : LogEntry) (buf : Bytes) (slots : List (SinkSlot S))
      → (write_slots ops entry buf slots).0 ≡ map (λ s. (write_slot ops entry buf s).0) slots
  unfolding write_slots
  write_slots-map entry buf [] = refl
  write_slots-map entry buf (s ∷ slots) =
      ap (λ r. (write_slot ops entry buf s).0 ∷ r) (write_slots-map entry buf slots)

  abbrev pub records : List LogEntry → List (LogEntry × Bytes)
  records [] = []
  records (e ∷ es) = (e, format ops fmt_f64 include_location json e) ∷ records es

  abbrev pub logs : List LogEntry → List Message
  logs [] = []
  logs (e ∷ es) = log e ∷ logs es

  pub map-map :
      (f g : SinkSlot S → SinkSlot S) (slots : List (SinkSlot S))
      → map f (map g slots) ≡ map (λ s. f (g s)) slots
  map-map f g [] = refl
  map-map f g (s ∷ slots) = ap (λ r. f (g s) ∷ r) (map-map f g slots)

  pub map_same : (slots : List (SinkSlot S)) → map (λ s. s) slots ≡ slots
  map_same [] = refl
  map_same (s ∷ slots) = ap (λ r. s ∷ r) (map_same slots)

  -- While records are written by a running writer, every slot goes through what it would go
  -- through alone, however the writes to the other sinks end.
  pub writer_loop-independent :
      (entries : List LogEntry) (w : Writer S)
      → w.running ≡ true
      → (writer_loop ops fmt_f64 include_location json (logs entries) w).slots
        ≡ map (λ slot. (run ops (records entries) slot).0) w.slots
  unfolding writer_loop writer_step handle_message
  writer_loop-independent [] w r = sym (map_same w.slots)
  writer_loop-independent (e ∷ es) w r =
      let buf = format ops fmt_f64 include_location json e in
      let next = writer_step ops fmt_f64 include_location json (log e) w in
      ap (λ (w : Writer S). w.slots) (if_true _ _ r)
      ∙ writer_loop-independent es next refl
      ∙ ap (map (λ slot. (run ops (records es) slot).0)) (write_slots-map e buf w.slots)
      ∙ map-map (λ slot. (run ops (records es) slot).0) (λ s. (write_slot ops e buf s).0) w.slots

  pub loop_none : (w : Writer S) → writer_loop ops fmt_f64 include_location json [] w ≡ w
  unfolding writer_loop
  loop_none w = refl

  pub stopped_loop :
      (ms : List Message) (w : Writer S)
      → w.running ≡ false
      → writer_loop ops fmt_f64 include_location json ms w ≡ w
  unfolding writer_loop
  stopped_loop [] w h = refl
  stopped_loop (m ∷ ms) w h = if_false _ _ h

  pub loop-append :
      (a b : List Message) (w : Writer S)
      → writer_loop ops fmt_f64 include_location json (a ++ b) w
        ≡ writer_loop ops fmt_f64 include_location json b
            (writer_loop ops fmt_f64 include_location json a w)
  unfolding writer_loop
  loop-append [] b w = refl
  loop-append (m ∷ a) b w = elim (Bool-cases w.running) [
    | inl e ↦
        if_true _ _ e
        ∙ loop-append a b (writer_step ops fmt_f64 include_location json m w)
        ∙ ap (writer_loop ops fmt_f64 include_location json b) (sym (if_true _ _ e))
    | inr e ↦
        if_false _ _ e
        ∙ sym (stopped_loop b w e)
        ∙ ap (writer_loop ops fmt_f64 include_location json b) (sym (if_false _ _ e))
  ]

  pub running_loop :
      (m : Message) (ms : List Message) (w : Writer S)
      → w.running ≡ true
      → writer_loop ops fmt_f64 include_location json (m ∷ ms) w
        ≡ writer_loop ops fmt_f64 include_location json ms
            (writer_step ops fmt_f64 include_location json m w)
  unfolding writer_loop
  running_loop m ms w h = if_true _ _ h

  module _ (calm : (s : S) → is_panic ops (ops.flush s).0 ≡ false) where
    pub flush_slots-calm : (slots : List (SinkSlot S)) → (flush_slots ops slots).0 ≡ false
    unfolding flush_slots
    flush_slots-calm [] = refl
    flush_slots-calm (s ∷ slots) =
        ap (λ (r : Bool × List (SinkSlot S)). r.0) (if_false _ _ (calm s.sink))
        ∙ flush_slots-calm slots

    pub shutdown_stops :
        (ack : ℕ) (w : Writer S)
        → ((writer_step ops fmt_f64 include_location json (shutdown ack) w).running ≡ false)
          × ((writer_step ops fmt_f64 include_location json (shutdown ack) w).acks
              ≡ w.acks ++ (ack ∷ []))
    unfolding writer_step handle_message
    shutdown_stops ack w = rw (flush_slots-calm w.slots) (refl, refl)

    -- If no flush panics, all messages in front of a shutdown are handled before it, it is
    -- acknowledged, and those behind it are not handled at all.
    pub writer_loop-shutdown :
        (before after : List Message) (ack : ℕ) (w : Writer S)
        → (writer_loop ops fmt_f64 include_location json before w).running ≡ true
        → let loop = writer_loop ops fmt_f64 include_location json in
          (loop (before ++ (shutdown ack ∷ after)) w
            ≡ writer_step ops fmt_f64 include_location json (shutdown ack) (loop before w))
          × ((loop (before ++ (shutdown ack ∷ after)) w).running ≡ false)
          × ((loop (before ++ (shutdown ack ∷ after)) w).acks ≡ (loop before w).acks ++ (ack ∷ []))
    writer_loop-shutdown before after ack w h =
        let v = writer_loop ops fmt_f64 include_location json before w in
        let stopped = shutdown_stops ack v in
        let ends =
          loop-append before (shutdown ack ∷ after) w
          ∙ running_loop (shutdown ack) after v h
          ∙ stopped_loop after (writer_step ops fmt_f64 include_location json (shutdown ack) v)
              stopped.0 in
        (
          ends,
          ap (λ (w : Writer S). w.running) ends ∙ stopped.0,
          ap (λ (w : Writer S). w.acks) ends ∙ stopped.1,
        )
