-- ===== src/Logger/Panics.antt =====
-- src/logger.rs, `writer_loop` with a sink whose flush panics.
use xoslog.Prelude.{
  ℕ, ◌≡◌, ◌∙◌, refl, Bool, true, List, [], ◌∷◌, append-nil, Bool-cases, inl, inr, ◌⊎◌, arith,
}
use xoslog.Prelude.Text.{Text, Bytes}
use xoslog.Entry.{LogEntry}
use xoslog.Logger.Writer.{
  SinkOps, SinkSlot, Writer, Message, log, flush, shutdown, CallResult, ok, failed, panicked,
  is_panic, write_slot, write_slots, count_outcome, flush_slots, degrade_all, handle_message,
  writer_step,
}
use xoslog.Logger.Channel.{close}
use xoslog.Logger.Queue.{
  Setup, System, Step, admits, sends, controls, closes, receives, Reach, start, step,
}
use xoslog.Logger.Effects.{send_effect, send_ctrl_effect}

module _ {ℓ} {S : Type ℓ} (Broken : S → Type 0) where
  -- Some slot has a broken sink.
  abbrev pub HasBroken : List (SinkSlot S) → Type 0
  HasBroken [] = ⊥
  HasBroken (s ∷ slots) = Broken s.sink ⊎ HasBroken slots

  -- A flush of a broken sink panics, and no call mends it.
  pub record BreaksFlush (ops : SinkOps S) : Type ℓ where
    pub panics : (s : S) → Broken s → is_panic ops (ops.flush s).0 ≡ true
    pub flushed : (s : S) → Broken s → Broken (ops.flush s).1
    pub written :
        (s : S) (e : LogEntry) (buf : Bytes) → Broken s → Broken (ops.write_entry s e buf).1

  module _ (ops : SinkOps S) (breaks : BreaksFlush ops) where
    count_outcome-Broken :
        (slot : SinkSlot S) (r : CallResult × S)
        → Broken r.1
        → Broken (count_outcome ops slot r).0.sink
    unfolding count_outcome
    count_outcome-Broken slot (ok, s) h = h
    count_outcome-Broken slot (failed, s) h = ground (arith, h)
    count_outcome-Broken slot (panicked, s) h = ground (arith, h)

    write_slot-Broken :
        (e : LogEntry) (buf : Bytes) (slot : SinkSlot S)
        → Broken slot.sink
        → Broken (write_slot ops e buf slot).0.sink
    unfolding write_slot
    write_slot-Broken e buf slot h = ground (
      arith,
      count_outcome-Broken slot (ops.write_entry slot.sink e buf)
          (breaks.written slot.sink e buf h),
      h,
    )

    write_slots-HasBroken :
        (e : LogEntry) (buf : Bytes) (slots : List (SinkSlot S))
        → HasBroken slots
        → HasBroken (write_slots ops e buf slots).0
    unfolding write_slots
    write_slots-HasBroken e buf [] h = elim h [ ]
    write_slots-HasBroken e buf (s ∷ slots) (inl h) = inl (write_slot-Broken e buf s h)
    write_slots-HasBroken e buf (s ∷ slots) (inr h) = inr (write_slots-HasBroken e buf slots h)

    flush_slots-panics :
        (slots : List (SinkSlot S))
        → HasBroken slots
        → ((flush_slots ops slots).0 ≡ true) × HasBroken (flush_slots ops slots).1
    unfolding flush_slots
    flush_slots-panics [] h = elim h [ ]
    flush_slots-panics (s ∷ slots) (inl h) =
        rw (breaks.panics s.sink h) (refl, inl (breaks.flushed s.sink h))
    flush_slots-panics (s ∷ slots) (inr h) =
        let (panics, rest) = flush_slots-panics slots h in
        elim (Bool-cases (is_panic ops (ops.flush s.sink).0)) [
          | inl e ↦ rw e (refl, inr h)
          | inr e ↦ rw e (panics, inr rest)
        ]

    module _ (fmt_f64 : ℕ → Text) (include_location json : Bool) where
      degrade_all-HasBroken :
          (slots : List (SinkSlot S))
          → HasBroken slots
          → HasBroken (degrade_all ops fmt_f64 include_location json slots)
      degrade_all-HasBroken [] h = elim h [ ]
      degrade_all-HasBroken (s ∷ slots) (inl h) = inl h
      degrade_all-HasBroken (s ∷ slots) (inr h) = inr (degrade_all-HasBroken slots h)

      -- The writer runs with a broken sink, and has sent no acknowledgement but these.
      pub record RunsOn (acks : List ℕ) (w : Writer S) : Type 0 where
        pub running : w.running ≡ true
        pub broken : HasBroken w.slots
        pub silent : w.acks ≡ acks

      writer_step-RunsOn :
          (acks : List ℕ) (m : Message) (w : Writer S)
          → RunsOn acks w
          → RunsOn acks (writer_step ops fmt_f64 include_location json m w)
      unfolding writer_step handle_message
      writer_step-RunsOn acks (log e) w h = record {
        running = refl;
        broken = write_slots-HasBroken e _ w.slots h.broken;
        silent = append-nil w.acks ∙ h.silent;
      }
      writer_step-RunsOn acks (flush ack) w h =
          let (panics, rest) = flush_slots-panics w.slots h.broken in
          record {
            running = rw panics refl;
            broken = rw panics (degrade_all-HasBroken (flush_slots ops w.slots).1 rest);
            silent = rw panics (append-nil w.acks ∙ h.silent);
          }
      writer_step-RunsOn acks (shutdown ack) w h =
          let (panics, rest) = flush_slots-panics w.slots h.broken in
          record {
            running = rw panics refl;
            broken = rw panics (degrade_all-HasBroken (flush_slots ops w.slots).1 rest);
            silent = rw panics (append-nil w.acks ∙ h.silent);
          }

  -- A running writer one of whose sinks panics in every flush never ends, however the threads run and
  -- however often they call `shutdown`: it still takes messages, the queue is still connected, and
  -- no acknowledgement has been sent. So a thread that joins the writer waits for ever.
  pub Reach-never_ends :
      (g : Setup S) {p q : System S}
      → BreaksFlush g.ops
      → Reach g p q
      → p.writer.running ≡ true
      → p.shared.connected ≡ true
      → HasBroken p.writer.slots
      → (q.writer.running ≡ true)
        × (q.shared.connected ≡ true)
        × (q.writer.acks ≡ p.writer.acks)
        × HasBroken q.writer.slots
  unfolding close
  Reach-never_ends g breaks start runs linked broken = (runs, linked, refl, broken)
  Reach-never_ends g {p} breaks (step {q} r s) runs linked broken =
      let (runs1, linked1, silent1, broken1) = Reach-never_ends g breaks r runs linked broken in
      one p q s runs1 linked1 silent1 broken1
    where
      one :
          (p q : System S) {t : System S}
          → Step g q t
          → q.writer.running ≡ true
          → q.shared.connected ≡ true
          → q.writer.acks ≡ p.writer.acks
          → HasBroken q.writer.slots
          → (t.writer.running ≡ true)
            × (t.shared.connected ≡ true)
            × (t.writer.acks ≡ p.writer.acks)
            × HasBroken t.writer.slots
      one p q (admits clock context entry sent e) a b c d = (a, b, c, d)
      one p q (sends x sent y t err w e) a b c d =
          (a, (send_effect g.fmt_f64 g.config sent q.shared t err e).1 ∙ b, c, d)
      one p q (controls m t sent l e) a b c d =
          (a, (send_ctrl_effect g.config m q.shared t sent e).1 ∙ b, c, d)
      one p q closes a b c d = (a, b, c, d)
      one p q (receives m rest k e) a b c d =
          let next =
            writer_step-RunsOn g.ops breaks g.fmt_f64 g.include_location g.config.json p.writer.acks
              m q.writer (record { running = a; broken = d; silent = c }) in
          (next.running, next.running, next.silent, next.broken)
