-- ===== src/Logger/Slots.antt =====
-- src/logger.rs, `handle_message`: what messages do to one slot.
use xoslog.Prelude.{
  ℕ, ◌≡◌, ◌∙◌, refl, sym, ap, Bool, false, List, [], ◌∷◌, ◌++◌, map, if_true, if_false,
  if◌then◌else◌, Bool-cases, inl, inr, subst,
}
use xoslog.Prelude.Text.{Text, Bytes}
use xoslog.Level.{Level, level_lt}
use xoslog.Entry.{LogEntry}
use xoslog.Logger.Writer.{
  CallResult, ok, SinkOps, SinkSlot, Writer, Message, log, flush, shutdown, is_panic, format,
  write_slot, count_outcome, handle_message, writer_step, flush_slots,
}
use xoslog.Logger.Fanout.{flush_slots-calm, write_slots-map}
use xoslog.Logger.Degrade.{write_slot_skipped, write_slot_called}

pub map_pointwise {ℓ κ} :
    {A : Type ℓ} {B : Type κ} (f h : A → B)
    → ((x : A) → f x ≡ h x)
    → (xs : List A) → map f xs ≡ map h xs
map_pointwise f h same [] = refl
map_pointwise f h same (x ∷ xs) = rw (same x) (ap (λ r. h x ∷ r) (map_pointwise f h same xs))

module _ {ℓ} {S : Type ℓ} (ops : SinkOps S) (fmt_f64 : ℕ → Text)
    (include_location json : Bool) where
  -- What one message does to one slot
  abbrev pub slot_message : Message → SinkSlot S → SinkSlot S
  slot_message (log e) slot = (write_slot ops e (format ops fmt_f64 include_location json e) slot).0
  slot_message (flush ack) slot = record slot { sink = (ops.flush slot.sink).1 }
  slot_message (shutdown ack) slot = record slot { sink = (ops.flush slot.sink).1 }

  abbrev pub slot_messages : List Message → SinkSlot S → SinkSlot S
  slot_messages [] slot = slot
  slot_messages (m ∷ ms) slot = slot_messages ms (slot_message m slot)

  pub slot_messages-append :
      (a b : List Message) (slot : SinkSlot S)
      → slot_messages (a ++ b) slot ≡ slot_messages b (slot_messages a slot)
  slot_messages-append [] b slot = refl
  slot_messages-append (m ∷ a) b slot = slot_messages-append a b (slot_message m slot)

  -- What the messages give to a sink whose records go through the floor `min_level`
  abbrev pub deliver : Level → Message → S → S
  deliver min_level (log e) s =
      if level_lt e.level min_level
      then s
      else (ops.write_entry s e (format ops fmt_f64 include_location json e)).1
  deliver min_level (flush ack) s = (ops.flush s).1
  deliver min_level (shutdown ack) s = (ops.flush s).1

  abbrev pub deliver_all : Level → List Message → S → S
  deliver_all min_level [] s = s
  deliver_all min_level (m ∷ ms) s = deliver_all min_level ms (deliver min_level m s)

  -- A slot that is not given up, with a sink in a state that works
  abbrev pub IsLive {κ} : (S → Type κ) → SinkSlot S → Type κ
  IsLive P slot = (slot.degraded ≡ false) × P slot.sink

  module _ {κ} (P : S → Type κ)
      (writes : (s : S) (e : LogEntry) (b : Bytes)
        → P s
        → ((ops.write_entry s e b).0 ≡ ok) × P (ops.write_entry s e b).1)
      (flushes : (s : S) → P s → P (ops.flush s).1) where
    taken :
        (slot : SinkSlot S) (r : CallResult × S)
        → r.0 ≡ ok
        → P r.1
        → slot.degraded ≡ false
        → IsLive P (count_outcome ops slot r).0
          × ((count_outcome ops slot r).0.sink ≡ r.1)
          × ((count_outcome ops slot r).0.min_level ≡ slot.min_level)
    unfolding count_outcome
    taken slot (ok, s) e p d = ((d, p), refl, refl)
    taken slot (_, s) e p d = cc

    abbrev Delivered : Message → SinkSlot S → SinkSlot S → Type (ℓ ⊔ κ)
    Delivered m slot next =
        IsLive P next
        × (next.sink ≡ deliver slot.min_level m slot.sink)
        × (next.min_level ≡ slot.min_level)

    written :
        (e : LogEntry) (slot : SinkSlot S)
        → IsLive P slot
        → Delivered (log e) slot (slot_message (log e) slot)
    written e slot (d, p) = elim (Bool-cases (level_lt e.level slot.min_level)) [
      | inl f ↦
          let buf = format ops fmt_f64 include_location json e in
          subst (λ (r : SinkSlot S × Bytes). Delivered (log e) slot r.0)
            (sym (write_slot_skipped ops e buf slot f)) ((d, p), sym (if_true _ _ f), refl)
      | inr f ↦
          let buf = format ops fmt_f64 include_location json e in
          let (good, kept) = writes slot.sink e buf p in
          let (live, sink, floor) = taken slot (ops.write_entry slot.sink e buf) good kept d in
          subst (λ (r : SinkSlot S × Bytes). Delivered (log e) slot r.0)
            (sym (write_slot_called ops e buf slot f d)) (live, sink ∙ sym (if_false _ _ f), floor)
    ]

    delivered :
        (m : Message) (slot : SinkSlot S) → IsLive P slot → Delivered m slot (slot_message m slot)
    delivered (log e) slot h = written e slot h
    delivered (flush ack) slot (d, p) = ((d, flushes slot.sink p), refl, refl)
    delivered (shutdown ack) slot (d, p) = ((d, flushes slot.sink p), refl, refl)

    pub slot_messages-deliver_all :
        (ms : List Message) (slot : SinkSlot S)
        → IsLive P slot
        → IsLive P (slot_messages ms slot)
          × ((slot_messages ms slot).sink ≡ deliver_all slot.min_level ms slot.sink)
    slot_messages-deliver_all [] slot h = (h, refl)
    slot_messages-deliver_all (m ∷ ms) slot h =
        let next = slot_message m slot in
        let (live, sink, floor) = delivered m slot h in
        let (last, reached) = slot_messages-deliver_all ms next live in
        (
          last,
          reached
              ∙ ap (λ f. deliver_all f ms next.sink) floor
              ∙ ap (deliver_all slot.min_level ms) sink,
        )

  module _ (calm : (s : S) → is_panic ops (ops.flush s).0 ≡ false) where
    flush_slots-map :
        (slots : List (SinkSlot S))
        → (flush_slots ops slots).1
          ≡ map (λ (slot : SinkSlot S). record slot { sink = (ops.flush slot.sink).1 }) slots
    unfolding flush_slots
    flush_slots-map [] = refl
    flush_slots-map (slot ∷ slots) =
        ap (λ (r : Bool × List (SinkSlot S)). r.1) (if_false _ _ (calm slot.sink))
        ∙ ap (λ r. record slot { sink = (ops.flush slot.sink).1 } ∷ r) (flush_slots-map slots)

    pub writer_step-map :
        (m : Message) (w : Writer S)
        → (writer_step ops fmt_f64 include_location json m w).slots ≡ map (slot_message m) w.slots
    unfolding writer_step handle_message
    writer_step-map (log e) w =
        write_slots-map ops fmt_f64 include_location json e
          (format ops fmt_f64 include_location json e) w.slots
    writer_step-map (flush ack) w =
        if_false _ _ (flush_slots-calm ops fmt_f64 include_location json calm w.slots)
        ∙ flush_slots-map w.slots
    writer_step-map (shutdown ack) w =
        if_false _ _ (flush_slots-calm ops fmt_f64 include_location json calm w.slots)
        ∙ flush_slots-map w.slots
