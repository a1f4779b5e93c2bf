-- ===== src/Logger/Delivery.antt =====
-- src/logger.rs: what a sink has been given, whatever the threads and the other sinks do.
use xoslog.Prelude.{
  ◌≡◌, ◌∙◌, sym, ap, false, List, [], ◌∷◌, ◌++◌, map, map-append, length, length-map, append_assoc,
  append-nil,
}
use xoslog.Prelude.Text.{Bytes}
use xoslog.Entry.{LogEntry}
use xoslog.Logger.Writer.{ok, SinkSlot, Message, is_panic}
use xoslog.Logger.Fanout.{map-map, map_same}
use xoslog.Logger.Channel.{close}
use xoslog.Logger.Queue.{
  Setup, System, Step, admits, sends, controls, closes, receives, Reach, start, step,
}
use xoslog.Logger.Slots.{
  slot_messages, slot_messages-append, deliver_all, slot_messages-deliver_all, writer_step-map,
  map_pointwise,
}

module _ {ℓ} {S : Type ℓ} (g : Setup S)
    (calm : (s : S) → is_panic g.ops (g.ops.flush s).0 ≡ false) where
  -- What the messages do to one slot under this setup
  abbrev pub receive_all : List Message → SinkSlot S → SinkSlot S
  receive_all ms slot = slot_messages g.ops g.fmt_f64 g.include_location g.config.json ms slot

  abbrev Given : System S → System S → List Message → Type ℓ
  Given p q l =
      (q.received ≡ p.received ++ l) × (q.writer.slots ≡ map (receive_all l) p.writer.slots)

  Step-Given :
      (p : System S) {q r : System S} (l : List Message)
      → Step g q r
      → Given p q l
      → (m : List Message) × Given p r m
  unfolding close
  Step-Given p l (admits clock context entry sent e) h = (l, h)
  Step-Given p l (sends a sent b s err w e) h = (l, h)
  Step-Given p l (controls m s sent k e) h = (l, h)
  Step-Given p l closes h = (l, h)
  Step-Given p {q} l (receives m rest k e) (received, slots) = (
    l ++ (m ∷ []),
    (
      ap (λ r. r ++ (m ∷ [])) received ∙ append_assoc p.received l (m ∷ []),
      writer_step-map g.ops g.fmt_f64 g.include_location g.config.json calm m q.writer
          ∙ ap (map (receive_all (m ∷ []))) slots
          ∙ map-map g.ops g.fmt_f64 g.include_location g.config.json (receive_all (m ∷ []))
              (receive_all l) p.writer.slots
          ∙ map_pointwise (λ slot. receive_all (m ∷ []) (receive_all l slot))
              (receive_all (l ++ (m ∷ [])))
              (λ slot. sym (
                slot_messages-append g.ops g.fmt_f64 g.include_location g.config.json l (m ∷ [])
                  slot))
              p.writer.slots,
    ),
  )

  -- If no flush panics, each slot has gone through what the messages received since do to it alone,
  -- in the order in which the queue accepted them, however the threads run and however the writes to
  -- the other sinks end.
  pub Reach-slots :
      {p q : System S}
      → Reach g p q
      → (l : List Message) × (q.received ≡ p.received ++ l)
        × (q.writer.slots ≡ map (receive_all l) p.writer.slots)
  Reach-slots {p} start = (
    [],
    sym (append-nil p.received),
    sym (map_same g.ops g.fmt_f64 g.include_location g.config.json p.writer.slots),
  )
  Reach-slots {p} (step r s) =
      let (l, received, slots) = Reach-slots r in
      let (m, given) = Step-Given p l s (received, slots) in (m, given.0, given.1)

  module _ {κ} (P : S → Type κ)
      (writes : (s : S) (e : LogEntry) (b : Bytes)
        → P s
        → ((g.ops.write_entry s e b).0 ≡ ok) × P (g.ops.write_entry s e b).1)
      (flushes : (s : S) → P s → P (g.ops.flush s).1) where
    -- A sink that is not given up and in a state from which its writes succeed, and flushes keep
    -- it in such a state, has been given exactly the records received that its floor lets pass,
    -- formatted, and the flushes, in the order in which the queue accepted them, if no flush of
    -- any sink panics; the writes to the other sinks may fail.
    pub Reach-deliver_all :
        (a b : List (SinkSlot S)) (slot : SinkSlot S) {p q : System S}
        → Reach g p q
        → p.writer.slots ≡ a ++ (slot ∷ b)
        → slot.degraded ≡ false
        → P slot.sink
        → (l : List Message) × (c : List (SinkSlot S)) × (d : List (SinkSlot S)) × (last : SinkSlot
            S)
          × (q.received ≡ p.received ++ l)
          × (q.writer.slots ≡ c ++ (last ∷ d))
          × (length c ≡ length a)
          × (last.sink
              ≡ deliver_all g.ops g.fmt_f64 g.include_location g.config.json slot.min_level l
                  slot.sink)
          × (last.degraded ≡ false)
    Reach-deliver_all a b slot {p} r e up works =
        let (l, received, slots) = Reach-slots r in
        let (live, sink) =
          slot_messages-deliver_all g.ops g.fmt_f64 g.include_location g.config.json P writes
            flushes l slot (up, works) in
        (
          l,
          map (receive_all l) a,
          map (receive_all l) b,
          receive_all l slot,
          received,
          slots ∙ ap (map (receive_all l)) e ∙ map-append (receive_all l) a (slot ∷ b),
          length-map (receive_all l) a,
          sink,
          live.0,
        )
