-- ===== src/Logger/Order.antt =====
-- src/logger.rs: the order of messages. What the queue accepts only grows at its end, and what the
-- writer has done is what `writer_loop` does on the messages received, in their order.
use xoslog.Prelude.{
  ◌≡◌, ◌∙◌, refl, sym, ap, true, List, [], ◌∷◌, ◌++◌, append_assoc, append-nil, inl, inr, ◌⊎◌,
}
use xoslog.Entry.{LogEntry}
use xoslog.Prelude.Text.{Bytes}
use xoslog.Logger.Writer.{Message, log, Writer}
use xoslog.Logger.Fanout.{loop-append, running_loop, loop_none}
use xoslog.Logger.Channel.{Shared, close}
use xoslog.Logger.Queue.{
  Setup, System, send, handle, handle_all, Step, admits, sends, controls, closes, receives, Reach,
  start, step, accepted,
}
use xoslog.Logger.Effects.{SendEffect, SameQueue, Enqueued, send_effect, send_ctrl_effect}

-- The messages of a queue that has grown behind
grown : (r q q1 l : List Message) → q1 ≡ q ++ l → r ++ q1 ≡ (r ++ q) ++ l
grown r q q1 l e = ap (λ q. r ++ q) e ∙ sym (append_assoc r q l)

unchanged : (r q q1 : List Message) → q1 ≡ q → r ++ q1 ≡ (r ++ q) ++ []
unchanged r q q1 e = ap (λ q. r ++ q) e ∙ sym (append-nil (r ++ q))

module _ {ℓ} {S : Type ℓ} (g : Setup S) where
  -- `q` has accepted what `p` had, and then more.
  abbrev pub Extends : System S → System S → Type 0
  Extends p q = (l : List Message) × (accepted q ≡ accepted p ++ l)

  sent-Extends :
      (waiting : List LogEntry) (sent : LogEntry) (t : Shared) (err : Bytes) (p : System S)
      → SendEffect g.config sent p.shared t
      → Extends p (send waiting t err p)
  sent-Extends waiting sent t err p (inl (skips, (queue, dropped))) =
      ([], unchanged p.received p.shared.queue t.queue queue)
  sent-Extends waiting sent t err p (inr (inl (goes, (fits, queue, dropped)))) =
      (log sent ∷ [], grown p.received p.shared.queue t.queue (log sent ∷ []) queue)
  sent-Extends waiting sent t err p (inr (inr (goes, policy, queue, dropped))) =
      ([], unchanged p.received p.shared.queue t.queue queue)

  control-Extends :
      (m : Message) (p : System S) (t : Shared)
      → SameQueue p.shared t ⊎ ((p.shared.connected ≡ true) × Enqueued g.config m p.shared t)
      → Extends p (record p { shared = t })
  control-Extends m p t (inl (queue, dropped)) =
      ([], unchanged p.received p.shared.queue t.queue queue)
  control-Extends m p t (inr (goes, (fits, queue, dropped))) =
      (m ∷ [], grown p.received p.shared.queue t.queue (m ∷ []) queue)

  Step-accepted : {p q : System S} → Step g p q → Extends p q
  unfolding close
  Step-accepted {p} (admits clock context entry sent e) = ([], sym (append-nil (accepted p)))
  Step-accepted {p} (sends a sent b s err w e) =
      sent-Extends (a ++ b) sent s err p (send_effect g.fmt_f64 g.config sent p.shared s err e).0
  Step-accepted {p} (controls m s sent l e) =
      control-Extends m p s (send_ctrl_effect g.config m p.shared s sent e).0
  Step-accepted {p} closes = ([], sym (append-nil (accepted p)))
  Step-accepted {p} (receives m rest k e) = (
    [],
    append_assoc p.received (m ∷ []) rest
        ∙ ap (λ q. p.received ++ q) (sym e)
        ∙ sym (append-nil (accepted p)),
  )

  -- The queue keeps its order and loses nothing: what it had accepted earlier, the messages that
  -- the writer has received in front of those still waiting, is the front of what it has accepted
  -- later.
  pub Reach-accepted :
      {p q : System S} → Reach g p q → (l : List Message) × (accepted q ≡ accepted p ++ l)
  Reach-accepted {p} start = ([], sym (append-nil (accepted p)))
  Reach-accepted {p} (step r s) =
      let (l, e) = Reach-accepted r in
      let (m, f) = Step-accepted s in
      (l ++ m, f ∙ ap (λ a. a ++ m) e ∙ append_assoc (accepted p) l m)

  abbrev pub IsLinked : System S → Type 0
  IsLinked p = p.shared.connected ≡ p.writer.running

  -- `q` has come from `p` by the writer handling `l`.
  abbrev pub Handled : System S → System S → List Message → Type ℓ
  Handled p q l = (q.received ≡ p.received ++ l) × (q.writer ≡ handle_all g l p.writer) × IsLinked q

  Step-Handled :
      (p : System S) {q r : System S} (l : List Message)
      → Step g q r
      → Handled p q l
      → (m : List Message) × Handled p r m
  unfolding close
  Step-Handled p l (admits clock context entry sent e) h = (l, h)
  Step-Handled p {q} l (sends a sent b s err w e) (received, writer, linked) =
      let (_, same) = send_effect g.fmt_f64 g.config sent q.shared s err e in
      (l, (received, writer, same ∙ linked))
  Step-Handled p {q} l (controls m s sent k e) (received, writer, linked) =
      let (_, same) = send_ctrl_effect g.config m q.shared s sent e in
      (l, (received, writer, same ∙ linked))
  Step-Handled p l closes h = (l, h)
  Step-Handled p {q} l (receives m rest k e) (received, writer, linked) =
      let run = handle_all g l p.writer in
      let runs : run.running ≡ true =
        ap (λ (w : Writer S). w.running) (sym writer) ∙ sym linked ∙ k in
      let next =
        loop-append g.ops g.fmt_f64 g.include_location g.config.json l (m ∷ []) p.writer
        ∙ running_loop g.ops g.fmt_f64 g.include_location g.config.json m [] run runs
        ∙ loop_none g.ops g.fmt_f64 g.include_location g.config.json (handle g m run) in
      (
        l ++ (m ∷ []),
        (
          ap (λ r. r ++ (m ∷ [])) received ∙ append_assoc p.received l (m ∷ []),
          ap (handle g m) writer ∙ sym next,
          refl,
        ),
      )

  -- The writer of every reachable state is what `writer_loop` makes of the writer at first and the
  -- messages received since.
  pub Reach-writer :
      {p q : System S}
      → Reach g p q
      → p.shared.connected ≡ p.writer.running
      → (l : List Message) × (q.received ≡ p.received ++ l)
        × (q.writer ≡ handle_all g l p.writer)
        × (q.shared.connected ≡ q.writer.running)
  Reach-writer {p} start h = (
    [],
    sym (append-nil p.received),
    sym (loop_none g.ops g.fmt_f64 g.include_location g.config.json p.writer),
    h,
  )
  Reach-writer {p} (step r s) h =
      let (l, received, writer, linked) = Reach-writer r h in
      let (m, handled) = Step-Handled p l s (received, writer, linked) in
      (m, handled.0, handled.1, handled.2)
