-- ===== src/Logger/Ending.antt =====
-- src/logger.rs, `flush`, `shutdown` and the writer thread: requests are answered, and what becomes of
-- the queue when the writer has stopped.
use xoslog.Prelude.{
  ℕ, ◌≡◌, ◌∙◌, refl, sym, ap, Bool, true, false, List, [], ◌∷◌, ◌++◌, All, append_assoc, append-nil,
  inl, inr, ◌⊎◌, if◌then◌else◌,
}
use xoslog.Prelude.Text.{Text}
use xoslog.Entry.{LogEntry}
use xoslog.Logger.Writer.{
  SinkOps, Writer, Message, log, flush, shutdown, is_panic, handle_message, writer_step,
  flush_slots,
}
use xoslog.Logger.Fanout.{flush_slots-calm}
use xoslog.Logger.Channel.{Shared, close}
use xoslog.Logger.Queue.{
  Setup, System, receive, Step, admits, sends, controls, closes, receives, Reach, start, step,
}
use xoslog.Logger.Effects.{SendEffect, SameQueue, Enqueued, send_effect, send_ctrl_effect}

abbrev pub is_shutdown : Message → Bool
is_shutdown (log e) = false
is_shutdown (flush ack) = false
is_shutdown (shutdown ack) = true

abbrev pub GoesOn : List Message → Type 0
GoesOn = All (λ m. is_shutdown m ≡ false)

if_same : (b : Bool) → (if b then true else true) ≡ true
if_same true = refl
if_same false = refl

not_true : true ≡ false → ⊥
not_true h = cc

module _ {ℓ} {S : Type ℓ} (ops : SinkOps S) (fmt_f64 : ℕ → Text)
    (include_location json : Bool) where
  -- Only a shutdown ends the loop, panics or not.
  pub writer_step_runs :
      (m : Message) (w : Writer S)
      → is_shutdown m ≡ false
      → (writer_step ops fmt_f64 include_location json m w).running ≡ true
  unfolding writer_step handle_message
  writer_step_runs (log e) w h = refl
  writer_step_runs (flush ack) w h = if_same (flush_slots ops w.slots).0
  writer_step_runs (shutdown ack) w h = absurd (not_true h)

  pub flush_acknowledged :
      (ack : ℕ) (w : Writer S)
      → ((s : S) → is_panic ops (ops.flush s).0 ≡ false)
      → (writer_step ops fmt_f64 include_location json (flush ack) w).acks ≡ w.acks ++ (ack ∷ [])
  unfolding writer_step handle_message
  flush_acknowledged ack w calm =
      rw (flush_slots-calm ops fmt_f64 include_location json calm w.slots) refl

module _ {ℓ} {S : Type ℓ} (g : Setup S) where
  -- The writer has come from `p` to `q` by taking `a` and leaving `b`, and goes on.
  record Drained (p q : System S) (a b : List Message) : Type ℓ where
    pub reached : Reach g p q
    pub queue : q.shared.queue ≡ b
    pub received : q.received ≡ p.received ++ a
    pub connected : q.shared.connected ≡ true

  drain_more :
      (a b : List Message) (p q : System S) (done : List Message)
      → Drained p q done (a ++ b)
      → GoesOn a
      → (r : System S) × Drained p r (done ++ a) b
  drain_more [] b p q done d goes = (
    q,
    record {
      reached = d.reached;
      queue = d.queue;
      received = d.received ∙ ap (λ l. p.received ++ l) (sym (append-nil done));
      connected = d.connected;
    },
  )
  drain_more (m ∷ a) b p q done d (go, goes) =
      let next : Drained p (receive g m (a ++ b) q) (done ++ (m ∷ [])) (a ++ b) = record {
        reached = step d.reached (receives m (a ++ b) d.connected d.queue);
        queue = refl;
        received = ap (λ l. l ++ (m ∷ [])) d.received ∙ append_assoc p.received done (m ∷ []);
        connected = writer_step_runs g.ops g.fmt_f64 g.include_location g.config.json m q.writer go;
      } in
      let (r, e) = drain_more a b p (receive g m (a ++ b) q) (done ++ (m ∷ [])) next goes in
      (
        r,
        record {
          reached = e.reached;
          queue = e.queue;
          received = e.received ∙ ap (λ l. p.received ++ l) (append_assoc done (m ∷ []) a);
          connected = e.connected;
        },
      )

  drain :
      (a b : List Message) (p : System S)
      → p.shared.connected ≡ true
      → p.shared.queue ≡ a ++ b
      → GoesOn a
      → (q : System S) × Drained p q a b
  drain a b p k e goes =
      drain_more a b p p []
        (record {
          reached = start;
          queue = e;
          received = sym (append-nil p.received);
          connected = k;
        })
        goes

  -- A running writer can always take all that waits in front of the next shutdown, and still runs
  -- then, even where the flush of a sink panics.
  pub Reach_drained :
      (a b : List Message) (p : System S)
      → p.shared.connected ≡ true
      → p.shared.queue ≡ a ++ b
      → GoesOn a
      → (q : System S) × Reach g p q
        × (q.shared.queue ≡ b)
        × (q.received ≡ p.received ++ a)
        × (q.shared.connected ≡ true)
  Reach_drained a b p k e goes =
      let (q, d) = drain a b p k e goes in (q, d.reached, d.queue, d.received, d.connected)

  -- A connected queue in which a flush waits behind records and other flushes can come to a state
  -- where the writer has taken all of them and the flush, and its acknowledgement is the last that
  -- it has sent, if no flush of a sink panics.
  pub Reach_answered :
      (a b : List Message) (ack : ℕ) (p : System S)
      → p.shared.connected ≡ true
      → p.shared.queue ≡ a ++ (flush ack ∷ b)
      → GoesOn a
      → ((s : S) → is_panic g.ops (g.ops.flush s).0 ≡ false)
      → (q : System S) × Reach g p q
        × (q.received ≡ p.received ++ (a ++ (flush ack ∷ [])))
        × (acks : List ℕ) × (q.writer.acks ≡ acks ++ (ack ∷ []))
  Reach_answered a b ack p k e goes calm =
      let (q, d) = drain a (flush ack ∷ b) p k e goes in
      (
        receive g (flush ack) b q,
        step d.reached (receives (flush ack) b d.connected d.queue),
        ap (λ l. l ++ (flush ack ∷ [])) d.received ∙ append_assoc p.received a (flush ack ∷ []),
        q.writer.acks,
        flush_acknowledged g.ops g.fmt_f64 g.include_location g.config.json ack q.writer calm,
      )

  -- Nobody takes from the queue and nobody adds to it.
  abbrev pub IsStuck : System S → System S → Type 0
  IsStuck p q =
      (q.shared.queue ≡ p.shared.queue)
      × (q.received ≡ p.received)
      × (q.shared.dropped ≡ p.shared.dropped)
      × (q.shared.connected ≡ false)

  sent_stuck :
      (sent : LogEntry) (s t : Shared)
      → s.connected ≡ false
      → SendEffect g.config sent s t
      → SameQueue s t
  sent_stuck sent s t k (inl (skips, same)) = same
  sent_stuck sent s t k (inr (inl (goes, rest))) = absurd (not_true (sym goes ∙ k))
  sent_stuck sent s t k (inr (inr (goes, policy, queue, dropped))) =
      absurd (not_true (sym goes ∙ k))

  control_stuck :
      (m : Message) (s t : Shared)
      → s.connected ≡ false
      → SameQueue s t ⊎ ((s.connected ≡ true) × Enqueued g.config m s t)
      → SameQueue s t
  control_stuck m s t k (inl same) = same
  control_stuck m s t k (inr (goes, rest)) = absurd (not_true (sym goes ∙ k))

  Step-IsStuck : {p q : System S} → Step g p q → p.shared.connected ≡ false → IsStuck p q
  unfolding close
  Step-IsStuck (admits clock context entry sent e) k = (refl, refl, refl, k)
  Step-IsStuck {p} (sends a sent b s err w e) k =
      let (effect, same) = send_effect g.fmt_f64 g.config sent p.shared s err e in
      let (queue, dropped) = sent_stuck sent p.shared s k effect in (queue, refl, dropped, same ∙ k)
  Step-IsStuck {p} (controls m s sent l e) k =
      let (effect, same) = send_ctrl_effect g.config m p.shared s sent e in
      let (queue, dropped) = control_stuck m p.shared s k effect in (queue, refl, dropped, same ∙ k)
  Step-IsStuck closes k = (refl, refl, refl, k)
  Step-IsStuck (receives m rest goes e) k = absurd (not_true (sym goes ∙ k))

  -- When the writer has stopped, what then waits in the queue is never received, and it is not
  -- counted as dropped either.
  pub Reach-IsStuck : {p q : System S} → Reach g p q → p.shared.connected ≡ false → IsStuck p q
  Reach-IsStuck start k = (refl, refl, refl, k)
  Reach-IsStuck (step r s) k =
      let (queue, received, dropped, still) = Reach-IsStuck r k in
      let (queue1, received1, dropped1, still1) = Step-IsStuck s still in
      (queue1 ∙ queue, received1 ∙ received, dropped1 ∙ dropped, still1)
