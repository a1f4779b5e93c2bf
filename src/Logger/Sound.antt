-- ===== src/Logger/Sound.antt =====
-- src/logger.rs: what holds of the queue whatever the threads do.
use xoslog.Prelude.{
  ℕ, ◌+◌, ◌^◌, ◌≤◌, ◌<◌, ◌≡◌, ◌∙◌, refl, sym, ap, Bool, true, false, List, [], ◌∷◌, ◌++◌, if_false,
  length, length-append, append_assoc, arith, inl, inr, subst, ◌⊎◌,
}
use xoslog.Entry.{LogEntry}
use xoslog.Prelude.Text.{Bytes}
use xoslog.Logger.Writer.{Message, log}
use xoslog.Logger.Channel.{drop_newest, Shared, close}
use xoslog.Logger.Queue.{
  Setup, System, offer, is_log, receive, send, Step, admits, sends, controls, closes, receives,
  Reach, start, step, accepted, count_logs, count_logs-append,
}
use xoslog.Logger.Effects.{SendEffect, SameQueue, Enqueued, send_effect, send_ctrl_effect}

module _ {ℓ} {S : Type ℓ} (g : Setup S) where
  -- The writer and the callers agree: the queue stays within its capacity, every record that was
  -- brought to the queue was either accepted or counted as dropped, with `Block` none was dropped,
  -- and the queue is connected as long as the writer's loop runs.
  pub record IsSound (p : System S) : Type 0 where
    pub bounded : length p.shared.queue ≤ g.config.capacity
    pub counted : count_logs (accepted p) + p.shared.dropped ≡ p.offered
    pub lossless : (g.config.backpressure ≡ drop_newest) ⊎ (p.shared.dropped ≡ 0)
    pub linked : p.shared.connected ≡ p.writer.running

  grown_bound :
      (m : Message) (q q1 : List Message)
      → length q < g.config.capacity
      → q1 ≡ q ++ (m ∷ [])
      → length q1 ≤ g.config.capacity
  grown_bound m q q1 fits e = rw e (omega (arith, length-append q (m ∷ [])))

  grown_count :
      (r q q1 : List Message) (m : Message)
      → q1 ≡ q ++ (m ∷ [])
      → count_logs (r ++ q1) ≡ count_logs (r ++ q) + count_logs (m ∷ [])
  grown_count r q q1 m e = rw e (
      omega (
        arith,
        count_logs-append r (q ++ (m ∷ [])),
        count_logs-append r q,
        count_logs-append q (m ∷ []),
      ))

  sent-IsSound :
      (waiting : List LogEntry) (sent : LogEntry) (t : Shared) (err : Bytes) (p : System S)
      → SendEffect g.config sent p.shared t
      → t.connected ≡ p.shared.connected
      → offer p.shared.connected p.offered < 2 ^ 64
      → IsSound p
      → IsSound (send waiting t err p)
  sent-IsSound waiting sent t err p (inl (skips, (queue, dropped))) same room h = record {
    bounded = rw queue h.bounded;
    counted = rw (skips, queue, dropped) h.counted;
    lossless = rw dropped h.lossless;
    linked = same ∙ h.linked;
  }
  sent-IsSound waiting sent t err p (inr (inl (goes, (fits, queue, dropped)))) same room h =
      record {
        bounded = grown_bound (log sent) p.shared.queue t.queue fits queue;
        counted =
            rw (goes, dropped)
              (omega
                (arith, h.counted, grown_count p.received p.shared.queue t.queue (log sent) queue));
        lossless = rw dropped h.lossless;
        linked = same ∙ h.linked;
      }
  sent-IsSound waiting sent t err p (inr (inr (goes, policy, queue, dropped))) same room h =
      let small : p.offered + 1 < 2 ^ 64 = subst (λ b. offer b p.offered < 2 ^ 64) goes room in
      record {
        bounded = rw queue h.bounded;
        counted = rw (goes, queue, dropped) (omega (arith, h.counted, small));
        lossless = inl policy;
        linked = same ∙ h.linked;
      }

  control-IsSound :
      (m : Message) (p : System S) (t : Shared)
      → is_log m ≡ false
      → SameQueue p.shared t ⊎ ((p.shared.connected ≡ true) × Enqueued g.config m p.shared t)
      → t.connected ≡ p.shared.connected
      → IsSound p
      → IsSound (record p { shared = t })
  control-IsSound m p t no_log (inl (queue, dropped)) same h = record {
    bounded = rw queue h.bounded;
    counted = rw (queue, dropped) h.counted;
    lossless = rw dropped h.lossless;
    linked = same ∙ h.linked;
  }
  control-IsSound m p t no_log (inr (goes, (fits, queue, dropped))) same h = record {
    bounded = grown_bound m p.shared.queue t.queue fits queue;
    counted = rw dropped (
        omega (
          arith,
          h.counted,
          grown_count p.received p.shared.queue t.queue m queue,
          if_false (count_logs [] + 1) (count_logs []) no_log,
        ));
    lossless = rw dropped h.lossless;
    linked = same ∙ h.linked;
  }

  receive-IsSound :
      (m : Message) (rest : List Message) (p : System S)
      → p.shared.queue ≡ m ∷ rest
      → IsSound p
      → IsSound (receive g m rest p)
  receive-IsSound m rest p e h =
      let same : (p.received ++ (m ∷ [])) ++ rest ≡ accepted p =
        append_assoc p.received (m ∷ []) rest ∙ ap (λ q. p.received ++ q) (sym e) in
      record {
        bounded = omega (arith, ap length e, h.bounded);
        counted = ap (λ ms. count_logs ms + p.shared.dropped) same ∙ h.counted;
        lossless = h.lossless;
        linked = refl;
      }

  offer_grows : (b : Bool) (n : ℕ) → n ≤ offer b n
  offer_grows true n = omega arith
  offer_grows false n = omega arith

  offered_grows : {p q : System S} → Step g p q → p.offered ≤ q.offered
  offered_grows (admits clock context entry sent e) = omega arith
  offered_grows {p} (sends a sent b s err w e) = offer_grows p.shared.connected p.offered
  offered_grows (controls m s sent l e) = omega arith
  offered_grows closes = omega arith
  offered_grows (receives m rest k e) = omega arith

  Step-IsSound : {p q : System S} → Step g p q → q.offered < 2 ^ 64 → IsSound p → IsSound q
  unfolding close
  Step-IsSound {p} (admits clock context entry sent e) room h = record {
    bounded = h.bounded;
    counted = h.counted;
    lossless = h.lossless;
    linked = h.linked;
  }
  Step-IsSound {p} (sends a sent b s err w e) room h =
      let (effect, same) = send_effect g.fmt_f64 g.config sent p.shared s err e in
      sent-IsSound (a ++ b) sent s err p effect same room h
  Step-IsSound {p} (controls m s sent l e) room h =
      let (effect, same) = send_ctrl_effect g.config m p.shared s sent e in
      control-IsSound m p s l effect same h
  Step-IsSound {p} closes room h = record {
    bounded = h.bounded;
    counted = h.counted;
    lossless = h.lossless;
    linked = h.linked;
  }
  Step-IsSound {p} (receives m rest k e) room h = receive-IsSound m rest p e h

  -- From a sound state, however the threads log, flush, close and receive, and in whatever order:
  -- the queue is never longer than its capacity, the records brought to it while it is connected
  -- are the records that it took and those counted as dropped, with `Block` none is dropped, and
  -- the queue is connected as long as the writer runs. Fewer than 2 ^ 64 records are brought.
  pub Reach-IsSound : {p q : System S} → Reach g p q → q.offered < 2 ^ 64 → IsSound p → IsSound q
  Reach-IsSound start room h = h
  Reach-IsSound (step r s) room h =
      Step-IsSound s room (Reach-IsSound r (omega (arith, offered_grows s)) h)
