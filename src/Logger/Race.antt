-- ===== src/Logger/Race.antt =====
-- src/logger.rs, `log` and `shutdown` in two threads: a record can get behind the shutdown message.
use xoslog.Prelude.{
  ℕ, ◌≤◌, ◌≡◌, ◌∙◌, refl, ap, true, false, some, List, [], ◌∷◌, arith, length, ltb, if_true,
  if_false, not,
}
use xoslog.Prelude.Text.{Text}
use xoslog.Time.{SystemTime}
use xoslog.Entry.{LogEntry, Field}
use xoslog.Logger.Writer.{Writer, Message, log, shutdown, is_panic}
use xoslog.Logger.Fanout.{shutdown_stops}
use xoslog.Logger.Channel.{
  Config, Shared, returns, admit, send_log, send_ctrl, stamp, is_enabled_for, close, enqueue,
}
use xoslog.Logger.Queue.{
  begun, Setup, System, receive, send, admits, sends, controls, closes, receives, Reach, start,
  step,
}

not_full : (n : ℕ) → 2 ≤ n → ltb 1 n ≡ true
not_full n h = ground arith

room : (n : ℕ) → 2 ≤ n → ltb 0 n ≡ true
room n h = ground arith

admit_enabled :
    (c : Config) (clock : SystemTime) (context : List Field) (entry : LogEntry) (s : Shared)
    → s.closed ≡ false
    → is_enabled_for c entry.level entry.target ≡ true
    → admit c clock context entry s ≡ some (stamp c clock context entry)
unfolding admit
admit_enabled c clock context entry s o e = if_false _ _ o ∙ if_false _ _ (ap not e)

send_ctrl_fits :
    (c : Config) (m : Message) (s : Shared)
    → s.connected ≡ true
    → ltb (length s.queue) c.capacity ≡ true
    → send_ctrl c m s ≡ some (enqueue m s, true)
unfolding send_ctrl
send_ctrl_fits c m s k e = if_false _ _ (ap not k) ∙ if_true _ _ e

send_log_fits :
    (fmt_f64 : ℕ → Text) (c : Config) (sent : LogEntry) (s : Shared)
    → s.connected ≡ true
    → ltb (length s.queue) c.capacity ≡ true
    → send_log fmt_f64 c sent s ≡ returns (enqueue (log sent) s) []
unfolding send_log
send_log_fits fmt_f64 c sent s k e = if_false _ _ (ap not k) ∙ if_true _ _ e

module _ {ℓ} {S : Type ℓ} (g : Setup S) where
  -- A call of `log` that has passed its test when another thread calls `shutdown` can put its
  -- record behind the shutdown message: the writer stops in front of it, so it stays in the queue,
  -- though nothing is counted as dropped and nothing written to standard error, with `Block` too.
  -- The record is enabled, the queue has room for two messages, and no flush of a sink panics.
  pub Reach_lost :
      (clock : SystemTime) (context : List Field) (entry : LogEntry) (ack : ℕ) (w : Writer S)
      → is_enabled_for g.config entry.level entry.target ≡ true
      → 2 ≤ g.config.capacity
      → ((s : S) → is_panic g.ops (g.ops.flush s).0 ≡ false)
      → (q : System S) × Reach g (begun w) q
        × (q.shared.queue ≡ log (stamp g.config clock context entry) ∷ [])
        × (q.received ≡ shutdown ack ∷ [])
        × (q.shared.connected ≡ false)
        × (q.shared.dropped ≡ 0)
        × (q.stderr ≡ [])
  unfolding close
  Reach_lost clock context entry ack w enabled large calm =
      let sent = stamp g.config clock context entry in
      let p1 = record (begun w) { admitted = sent ∷ [] } in
      let p2 = record p1 { shared = close p1.shared } in
      let p3 = record p2 { shared = enqueue (shutdown ack) p2.shared } in
      let p4 = send [] (enqueue (log sent) p3.shared) [] p3 in
      let stops = shutdown_stops g.ops g.fmt_f64 g.include_location g.config.json calm ack w in
      let r1 : Reach g (begun w) p1 = step start (
        admits clock context entry sent
          (admit_enabled g.config clock context entry (begun w).shared refl enabled)) in
      let r2 : Reach g (begun w) p2 = step r1 closes in
      let r3 : Reach g (begun w) p3 = step r2 (
        controls (shutdown ack) (enqueue (shutdown ack) p2.shared) true refl
          (send_ctrl_fits g.config (shutdown ack) p2.shared refl (room g.config.capacity large))) in
      let r4 : Reach g (begun w) p4 = step r3 (
        sends [] sent [] (enqueue (log sent) p3.shared) [] refl (
          send_log_fits g.fmt_f64 g.config sent p3.shared refl
            (not_full g.config.capacity large))) in
      (
        receive g (shutdown ack) (log sent ∷ []) p4,
        step r4 (receives (shutdown ack) (log sent ∷ []) refl refl),
        refl,
        refl,
        stops.0,
        refl,
        refl,
      )
