-- ===== src/Logger/Admission.antt =====
-- src/logger.rs: only records that the filter lets pass get into the queue.
use xoslog.Prelude.{
  ◌≡◌, ◌∙◌, sym, ap, true, false, not, Option, none, some, List, [], ◌∷◌, ◌++◌, All, All-append,
  All-append_right, append_assoc, subst, if_true, if_false, Bool-cases, inl, inr, ◌⊎◌,
}
use xoslog.Time.{SystemTime}
use xoslog.Entry.{LogEntry, Field, merge_context}
use xoslog.Logger.Writer.{Message, log, flush, shutdown}
use xoslog.Logger.Channel.{Config, Shared, admit, stamp, is_enabled_for, close}
use xoslog.Logger.Queue.{
  Setup, System, is_log, Step, admits, sends, controls, closes, receives, Reach, start, step,
  accepted,
}
use xoslog.Logger.Effects.{SendEffect, SameQueue, Enqueued, send_effect, send_ctrl_effect}

abbrev pub IsEnabled : Config → LogEntry → Type 0
IsEnabled c e = is_enabled_for c e.level e.target ≡ true

-- The message is no record, or a record that is enabled.
abbrev pub Passes : Config → Message → Type 0
Passes c (log e) = IsEnabled c e
Passes c (flush ack) = Unit
Passes c (shutdown ack) = Unit

entry_or : LogEntry → Option LogEntry → LogEntry
entry_or e none = e
entry_or e (some a) = a

some_entry : (e : LogEntry) {a b : LogEntry} → some a ≡ some b → a ≡ b
unfolding entry_or
some_entry e h = ap (entry_or e) h

not_some : {e : LogEntry} → none ≡ some e → ⊥
not_some h = cc

-- Stamping and merging change neither the level nor the target that the test has read.
pub admit-IsEnabled :
    (c : Config) (clock : SystemTime) (context : List Field) (entry sent : LogEntry) (s : Shared)
    → admit c clock context entry s ≡ some sent
    → IsEnabled c sent
unfolding admit stamp merge_context
admit-IsEnabled c clock context entry sent s h = elim (Bool-cases s.closed) [
  | inl e ↦ absurd (not_some (sym (if_true _ _ e) ∙ h))
  | inr e ↦ elim (Bool-cases (is_enabled_for c entry.level entry.target)) [
    | inr l ↦ absurd (not_some (sym (if_false _ _ e ∙ if_true _ _ (ap not l)) ∙ h))
    | inl l ↦
        let same = some_entry entry (sym (if_false _ _ e ∙ if_false _ _ (ap not l)) ∙ h) in
        subst (IsEnabled c) same l
  ]
]

pub control-Passes : (c : Config) (m : Message) → is_log m ≡ false → Passes c m
control-Passes c (log e) h = cc
control-Passes c (flush ack) h = tt
control-Passes c (shutdown ack) h = tt

All-append_left : (P : LogEntry → Type 0) (xs ys : List LogEntry) → All P (xs ++ ys) → All P xs
All-append_left P [] ys h = tt
All-append_left P (x ∷ xs) ys (px, h) = (px, All-append_left P xs ys h)

module _ {ℓ} {S : Type ℓ} (g : Setup S) where
  -- Every record on its way, in the queue or received is enabled.
  pub record IsFiltered (p : System S) : Type 0 where
    pub waiting : All (IsEnabled g.config) p.admitted
    pub messages : All (Passes g.config) (accepted p)

  grown_messages :
      (m : Message) (r q q1 : List Message)
      → q1 ≡ q ++ (m ∷ [])
      → Passes g.config m
      → All (Passes g.config) (r ++ q)
      → All (Passes g.config) (r ++ q1)
  grown_messages m r q q1 e passes h =
      subst (All (Passes g.config)) (append_assoc r q (m ∷ []) ∙ ap (λ q. r ++ q) (sym e))
        (All-append (Passes g.config) (r ++ q) (m ∷ []) h (passes, tt))

  kept_messages :
      (r q q1 : List Message)
      → q1 ≡ q
      → All (Passes g.config) (r ++ q)
      → All (Passes g.config) (r ++ q1)
  kept_messages r q q1 e h = subst (λ q. All (Passes g.config) (r ++ q)) (sym e) h

  sent_messages :
      (sent : LogEntry) (t : Shared) (p : System S)
      → SendEffect g.config sent p.shared t
      → IsEnabled g.config sent
      → IsFiltered p
      → All (Passes g.config) (p.received ++ t.queue)
  sent_messages sent t p (inl (skips, (queue, dropped))) enabled h =
      kept_messages p.received p.shared.queue t.queue queue h.messages
  sent_messages sent t p (inr (inl (goes, (fits, queue, dropped)))) enabled h =
      grown_messages (log sent) p.received p.shared.queue t.queue queue enabled h.messages
  sent_messages sent t p (inr (inr (goes, policy, queue, dropped))) enabled h =
      kept_messages p.received p.shared.queue t.queue queue h.messages

  control_messages :
      (m : Message) (p : System S) (t : Shared)
      → Passes g.config m
      → SameQueue p.shared t ⊎ ((p.shared.connected ≡ true) × Enqueued g.config m p.shared t)
      → IsFiltered p
      → All (Passes g.config) (p.received ++ t.queue)
  control_messages m p t passes (inl (queue, dropped)) h =
      kept_messages p.received p.shared.queue t.queue queue h.messages
  control_messages m p t passes (inr (goes, (fits, queue, dropped))) h =
      grown_messages m p.received p.shared.queue t.queue queue passes h.messages

  Step-IsFiltered : {p q : System S} → Step g p q → IsFiltered p → IsFiltered q
  unfolding close
  Step-IsFiltered {p} (admits clock context entry sent e) h = record {
    waiting = (admit-IsEnabled g.config clock context entry sent p.shared e, h.waiting);
    messages = h.messages;
  }
  Step-IsFiltered {p} (sends a sent b s err w e) h =
      let all = subst (All (IsEnabled g.config)) w h.waiting in
      let here = All-append_right (IsEnabled g.config) a (sent ∷ b) all in
      let (effect, _) = send_effect g.fmt_f64 g.config sent p.shared s err e in
      record {
        waiting =
            All-append (IsEnabled g.config) a b
              (All-append_left (IsEnabled g.config) a (sent ∷ b) all) here.1;
        messages = sent_messages sent s p effect here.0 h;
      }
  Step-IsFiltered {p} (controls m s sent l e) h =
      let (effect, _) = send_ctrl_effect g.config m p.shared s sent e in
      record {
        waiting = h.waiting;
        messages = control_messages m p s (control-Passes g.config m l) effect h;
      }
  Step-IsFiltered {p} closes h = record { waiting = h.waiting; messages = h.messages }
  Step-IsFiltered {p} (receives m rest k e) h = record {
    waiting = h.waiting;
    messages =
        subst (All (Passes g.config))
          (ap (λ q. p.received ++ q) e ∙ sym (append_assoc p.received (m ∷ []) rest)) h.messages;
  }

  -- If no record that the filter holds back is waiting, in the queue or with the writer, then
  -- however the threads run this stays so.
  pub Reach-IsFiltered : {p q : System S} → Reach g p q → IsFiltered p → IsFiltered q
  Reach-IsFiltered start h = h
  Reach-IsFiltered (step r s) h = Step-IsFiltered s (Reach-IsFiltered r h)
