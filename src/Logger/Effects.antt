-- ===== src/Logger/Effects.antt =====
-- src/logger.rs: what `log` and the control messages do to the queue and to the count of dropped
-- records.
use xoslog.Prelude.{
  ℕ, ◌+◌, ◌%◌, ◌^◌, ◌<◌, ◌≡◌, ◌∙◌, refl, sym, ap, Bool, true, false, not, Option, none, some, [],
  ◌∷◌, ◌++◌, ltb, if_true, if_false, length, arith, Bool-cases, inl, inr, ◌⊎◌,
}
use xoslog.Prelude.Text.{Text, Bytes}
use xoslog.Entry.{LogEntry}
use xoslog.Logger.Writer.{Message, log}
use xoslog.Logger.Channel.{
  Config, Shared, Call, waits, returns, send_log, send_ctrl, Backpressure, block, drop_newest,
  on_full,
}

-- A message has been put at the end of the queue.
abbrev pub Enqueued : Config → Message → Shared → Shared → Type 0
Enqueued c m s t =
    (length s.queue < c.capacity) × (t.queue ≡ s.queue ++ (m ∷ [])) × (t.dropped ≡ s.dropped)

abbrev pub SameQueue : Shared → Shared → Type 0
SameQueue s t = (t.queue ≡ s.queue) × (t.dropped ≡ s.dropped)

-- What the second half of `log` does to the shared state, by cases
abbrev pub SendEffect : Config → LogEntry → Shared → Shared → Type 0
SendEffect c sent s t =
    ((s.connected ≡ false) × SameQueue s t)
    ⊎ (((s.connected ≡ true) × Enqueued c (log sent) s t)
        ⊎ ((s.connected ≡ true)
            × (c.backpressure ≡ drop_newest)
            × (t.queue ≡ s.queue)
            × (t.dropped ≡ (s.dropped + 1) % 2 ^ 64)))

shared_of : Shared → Call → Shared
shared_of s waits = s
shared_of s (returns t err) = t

returned : {s t : Shared} {a b : Bytes} → returns s a ≡ returns t b → s ≡ t
unfolding shared_of
returned {s} h = ap (shared_of s) h

same_queue : {s t : Shared} → t ≡ s → SameQueue s t
same_queue h = (ap (λ (s : Shared). s.queue) h, ap (λ (s : Shared). s.dropped) h)

full_effect :
    (c : Config) (sent : LogEntry) (s t : Shared) (err : Bytes) (b : Backpressure)
    → s.connected ≡ true
    → c.backpressure ≡ b
    → on_full b s ≡ returns t err
    → SendEffect c sent s t × (t.connected ≡ s.connected)
full_effect c sent s t err block p e h = cc
full_effect c sent s t err drop_newest p e h =
    let same = returned (sym h) in
    (
      inr (inr (p, e, ap (λ (s : Shared). s.queue) same, ap (λ (s : Shared). s.dropped) same)),
      ap (λ (s : Shared). s.connected) same,
    )

pub send_effect :
    (fmt_f64 : ℕ → Text) (c : Config) (sent : LogEntry) (s t : Shared) (err : Bytes)
    → send_log fmt_f64 c sent s ≡ returns t err
    → SendEffect c sent s t × (t.connected ≡ s.connected)
unfolding send_log
send_effect fmt_f64 c sent s t err h = elim (Bool-cases s.connected) [
  | inr k ↦
      let same = returned (sym h ∙ if_true _ _ (ap not k)) in
      (inl (k, same_queue same), ap (λ (s : Shared). s.connected) same)
  | inl k ↦ elim (Bool-cases (ltb (length s.queue) c.capacity)) [
    | inl e ↦
        let same = returned (sym h ∙ if_false _ _ (ap not k) ∙ if_true _ _ e) in
        (
          inr (
              inl (
                k,
                (
                  ground arith,
                  ap (λ (s : Shared). s.queue) same,
                  ap (λ (s : Shared). s.dropped) same,
                ),
              )),
          ap (λ (s : Shared). s.connected) same,
        )
    | inr e ↦
        full_effect c sent s t err c.backpressure k refl
          (sym (if_false _ _ (ap not k) ∙ if_false _ _ e) ∙ h)
  ]
]

shared_or : Shared → Option (Shared × Bool) → Shared
shared_or s none = s
shared_or s (some (t, sent)) = t

abbrev sent_result : Shared → Bool → Option (Shared × Bool)
sent_result s b = some (s, b)

sent_shared : (s : Shared) {t u : Shared} {a b : Bool} → sent_result t a ≡ sent_result u b → t ≡ u
unfolding shared_or
sent_shared s h = ap (shared_or s) h

not_sent : {t : Shared} {a : Bool} → none ≡ sent_result t a → ⊥
not_sent h = cc

pub send_ctrl_effect :
    (c : Config) (m : Message) (s t : Shared) (sent : Bool)
    → send_ctrl c m s ≡ some (t, sent)
    → (SameQueue s t ⊎ ((s.connected ≡ true) × Enqueued c m s t)) × (t.connected ≡ s.connected)
unfolding send_ctrl
send_ctrl_effect c m s t sent h = elim (Bool-cases s.connected) [
  | inr e ↦
      let same = sent_shared s (sym h ∙ if_true _ _ (ap not e)) in
      (inl (same_queue same), ap (λ (s : Shared). s.connected) same)
  | inl e ↦ elim (Bool-cases (ltb (length s.queue) c.capacity)) [
    | inr f ↦ absurd (not_sent (sym (if_false _ _ (ap not e) ∙ if_false _ _ f) ∙ h))
    | inl f ↦
        let same = sent_shared s (sym h ∙ if_false _ _ (ap not e) ∙ if_true _ _ f) in
        (
          inr (
            e,
            (ground arith, ap (λ (s : Shared). s.queue) same, ap (λ (s : Shared). s.dropped) same),
          ),
          ap (λ (s : Shared). s.connected) same,
        )
  ]
]
