-- ===== src/Logger/Flushing.antt =====
-- src/logger.rs, `flush` and `shutdown`: what is done when the acknowledgement comes back.
use xoslog.Prelude.{
  ℕ, ◌≡◌, ◌∙◌, refl, sym, ap, Bool, true, false, List, [], ◌∷◌, ◌++◌, All, All-append_right,
  append_assoc, append-nil, arith, inl, inr, ◌⊎◌, ◌==◌, ◌||◌, if◌then◌else◌, Bool-cases, subst,
  if_true, if_false,
}
use xoslog.Prelude.Text.{Text}
use xoslog.Logger.Writer.{
  SinkOps, Writer, Message, log, flush, shutdown, handle_message, writer_step, writer_loop,
  flush_slots,
}
use xoslog.Logger.Queue.{Setup, System, Reach, accepted}
use xoslog.Logger.Order.{Reach-accepted, Reach-writer}

-- The message asks for the acknowledgement `k`.
abbrev pub asks : ℕ → Message → Bool
asks k (log e) = false
asks k (flush ack) = ack == k
asks k (shutdown ack) = ack == k

abbrev pub has : ℕ → List ℕ → Bool
has k [] = false
has k (a ∷ acks) = (a == k) || has k acks

abbrev pub Unasked : ℕ → List Message → Type 0
Unasked k = All (λ m. asks k m ≡ false)

has-append : (k : ℕ) (a b : List ℕ) → has k (a ++ b) ≡ (has k a || has k b)
has-append k [] b = refl
has-append k (x ∷ a) b = ground (arith, has-append k a b)

other_ack :
    (k ack : ℕ) (acks : List ℕ) (panics : Bool)
    → (ack == k) ≡ false
    → has k (acks ++ (if panics then [] else ack ∷ [])) ≡ has k acks
other_ack k ack acks true h = ap (has k) (append-nil acks)
other_ack k ack acks false h = ground (arith, has-append k acks (ack ∷ []))

module _ {ℓ} {S : Type ℓ} (ops : SinkOps S) (fmt_f64 : ℕ → Text)
    (include_location json : Bool) where
  -- No acknowledgement is sent that is not asked for.
  writer_step-has :
      (k : ℕ) (m : Message) (w : Writer S)
      → asks k m ≡ false
      → has k (writer_step ops fmt_f64 include_location json m w).acks ≡ has k w.acks
  unfolding writer_step handle_message
  writer_step-has k (log e) w h = ap (has k) (append-nil w.acks)
  writer_step-has k (flush ack) w h = other_ack k ack w.acks (flush_slots ops w.slots).0 h
  writer_step-has k (shutdown ack) w h = other_ack k ack w.acks (flush_slots ops w.slots).0 h

  writer_loop-has :
      (k : ℕ) (ms : List Message) (w : Writer S)
      → Unasked k ms
      → has k (writer_loop ops fmt_f64 include_location json ms w).acks ≡ has k w.acks
  unfolding writer_loop
  writer_loop-has k [] w h = refl
  writer_loop-has k (m ∷ ms) w (h, hs) = elim (Bool-cases w.running) [
    | inl e ↦
        ap (λ (w : Writer S). has k w.acks) (if_true _ _ e)
        ∙ writer_loop-has k ms (writer_step ops fmt_f64 include_location json m w) hs
        ∙ writer_step-has k m w h
    | inr e ↦ ap (λ (w : Writer S). has k w.acks) (if_false _ _ e)
  ]

All-append_left_messages : (k : ℕ) (xs ys : List Message) → Unasked k (xs ++ ys) → Unasked k xs
All-append_left_messages k [] ys h = tt
All-append_left_messages k (x ∷ xs) ys (px, h) = (px, All-append_left_messages k xs ys h)

not_sent : true ≡ false → ⊥
not_sent h = cc

tail_or_none : List Message → List Message
tail_or_none [] = []
tail_or_none (m ∷ ms) = ms

tail_eq : {m n : Message} {a b : List Message} → m ∷ a ≡ n ∷ b → a ≡ b
unfolding tail_or_none
tail_eq h = ap tail_or_none h

-- A list that is split in two ways
front_cases :
    (x y a : List Message) (m : Message) (l : List Message)
    → x ++ y ≡ a ++ (m ∷ l)
    → ((rest : List Message) × (x ≡ a ++ (m ∷ rest))) ⊎ ((r : List Message) × (a ≡ x ++ r))
front_cases [] y a m l e = inr (a, refl)
front_cases (n ∷ x) y [] m l e = inl (x, cc)
front_cases (n ∷ x) y (b ∷ a) m l e = elim (front_cases x y a m l (tail_eq e)) [
  | inl (rest, f) ↦ inl (rest, cc)
  | inr (r, f) ↦ inr (r, cc)
]

module _ {ℓ} {S : Type ℓ} (g : Setup S) where
  -- Let a request be the last message that the queue has accepted so far, its acknowledgement not
  -- sent yet and not asked for by the messages before it, and the queue connected as long as the
  -- writer runs. When later the acknowledgement has been sent, the writer has received all
  -- messages accepted before the request, in their order, and then the request itself, however the
  -- threads ran.
  pub Reach-acknowledged :
      (k : ℕ) (m : Message) (a : List Message) {p q : System S}
      → Reach g p q
      → p.shared.connected ≡ p.writer.running
      → accepted p ≡ a ++ (m ∷ [])
      → Unasked k a
      → has k p.writer.acks ≡ false
      → has k q.writer.acks ≡ true
      → (rest : List Message) × (q.received ≡ a ++ (m ∷ rest))
  Reach-acknowledged k m a {p} {q} r linked here unasked before after =
      let (l, received, writer, _) = Reach-writer g r linked in
      let (more, grown) = Reach-accepted g r in
      let split : q.received ++ q.shared.queue ≡ a ++ (m ∷ more) =
        grown ∙ ap (λ t. t ++ more) here ∙ append_assoc a (m ∷ []) more in
      elim (front_cases q.received q.shared.queue a m more split) [
        | inl found ↦ found
        | inr (rest, short) ↦
            let all =
              All-append_left_messages k q.received rest (subst (Unasked k) short unasked) in
            let asked =
              All-append_right (λ m. asks k m ≡ false) p.received l
                (subst (Unasked k) received all) in
            let none_sent =
              ap (λ (w : Writer S). has k w.acks) writer
              ∙ writer_loop-has g.ops g.fmt_f64 g.include_location g.config.json k l p.writer
                  asked in
            absurd (not_sent (sym after ∙ none_sent ∙ before))
      ]
