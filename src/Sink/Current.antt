-- ===== src/Sink/Current.antt =====
-- src/sink.rs, `interval_elapsed` and `rotate`: the active file holds records of one interval only.
use xoslog.Prelude.{
  ℕ, ◌+◌, ◌^◌, ◌≤◌, ◌<◌, ◌≡◌, ◌∙◌, sym, ap, Bool, true, false, Option, none, some, List, [], ◌∷◌,
  ◌++◌, ◌==◌, append_assoc, append-nil, length-append, subst, arith, ◌||◌, Bool-cases, inl, inr,
  if◌then◌else◌, if_true, if_false, length, ltb,
}
use xoslog.Prelude.Text.{Bytes}
use xoslog.Sink.Interval.{RotationInterval, slot_start}
use xoslog.Sink.Disk.{Disk}
use xoslog.Sink.FileSink.{FileSink, Faults, write_bytes, size_hit, interval_elapsed}
use xoslog.Sink.Rotation.{IsQuiet}
use xoslog.Sink.Stream.{WriteCall, write_calls, stream}
use xoslog.Sink.Writes.{IsOpen, write_bytes_lem}
use xoslog.Sink.Starts.{or_false, write_start, write_content, write_bytes_interval}

-- Calls that come in the order of their slots, the two readings of a call in one slot
abbrev pub InOrder : RotationInterval → ℕ → List WriteCall → Type 0
InOrder i m [] = Unit
InOrder i m (c ∷ calls) =
    (n : ℕ) × (slot_start i c.now ≡ some n)
    × (slot_start i c.later ≡ some n)
    × (m ≤ n)
    × InOrder i n calls

abbrev pub is_slot : Option ℕ → ℕ → Bool
is_slot none k = false
is_slot (some n) k = n == k

abbrev pub in_slot : RotationInterval → ℕ → WriteCall → Bool
in_slot i k c = is_slot (slot_start i c.now) k

-- What the calls of one slot write
abbrev pub slot_stream : RotationInterval → ℕ → List WriteCall → Bytes
slot_stream i k [] = []
slot_stream i k (c ∷ calls) = (if in_slot i k c then c.bytes else []) ++ slot_stream i k calls

slotted :
    (i : RotationInterval) (k n : ℕ) (c : WriteCall)
    → slot_start i c.now ≡ some n
    → in_slot i k c ≡ (n == k)
slotted i k n c h = ap (λ o. is_slot o k) h

abbrev pub active : FileSink × Disk → Bytes
active (s, d) = d.contents s.file

-- The text that was in the file before a call, and the call's bytes, as the file of slot `k` has them
kept_text :
    (m n k : ℕ) (hit : Bool) (old bytes more final lost : Bytes)
    → m ≤ n
    → n ≤ k
    → lost ++ final ≡ (if k == n then (if hit || ltb m n then [] else old) ++ bytes else []) ++ more
    → (gone : Bytes) × (gone ++ final
        ≡ (if k == m then old else []) ++ ((if n == k then bytes else []) ++ more))
kept_text m n k hit old bytes more final lost l u e = elim (Bool-cases (k == n)) [
  | inl here ↦
      let now : (n == k) ≡ true = ground arith in
      let pre = if k == m then old else [] in
      let text = e ∙ ap (λ t. t ++ more) (if_true _ _ here) in
      let last = ap (λ t. pre ++ (t ++ more)) (sym (if_true _ _ now)) in
      elim (Bool-cases (hit || ltb m n)) [
        | inl fresh ↦ (
          pre ++ lost,
          append_assoc pre lost final
              ∙ ap (λ t. pre ++ t) (text ∙ ap (λ t. (t ++ bytes) ++ more) (if_true _ _ fresh))
              ∙ last,
        )
        | inr kept ↦
            let early : ltb m n ≡ false = or_false hit (ltb m n) kept in
            let same : (k == m) ≡ true = ground arith in
            (
              lost,
              text
                  ∙ ap (λ t. (t ++ bytes) ++ more) (if_false _ _ kept)
                  ∙ append_assoc old bytes more
                  ∙ ap (λ t. t ++ (bytes ++ more)) (sym (if_true _ _ same))
                  ∙ last,
            )
      ]
  | inr later ↦
      let not_now : (n == k) ≡ false = ground arith in
      let not_first : (k == m) ≡ false = ground arith in
      (
        lost,
        e
            ∙ ap (λ t. t ++ more) (if_false _ _ later)
            ∙ ap (λ t. t ++ more) (sym (if_false _ _ not_now))
            ∙ ap (λ t. t ++ ((if n == k then bytes else []) ++ more))
                (sym (if_false _ _ not_first)),
      )
]

zero_or_less : (b : Bool) (n : ℕ) → (if b then 0 else n) ≤ n
zero_or_less true n = omega arith
zero_or_less false n = omega arith

-- From an open sink with an interval, if the kernel takes all calls, the clock does not go back
-- across a slot and the two readings of a call fall into one slot, then behind any calls the
-- active file belongs to a slot not before the first one, and it holds an end of what was written
-- in that slot, behind what it held before if that is still the slot: no record of an earlier slot
-- stands in it. The size of the file and the bytes written stay below 2 ^ 64.
pub write_calls-slot_stream :
    (faults : Faults) (calls : List WriteCall) (s : FileSink) (d : Disk) (m : ℕ)
    → IsQuiet faults
    → faults.write_stops ≡ none
    → IsOpen s d
    → s.size + length (stream calls) < 2 ^ 64
    → s.interval_start ≡ some m
    → InOrder s.interval m calls
    → (k : ℕ) × (lost : Bytes) × ((write_calls faults calls s d).0.interval_start ≡ some k)
      × (m ≤ k)
      × (lost ++ active (write_calls faults calls s d)
          ≡ (if k == m then d.contents s.file else []) ++ slot_stream s.interval k calls)
unfolding write_calls
write_calls-slot_stream faults [] s d m quiet writes o room start order =
    let same : (m == m) ≡ true = ground arith in
    (
      m,
      [],
      start,
      omega arith,
      sym (append-nil (d.contents s.file)) ∙ ap (λ t. t ++ []) (sym (if_true _ _ same)),
    )
write_calls-slot_stream faults (c ∷ calls) s d m quiet writes o room start
      (n, now, later, l, order) =
    let r = write_bytes faults c.now c.later c.bytes s d in
    let total = length-append c.bytes (stream calls) in
    let fits : s.size + length c.bytes < 2 ^ 64 = omega (arith, room, total) in
    let (no_error, still, content, size) =
      write_bytes_lem faults c.now c.later c.bytes s d quiet writes o fits in
    let same = write_bytes_interval faults c.now c.later c.bytes s d in
    let (k, lost, at, u, text) =
      write_calls-slot_stream faults calls r.sink r.disk n quiet writes still
        (omega (
          arith,
          room,
          total,
          size,
          zero_or_less (size_hit s c.bytes || interval_elapsed c.now s) s.size,
        ))
        (write_start faults c.now c.later c.bytes s d quiet writes o fits m n start now later l)
        (subst (λ i. InOrder i n calls) (sym same) order) in
    let more = slot_stream s.interval k calls in
    let old = d.contents s.file in
    let whole =
      text
      ∙ ap (λ i. (if k == n then r.disk.contents r.sink.file else []) ++ slot_stream i k calls) same
      ∙ ap (λ t. (if k == n then t else []) ++ more)
          (write_content faults c.now c.later c.bytes s d quiet writes o fits m n start now later
            l) in
    let (gone, kept) =
      kept_text m n k (size_hit s c.bytes) old c.bytes more
        (active (write_calls faults calls r.sink r.disk)) lost l u whole in
    (
      k,
      gone,
      at,
      omega (arith, l, u),
      kept
          ∙ ap (λ b. (if k == m then old else []) ++ ((if b then c.bytes else []) ++ more))
              (sym (slotted s.interval k n c now)),
    )
