-- ===== src/Logger/Degrade.antt =====
-- src/logger.rs, `handle_message`: when a sink is given up, and what becomes of its records.
use xoslog.Prelude.{
  ◌⊎◌, ℕ, zero, suc, ◌+◌, ◌<◌, ◌≡◌, ◌∙◌, refl, sym, ap, true, false, List, [], ◌∷◌, ◌++◌, arith,
  Bool-cases, subst, inl, inr, if◌then◌else◌, if_true, if_false, leb-suc, leb, All, length,
}
use xoslog.Prelude.Text.{Bytes}
use xoslog.Level.{Level, level_lt}
use xoslog.Entry.{LogEntry}
use xoslog.Logger.Writer.{
  CallResult, ok, failed, panicked, SinkOps, SinkSlot, WithStderr, write_slot, count_outcome,
  max_consecutive_write_errors, sink_failed_notice,
}

module _ {ℓ} {S : Type ℓ} (ops : SinkOps S) where
  -- All records of a list, one after the other, to one slot
  abbrev pub run : List (LogEntry × Bytes) → SinkSlot S → WithStderr (SinkSlot S)
  run [] slot = (slot, [])
  run ((entry, buf) ∷ records) slot =
      let (next, err) = write_slot ops entry buf slot in
      let (last, errs) = run records next in (last, err ++ errs)

  -- A slot is degraded as soon as it has failed often enough in a row.
  abbrev pub IsTolerated : SinkSlot S → Type 0
  IsTolerated slot =
      (slot.degraded ≡ true) ⊎ (slot.consecutive_errors < max_consecutive_write_errors)

  count_outcome-IsTolerated :
      (slot : SinkSlot S) (r : CallResult × S)
      → IsTolerated slot
      → slot.degraded ≡ false
      → IsTolerated (count_outcome ops slot r).0
  unfolding count_outcome
  count_outcome-IsTolerated slot (ok, sink) h e = ground arith
  count_outcome-IsTolerated slot (failed, sink) h e = ground arith
  count_outcome-IsTolerated slot (panicked, sink) h e = ground arith

  -- Records that are all meant for the slot
  abbrev pub IsMeant : SinkSlot S → LogEntry × Bytes → Type 0
  IsMeant slot r = level_lt r.0.level slot.min_level ≡ false

  pub write_slot_skipped :
      (entry : LogEntry) (buf : Bytes) (slot : SinkSlot S)
      → level_lt entry.level slot.min_level ≡ true
      → write_slot ops entry buf slot ≡ (slot, [])
  unfolding write_slot
  write_slot_skipped entry buf slot m = if_true _ _ m

  write_slot_diverted :
      (entry : LogEntry) (buf : Bytes) (slot : SinkSlot S)
      → level_lt entry.level slot.min_level ≡ false
      → slot.degraded ≡ true
      → write_slot ops entry buf slot ≡ (slot, buf)
  unfolding write_slot
  write_slot_diverted entry buf slot m d = if_false _ _ m ∙ if_true _ _ d

  pub write_slot_called :
      (entry : LogEntry) (buf : Bytes) (slot : SinkSlot S)
      → level_lt entry.level slot.min_level ≡ false
      → slot.degraded ≡ false
      → write_slot ops entry buf slot ≡ count_outcome ops slot (ops.write_entry slot.sink entry buf)
  unfolding write_slot
  write_slot_called entry buf slot m d = if_false _ _ m ∙ if_false _ _ d

  write_slot-IsTolerated :
      (entry : LogEntry) (buf : Bytes) (slot : SinkSlot S)
      → IsTolerated slot
      → IsTolerated (write_slot ops entry buf slot).0
  write_slot-IsTolerated entry buf slot h =
      elim (Bool-cases (level_lt entry.level slot.min_level)) [
        | inl e ↦ subst (λ r. IsTolerated r.0) (sym (write_slot_skipped entry buf slot e)) h
        | inr e ↦ elim (Bool-cases slot.degraded) [
          | inl d ↦ subst (λ r. IsTolerated r.0) (sym (write_slot_diverted entry buf slot e d)) h
          | inr d ↦
              subst (λ r. IsTolerated r.0) (sym (write_slot_called entry buf slot e d))
                (count_outcome-IsTolerated slot (ops.write_entry slot.sink entry buf) h d)
        ]
      ]

  -- Whatever records come and however the writes end, a slot whose count was below the limit, or
  -- that was degraded, is degraded if its count has reached the limit.
  pub run-IsTolerated :
      (records : List (LogEntry × Bytes)) (slot : SinkSlot S)
      → IsTolerated slot
      → IsTolerated (run records slot).0
  run-IsTolerated [] slot h = h
  run-IsTolerated ((entry, buf) ∷ records) slot h =
      run-IsTolerated records (write_slot ops entry buf slot).0
        (write_slot-IsTolerated entry buf slot h)

  abbrev pub texts : List (LogEntry × Bytes) → Bytes
  texts [] = []
  texts ((entry, buf) ∷ records) = buf ++ texts records

  abbrev pub texts_after : ℕ → List (LogEntry × Bytes) → Bytes
  texts_after zero records = texts records
  texts_after (suc n) [] = []
  texts_after (suc n) (r ∷ records) = texts_after n records

  -- A degraded slot stays as it is, its sink is not called, and all its records go to standard error.
  pub run_degraded :
      (records : List (LogEntry × Bytes)) (slot : SinkSlot S)
      → slot.degraded ≡ true
      → All (IsMeant slot) records
      → run records slot ≡ (slot, texts records)
  run_degraded [] slot d h = refl
  run_degraded ((entry, buf) ∷ records) slot d (m, h) =
      ap (λ r. ((run records r.0).0, r.1 ++ (run records r.0).1))
        (write_slot_diverted entry buf slot m d)
      ∙ ap (λ r. (r.0, buf ++ r.1)) (run_degraded records slot d h)

  module _ (fails : (s : S) (e : LogEntry) (b : Bytes) → (ops.write_entry s e b).0 ≡ failed) where
    one_or_more : (n : ℕ) → leb 1 (suc n) ≡ true
    one_or_more n = ground arith

    meant_still :
        (l m : Level) (records : List (LogEntry × Bytes))
        → l ≡ m
        → All (λ r. level_lt r.0.level m ≡ false) records
        → All (λ r. level_lt r.0.level l ≡ false) records
    meant_still l m records e h =
        subst (λ l. All (λ r. level_lt r.0.level l ≡ false) records) (sym e) h

    count_failed :
        (slot : SinkSlot S) (r : CallResult × S)
        → r.0 ≡ failed
        → slot.degraded ≡ false
        → ((count_outcome ops slot r).0.min_level ≡ slot.min_level)
          × ((count_outcome ops slot r).0.consecutive_errors ≡ slot.consecutive_errors + 1)
          × ((count_outcome ops slot r).0.degraded
              ≡ leb max_consecutive_write_errors (slot.consecutive_errors + 1))
          × ((count_outcome ops slot r).1 ≡ (
              if leb max_consecutive_write_errors (slot.consecutive_errors + 1)
              then sink_failed_notice
              else []))
    unfolding count_outcome
    count_failed slot (ok, sink) e d = cc
    count_failed slot (panicked, sink) e d = cc
    count_failed slot (failed, sink) e d = (ground arith, ground arith, ground arith, ground arith)

    write_failing :
        (entry : LogEntry) (buf : Bytes) (slot : SinkSlot S)
        → level_lt entry.level slot.min_level ≡ false
        → slot.degraded ≡ false
        → let r = write_slot ops entry buf slot in
          (r.0.min_level ≡ slot.min_level)
          × (r.0.consecutive_errors ≡ slot.consecutive_errors + 1)
          × (r.0.degraded ≡ leb max_consecutive_write_errors (slot.consecutive_errors + 1))
          × (r.1 ≡ (
              if leb max_consecutive_write_errors (slot.consecutive_errors + 1)
              then sink_failed_notice
              else []))
    write_failing entry buf slot m d =
        rw (write_slot_called entry buf slot m d)
          (count_failed slot (ops.write_entry slot.sink entry buf) (fails slot.sink entry buf) d)

    -- A sink that fails every write is given up with the eighth failure in a row, not before: the
    -- records up to then are lost, and those behind them go to standard error, under a notice.
    pub run_failing :
        (records : List (LogEntry × Bytes)) (slot : SinkSlot S) (left : ℕ)
        → slot.degraded ≡ false
        → slot.consecutive_errors + suc left ≡ max_consecutive_write_errors
        → All (IsMeant slot) records
        → ((run records slot).0.degraded ≡ leb (suc left) (length records))
          × ((run records slot).1 ≡ (
              if leb (suc left) (length records)
              then sink_failed_notice ++ texts_after (suc left) records
              else []))
    run_failing [] slot left d k h = (ground arith, ground arith)
    run_failing ((entry, buf) ∷ records) slot zero d k (m, h) =
        let next = write_slot ops entry buf slot in
        let (floor, errors, given_up, notice) = write_failing entry buf slot m d in
        let reached : leb max_consecutive_write_errors (slot.consecutive_errors + 1) ≡ true =
          ground arith in
        let down = given_up ∙ reached in
        let diverted =
          run_degraded records next.0 down
            (meant_still next.0.min_level slot.min_level records floor h) in
        (
          ap (λ r. r.0.degraded) diverted ∙ down ∙ sym (one_or_more (length records)),
          ap (λ r. next.1 ++ r.1) diverted
              ∙ ap (λ e. e ++ texts records) (notice ∙ if_true _ _ reached)
              ∙ sym (if_true _ _ (one_or_more (length records))),
        )
    run_failing ((entry, buf) ∷ records) slot (suc left) d k (m, h) =
        let next = write_slot ops entry buf slot in
        let (floor, errors, given_up, notice) = write_failing entry buf slot m d in
        let early : leb max_consecutive_write_errors (slot.consecutive_errors + 1) ≡ false =
          ground arith in
        let (last, err) =
          run_failing records next.0 left (given_up ∙ early) (omega (arith, errors))
            (meant_still next.0.min_level slot.min_level records floor h) in
        let shift = sym (leb-suc (suc left) (length records)) in
        (
          last ∙ shift,
          ap (λ e. e ++ (run records next.0).1) (notice ∙ if_false _ _ early)
              ∙ err
              ∙ ap (λ b. if b then sink_failed_notice ++ texts_after (suc left) records else [])
                  shift,
        )
