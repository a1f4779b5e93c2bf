-- ===== src/Sink/Starts.antt =====
-- src/sink.rs, `write_bytes`: the interval that the active file belongs to.
use xoslog.Prelude.{
  ℕ, ◌+◌, ◌^◌, ◌≤◌, ◌<◌, ◌≡◌, ◌∙◌, refl, sym, ap, Bool, true, false, Option, none, some, [], ◌++◌,
  arith, ◌||◌, Bool-cases, inl, inr, if◌then◌else◌, length, ltb,
}
use xoslog.Prelude.Text.{Bytes}
use xoslog.Time.{SystemTime}
use xoslog.Sink.Interval.{slot_start}
use xoslog.Sink.Disk.{Disk}
use xoslog.Sink.FileSink.{
  FileSink, Faults, FileError, rotate, reopen_shifted, reopened, append, append_rotated,
  write_bytes, size_hit, interval_elapsed,
}
use xoslog.Sink.Rotation.{IsQuiet}
use xoslog.Sink.Writes.{IsOpen, write_bytes_lem, rotate-IsFresh}

rotate_starts :
    (faults : Faults) (now : SystemTime) (s : FileSink) (d : Disk)
    → (rotate faults now s d).error ≡ none
    → (rotate faults now s d).sink.interval_start ≡ slot_start s.interval now
unfolding rotate reopen_shifted reopened
rotate_starts faults now s d h = ground arith

append_start :
    (faults : Faults) (bytes : Bytes) (s : FileSink) (d : Disk)
    → (append faults bytes s d).sink.interval_start ≡ s.interval_start
unfolding append
append_start faults bytes s d = ground arith

pub or_false : (a b : Bool) → (a || b) ≡ false → b ≡ false
or_false true b h = cc
or_false false b h = h

module _ (faults : Faults) (now later : SystemTime) (bytes : Bytes) (s : FileSink) (d : Disk)
    (quiet : IsQuiet faults) (writes : faults.write_stops ≡ none) (o : IsOpen s d)
    (room : s.size + length bytes < 2 ^ 64) (m n : ℕ) (start : s.interval_start ≡ some m)
    (slot : slot_start s.interval now ≡ some n) (slot_later : slot_start s.interval later ≡ some n)
    (forward : m ≤ n) where
  elapsed : interval_elapsed now s ≡ ltb m n
  unfolding interval_elapsed
  elapsed = rw (start, slot) refl

  not_before : (size_hit s bytes || interval_elapsed now s) ≡ false → n ≤ m
  not_before e =
      let late : ltb m n ≡ false =
        sym elapsed ∙ or_false (size_hit s bytes) (interval_elapsed now s) e in
      ground arith

  -- The file belongs to the slot of the write.
  pub write_start : (write_bytes faults now later bytes s d).sink.interval_start ≡ some n
  unfolding write_bytes append_rotated
  write_start = elim (Bool-cases (size_hit s bytes || interval_elapsed now s)) [
    | inl e ↦
        let rotated = rotate faults later s d in
        let fresh = rotate-IsFresh faults later s d quiet o in
        rw (e, fresh.0)
          (append_start faults bytes rotated.sink rotated.disk
            ∙ rotate_starts faults later s d fresh.0
            ∙ slot_later)
    | inr e ↦
        let same : m ≡ n = omega (arith, forward, not_before e) in
        rw e (append_start faults bytes s d ∙ start ∙ ap some same)
  ]

  pub write_content :
      (write_bytes faults now later bytes s d).disk.contents
        (write_bytes faults now later bytes s d).sink.file
      ≡ (if size_hit s bytes || ltb m n then [] else d.contents s.file) ++ bytes
  write_content =
      let (_, _, content, _) = write_bytes_lem faults now later bytes s d quiet writes o room in
      content ∙ ap (λ b. (if size_hit s bytes || b then [] else d.contents s.file) ++ bytes) elapsed

rotate_interval :
    (faults : Faults) (now : SystemTime) (s : FileSink) (d : Disk)
    → (rotate faults now s d).sink.interval ≡ s.interval
unfolding rotate reopen_shifted reopened
rotate_interval faults now s d = ground arith

append_rotated_interval :
    (faults : Faults) (bytes : Bytes) (e : Option FileError) (s : FileSink) (d : Disk)
    → (append_rotated faults bytes e s d).sink.interval ≡ s.interval
unfolding append append_rotated
append_rotated_interval faults bytes (some e) s d = refl
append_rotated_interval faults bytes none s d = ground arith

pub write_bytes_interval :
    (faults : Faults) (now later : SystemTime) (bytes : Bytes) (s : FileSink) (d : Disk)
    → (write_bytes faults now later bytes s d).sink.interval ≡ s.interval
unfolding write_bytes append_rotated
write_bytes_interval faults now later bytes s d =
    elim (Bool-cases (size_hit s bytes || interval_elapsed now s)) [
      | inl e ↦
          let r = rotate faults later s d in
          rw e (
            append_rotated_interval faults bytes r.error r.sink r.disk
            ∙ rotate_interval faults later s d)
      | inr e ↦ rw e (append_rotated_interval faults bytes none s d)
    ]
