-- ===== src/Sink/Stream.antt =====
-- src/sink.rs, `write_bytes`, one record after another: the files of a sink hold the end of the
-- stream of all that was written, without a gap.
use xoslog.Prelude.{
  subst, ℕ, ◌%◌, ◌≢◌, zero, suc, ◌+◌, ◌^◌, ◌≤◌, ◌<◌, ◌≡◌, ◌∙◌, refl, sym, ap, none, List, [], ◌∷◌,
  ◌++◌, arith, ◌||◌, Bool-cases, inl, inr, if◌then◌else◌, length, append_assoc, append-nil,
  length-append,
}
use xoslog.Prelude.Text.{Bytes}
use xoslog.Time.{SystemTime}
use xoslog.Sink.Disk.{Disk, append_bytes}
use xoslog.Sink.FileSink.{
  FileSink, Faults, Outcome, backup_path, rotate, write_bytes, append, append_rotated, size_hit,
  interval_elapsed,
}
use xoslog.Sink.Rotation.{IsQuiet}
use xoslog.Sink.Writes.{append_lem, rotate-IsFresh}
use xoslog.Sink.Retained.{
  backups_text, retained, oldest, found_text-eq, file_text, IsApart, IsReady, rotate-IsReady,
  rotate-retained,
}

kept_file :
    (s : FileSink) (d : Disk) (bytes : Bytes) (f : ℕ)
    → f ≢ s.file
    → (append_bytes s.file bytes d).contents f ≡ d.contents f
unfolding append_bytes
kept_file s d bytes f h = ground arith

appended_backups :
    (s t : FileSink) (d : Disk) (bytes : Bytes) (n : ℕ)
    → IsReady s d
    → n ≤ s.max_backups
    → t.path ≡ s.path
    → backups_text t (append_bytes s.file bytes d) n ≡ backups_text s d n
unfolding backups_text append_bytes
appended_backups s t d bytes zero ready u h = refl
appended_backups s t d bytes (suc n) ready u h =
    let grown = append_bytes s.file bytes d in
    let same =
      found_text-eq d grown (d.names (backup_path s.path (suc n)))
        (λ f e. kept_file s d bytes f (ready.apart (suc n) f (omega arith) u e).1) in
    ap (λ p. file_text grown (backup_path p (suc n)) ++ backups_text t grown n) h
    ∙ ap (λ x. x ++ backups_text t grown n) same
    ∙ ap (λ x. file_text d (backup_path s.path (suc n)) ++ x)
        (appended_backups s t d bytes n ready (omega arith) h)

module _ (s : FileSink) (d : Disk) (bytes : Bytes) (k : ℕ) (ready : IsReady s d) where
  abbrev counted : FileSink
  counted = record s { size = k }

  grown_file : (append_bytes s.file bytes d).contents s.file ≡ d.contents s.file ++ bytes
  unfolding append_bytes
  grown_file = ground arith

  grown-retained : retained counted (append_bytes s.file bytes d) ≡ retained s d ++ bytes
  unfolding retained
  grown-retained =
      ap (λ t. backups_text counted (append_bytes s.file bytes d) s.max_backups ++ t) grown_file
      ∙ ap (λ t. t ++ (d.contents s.file ++ bytes))
          (appended_backups s counted d bytes s.max_backups ready (omega arith) refl)
      ∙ sym (append_assoc (backups_text s d s.max_backups) (d.contents s.file) bytes)

  grown-IsApart : IsApart counted (append_bytes s.file bytes d)
  unfolding append_bytes
  grown-IsApart = ready.apart

appended :
    (faults : Faults) (s : FileSink) (d : Disk) (bytes : Bytes)
    → faults.write_stops ≡ none
    → append faults bytes s d ≡ record {
      error = none;
      sink = record s { size = (s.size + length bytes) % 2 ^ 64 };
      disk = append_bytes s.file bytes d;
    }
unfolding append
appended faults s d bytes writes = rw writes refl

append-retained :
    (faults : Faults) (s : FileSink) (d : Disk) (bytes : Bytes)
    → faults.write_stops ≡ none
    → IsReady s d
    → s.size + length bytes < 2 ^ 64
    → let r = append faults bytes s d in
      (r.error ≡ none)
      × IsReady r.sink r.disk
      × (retained r.sink r.disk ≡ retained s d ++ bytes)
      × (r.sink.size ≡ s.size + length bytes)
unfolding append
append-retained faults s d bytes writes ready room =
    let k = (s.size + length bytes) % 2 ^ 64 in
    let (no_error, opened, content, size) = append_lem faults s d bytes writes ready.opened room in
    let settled = appended faults s d bytes writes in
    let grown : Outcome = record {
      error = none;
      sink = record s { size = k };
      disk = append_bytes s.file bytes d;
    } in
    (
      no_error,
      record {
        opened = opened;
        apart =
            subst (λ (r : Outcome). IsApart r.sink r.disk) (sym settled)
              (grown-IsApart s d bytes k ready);
      },
      ap (λ (r : Outcome). retained r.sink r.disk) settled ∙ grown-retained s d bytes k ready,
      size,
    )

-- What a write does to the text that the sink keeps: it puts the bytes at the end and, where it
-- rotates, gives up the oldest file.
pub write_bytes-retained :
    (faults : Faults) (now later : SystemTime) (bytes : Bytes) (s : FileSink) (d : Disk)
    → IsQuiet faults
    → faults.write_stops ≡ none
    → IsReady s d
    → s.size + length bytes < 2 ^ 64
    → let r = write_bytes faults now later bytes s d in
      (r.error ≡ none)
      × IsReady r.sink r.disk
      × ((if size_hit s bytes || interval_elapsed now s then oldest s d else [])
            ++ retained r.sink r.disk
          ≡ retained s d ++ bytes)
      × (r.sink.size ≤ s.size + length bytes)
unfolding write_bytes append_rotated
write_bytes-retained faults now later bytes s d quiet writes ready room =
    elim (Bool-cases (size_hit s bytes || interval_elapsed now s)) [
      | inr e ↦
          let (no_error, still, text, size) = append-retained faults s d bytes writes ready room in
          rw e (no_error, still, text, omega (arith, size))
      | inl e ↦
          let rotated = rotate faults later s d in
          let fresh = rotate-IsFresh faults later s d quiet ready.opened in
          let (no_error, still, text, size) =
            append-retained faults rotated.sink rotated.disk bytes writes
              (rotate-IsReady faults later s d quiet ready) (omega (arith, fresh.3)) in
          rw (e, fresh.0)
            (
              no_error,
              still,
              ap (λ t. oldest s d ++ t) text
                  ∙ sym (append_assoc (oldest s d) (retained rotated.sink rotated.disk) bytes)
                  ∙ ap (λ t. t ++ bytes) (sym (rotate-retained faults later s d quiet ready)),
              omega (arith, size, fresh.3),
            )
    ]

-- One call of `write_bytes`: the two readings of the clock, and the bytes
pub record WriteCall : Type 0 where
  pub now : SystemTime
  pub later : SystemTime
  pub bytes : Bytes

-- Calls one after the other; the sink is kept whatever they return.
unfoldable pub write_calls : Faults → List WriteCall → FileSink → Disk → FileSink × Disk
write_calls faults [] s d = (s, d)
write_calls faults (c ∷ calls) s d =
    let r = write_bytes faults c.now c.later c.bytes s d in write_calls faults calls r.sink r.disk

abbrev pub stream : List WriteCall → Bytes
stream [] = []
stream (c ∷ calls) = c.bytes ++ stream calls

-- From a sink that is open, with backups that are not its active file, if the kernel takes all
-- calls, then however the rotations fall the files of the sink hold, from the oldest backup to the
-- active file, an end of what they held at first followed by all that was written: nothing is
-- missing in between, nothing is twice, and nothing is out of order. The size of the active file
-- and the bytes written stay below 2 ^ 64.
pub write_calls-retained :
    (faults : Faults) (calls : List WriteCall) (s : FileSink) (d : Disk)
    → IsQuiet faults
    → faults.write_stops ≡ none
    → IsReady s d
    → s.size + length (stream calls) < 2 ^ 64
    → let r = write_calls faults calls s d in
      IsReady r.0 r.1 × (lost : Bytes) × (lost ++ retained r.0 r.1 ≡ retained s d ++ stream calls)
unfolding write_calls
write_calls-retained faults [] s d quiet writes ready room =
    (ready, [], sym (append-nil (retained s d)))
write_calls-retained faults (c ∷ calls) s d quiet writes ready room =
    let r = write_bytes faults c.now c.later c.bytes s d in
    let total = length-append c.bytes (stream calls) in
    let (no_error, still, text, size) =
      write_bytes-retained faults c.now c.later c.bytes s d quiet writes ready
        (omega (arith, total)) in
    let (last, lost, rest) =
      write_calls-retained faults calls r.sink r.disk quiet writes still
        (omega (arith, total, size)) in
    let given_up = if size_hit s c.bytes || interval_elapsed c.now s then oldest s d else [] in
    (
      last,
      given_up ++ lost,
      append_assoc given_up lost (
            retained (write_calls faults calls r.sink r.disk).0
              (write_calls faults calls r.sink r.disk).1)
          ∙ ap (λ t. given_up ++ t) rest
          ∙ sym (append_assoc given_up (retained r.sink r.disk) (stream calls))
          ∙ ap (λ t. t ++ stream calls) text
          ∙ append_assoc (retained s d) c.bytes (stream calls),
    )
