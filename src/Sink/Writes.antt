-- ===== src/Sink/Writes.antt =====
-- src/sink.rs, `write_bytes`: the count of the active file, its content, and its bound.
use xoslog.Prelude.{
  ◌+◌, ◌^◌, ◌≤◌, ◌<◌, ◌≡◌, ◌∙◌, refl, sym, ap, Bool, none, some, ◌++◌, arith, Bool-cases, inl, inr,
  if◌then◌else◌, [], length, length-append, max, ◌||◌,
}
use native.Mathlib.Decide.{dec_lt}
use xoslog.Prelude.Text.{Bytes}
use xoslog.Time.{SystemTime}
use xoslog.Sink.Disk.{Disk, open_truncate, append_bytes}
use xoslog.Sink.FileSink.{
  FileSink, Faults, Outcome, rotate, reopened, write_bytes, append, append_rotated, size_hit,
  interval_elapsed,
}
use xoslog.Sink.Paths.{text_eq-backup_path_active}
use xoslog.Sink.Backups.{shifted, shifted-other}
use xoslog.Sink.Rotation.{IsQuiet, rotate-shifted, reopened_lem}

-- The sink has its active file open, and has counted what is in it.
pub record IsOpen (s : FileSink) (d : Disk) : Type 0 where
  pub named : d.names s.path ≡ some s.file
  pub counted : s.size ≡ length (d.contents s.file)
  pub made : s.file < d.fresh

-- A fresh active file
abbrev pub IsFresh : Outcome → Type 0
IsFresh r =
    (r.error ≡ none)
    × (r.disk.names r.sink.path ≡ some r.sink.file)
    × (r.disk.contents r.sink.file ≡ [])
    × (r.sink.size ≡ 0)
    × (r.sink.file < r.disk.fresh)

rotate_truncating :
    (faults : Faults) (now : SystemTime) (s : FileSink) (d : Disk)
    → IsQuiet faults
    → IsOpen s d
    → s.max_backups ≡ 0
    → IsFresh (rotate faults now s d)
unfolding rotate reopened open_truncate
rotate_truncating faults now s d quiet o zero_backups =
    rw (quiet.flush, zero_backups, quiet.opens, o.named) (refl, o.named, ground arith, refl, o.made)

pub rotate-IsFresh :
    (faults : Faults) (now : SystemTime) (s : FileSink) (d : Disk)
    → IsQuiet faults
    → IsOpen s d
    → IsFresh (rotate faults now s d)
rotate-IsFresh faults now s d quiet o = elim (dec_lt 0 s.max_backups) [
  | no h ↦ rotate_truncating faults now s d quiet o (omega arith)
  | yes h ↦
      let here = shifted-other faults s d s.path (text_eq-backup_path_active s.path) ∙ o.named in
      let (no_error, names, path, empty, size, kept, made, same, _, _) =
        reopened_lem faults now s (shifted faults s d) s.file 1 0 quiet.opens here in
      rw (rotate-shifted faults now s d quiet h, same) (no_error, path, empty, size, made)
]

pub append_lem :
    (faults : Faults) (s : FileSink) (d : Disk) (bytes : Bytes)
    → faults.write_stops ≡ none
    → IsOpen s d
    → s.size + length bytes < 2 ^ 64
    → let r = append faults bytes s d in
      (r.error ≡ none)
      × IsOpen r.sink r.disk
      × (r.disk.contents r.sink.file ≡ d.contents s.file ++ bytes)
      × (r.sink.size ≡ s.size + length bytes)
unfolding append append_bytes
append_lem faults s d bytes writes o room = rw writes (
  refl,
  record {
    named = o.named;
    counted = ground (arith, length-append (d.contents s.file) bytes, o.counted);
    made = o.made;
  },
  ground arith,
  omega arith,
)

pub fresh-IsOpen : (r : Outcome) → IsFresh r → IsOpen r.sink r.disk
fresh-IsOpen r (e, named, empty, size, made) = record {
  named = named;
  counted = size ∙ sym (ap length empty);
  made = made;
}

-- If the kernel takes its calls and the sizes fit a `u64`, a write succeeds: the active file ends
-- in the bytes, behind what it held before or, if the size or the interval asked for a rotation,
-- alone in the file; the sink has its active file open with all its bytes counted.
pub write_bytes_lem :
    (faults : Faults) (now later : SystemTime) (bytes : Bytes) (s : FileSink) (d : Disk)
    → IsQuiet faults
    → faults.write_stops ≡ none
    → IsOpen s d
    → s.size + length bytes < 2 ^ 64
    → let r = write_bytes faults now later bytes s d in
      (r.error ≡ none)
      × IsOpen r.sink r.disk
      × (r.disk.contents r.sink.file
          ≡ (if size_hit s bytes || interval_elapsed now s then [] else d.contents s.file) ++ bytes)
      × (r.sink.size
          ≡ (if size_hit s bytes || interval_elapsed now s then 0 else s.size) + length bytes)
unfolding write_bytes append_rotated
write_bytes_lem faults now later bytes s d quiet writes o room =
    elim (Bool-cases (size_hit s bytes || interval_elapsed now s)) [
      | inr e ↦ rw e (append_lem faults s d bytes writes o room)
      | inl e ↦
          let rotated = rotate faults later s d in
          let fresh = rotate-IsFresh faults later s d quiet o in
          let (no_error, opened, content, size) =
            append_lem faults rotated.sink rotated.disk bytes writes (fresh-IsOpen rotated fresh)
              (omega (arith, fresh.3)) in
          rw (e, fresh.0)
            (
              no_error,
              opened,
              content ∙ ap (λ c. c ++ bytes) fresh.2,
              size ∙ ap (λ n. n + length bytes) fresh.3,
            )
    ]

counted_bound :
    (s : FileSink) (bytes : Bytes) (elapsed : Bool)
    → 0 < s.max_size
    → s.size + length bytes < 2 ^ 64
    → (if size_hit s bytes || elapsed then 0 else s.size) + length bytes
      ≤ max s.max_size (length bytes)
unfolding size_hit
counted_bound s bytes elapsed limited room = ground arith

-- With a size limit, and if the kernel takes the calls, the active file holds at most that many
-- bytes after a write, or the one record alone if the record itself is longer.
pub write_bytes-size :
    (faults : Faults) (now later : SystemTime) (bytes : Bytes) (s : FileSink) (d : Disk)
    → IsQuiet faults
    → faults.write_stops ≡ none
    → IsOpen s d
    → s.size + length bytes < 2 ^ 64
    → 0 < s.max_size
    → let r = write_bytes faults now later bytes s d in
      length (r.disk.contents r.sink.file) ≤ max s.max_size (length bytes)
write_bytes-size faults now later bytes s d quiet writes o room limited =
    let (_, opened, _, size) = write_bytes_lem faults now later bytes s d quiet writes o room in
    let bound = counted_bound s bytes (interval_elapsed now s) limited room in
    omega (arith, opened.counted, size, bound)
