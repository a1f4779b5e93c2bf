-- ===== src/Sink/FileSink.antt =====
-- src/sink.rs: `FileSink`, a log file with numbered backups. The readings of the system clock are
-- arguments, and the failures of the kernel's calls are a `Faults`.
use xoslog.Prelude.{
  ℕ, zero, suc, ◌+◌, ◌-◌, ◌%◌, ◌^◌, Bool, true, false, ◌&&◌, ◌||◌, Option, none, some, [], ◌∷◌,
  ◌++◌, ◌==◌, ltb, if◌then◌else◌, min, length, take,
}
use xoslog.Prelude.Text.{Text, Bytes}
use xoslog.Prelude.Decimal.{decimal}
use xoslog.Time.{SystemTime}
use xoslog.Sink.Interval.{RotationInterval, never, slot_start}
use xoslog.Sink.Disk.{Disk, remove_file, rename, or_same, open_append, open_truncate, append_bytes}

pub record FileSink : Type 0 where
  pub path : Text
  pub file : ℕ
  pub max_size : ℕ
  pub max_backups : ℕ
  pub size : ℕ
  pub interval : RotationInterval
  pub interval_start : Option ℕ

pub data FileError : Type 0 where
  dirs_failed flush_failed rename_failed open_failed write_failed : FileError

-- What the kernel refuses: `refuses` are the names that it neither renames nor removes, and
-- `write_stops` is how many bytes a failing write still takes.
pub record Faults : Type 0 where
  pub dirs_fail : Bool
  pub flush_fails : Bool
  pub open_fails : Bool
  pub metadata_fails : Bool
  pub refuses : Text → Bool
  pub write_stops : Option ℕ

-- The result, `none` for `Ok`, with the sink and the file system behind the call.
pub record Outcome : Type 0 where
  pub error : Option FileError
  pub sink : FileSink
  pub disk : Disk

unfoldable pub backup_path : Text → ℕ → Text
unfolding decimal
backup_path path n = path ++ (b'.' ∷ decimal n)

-- `interval_start_for` of the system clock; `modified` is the file's time, where it is known.
unfoldable pub interval_start_for : Option SystemTime → RotationInterval → SystemTime → Option ℕ
unfolding slot_start
interval_start_for modified interval now = elim (slot_start interval now) [
  | none ↦ none
  | some now_slot ↦ elim modified [
    | none ↦ some now_slot
    | some t ↦ elim (slot_start interval t) [ none ↦ some now_slot | some slot ↦ some slot ]
  ]
]

-- Whether `Path::parent` of a path to a file is there and not empty: the path has a slash.
abbrev pub has_parent : Text → Bool
has_parent [] = false
has_parent (c ∷ s) = (c == b'/') || has_parent s

-- `open_with`: an error, or the sink and the file system; only a path with a parent has its
-- directories made.
unfoldable pub open_with :
    Faults
    → Option SystemTime
    → Text
    → ℕ
    → ℕ
    → RotationInterval
    → SystemTime
    → Disk
    → Option (FileSink × Disk)
open_with faults modified path max_size max_backups interval now d =
    if (has_parent path && faults.dirs_fail) || faults.open_fails
    then none
    else let (file, opened) = open_append path d in
      some (
        record {
          path = path;
          file = file;
          max_size = max_size;
          max_backups = max_backups;
          size = if faults.metadata_fails then 0 else length (opened.contents file);
          interval = interval;
          interval_start =
              interval_start_for (if faults.metadata_fails then none else modified) interval now;
        },
        opened,
      )

-- `FileSink::open`
unfoldable pub open_sized :
    Faults → Option SystemTime → Text → ℕ → ℕ → SystemTime → Disk → Option (FileSink × Disk)
unfolding open_with
open_sized faults modified path max_size max_backups now d =
    open_with faults modified path max_size max_backups never now d

unfoldable pub open_with_interval :
    Faults
    → Option SystemTime
    → Text
    → ℕ
    → ℕ
    → RotationInterval
    → SystemTime
    → Disk
    → Option (FileSink × Disk)
open_with_interval faults modified path max_size max_backups interval now d =
    open_with faults modified path max_size max_backups interval now d

unfoldable pub rotate_every : RotationInterval → SystemTime → FileSink → FileSink
unfolding slot_start
rotate_every interval now s = record s {
  interval = interval;
  interval_start = slot_start interval now;
}

abbrev pub is_later : Option ℕ → Option ℕ → Bool
is_later (some opened) (some now) = ltb opened now
is_later (some opened) none = false
is_later none now = false

unfoldable pub interval_elapsed : SystemTime → FileSink → Bool
unfolding slot_start
interval_elapsed now s = is_later s.interval_start (slot_start s.interval now)

unfoldable pub remove_ignored : Faults → Text → Disk → Disk
remove_ignored faults p d = if faults.refuses p then d else remove_file p d

unfoldable pub rename_ignored : Faults → Text → Text → Disk → Disk
rename_ignored faults src dst d = if faults.refuses src then d else or_same (rename src dst d) d

-- The loop of `shift_backups` over the slots n, n - 1, .. 1
unfoldable pub shift_slots : Faults → Text → ℕ → Disk → Disk
shift_slots faults path zero d = d
shift_slots faults path (suc n) d =
    shift_slots faults path n
      (rename_ignored faults (backup_path path (suc n)) (backup_path path (suc n + 1)) d)

abbrev pub rename_active : Bool → Option Disk → Disk → Option FileError × Disk
rename_active true renamed d = (some rename_failed, d)
rename_active false none d = (some rename_failed, d)
rename_active false (some e) d = (none, e)

-- `shift_backups`: its renames of the backups stay done when the last rename fails.
unfoldable pub shift_backups : Faults → FileSink → Disk → Option FileError × Disk
shift_backups faults s d =
    let removed = remove_ignored faults (backup_path s.path s.max_backups) d in
    let shifted = shift_slots faults s.path (s.max_backups - 1) removed in
    rename_active (faults.refuses s.path) (rename s.path (backup_path s.path 1) shifted) shifted

-- The end of `rotate`, on the file that was opened in place of the old one
unfoldable pub reopened : SystemTime → FileSink → ℕ × Disk → Outcome
reopened now s (file, d) = record {
  error = none;
  sink = record s { file = file; size = 0; interval_start = slot_start s.interval now };
  disk = d;
}

unfoldable pub reopen_shifted : Faults → SystemTime → FileSink → Option FileError × Disk → Outcome
reopen_shifted faults now s (some e, d) = record { error = some e; sink = s; disk = d }
reopen_shifted faults now s (none, d) =
    if faults.open_fails
    then record { error = some open_failed; sink = s; disk = d }
    else reopened now s (open_append s.path d)

unfoldable pub rotate : Faults → SystemTime → FileSink → Disk → Outcome
rotate faults now s d =
    if faults.flush_fails
    then record { error = some flush_failed; sink = s; disk = d }
    else if ltb 0 s.max_backups
    then reopen_shifted faults now s (shift_backups faults s d)
    else if faults.open_fails
    then record { error = some open_failed; sink = s; disk = d }
    else reopened now s (open_truncate s.path d)

unfoldable pub size_hit : FileSink → Bytes → Bool
size_hit s bytes = ltb 0 s.max_size && ltb s.max_size (min (s.size + length bytes) (2 ^ 64 - 1))

-- `write_all` and the count of the bytes
unfoldable pub append : Faults → Bytes → FileSink → Disk → Outcome
unfolding append_bytes
append faults bytes s d = elim faults.write_stops [
  | none ↦ record {
    error = none;
    sink = record s { size = (s.size + length bytes) % 2 ^ 64 };
    disk = append_bytes s.file bytes d;
  }
  | some n ↦ record {
    error = some write_failed;
    sink = s;
    disk = append_bytes s.file (take n bytes) d;
  }
]

unfoldable pub append_rotated : Faults → Bytes → Option FileError → FileSink → Disk → Outcome
append_rotated faults bytes (some e) s d = record { error = some e; sink = s; disk = d }
append_rotated faults bytes none s d = append faults bytes s d

-- `write_bytes`; the clock is read at `now`, and once more, at `later`, if the file is rotated.
unfoldable pub write_bytes : Faults → SystemTime → SystemTime → Bytes → FileSink → Disk → Outcome
write_bytes faults now later bytes s d =
    let r = rotate faults later s d in
    if size_hit s bytes || interval_elapsed now s
    then append_rotated faults bytes r.error r.sink r.disk
    else append faults bytes s d

-- `flush`: whether it fails
unfoldable pub flush : Faults → FileSink → Option FileError
flush faults s = if faults.flush_fails then some flush_failed else none
