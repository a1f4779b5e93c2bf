-- ===== src/Suites/Files.antt =====
-- src/sink.rs: the tests, on a disk and a path given as arguments. The frozen clock of a test is the
-- reading that its calls are given.
use xoslog.Prelude.Decimal.{decimal, digits}
use xoslog.Prelude.Int.{◌*ℤ◌, ◌+ℤ◌, ◌-ℤ◌}
use xoslog.Sink.Disk.{open_append, rename, append_bytes, open_truncate, remove_file}
use xoslog.Sink.Interval.{iso_week_start_secs, period_secs, slot_at, unix_secs}
use xoslog.Time.{div_euclid}
use xoslog.Prelude.{
  ◌≡◌, if◌then◌else◌, ℕ, ◌+◌, ◌&&◌, refl, Bool, true, false, not, Option, none, some, List, [], ◌∷◌,
  ◌++◌, leb, length,
}
use xoslog.Prelude.Text.{Text, Bytes, codes, text_eq}
use xoslog.Time.{SystemTime, after_epoch}
use xoslog.Sink.Interval.{RotationInterval, hourly, daily, every, slot_start}
use xoslog.Sink.Disk.{Disk}
use xoslog.Sink.FileSink
use xoslog.Sink.FileSink.{
  FileSink, Faults, Outcome, backup_path, open_sized, open_with_interval, rotate_every, write_bytes,
}
use xoslog.Sink.Retained.{file_text}
use xoslog.Suites.Asserts.{asserts, is_none}

abbrev no_faults : Faults
no_faults = record {
  dirs_fail = false;
  flush_fails = false;
  open_fails = false;
  metadata_fails = false;
  refuses = λ p. false;
  write_stops = none;
}

abbrev at : ℕ → SystemTime
at secs = after_epoch secs 0

-- A test goes on with the sink and the disk, where a call succeeds.
abbrev State : Type 0
State = FileSink × Disk

abbrev opened : Option State → (State → Bool) → Bool
opened none test = false
opened (some s) test = test s

abbrev wrote : Outcome → (State → Bool) → Bool
wrote r test = is_none r.error && test (r.sink, r.disk)

abbrev write : SystemTime → Bytes → (State → Bool) → State → Bool
write now bytes test (s, d) = wrote (write_bytes no_faults now now bytes s d) test

abbrev flushed : (State → Bool) → State → Bool
flushed test (s, d) = is_none (FileSink.flush no_faults s) && test (s, d)

-- `rotate_every` and `with_clock`
abbrev every_at : RotationInterval → SystemTime → State → State
every_at interval now (s, d) = (rotate_every interval now s, d)

abbrev exists : Text → Disk → Bool
exists p d = not (is_none (d.names p))

abbrev holds : Text → Bytes → Disk → Bool
holds p content d = text_eq (file_text d p) content

module _ (path : Text) (d : Disk) where
  abbrev open_log : ℕ → ℕ → Option State
  open_log max_size max_backups = open_sized no_faults none path max_size max_backups (at 0) d

  abbrev pub writes_and_flushes : Bool
  writes_and_flushes = opened (open_log 0 0) (
      write (at 0) (codes "hello\n")
        (write (at 0) (codes "world\n") (flushed (λ s. holds path (codes "hello\nworld\n") s.1))))

  abbrev pub time_rotation_creates_backup_when_interval_elapses : Bool
  time_rotation_creates_backup_when_interval_elapses = opened (open_log 0 3) (λ s.
      write (at 3_600) (codes "first\n")
        (λ a.
          not (exists (backup_path path 1) a.1)
          && write (at 7_200) (codes "second\n")
              (flushed (λ b. asserts (
                exists (backup_path path 1) b.1
                ∷ holds path (codes "second\n") b.1
                ∷ holds (backup_path path 1) (codes "first\n") b.1
                ∷ [])))
              a)
        (every_at hourly (at 3_600) s))

  abbrev pub time_rotation_does_not_fire_inside_the_same_slot : Bool
  time_rotation_does_not_fire_inside_the_same_slot = opened (open_log 0 3) (λ s.
      write (at 3_600) (codes "a\n")
        (write (at 7_199) (codes "b\n") (
          flushed (λ b.
            asserts
              (not (exists (backup_path path 1) b.1) ∷ holds path (codes "a\nb\n") b.1 ∷ []))))
        (every_at hourly (at 3_600) s))

  abbrev pub custom_every_interval_rotates : Bool
  custom_every_interval_rotates = opened (open_log 0 1) (λ s.
      write (at 0) (codes "old\n")
        (write (at 10) (codes "new\n") (
          flushed (λ b. asserts (
            holds path (codes "new\n") b.1 ∷ holds (backup_path path 1) (codes "old\n") b.1 ∷ []))))
        (every_at (every 10) (at 0) s))

  abbrev pub size_and_time_rotation_either_trigger : Bool
  size_and_time_rotation_either_trigger = opened (open_log 8 2) (λ s.
      write (at 86_400) (codes "1234567\n")
        (write (at 86_400) (codes "overflow\n") (λ a.
          exists (backup_path path 1) a.1
          && write (at 172_800) (codes "next-day\n")
              (flushed (λ b.
                asserts
                  (exists (backup_path path 2) b.1 ∷ holds path (codes "next-day\n") b.1 ∷ [])))
              a))
        (every_at daily (at 86_400) s))

  -- The disk has the stale file, last modified an hour before.
  abbrev pub leftover_file_from_earlier_slot_rotates_on_first_write : ℕ → Bool
  leftover_file_from_earlier_slot_rotates_on_first_write now =
      opened (open_with_interval no_faults (some (at now)) path 0 3 hourly (at (now + 3_600)) d) (
        write (at (now + 3_600)) (codes "fresh\n") (
          flushed (λ b. asserts (
            exists (backup_path path 1) b.1
            ∷ holds path (codes "fresh\n") b.1
            ∷ holds (backup_path path 1) (codes "stale\n") b.1
            ∷ []))))

-- The records of a loop over `i`, and the last number of it first
abbrev write_records : List ℕ → (State → Bool) → State → Bool
write_records [] test = test
write_records (i ∷ is) test =
    write (at 0) (codes "record-" ++ (decimal i ++ codes "-xxxxxxxxxxxx\n")) (write_records is test)

abbrev to_ten : List ℕ
to_ten = 0 ∷ 1 ∷ 2 ∷ 3 ∷ 4 ∷ 5 ∷ 6 ∷ 7 ∷ 8 ∷ 9 ∷ []

module _ (path : Text) (d : Disk) where
  abbrev pub rotation_creates_backups : Bool
  rotation_creates_backups = opened (open_log path d 20 3) (
      write_records to_ten (
        flushed (λ b. asserts (
          exists path b.1
          ∷ exists (backup_path path 1) b.1
          ∷ exists (backup_path path 2) b.1
          ∷ exists (backup_path path 3) b.1
          ∷ not (exists (backup_path path 4) b.1)
          ∷ []))))

  abbrev pub rotation_truncates_when_no_backups : Bool
  rotation_truncates_when_no_backups = opened (open_log path d 20 0) (
      write_records to_ten (
        flushed (λ b.
          asserts
            (not (exists (backup_path path 1) b.1) ∷ leb (length (file_text b.1 path)) 40 ∷ []))))

abbrev temp_file : Text
temp_file = codes "t"

abbrev empty : Disk
empty = record { names = λ p. none; contents = λ f. []; fresh = 0 }

abbrev stale : Disk
stale = record {
  names = λ p. if text_eq p temp_file then some 0 else none;
  contents = λ f. codes "stale\n";
  fresh = 1;
}

writes_and_flushes_pass : writes_and_flushes temp_file empty ≡ true
unfolding open_sized open_with_interval write_bytes FileSink.size_hit FileSink.interval_elapsed
    FileSink.interval_start_for FileSink.append FileSink.flush text_eq open_append rotate_every
    backup_path FileSink.append_rotated FileSink.rotate FileSink.reopen_shifted
    FileSink.shift_backups rename FileSink.shift_slots FileSink.rename_ignored
    FileSink.remove_ignored decimal digits ◌*ℤ◌ ◌+ℤ◌ ◌-ℤ◌ append_bytes open_truncate remove_file
    FileSink.open_with FileSink.reopened iso_week_start_secs period_secs slot_at slot_start
    unix_secs div_euclid
writes_and_flushes_pass = refl

time_rotation_does_not_fire_inside_the_same_slot_pass :
    time_rotation_does_not_fire_inside_the_same_slot temp_file empty ≡ true
unfolding open_sized open_with_interval write_bytes FileSink.size_hit FileSink.interval_elapsed
    FileSink.interval_start_for FileSink.append FileSink.flush text_eq open_append rotate_every
    backup_path FileSink.append_rotated FileSink.rotate FileSink.reopen_shifted
    FileSink.shift_backups rename FileSink.shift_slots FileSink.rename_ignored
    FileSink.remove_ignored decimal digits ◌*ℤ◌ ◌+ℤ◌ ◌-ℤ◌ append_bytes open_truncate remove_file
    FileSink.open_with FileSink.reopened iso_week_start_secs period_secs slot_at slot_start
    unix_secs div_euclid
time_rotation_does_not_fire_inside_the_same_slot_pass = refl

time_rotation_creates_backup_when_interval_elapses_pass :
    time_rotation_creates_backup_when_interval_elapses temp_file empty ≡ true
unfolding open_sized open_with_interval write_bytes FileSink.size_hit FileSink.interval_elapsed
    FileSink.interval_start_for FileSink.append FileSink.flush text_eq open_append rotate_every
    backup_path FileSink.append_rotated FileSink.rotate FileSink.reopen_shifted
    FileSink.shift_backups rename FileSink.shift_slots FileSink.rename_ignored
    FileSink.remove_ignored decimal digits ◌*ℤ◌ ◌+ℤ◌ ◌-ℤ◌ append_bytes open_truncate remove_file
    FileSink.open_with FileSink.reopened iso_week_start_secs period_secs slot_at slot_start
    unix_secs div_euclid
time_rotation_creates_backup_when_interval_elapses_pass = refl

custom_every_interval_rotates_pass : custom_every_interval_rotates temp_file empty ≡ true
unfolding open_sized open_with_interval write_bytes FileSink.size_hit FileSink.interval_elapsed
    FileSink.interval_start_for FileSink.append FileSink.flush text_eq open_append rotate_every
    backup_path FileSink.append_rotated FileSink.rotate FileSink.reopen_shifted
    FileSink.shift_backups rename FileSink.shift_slots FileSink.rename_ignored
    FileSink.remove_ignored decimal digits ◌*ℤ◌ ◌+ℤ◌ ◌-ℤ◌ append_bytes open_truncate remove_file
    FileSink.open_with FileSink.reopened iso_week_start_secs period_secs slot_at slot_start
    unix_secs div_euclid
custom_every_interval_rotates_pass = refl

size_and_time_rotation_either_trigger_pass :
    size_and_time_rotation_either_trigger temp_file empty ≡ true
unfolding open_sized open_with_interval write_bytes FileSink.size_hit FileSink.interval_elapsed
    FileSink.interval_start_for FileSink.append FileSink.flush text_eq open_append rotate_every
    backup_path FileSink.append_rotated FileSink.rotate FileSink.reopen_shifted
    FileSink.shift_backups rename FileSink.shift_slots FileSink.rename_ignored
    FileSink.remove_ignored decimal digits ◌*ℤ◌ ◌+ℤ◌ ◌-ℤ◌ append_bytes open_truncate remove_file
    FileSink.open_with FileSink.reopened iso_week_start_secs period_secs slot_at slot_start
    unix_secs div_euclid
size_and_time_rotation_either_trigger_pass = refl

leftover_file_from_earlier_slot_rotates_on_first_write_pass :
    leftover_file_from_earlier_slot_rotates_on_first_write temp_file stale 3_600 ≡ true
unfolding open_sized open_with_interval write_bytes FileSink.size_hit FileSink.interval_elapsed
    FileSink.interval_start_for FileSink.append FileSink.flush text_eq open_append rotate_every
    backup_path FileSink.append_rotated FileSink.rotate FileSink.reopen_shifted
    FileSink.shift_backups rename FileSink.shift_slots FileSink.rename_ignored
    FileSink.remove_ignored decimal digits ◌*ℤ◌ ◌+ℤ◌ ◌-ℤ◌ append_bytes open_truncate remove_file
    FileSink.open_with FileSink.reopened iso_week_start_secs period_secs slot_at slot_start
    unix_secs div_euclid
leftover_file_from_earlier_slot_rotates_on_first_write_pass = refl

rotation_truncates_when_no_backups_pass : rotation_truncates_when_no_backups temp_file empty ≡ true
unfolding open_sized open_with_interval write_bytes FileSink.size_hit FileSink.interval_elapsed
    FileSink.interval_start_for FileSink.append FileSink.flush text_eq open_append rotate_every
    backup_path FileSink.append_rotated FileSink.rotate FileSink.reopen_shifted
    FileSink.shift_backups rename FileSink.shift_slots FileSink.rename_ignored
    FileSink.remove_ignored decimal digits ◌*ℤ◌ ◌+ℤ◌ ◌-ℤ◌ append_bytes open_truncate remove_file
    FileSink.open_with FileSink.reopened iso_week_start_secs period_secs slot_at slot_start
    unix_secs div_euclid
rotation_truncates_when_no_backups_pass = refl

rotation_creates_backups_pass : rotation_creates_backups temp_file empty ≡ true
unfolding open_sized open_with_interval write_bytes FileSink.size_hit FileSink.interval_elapsed
    FileSink.interval_start_for FileSink.append FileSink.flush text_eq open_append rotate_every
    backup_path FileSink.append_rotated FileSink.rotate FileSink.reopen_shifted
    FileSink.shift_backups rename FileSink.shift_slots FileSink.rename_ignored
    FileSink.remove_ignored decimal digits ◌*ℤ◌ ◌+ℤ◌ ◌-ℤ◌ append_bytes open_truncate remove_file
    FileSink.open_with FileSink.reopened iso_week_start_secs period_secs slot_at slot_start
    unix_secs div_euclid
rotation_creates_backups_pass = refl
