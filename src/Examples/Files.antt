-- ===== src/Examples/Files.antt =====
-- A rotating file on concrete disks.
use xoslog.Prelude.{
  ℕ, true, List, ◌∷◌, ◌^◌, ◌∙◌, sym, if_false, ◌≡◌, ◌≤◌, ◌<◌, ◌+◌, ◌-◌, refl, false, none, some, [],
  ◌++◌, arith, length, max, ◌==◌, if◌then◌else◌,
}
use xoslog.Prelude.Text.{Text, Bytes, codes, as_bytes, text_eq}
use xoslog.Time.{SystemTime, after_epoch, display, display_offset}
use xoslog.Sink.Interval.{never, daily, iso_week_start_secs}
use xoslog.Sink.Weeks.{IsWeekOf, iso_week_start_secs-IsWeekOf}
use xoslog.Sink.Disk.{Disk}
use xoslog.Sink.FileSink.{FileSink, Faults, backup_path, rotate, rename_failed, write_bytes}
use xoslog.Sink.Rotation.{IsQuiet, rotate_missing}
use xoslog.Sink.Paths.{text_eq-backup_path_path}
use xoslog.Prelude.Decimal.{signed_zero_padded}
use xoslog.Entry.{location}
use xoslog.Sink.Retained.{IsApart, IsReady, retained}
use xoslog.Sink.Interval.{slot_start}
use xoslog.Sink.Current.{InOrder, active, slot_stream, write_calls-slot_stream}
use xoslog.Sink.Stream.{WriteCall, write_calls, write_calls-retained}
use xoslog.Logger.Writer.{SinkSlot, new_slot, log, writer_step, handle_message, format_record}
use xoslog.Logger.Queue
use xoslog.Logger.Queue.{Setup, System, Reach, step, receives, handle}
use xoslog.Logger.Built.{started}
use xoslog.Logger.FileSlots.{FileState, Clock, written}
use xoslog.Logger.Files.{file_setup, Reach-written}
use xoslog.Level.{info, as_str}
use xoslog.Examples.Loggers.{entry, no_float}
use xoslog.Examples.Queues.{config}
use xoslog.Sink.Writes.{IsOpen, write_bytes-size}

iso_week_start_secs-IsWeekOf_example : IsWeekOf 1_000_000 (iso_week_start_secs 1_000_000)
iso_week_start_secs-IsWeekOf_example = iso_week_start_secs-IsWeekOf 1_000_000

abbrev log_path : Text
log_path = codes "app.log"

abbrev sink : FileSink
sink = record {
  path = log_path;
  file = 0;
  max_size = 4;
  max_backups = 2;
  size = 3;
  interval = never;
  interval_start = none;
}

abbrev disk : Disk
disk = record {
  names = λ p. if text_eq p log_path then some 0 else none;
  contents = λ f. if f == 0 then codes "abc" else [];
  fresh = 1;
}

abbrev empty_disk : Disk
empty_disk = record { names = λ p. none; contents = λ f. []; fresh = 0 }

abbrev faults : Faults
faults = record {
  dirs_fail = false;
  flush_fails = false;
  open_fails = false;
  metadata_fails = false;
  refuses = λ p. false;
  write_stops = none;
}

quiet : IsQuiet faults
quiet = record { names = λ p. refl; flush = refl; opens = refl }

named : disk.names log_path ≡ some 0
unfolding text_eq
named = refl

IsOpen-sink : IsOpen sink disk
IsOpen-sink = record { named = named; counted = refl; made = omega arith }

abbrev start : SystemTime
start = after_epoch 0 0

rotate_missing_example :
    ((rotate faults start sink empty_disk).error ≡ some rename_failed)
    × ((rotate faults start sink empty_disk).disk.names log_path ≡ none)
    × ((rotate faults start sink empty_disk).disk.names (backup_path log_path 2)
        ≡ (if 2 == 1 then none else empty_disk.names (backup_path log_path (2 - 1))))
rotate_missing_example =
    rotate_missing faults start sink empty_disk 2 quiet refl (omega arith) (omega arith)

write_bytes-size_example :
    length (
      (write_bytes faults start start (codes "de") sink disk).disk.contents
        (write_bytes faults start start (codes "de") sink disk).sink.file)
    ≤ max 4 2
write_bytes-size_example =
    write_bytes-size faults start start (codes "de") sink disk quiet refl IsOpen-sink (omega arith)
      (omega arith)

no_name : {f : ℕ} → none ≡ some f → ⊥
no_name h = cc

-- No backup yet
apart : IsApart sink disk
apart i f l u e = absurd (no_name (sym (if_false _ _ (text_eq-backup_path_path log_path i)) ∙ e))

IsReady-sink : IsReady sink disk
IsReady-sink = record { opened = IsOpen-sink; apart = apart }

abbrev calls : List WriteCall
calls =
    record { now = start; later = start; bytes = codes "de" }
    ∷ record { now = start; later = start; bytes = codes "fg" }
    ∷ []

write_calls-retained_example :
    IsReady (write_calls faults calls sink disk).0 (write_calls faults calls sink disk).1
    × (lost : Bytes) × (lost
          ++ retained (write_calls faults calls sink disk).0 (write_calls faults calls sink disk).1
        ≡ retained sink disk ++ codes "defg")
write_calls-retained_example =
    write_calls-retained faults calls sink disk quiet refl IsReady-sink (omega arith)

-- A logger with this file, to which one record is written
abbrev clock : Clock
clock = record { now = λ n. start; later = λ n. start }

abbrev file_slot : SinkSlot FileState
file_slot = new_slot (record { sink = sink; disk = disk; writes = 0 }) info

abbrev setup : Setup FileState
setup = file_setup faults clock no_float true config

abbrev before : System FileState
before = record (started (file_slot ∷ [])) {
  shared = record { queue = log entry ∷ []; connected = true; closed = false; dropped = 0 };
}

abbrev after : System FileState
after = record before {
  shared = record { queue = []; connected = true; closed = false; dropped = 0 };
  writer = handle setup (log entry) before.writer;
  received = log entry ∷ [];
}

after-Reach : Reach setup before after
unfolding writer_step handle_message
after-Reach = step Queue.start (receives (log entry) [] refl refl)

fits : 3 + length (written faults clock no_float true false info (log entry ∷ [])) < 2 ^ 64
unfolding format_record as_bytes display signed_zero_padded display_offset as_str location
fits = omega arith

Reach-written_example :
    (last : SinkSlot FileState) × (lost : Bytes) × (after.writer.slots ≡ last ∷ [])
    × (last.degraded ≡ false)
    × (lost ++ retained last.sink.sink last.sink.disk
        ≡ retained sink disk ++ written faults clock no_float true false info (log entry ∷ []))
Reach-written_example =
    Reach-written faults clock no_float true config file_slot quiet refl after-Reach refl refl refl
      IsReady-sink fits

-- A file that is rotated every day, written to on two days
abbrev day_sink : FileSink
day_sink = record sink { max_size = 0; interval = daily; interval_start = some 0 }

IsOpen-day_sink : IsOpen day_sink disk
IsOpen-day_sink = record { named = named; counted = refl; made = omega arith }

abbrev next_day : SystemTime
next_day = after_epoch 86_400 0

abbrev day_calls : List WriteCall
day_calls =
    record { now = start; later = start; bytes = codes "de" }
    ∷ record { now = next_day; later = next_day; bytes = codes "fg" }
    ∷ []

days : InOrder daily 0 day_calls
unfolding slot_start
days = (0, refl, refl, omega arith, (86_400, refl, refl, omega arith, tt))

write_calls-slot_stream_example :
    (k : ℕ) × (lost : Bytes) × ((write_calls faults day_calls day_sink disk).0.interval_start
      ≡ some k)
    × (0 ≤ k)
    × (lost ++ active (write_calls faults day_calls day_sink disk)
        ≡ (if k == 0 then codes "abc" else []) ++ slot_stream daily k day_calls)
write_calls-slot_stream_example =
    write_calls-slot_stream faults day_calls day_sink disk 0 quiet refl IsOpen-day_sink
      (omega arith) refl days
