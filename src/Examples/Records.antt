-- ===== src/Examples/Records.antt =====
-- Times, fields and JSON lines on concrete inputs.
use xoslog.Prelude.{◌≡◌, refl, true, some, List, [], ◌∷◌, ◌++◌, arith, ℕ}
use xoslog.Prelude.Text.{Text, Bytes, codes}
use xoslog.Prelude.Int.{pos, negsuc, ◌+ℤ◌, ◌*ℤ◌}
use xoslog.Level.{warn}
use xoslog.Time.{
  after_epoch, now, from_unix_micros, civil_from_days, date, Timestamp, div_euclid, micros_per_day,
}
use xoslog.Time.Calendar.{next_date, IsDate}
use xoslog.Time.Days.{IsDay}
use xoslog.Time.Civil.{civil_from_days-next, IsNear}
use xoslog.Time.Fields.{from_unix_micros_exact, IsClockTime, micros_of_day}
use xoslog.Examples.Loggers.{no_float}
use xoslog.Entry.{str, int, float, bool, field, Field, field, LogEntry, merge_context}
use xoslog.Entry.Merge.{find_field, or_field, IsAddition, merge_context-adds}
use xoslog.Json.{is_finite, json_line, write_record, is_control}
use xoslog.Json.Reader.{read_object, all_numeric}
use xoslog.Json.Tokens.{IsNumber}
use xoslog.Json.Object.{object, read_object-json_line}
use xoslog.Json.Lines.{Visible, NoNewline}
use xoslog.Json.Record.{write_record-one_line}

IsNear-15 : IsNear (pos 11_015)
IsNear-15 = omega arith

IsNear-16 : IsNear (pos 11_015 +ℤ pos 1)
unfolding ◌+ℤ◌
IsNear-16 = ground arith

civil_from_days-next_example :
    civil_from_days (pos 11_015 +ℤ pos 1) ≡ next_date (civil_from_days (pos 11_015))
civil_from_days-next_example = civil_from_days-next (pos 11_015) IsNear-15 IsNear-16

abbrev last_micro : Timestamp
last_micro = from_unix_micros (negsuc 0) (pos 0)

last_micro-IsNear : IsNear (div_euclid (negsuc 0) micros_per_day)
unfolding div_euclid
last_micro-IsNear = omega arith

from_unix_micros_exact_example :
    IsClockTime last_micro
    × IsDate (date last_micro.year last_micro.month last_micro.day)
    × IsDay
        (div_euclid (negsuc 0) micros_per_day)
        (date last_micro.year last_micro.month last_micro.day)
    × (div_euclid (negsuc 0) micros_per_day *ℤ pos micros_per_day +ℤ pos (micros_of_day last_micro)
        ≡ negsuc 0)
    × (last_micro.offset_seconds ≡ pos 0)
from_unix_micros_exact_example = from_unix_micros_exact (negsuc 0) (pos 0) last_micro-IsNear

abbrev entry : LogEntry
entry = record {
  timestamp = now (after_epoch 951_782_400 0) (pos 0);
  level = warn;
  message = codes "two\nlines";
  target = codes "app::db";
  file = codes "src/db.rs";
  line = 7;
  fields = field (codes "user") (str (codes "alice")) ∷ [];
}

abbrev context : List Field
context = field (codes "user") (str (codes "bob")) ∷ field (codes "id") (int (pos 3)) ∷ []

merge_context-adds_example :
    (extra : List Field) × (merge_context entry context
      ≡ record entry { fields = entry.fields ++ extra })
    × IsAddition entry.fields extra
    × ((k : Text)
        → find_field k (entry.fields ++ extra)
          ≡ or_field (find_field k entry.fields) (find_field k context))
merge_context-adds_example = merge_context-adds entry context

digits_only : (f : ℕ) → is_finite f ≡ true → IsNumber (no_float f)
unfolding all_numeric
digits_only f h = refl

abbrev rich : LogEntry
rich = record entry {
  message = codes "a \"b\"";
  fields =
      field (codes "n") (int (negsuc 4))
      ∷ field (codes "x") (float 0)
      ∷ field (codes "ok") (bool true)
      ∷ [];
}

read_object-json_line_example :
    read_object (json_line no_float rich true) ≡ some (object no_float rich true)
read_object-json_line_example = read_object-json_line no_float digits_only rich true

abbrev zero_float : ℕ → Text
zero_float f = codes "0"

zero_float-Visible : (f : ℕ) → Visible (zero_float f)
unfolding is_control
zero_float-Visible f = ground arith

write_record-one_line_example :
    (line : Bytes) × NoNewline line
    × (write_record zero_float entry true [] ≡ [] ++ (line ++ (b'\n' ∷ [])))
write_record-one_line_example = write_record-one_line zero_float zero_float-Visible entry true []
