-- ===== src/Time/Fields.antt =====
-- src/time.rs, `from_unix_micros`: the fields of a timestamp.
use xoslog.Prelude.{ℕ, ◌+◌, ◌*◌, ◌/◌, ◌%◌, ◌<◌, ◌≡◌, ◌^◌, refl, arith, ap, ◌∙◌}
use xoslog.Prelude.Int.{ℤ, pos, negsuc, ◌+ℤ◌, ◌*ℤ◌}
use xoslog.Time.{
  Timestamp, micros_per_day, micros_per_hour, micros_per_minute, micros_per_second, div_euclid,
  rem_euclid, from_unix_micros, date,
}
use xoslog.Time.Calendar.{IsDate}
use xoslog.Time.Civil.{IsNear}
use xoslog.Time.Days.{IsDay, civil_from_days-IsDate, civil_from_days-IsDay}

-- The microseconds since midnight that the fields of a timestamp stand for.
abbrev pub micros_of_day : Timestamp → ℕ
micros_of_day t =
    t.hour * micros_per_hour
    + t.minute * micros_per_minute
    + t.second * micros_per_second
    + t.microsecond

pub record IsClockTime (t : Timestamp) : Type 0 where
  pub hour_in : t.hour < 24
  pub minute_in : t.minute < 60
  pub second_in : t.second < 60
  pub microsecond_in : t.microsecond < 1_000_000

rem_day-lt : (z : ℤ) → rem_euclid z micros_per_day < micros_per_day
unfolding rem_euclid
rem_day-lt (pos n) = omega arith
rem_day-lt (negsuc n) = omega arith

div-rem_euclid :
    (z : ℤ)
    → div_euclid z micros_per_day *ℤ pos micros_per_day +ℤ pos (rem_euclid z micros_per_day) ≡ z
unfolding div_euclid rem_euclid ◌+ℤ◌ ◌*ℤ◌
div-rem_euclid (pos n) = ground arith
div-rem_euclid (negsuc n) = ground arith

pub from_unix_micros-IsClockTime :
    (micros offset : ℤ) → IsClockTime (from_unix_micros micros offset)
unfolding from_unix_micros
from_unix_micros-IsClockTime micros offset = ground (arith, rem_day-lt micros)

split_micros :
    (r : ℕ)
    → r < micros_per_day
    → r / micros_per_hour % 2 ^ 8 * micros_per_hour
        + r % micros_per_hour / micros_per_minute % 2 ^ 8 * micros_per_minute
        + r % micros_per_minute / micros_per_second % 2 ^ 8 * micros_per_second
        + r % micros_per_second % 2 ^ 32
      ≡ r
split_micros r h = omega arith

-- On the days that `IsNear` reaches, the fields of a timestamp are a date of the Gregorian calendar and
-- a time of day, each in its range. The date is the one that lies as many days from 1970-01-01, day by
-- day, as the input has whole days, rounded down; these days and the time of day together are the
-- microseconds that were given, before the epoch too; the offset is kept.
pub from_unix_micros_exact :
    (micros offset : ℤ)
    → IsNear (div_euclid micros micros_per_day)
    → let t = from_unix_micros micros offset in
      IsClockTime t
      × IsDate (date t.year t.month t.day)
      × IsDay (div_euclid micros micros_per_day) (date t.year t.month t.day)
      × (div_euclid micros micros_per_day *ℤ pos micros_per_day +ℤ pos (micros_of_day t) ≡ micros)
      × (t.offset_seconds ≡ offset)
unfolding from_unix_micros
from_unix_micros_exact micros offset near =
    let r = rem_euclid micros micros_per_day in
    let days = div_euclid micros micros_per_day in
    (
      from_unix_micros-IsClockTime micros offset,
      civil_from_days-IsDate days near,
      civil_from_days-IsDay days near,
      ap (λ n. div_euclid micros micros_per_day *ℤ pos micros_per_day +ℤ pos n)
            (split_micros r (rem_day-lt micros))
          ∙ div-rem_euclid micros,
      refl,
    )
