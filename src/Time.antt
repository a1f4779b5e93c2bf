-- ===== src/Time.antt =====
-- src/time.rs: microseconds since the Unix epoch to calendar fields, and the RFC 3339 text.
-- `SystemTime::now` is the clock of the operating system: its reading is an argument.
pub mod Eras
pub mod Years
pub mod Calendar
pub mod Successor
pub mod Civil
pub mod Days
pub mod Fields
pub mod Display
use xoslog.Prelude.{
  ℕ, ◌+◌, ◌-◌, ◌*◌, ◌/◌, ◌%◌, ◌^◌, Bool, true, false, [], ◌∷◌, ◌++◌, ltb, leb, ◌==◌, if◌then◌else◌,
}
use xoslog.Prelude.Text.{Text}
use xoslog.Prelude.Int.{ℤ, pos, negsuc, pos_part, neg_part, ◌+ℤ◌, ◌-ℤ◌, ◌*ℤ◌, ltb_ℤ}
use xoslog.Prelude.Decimal.{zero_padded, signed_zero_padded}

abbrev pub micros_per_second : ℕ
micros_per_second = 1_000_000

abbrev pub micros_per_minute : ℕ
micros_per_minute = 60_000_000

abbrev pub micros_per_hour : ℕ
micros_per_hour = 3_600_000_000

abbrev pub micros_per_day : ℕ
micros_per_day = 86_400_000_000

pub record Timestamp : Type 0 where
  pub year : ℤ
  pub month : ℕ
  pub day : ℕ
  pub hour : ℕ
  pub minute : ℕ
  pub second : ℕ
  pub microsecond : ℕ
  pub offset_seconds : ℤ

-- Rust's `/` of an `i128` by a positive constant rounds towards zero.
unfoldable pub div_trunc : ℤ → ℕ → ℤ
div_trunc (pos n) k = pos (n / k)
div_trunc (negsuc n) k = pos 0 -ℤ pos ((n + 1) / k)

-- `div_euclid` and `rem_euclid` by a positive constant
unfoldable pub div_euclid : ℤ → ℕ → ℤ
div_euclid (pos n) k = pos (n / k)
div_euclid (negsuc n) k = negsuc (n / k)

unfoldable pub rem_euclid : ℤ → ℕ → ℕ
rem_euclid (pos n) k = n % k
rem_euclid (negsuc n) k = k - 1 - n % k

-- `as i32`, `as u8` and `as u32` keep the low bits.
unfoldable pub as_i32 : ℤ → ℤ
unfolding rem_euclid
as_i32 z =
    let low = rem_euclid z (2 ^ 32) in
    if ltb low (2 ^ 31) then pos low else negsuc (2 ^ 32 - 1 - low)

abbrev pub as_u8 : ℕ → ℕ
as_u8 n = n % 2 ^ 8

abbrev pub as_u32 : ℕ → ℕ
as_u32 n = n % 2 ^ 32

-- The reading of the system clock relative to the epoch: at or after it, or the time before it.
pub data SystemTime : Type 0 where
  after_epoch : ℕ → ℕ → SystemTime
  before_epoch : ℕ → ℕ → SystemTime

-- `unix_micros`, on seconds and nanoseconds below a second
unfoldable pub unix_micros : SystemTime → ℤ
unix_micros (after_epoch secs nanos) = pos (secs * micros_per_second + nanos / 1000)
unix_micros (before_epoch secs nanos) =
    pos 0 -ℤ pos (secs * micros_per_second) -ℤ pos (nanos / 1000)

-- The first lines of `civil_from_days`: the 400-year era of a day, and the day of that era.
unfoldable pub era_of : ℤ → ℤ
unfolding div_trunc
era_of z = div_trunc (if ltb_ℤ z (pos 0) then z -ℤ pos 146_096 else z) 146_097

unfoldable pub day_of_era : ℤ → ℤ
day_of_era z = z -ℤ era_of z *ℤ pos 146_097

-- The lines from `yoe` on. `doe` is not negative (`day_of_era_lem`), and no difference below
-- goes under zero (`year_of_era_bounds`), so these are numbers.
unfoldable pub year_of_era : ℕ → ℕ
year_of_era doe = (doe - doe / 1460 + doe / 36_524 - doe / 146_096) / 365

unfoldable pub day_of_year : ℕ → ℕ
day_of_year doe = let yoe = year_of_era doe in doe - (365 * yoe + yoe / 4 - yoe / 100)

abbrev pub month_position : ℕ → ℕ
month_position doy = (5 * doy + 2) / 153

abbrev pub month_of : ℕ → ℕ
month_of mp = if ltb mp 10 then mp + 3 else mp - 9

pub record Date : Type 0 where
  pub year : ℤ
  pub month : ℕ
  pub day : ℕ

abbrev pub date : ℤ → ℕ → ℕ → Date
date y m d = record { year = y; month = m; day = d }

unfoldable pub date_in_era : ℤ → ℕ → Date
date_in_era era doe =
    let year = pos (year_of_era doe) +ℤ era *ℤ pos 400 in
    let doy = day_of_year doe in
    let mp = month_position doy in
    let day = as_u8 (doy - (153 * mp + 2) / 5 + 1) in
    let month = as_u8 (month_of mp) in
    date (as_i32 (if leb month 2 then year +ℤ pos 1 else year)) month day

unfoldable pub civil_from_days : ℤ → Date
civil_from_days days =
    let z = days +ℤ pos 719_468 in date_in_era (era_of z) (pos_part (day_of_era z))

unfoldable pub from_unix_micros : ℤ → ℤ → Timestamp
from_unix_micros micros offset =
    let rem = rem_euclid micros micros_per_day in
    let d = civil_from_days (div_euclid micros micros_per_day) in
    record {
      year = d.year;
      month = d.month;
      day = d.day;
      hour = as_u8 (rem / micros_per_hour);
      minute = as_u8 (rem % micros_per_hour / micros_per_minute);
      second = as_u8 (rem % micros_per_minute / micros_per_second);
      microsecond = as_u32 (rem % micros_per_second);
      offset_seconds = offset;
    }

-- `Timestamp::now`
unfoldable pub now : SystemTime → ℤ → Timestamp
now clock offset = from_unix_micros (unix_micros clock +ℤ offset *ℤ pos micros_per_second) offset

-- The offset of the `Display` text: `Z`, or a sign, hours and minutes.
unfoldable pub display_offset : ℤ → Text
display_offset (pos n) =
    if n == 0
    then b'Z' ∷ []
    else b'+' ∷ (zero_padded 2 (n / 3600) ++ (b':' ∷ zero_padded 2 (n % 3600 / 60)))
display_offset (negsuc n) =
    b'-' ∷ (zero_padded 2 ((n + 1) / 3600) ++ (b':' ∷ zero_padded 2 ((n + 1) % 3600 / 60)))

-- `Display::fmt`
unfoldable pub display : Timestamp → Text
display t =
    signed_zero_padded 4 t.year
    ++ (b'-'
        ∷ (zero_padded 2 t.month
            ++ (b'-'
                ∷ (zero_padded 2 t.day
                    ++ (b'T'
                        ∷ (zero_padded 2 t.hour
                            ++ (b':'
                                ∷ (zero_padded 2 t.minute
                                    ++ (b':'
                                        ∷ (zero_padded 2 t.second
                                            ++ (b'.'
                                                ∷ (zero_padded 6 t.microsecond
                                                    ++ display_offset t.offset_seconds))))))))))))
