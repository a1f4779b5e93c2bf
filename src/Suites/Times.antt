-- ===== src/Suites/Times.antt =====
-- src/time.rs: the tests.
use xoslog.Prelude.Decimal.{signed_zero_padded}
use xoslog.Prelude.Int.{◌*ℤ◌, ◌+ℤ◌, ◌-ℤ◌}
use xoslog.Time.{as_i32, date_in_era, day_of_era, day_of_year, display_offset, era_of, year_of_era}
use xoslog.Prelude.{◌≡◌, ℕ, ◌&&◌, ◌==◌, refl, Bool, true, [], ◌∷◌, length}
use xoslog.Prelude.Text.{codes, text_eq, strip_prefix}
use xoslog.Prelude.Int.{ℤ, pos, negsuc}
use xoslog.Time.{Timestamp, SystemTime, after_epoch, civil_from_days, display, now}
use xoslog.Time.{from_unix_micros, div_euclid, unix_micros, div_trunc, rem_euclid}
use xoslog.Prelude.Decimal.{zero_padded, decimal, digits}
use xoslog.Suites.Asserts.{asserts, int_eq, ends_with, char_at}

abbrev is_date : ℤ → ℤ → ℕ → ℕ → Bool
is_date days year month day =
    let d = civil_from_days days in int_eq d.year year && (d.month == month) && (d.day == day)

abbrev pub epoch_is_utc_midnight : Bool
epoch_is_utc_midnight = is_date (pos 0) (pos 1970) 1 1

abbrev pub day_before_epoch : Bool
day_before_epoch = is_date (negsuc 0) (pos 1969) 12 31

abbrev pub leap_day : Bool
leap_day = is_date (pos 19_782) (pos 2024) 2 29

abbrev august : ℕ → ℕ → ℕ → ℕ → ℤ → Timestamp
august day hour minute microsecond offset = record {
  year = pos 2026;
  month = 8;
  day = day;
  hour = hour;
  minute = minute;
  second = 0;
  microsecond = microsecond;
  offset_seconds = offset;
}

abbrev pub display_utc : Bool
display_utc =
    text_eq (display (august 13 4 49 123_456 (pos 0))) (codes "2026-08-13T04:49:00.123456Z")

abbrev pub displays_offset : Bool
displays_offset =
    text_eq (display (august 13 10 19 0 (pos 19_800))) (codes "2026-08-13T10:19:00.000000+05:30")

abbrev pub negative_offset : Bool
negative_offset =
    text_eq (display (august 12 20 49 0 (negsuc 28_799))) (codes "2026-08-12T20:49:00.000000-08:00")

abbrev pub now_formats_cleanly : SystemTime → Bool
now_formats_cleanly clock =
    let s = display (now clock (pos 0)) in
    asserts (
      (length s == 27)
      ∷ ends_with s (codes "Z")
      ∷ char_at s 4 b'-'
      ∷ char_at s 7 b'-'
      ∷ char_at s 10 b'T'
      ∷ char_at s 13 b':'
      ∷ char_at s 16 b':'
      ∷ char_at s 19 b'.'
      ∷ [])

abbrev pub offset_shifts_date : SystemTime → Bool
offset_shifts_date clock = ends_with (display (now clock (pos 3600))) (codes "+01:00")

dates_pass : asserts (epoch_is_utc_midnight ∷ day_before_epoch ∷ leap_day ∷ []) ≡ true
unfolding civil_from_days date_in_era as_i32 day_of_year day_of_era ◌-ℤ◌ ◌+ℤ◌ ◌*ℤ◌ era_of
    year_of_era
dates_pass = refl

displays_pass : asserts (display_utc ∷ displays_offset ∷ negative_offset ∷ []) ≡ true
unfolding display text_eq signed_zero_padded display_offset
displays_pass = refl

-- Readings in 2020
clocks_pass :
    (now_formats_cleanly (after_epoch 1_600_000_000 123_000) ≡ true)
    × (offset_shifts_date (after_epoch 1_600_000_000 0) ≡ true)
unfolding display text_eq now signed_zero_padded from_unix_micros civil_from_days date_in_era as_i32
    day_of_year day_of_era ◌-ℤ◌ ◌+ℤ◌ div_euclid unix_micros ◌*ℤ◌ era_of year_of_era display_offset
    ends_with char_at zero_padded decimal digits div_trunc rem_euclid strip_prefix
clocks_pass = (refl, refl)
