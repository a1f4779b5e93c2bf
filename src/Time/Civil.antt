-- ===== src/Time/Civil.antt =====
-- src/time.rs, `civil_from_days` as a whole, with the casts of its results.
use xoslog.Prelude.{
  ℕ, ◌+◌, ◌-◌, ◌*◌, ◌/◌, ◌≤◌, ◌<◌, ◌≡◌, arith, leb, if◌then◌else◌, ap, sym, ◌∙◌, ◌^◌,
}
use xoslog.Prelude.Int.{ℤ, pos, negsuc, pos_part, neg_part, ◌+ℤ◌, ◌*ℤ◌, int_laws}
use xoslog.Time.{
  date, div_euclid, rem_euclid, as_i32, as_u8, year_of_era, day_of_year, month_position, month_of,
  date_in_era, civil_from_days,
}
use xoslog.Time.Eras.{era_of_lem, day_of_era_lem, following_day, rem_euclid-lt}
use xoslog.Time.Years.{year_of_era_bounds}
use xoslog.Time.Calendar.{next_date, march_date, year_length_bounds, march_ranges}
use xoslog.Time.Successor.{raw_date, march_year, raw-next, day_here-lt}

-- The casts of the source lose nothing on the days that are at most 700 thousand million days
-- from the epoch: some 1.9 thousand million years.
abbrev pub day_limit : ℕ
day_limit = 700_000_000_000

abbrev pub IsNear : ℤ → Type 0
IsNear z = (pos_part z ≤ day_limit) × (neg_part z ≤ day_limit)

as_i32-eq : (z : ℤ) → pos_part z < 2 ^ 31 → neg_part z < 2 ^ 31 → as_i32 z ≡ z
unfolding as_i32 rem_euclid
as_i32-eq (pos n) h k = ground arith
as_i32-eq (negsuc n) h k = ground arith

small_year :
    (era : ℤ) (y : ℕ)
    → pos_part era ≤ 5_000_000
    → neg_part era ≤ 5_000_000
    → y < 400
    → (pos_part (march_year era y +ℤ pos 1) < 2 ^ 31)
      × (neg_part (march_year era y +ℤ pos 1) < 2 ^ 31)
      × (pos_part (march_year era y) < 2 ^ 31)
      × (neg_part (march_year era y) < 2 ^ 31)
unfolding march_year ◌+ℤ◌ ◌*ℤ◌
small_year (pos n) y p q h = ground arith
small_year (negsuc n) y p q h = ground arith

-- The casts change nothing: the year fits `i32`, and the month and the day fit `u8`.
cast_date :
    (y : ℤ) (doy : ℕ)
    → doy < 366
    → (pos_part (y +ℤ pos 1) < 2 ^ 31) × (neg_part (y +ℤ pos 1) < 2 ^ 31)
    → (pos_part y < 2 ^ 31) × (neg_part y < 2 ^ 31)
    → (let month = as_u8 (month_of (month_position doy)) in
        date
          (as_i32 (if leb month 2 then y +ℤ pos 1 else y))
          month
          (as_u8 (doy - (153 * month_position doy + 2) / 5 + 1)))
      ≡ march_date y doy
unfolding march_date
cast_date y doy h a b =
    let r = march_ranges doy h in
    ground (arith, as_i32-eq y b.0 b.1, as_i32-eq (y +ℤ pos 1) a.0 a.1)

date_in_era-eq :
    (era : ℤ) (doe : ℕ)
    → pos_part era ≤ 5_000_000
    → neg_part era ≤ 5_000_000
    → doe < 146_097
    → date_in_era era doe ≡ raw_date era doe
unfolding date_in_era raw_date march_year
date_in_era-eq era doe p q h =
    let (small, lo, hi) = year_of_era_bounds doe h in
    let (a, b, c, d) = small_year era (year_of_era doe) p q small in
    let l = day_here-lt era doe h in
    cast_date (march_year era (year_of_era doe)) (day_of_year doe)
      (omega (arith, l, year_length_bounds (march_year era (year_of_era doe)))) (a, b) (c, d)

near_era :
    (days : ℤ)
    → IsNear days
    → (pos_part (div_euclid (days +ℤ pos 719_468) 146_097) ≤ 5_000_000)
      × (neg_part (div_euclid (days +ℤ pos 719_468) 146_097) ≤ 5_000_000)
unfolding div_euclid ◌+ℤ◌
near_era days h = ground arith

pub civil-raw_date :
    (days : ℤ)
    → IsNear days
    → civil_from_days days
      ≡ raw_date
          (div_euclid (days +ℤ pos 719_468) 146_097)
          (rem_euclid (days +ℤ pos 719_468) 146_097)
unfolding civil_from_days
civil-raw_date days h =
    let z = days +ℤ pos 719_468 in
    let (p, q) = near_era days h in
    rw (era_of_lem z, day_of_era_lem z)
      (date_in_era-eq (div_euclid z 146_097) (rem_euclid z 146_097) p q (rem_euclid-lt z))

-- The date of the day after is the day after the date, by the month lengths and the leap rule of the
-- Gregorian calendar, before the epoch too, as far as `IsNear` goes.
pub civil_from_days-next :
    (days : ℤ)
    → IsNear days
    → IsNear (days +ℤ pos 1)
    → civil_from_days (days +ℤ pos 1) ≡ next_date (civil_from_days days)
civil_from_days-next days h k =
    let z = days +ℤ pos 719_468 in
    let shift : days +ℤ pos 1 +ℤ pos 719_468 ≡ z +ℤ pos 1 = omega int_laws in
    civil-raw_date (days +ℤ pos 1) k
    ∙ ap (λ x. raw_date (div_euclid x 146_097) (rem_euclid x 146_097)) shift
    ∙ sym (
        ap next_date (civil-raw_date days h)
        ∙ raw-next (div_euclid z 146_097) (rem_euclid z 146_097) _ _ (rem_euclid-lt z)
            (following_day z))
