-- ===== src/Time/Calendar.antt =====
-- src/time.rs, `civil_from_days`: the dates that it returns follow one another as the Gregorian
-- calendar says.
use xoslog.Prelude.{
  ℕ, ◌+◌, ◌-◌, ◌*◌, ◌/◌, ◌%◌, ◌≤◌, ◌<◌, ◌≡◌, refl, Bool, true, not, ◌&&◌, ◌||◌, arith, leb, ltb,
  ◌==◌, if◌then◌else◌,
}
use xoslog.Prelude.Int.{ℤ, pos, ◌+ℤ◌}
use xoslog.Time.{Date, date, rem_euclid, month_position, month_of}
use xoslog.Time.Years.{passes_to, tested}

-- The leap rule of the Gregorian calendar; a cycle is 400 years.
unfoldable pub is_leap : ℤ → Bool
unfolding rem_euclid
is_leap y = let r = rem_euclid y 400 in (r % 4 == 0) && (not (r % 100 == 0) || (r == 0))

unfoldable pub days_in_month : Bool → ℕ → ℕ
days_in_month leap m = if m == 2 then (if leap then 29 else 28) else 30 + (m + m / 8) % 2

-- The day after a date.
unfoldable pub next_date : Date → Date
next_date d =
    if ltb d.day (days_in_month (is_leap d.year) d.month)
    then record d { day = d.day + 1 }
    else if ltb d.month 12
    then date d.year (d.month + 1) 1
    else date (d.year +ℤ pos 1) 1 1

-- A day of the year that begins on the first of March of year `y`.
unfoldable pub march_day : ℕ → ℕ
march_day doy = doy - (153 * month_position doy + 2) / 5 + 1

unfoldable pub march_month : ℕ → ℕ
march_month doy = month_of (month_position doy)

unfoldable pub march_date : ℤ → ℕ → Date
unfolding march_month march_day
march_date y doy =
    date (if leb (march_month doy) 2 then y +ℤ pos 1 else y) (march_month doy) (march_day doy)

-- Inside such a year the next day is in the same month, or the first of the next one.
same_month : ℕ → Bool
same_month doy =
    let m = march_month doy in
    (march_month (doy + 1) == m)
    && (march_day (doy + 1) == march_day doy + 1)
    && ltb (march_day doy) (days_in_month true m)
    && (if m == 2 then march_day doy + 336 == doy else true)

new_month : ℕ → Bool
new_month doy =
    let m = march_month doy in
    (march_day (doy + 1) == 1)
    && (march_day doy == days_in_month true m)
    && not (m == 2)
    && (march_month (doy + 1) == (if m == 12 then 1 else m + 1))

in_range : ℕ → Bool
in_range doy =
    leb 1 (march_month doy)
    && leb (march_month doy) 12
    && leb 1 (march_day doy)
    && leb (march_day doy) 31

follows : ℕ → Bool
follows doy = in_range doy && (same_month doy || new_month doy)

all_follow : passes_to follows 364 ≡ true
unfolding passes_to follows in_range same_month new_month march_day march_month days_in_month
all_follow = refl

abbrev pub year_length : ℤ → ℕ
year_length y = if is_leap (y +ℤ pos 1) then 366 else 365

pub year_length_bounds : (y : ℤ) → (365 ≤ year_length y) × (year_length y ≤ 366)
year_length_bounds y = ground arith

module _ (y : ℤ) (doy : ℕ) where
  next_same :
      same_month doy ≡ true
      → doy + 1 < year_length y
      → next_date (march_date y doy) ≡ march_date y (doy + 1)
  unfolding next_date march_date same_month days_in_month
  next_same h l = ground arith

  next_new :
      in_range doy ≡ true
      → new_month doy ≡ true
      → next_date (march_date y doy) ≡ march_date y (doy + 1)
  unfolding next_date march_date new_month in_range days_in_month
  next_new r h = ground arith

  pub next_inside : doy + 1 < year_length y → next_date (march_date y doy) ≡ march_date y (doy + 1)
  unfolding follows
  next_inside l =
      let f = tested follows 364 doy all_follow (omega (arith, year_length_bounds y)) in
      ground (arith, next_same, next_new)

  pub next_outside :
      doy + 1 ≡ year_length y → next_date (march_date y doy) ≡ march_date (y +ℤ pos 1) 0
  unfolding next_date march_date march_month march_day days_in_month
  next_outside l = ground arith

all_in_range : passes_to in_range 365 ≡ true
unfolding passes_to in_range march_day march_month
all_in_range = refl

pub march_ranges :
    (doy : ℕ)
    → doy < 366
    → (1 ≤ march_month doy) × (march_month doy ≤ 12) × (1 ≤ march_day doy) × (march_day doy ≤ 31)
unfolding in_range
march_ranges doy h = ground (arith, tested in_range 365 doy all_in_range (omega arith))

-- A date of the calendar.
pub record IsDate (d : Date) : Type 0 where
  pub month_from : 1 ≤ d.month
  pub month_to : d.month ≤ 12
  pub day_from : 1 ≤ d.day
  pub day_to : d.day ≤ days_in_month (is_leap d.year) d.month

in_month : ℕ → Bool
in_month doy =
    let m = march_month doy in
    in_range doy
    && leb (march_day doy) (days_in_month true m)
    && (if m == 2 then march_day doy + 336 == doy else true)

all_in_month : passes_to in_month 365 ≡ true
unfolding passes_to in_month in_range march_day march_month days_in_month
all_in_month = refl

pub march_date-IsDate : (y : ℤ) (doy : ℕ) → doy < year_length y → IsDate (march_date y doy)
unfolding march_date days_in_month in_month in_range
march_date-IsDate y doy h =
    let f = tested in_month 365 doy all_in_month (omega (arith, year_length_bounds y)) in
    ground arith
