-- ===== src/Time/Days.antt =====
-- src/time.rs, `civil_from_days`: the date of every day, counted from the epoch.
use xoslog.Prelude.{ℕ, zero, suc, ◌≡◌, ◌∙◌, refl, sym, ap, arith, subst}
use xoslog.Prelude.Int.{ℤ, pos, negsuc, ◌+ℤ◌, ◌-ℤ◌, ◌*ℤ◌}
use xoslog.Time.{
  Date, date, div_euclid, rem_euclid, year_of_era, civil_from_days, date_in_era, as_i32,
  day_of_year, day_of_era, era_of,
}
use xoslog.Time.Eras.{rem_euclid-lt}
use xoslog.Time.Calendar.{next_date, IsDate, march_date-IsDate}
use xoslog.Time.Successor.{raw_date, march_year, day_here-lt}
use xoslog.Time.Civil.{IsNear, civil_from_days-next, civil-raw_date}

abbrev pub epoch_date : Date
epoch_date = date (pos 1970) 1 1

-- The date so many days later
unfoldable pub later : ℕ → Date → Date
later zero d = d
later (suc n) d = next_date (later n d)

-- A date is that of the day with a number: it is so many days after the epoch, or the epoch is so
-- many days after it.
abbrev pub IsDay : ℤ → Date → Type 0
IsDay (pos n) d = d ≡ later n epoch_date
IsDay (negsuc n) d = later (suc n) d ≡ epoch_date

later-next : (n : ℕ) (d : Date) → later (suc n) d ≡ later n (next_date d)
unfolding later
later-next zero d = refl
later-next (suc n) d = ap next_date (later-next n d)

civil-epoch : civil_from_days (pos 0) ≡ epoch_date
unfolding civil_from_days date_in_era as_i32 day_of_year day_of_era ◌-ℤ◌ ◌+ℤ◌ ◌*ℤ◌ era_of
    year_of_era
civil-epoch = refl

IsNear-before : (n : ℕ) → IsNear (pos (suc n)) → IsNear (pos n)
IsNear-before n h = omega (arith, h)

IsNear-after : (n : ℕ) → IsNear (negsuc (suc n)) → IsNear (negsuc n)
IsNear-after n h = omega (arith, h)

next_pos : (n : ℕ) → pos n +ℤ pos 1 ≡ pos (suc n)
unfolding ◌+ℤ◌
next_pos n = ground arith

next_negsuc : (n : ℕ) → negsuc (suc n) +ℤ pos 1 ≡ negsuc n
unfolding ◌+ℤ◌
next_negsuc n = ground arith

next_minus_one : negsuc 0 +ℤ pos 1 ≡ pos 0
unfolding ◌+ℤ◌
next_minus_one = ground arith

next_civil :
    (z w : ℤ)
    → z +ℤ pos 1 ≡ w
    → IsNear z
    → IsNear w
    → civil_from_days w ≡ next_date (civil_from_days z)
next_civil z w e h k =
    ap civil_from_days (sym e) ∙ civil_from_days-next z h (subst IsNear (sym e) k)

pub civil_from_days-IsDay : (days : ℤ) → IsNear days → IsDay days (civil_from_days days)
unfolding later
civil_from_days-IsDay (pos zero) h = civil-epoch
civil_from_days-IsDay (pos (suc n)) h =
    next_civil (pos n) (pos (suc n)) (next_pos n) (IsNear-before n h) h
    ∙ ap next_date (civil_from_days-IsDay (pos n) (IsNear-before n h))
civil_from_days-IsDay (negsuc zero) h =
    sym (next_civil (negsuc 0) (pos 0) next_minus_one h (omega arith)) ∙ civil-epoch
civil_from_days-IsDay (negsuc (suc n)) h =
    later-next (suc n) (civil_from_days (negsuc (suc n)))
    ∙ ap (later (suc n))
        (sym (next_civil (negsuc (suc n)) (negsuc n) (next_negsuc n) h (IsNear-after n h)))
    ∙ civil_from_days-IsDay (negsuc n) (IsNear-after n h)

pub civil_from_days-IsDate : (days : ℤ) → IsNear days → IsDate (civil_from_days days)
unfolding raw_date
civil_from_days-IsDate days h =
    let z = days +ℤ pos 719_468 in
    let doe = rem_euclid z 146_097 in
    let era = div_euclid z 146_097 in
    subst IsDate (sym (civil-raw_date days h)) (
      march_date-IsDate (march_year era (year_of_era doe)) _
        (day_here-lt era doe (rem_euclid-lt z)))
