-- ===== src/Time/Successor.antt =====
-- src/time.rs, `civil_from_days`: from the dates of one year to those of all days.
use native.Mathlib.Decide.{dec_lt}
use xoslog.Prelude.{ℕ, zero, suc, ◌+◌, ◌%◌, ◌≤◌, ◌<◌, ◌≡◌, refl, arith, ap, sym, ◌∙◌}
use xoslog.Prelude.Int.{ℤ, pos, negsuc, ◌+ℤ◌, ◌*ℤ◌, int_laws}
use xoslog.Time.{Date, rem_euclid, year_of_era, day_of_year}
use xoslog.Time.Eras.{NextDay, inside, outside}
use xoslog.Time.Years.{
  days_before, days_before_bounds, last_year, year_of_era_bounds, year_of_era-eq, day_of_year-eq,
}
use xoslog.Time.Calendar.{
  is_leap, next_date, march_date, year_length, year_length_bounds, next_inside, next_outside,
}

unfoldable pub march_year : ℤ → ℕ → ℤ
march_year era y = pos y +ℤ era *ℤ pos 400

rem-march_year :
    (era : ℤ) (y : ℕ) → y < 400 → rem_euclid (march_year era y +ℤ pos 1) 400 ≡ (y + 1) % 400
unfolding march_year rem_euclid ◌+ℤ◌ ◌*ℤ◌
rem-march_year (pos n) y h = ground arith
rem-march_year (negsuc n) y h = ground arith

-- The closed formula for the days before a year agrees with the leap rule.
days_before-suc :
    (era : ℤ) (y : ℕ)
    → y < 400
    → days_before (y + 1) ≡ days_before y + year_length (march_year era y)
unfolding is_leap
days_before-suc era y h = rw (rem-march_year era y h) (unfold days_before in ground arith)

-- The date of a day of an era, with the year as an unbounded integer.
unfoldable pub raw_date : ℤ → ℕ → Date
raw_date era doe = march_date (march_year era (year_of_era doe)) (day_of_year doe)

raw_date_of :
    (era : ℤ) (y doy doe : ℕ)
    → y < 400
    → doy < year_length (march_year era y)
    → days_before y + doy ≡ doe
    → raw_date era doe ≡ march_date (march_year era y) doy
unfolding raw_date
raw_date_of era y doy doe hy hd e =
    let grow = days_before-suc era y hy in
    let top : doe < 146_097 = omega (arith, days_before_bounds y hy) in
    let same : year_of_era doe ≡ y = year_of_era-eq y doe hy (omega arith) (omega arith) in
    let shift : days_before (year_of_era doe) ≡ days_before y = ap days_before same in
    let rest : day_of_year doe ≡ doy = omega (arith, day_of_year-eq doe top) in rw (same, rest) refl

march_year-suc : (era : ℤ) (y : ℕ) → march_year era (y + 1) ≡ march_year era y +ℤ pos 1
unfolding march_year
march_year-suc era y = omega int_laws

march_year_wrap : (era : ℤ) → march_year (era +ℤ pos 1) 0 ≡ march_year era 399 +ℤ pos 1
unfolding march_year ◌+ℤ◌ ◌*ℤ◌
march_year_wrap (pos n) = ground arith
march_year_wrap (negsuc zero) = ground arith
march_year_wrap (negsuc (suc n)) = ground arith

days_before_early : (y : ℕ) → y < 399 → days_before (y + 1) ≤ 146_096
unfolding days_before
days_before_early y h = omega arith

days_before_start : days_before 0 ≡ 0
unfolding days_before
days_before_start = refl

module _ (era : ℤ) (doe : ℕ) (in_era : doe < 146_097) where
  abbrev pub year_here : ℕ
  year_here = year_of_era doe

  abbrev pub day_here : ℕ
  day_here = day_of_year doe

  pub day_here-lt : day_here < year_length (march_year era year_here)
  day_here-lt =
      let (small, lo, hi) = year_of_era_bounds doe in_era in
      omega (arith, days_before-suc era year_here small, day_of_year-eq doe in_era)

  pub here_lem : raw_date era doe ≡ march_date (march_year era year_here) day_here
  unfolding raw_date
  here_lem = refl

  -- From the last day of a year that is not the era's last one.
  next_year :
      year_here < 399
      → doe + 1 ≡ days_before (year_here + 1)
      → march_date (march_year era year_here +ℤ pos 1) 0 ≡ raw_date era (doe + 1)
  next_year small e =
      ap (λ y. march_date y 0) (sym (march_year-suc era year_here))
      ∙ sym (
          raw_date_of era (year_here + 1) 0 (doe + 1) (omega arith)
            (omega (arith, year_length_bounds (march_year era (year_here + 1)))) (omega arith))

  end_of_era : year_here ≡ 399 → days_before (year_here + 1) ≡ 146_097
  end_of_era e = ap (λ y. days_before (y + 1)) e ∙ last_year

  before_last :
      doe < 146_096 → day_here + 1 ≡ year_length (march_year era year_here) → year_here < 399
  before_last h last =
      let (small, lo, hi) = year_of_era_bounds doe in_era in
      elim (dec_lt year_here 399) [
        | yes l ↦ l
        | no g ↦ absurd (
            omega (
              arith,
              end_of_era (omega arith),
              days_before-suc era year_here small,
              day_of_year-eq doe in_era,
            ))
      ]

  at_last_year : doe ≡ 146_096 → year_here ≡ 399
  at_last_year h =
      let (small, lo, hi) = year_of_era_bounds doe in_era in
      elim (dec_lt year_here 399) [
        | yes l ↦ absurd (omega (arith, days_before_early year_here l))
        | no g ↦ omega arith
      ]

  raw_next_inside : doe < 146_096 → next_date (raw_date era doe) ≡ raw_date era (doe + 1)
  raw_next_inside h =
      let (small, lo, hi) = year_of_era_bounds doe in_era in
      let place = day_of_year-eq doe in_era in
      let grow = days_before-suc era year_here small in
      elim (dec_lt (day_here + 1) (year_length (march_year era year_here))) [
        | yes l ↦
            ap next_date here_lem
            ∙ next_inside (march_year era year_here) day_here l
            ∙ sym (raw_date_of era year_here (day_here + 1) (doe + 1) small l (omega arith))
        | no g ↦
            let last : day_here + 1 ≡ year_length (march_year era year_here) =
              omega (arith, day_here-lt) in
            let early : year_here < 399 = before_last h last in
            ap next_date here_lem
            ∙ next_outside (march_year era year_here) day_here last
            ∙ next_year early (omega arith)
      ]

  raw_next_outside : doe ≡ 146_096 → next_date (raw_date era doe) ≡ raw_date (era +ℤ pos 1) 0
  raw_next_outside h =
      let (small, lo, hi) = year_of_era_bounds doe in_era in
      let at_end : year_here ≡ 399 = at_last_year h in
      let last : day_here + 1 ≡ year_length (march_year era year_here) = omega (
        arith,
        end_of_era at_end,
        days_before-suc era year_here small,
        day_of_year-eq doe in_era,
      ) in
      ap next_date here_lem
      ∙ next_outside (march_year era year_here) day_here last
      ∙ ap (λ y. march_date (march_year era y +ℤ pos 1) 0) at_end
      ∙ ap (λ y. march_date y 0) (sym (march_year_wrap era))
      ∙ sym (
          raw_date_of (era +ℤ pos 1) 0 0 0 (omega arith)
            (omega (arith, year_length_bounds (march_year (era +ℤ pos 1) 0)))
            (omega (arith, days_before_start)))

pub raw-next :
    (era : ℤ) (doe : ℕ) (e : ℤ) (n : ℕ)
    → doe < 146_097
    → NextDay era doe e n
    → next_date (raw_date era doe) ≡ raw_date e n
raw-next era doe e n h (inside l p q) = raw_next_inside era doe h l ∙ sym (cc (p, q))
raw-next era doe e n h (outside l p q) = raw_next_outside era doe h l ∙ sym (cc (p, q))
