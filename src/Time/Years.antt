-- ===== src/Time/Years.antt =====
-- src/time.rs, `civil_from_days`: the year of an era and the day of a year that begins in March.
use native.Mathlib.Nat.{le_refl, add-zero, add-suc}
use native.Mathlib.Numerals.{add-one}
use xoslog.Prelude.{
  Bool-cases, inl, inr, if_true, if_false, false, if◌then◌else◌, sym, ◌∙◌, leb, ltb, subst, refl,
  ap, ℕ, zero, suc, ◌+◌, ◌-◌, ◌*◌, ◌/◌, ◌≤◌, ◌<◌, ◌≡◌, Bool, true, ◌&&◌, arith,
}
use native.Mathlib.Decide.{dec_lt}
use xoslog.Time.{year_of_era, day_of_year}

-- A test, run on `top` and on everything under it.
unfoldable pub passes_to : (ℕ → Bool) → ℕ → Bool
passes_to test zero = test zero
passes_to test (suc top) = if test (suc top) then passes_to test top else false

not_passed : false ≡ true → ⊥
not_passed h = cc

-- A test that has been run on a range holds in the range.
pub tested : (test : ℕ → Bool) (top k : ℕ) → passes_to test top ≡ true → k ≤ top → test k ≡ true
unfolding passes_to
tested test zero k run l =
    let lowest : zero ≡ k = omega arith in subst (λ m. test m ≡ true) lowest run
tested test (suc top) k run l = elim (Bool-cases (test (suc top))) [
  | inr e ↦ absurd (not_passed (sym (if_false _ _ e) ∙ run))
  | inl e ↦ elim (dec_lt top k) [
    | yes h ↦ let last : suc top ≡ k = omega arith in subst (λ m. test m ≡ true) last e
    | no h ↦ tested test top k (sym (if_true _ _ e) ∙ run) (omega arith)
  ]
]

-- The days of an era before its year `y`, counted from the first of March of its year 0. The era
-- ends with a leap day of its own.
unfoldable pub days_before : ℕ → ℕ
days_before y = 365 * y + y / 4 - y / 100 + y / 400

-- The days without the leap days before them, of which every 365 make a year.
leap_free : ℕ → ℕ
leap_free doe = doe - doe / 1460 + doe / 36_524 - doe / 146_096

leap_free_step : (n : ℕ) → n < 146_096 → leap_free n ≤ leap_free (n + 1)
unfolding leap_free
leap_free_step n h = omega arith

leap_free_grows : (a k : ℕ) → a + k < 146_097 → leap_free a ≤ leap_free (a + k)
leap_free_grows a zero h = rw (add-zero a) (le_refl _)
leap_free_grows a (suc k) h =
    rw (add-suc a k, ← add-one (a + k)) (omega (arith, leap_free_grows a k, leap_free_step (a + k)))

leap_free_mono : (a b : ℕ) → a ≤ b → b < 146_097 → leap_free a ≤ leap_free b
leap_free_mono a b h k =
    let e : a + (b - a) ≡ b = omega arith in
    subst (λ n. leap_free a ≤ leap_free n) e (leap_free_grows a (b - a) (omega arith))

-- The test at the first and the last day of a year.
ends_ok : ℕ → Bool
ends_ok y =
    leb (365 * y) (leap_free (days_before y))
    && ltb (leap_free (days_before (y + 1) - 1)) (365 * (y + 1))

all_ends_ok : passes_to ends_ok 399 ≡ true
unfolding passes_to ends_ok leap_free days_before
all_ends_ok = refl

year_ends :
    (y : ℕ)
    → y < 400
    → (365 * y ≤ leap_free (days_before y)) × (leap_free (days_before (y + 1) - 1) < 365 * (y + 1))
unfolding ends_ok
year_ends y h = ground (arith, tested ends_ok 399 y all_ends_ok (omega arith))

pub days_before_bounds :
    (y : ℕ) → y < 400 → (1 ≤ days_before (y + 1)) × (days_before (y + 1) ≤ 146_097)
unfolding days_before
days_before_bounds y h = omega arith

-- A day that lies between the beginnings of two years is of the first of them.
pub year_of_era-eq :
    (y doe : ℕ) → y < 400 → days_before y ≤ doe → doe < days_before (y + 1) → year_of_era doe ≡ y
unfolding year_of_era leap_free
year_of_era-eq y doe hy lo hi =
    let (some_day, in_era) = days_before_bounds y hy in
    let a = leap_free_mono (days_before y) doe lo (omega arith) in
    let b = leap_free_mono doe (days_before (y + 1) - 1) (omega arith) (omega arith) in
    omega (arith, year_ends y hy)

last_leap_free : leap_free 146_096 ≡ 145_999
unfolding leap_free
last_leap_free = refl

leap_free-year : (doe : ℕ) → year_of_era doe ≡ leap_free doe / 365
unfolding year_of_era leap_free
leap_free-year doe = refl

year_of_era-lt : (doe : ℕ) → doe < 146_097 → year_of_era doe < 400
year_of_era-lt doe h = omega (
  arith,
  leap_free-year doe,
  leap_free_mono doe 146_096 (omega arith) (omega arith),
  last_leap_free,
)

pub last_year : days_before 400 ≡ 146_097
unfolding days_before
last_year = refl

module _ (doe : ℕ) (in_era : doe < 146_097) where
  not_before : (y : ℕ) → y ≤ leap_free doe / 365 → y < 400 → days_before y ≤ doe
  not_before zero h k = unfold days_before in omega arith
  not_before (suc p) h k = elim (dec_lt doe (days_before (suc p))) [
    | yes l ↦
        let ends = year_ends p (omega arith) in
        let m =
          leap_free_mono doe (days_before (p + 1) - 1) (rw (add-one p) (omega arith))
            (omega (arith, days_before_bounds p (omega arith))) in
        absurd (omega arith)
    | no g ↦ omega arith
  ]

  not_after : (y : ℕ) → leap_free doe / 365 ≤ y → y < 400 → doe < days_before (y + 1)
  not_after y h k = elim (dec_lt doe (days_before (y + 1))) [
    | yes l ↦ l
    | no g ↦ elim (dec_lt (y + 1) 400) [
      | yes inner ↦ absurd (
          omega (
            arith,
            year_ends (y + 1) inner,
            leap_free_mono (days_before (y + 1)) doe (omega arith) in_era,
          ))
      | no last ↦
          let e : y + 1 ≡ 400 = omega arith in
          absurd (omega (arith, in_era, ap days_before e, last_year))
    ]
  ]

  -- The year of a day begins no later than the day, and the next year begins after it.
  pub year_of_era_bounds :
      (year_of_era doe < 400)
      × (days_before (year_of_era doe) ≤ doe)
      × (doe < days_before (year_of_era doe + 1))
  year_of_era_bounds =
      let small = year_of_era-lt doe in_era in
      let e = leap_free-year doe in
      (
        small,
        not_before (year_of_era doe) (omega arith) small,
        not_after (year_of_era doe) (omega arith) small,
      )

from_beginning :
    (y doe : ℕ)
    → y < 400
    → days_before y ≤ doe
    → days_before y + (doe - (365 * y + y / 4 - y / 100)) ≡ doe
unfolding days_before
from_beginning y doe h lo = omega arith

-- The day of the year is counted from the year's beginning: no difference in it goes below zero.
pub day_of_year-eq :
    (doe : ℕ) → doe < 146_097 → days_before (year_of_era doe) + day_of_year doe ≡ doe
unfolding day_of_year
day_of_year-eq doe h =
    let (small, lo, hi) = year_of_era_bounds doe h in from_beginning (year_of_era doe) doe small lo
