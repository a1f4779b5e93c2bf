-- ===== src/Sink/Weeks.antt =====
-- src/sink.rs, `iso_week_start_secs`: the slots of weekly rotation, by the days of the week.
use xoslog.Prelude.{ℕ, zero, suc, ◌+◌, ◌-◌, ◌*◌, ◌/◌, ◌≤◌, ◌<◌, ◌≡◌, ◌∙◌, refl, ap, arith}
use native.Mathlib.Decide.{dec_lt}
use xoslog.Prelude.Int.{◌+ℤ◌, ◌-ℤ◌, ◌*ℤ◌}
use xoslog.Time.{div_euclid}
use xoslog.Sink.Interval.{iso_week_start_secs}

pub data Weekday : Type 0 where
  monday tuesday wednesday thursday friday saturday sunday : Weekday

abbrev pub following : Weekday → Weekday
following monday = tuesday
following tuesday = wednesday
following wednesday = thursday
following thursday = friday
following friday = saturday
following saturday = sunday
following sunday = monday

-- The day of the week so many days after 1970-01-01, which was a Thursday
unfoldable pub weekday : ℕ → Weekday
weekday zero = thursday
weekday (suc n) = following (weekday n)

seven_days :
    (d : Weekday)
    → following (following (following (following (following (following (following d)))))) ≡ d
seven_days monday = refl
seven_days tuesday = refl
seven_days wednesday = refl
seven_days thursday = refl
seven_days friday = refl
seven_days saturday = refl
seven_days sunday = refl

week_later : (n : ℕ) → weekday (n + 7) ≡ weekday n
unfolding weekday
week_later n =
    let e : n + 7 ≡ suc (suc (suc (suc (suc (suc (suc n)))))) = omega arith in
    ap weekday e ∙ seven_days (weekday n)

weekday-monday : (k : ℕ) → weekday (k * 7 + 4) ≡ monday
unfolding weekday
weekday-monday zero = refl
weekday-monday (suc k) =
    let e : suc k * 7 + 4 ≡ k * 7 + 4 + 7 = omega arith in
    ap weekday e ∙ week_later (k * 7 + 4) ∙ weekday-monday k

-- An instant lies in the week that begins at a time.
pub data IsWeekOf (secs start : ℕ) : Type 0 where
  week :
      (day : ℕ)
      → start ≡ day * 86_400
      → weekday day ≡ monday
      → start ≤ secs
      → secs < start + 7 * 86_400
      → IsWeekOf secs start
  first_days : start ≡ 0 → secs < 4 * 86_400 → IsWeekOf secs start

first_week : (secs : ℕ) → secs < 345_600 → iso_week_start_secs secs ≡ 0
unfolding iso_week_start_secs div_euclid ◌+ℤ◌ ◌-ℤ◌ ◌*ℤ◌
first_week secs h = ground arith

later_week :
    (secs : ℕ)
    → 345_600 ≤ secs
    → iso_week_start_secs secs ≡ ((secs - 345_600) / 604_800 * 7 + 4) * 86_400
unfolding iso_week_start_secs div_euclid ◌+ℤ◌ ◌-ℤ◌ ◌*ℤ◌
later_week secs h = ground arith

-- The weekly slot of an instant begins at midnight on the Monday of its week, by days of the week
-- that are counted from the Thursday of the epoch, or at the epoch in the four days before the
-- first Monday.
pub iso_week_start_secs-IsWeekOf : (secs : ℕ) → IsWeekOf secs (iso_week_start_secs secs)
iso_week_start_secs-IsWeekOf secs = elim (dec_lt secs 345_600) [
  | yes p ↦ first_days (first_week secs p) (omega arith)
  | no p ↦
      let k : ℕ = (secs - 345_600) / 604_800 in
      let e = later_week secs (omega arith) in
      week (k * 7 + 4) e (weekday-monday k) (omega (arith, e)) (omega (arith, e))
]
