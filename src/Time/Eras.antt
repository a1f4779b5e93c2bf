-- ===== src/Time/Eras.antt =====
-- src/time.rs, `civil_from_days`: the era of a day, and its day in the era.
use xoslog.Prelude.{ℕ, ◌+◌, ◌<◌, ◌≡◌, zero, suc, arith}
use native.Mathlib.Decide.{dec_lt}
use xoslog.Prelude.Int.{ℤ, pos, negsuc, ◌+ℤ◌, ◌-ℤ◌, ◌*ℤ◌}
use xoslog.Time.{div_euclid, rem_euclid, era_of, day_of_era}

-- The truncated division with its correction is the division that rounds down.
pub era_of_lem : (z : ℤ) → era_of z ≡ div_euclid z 146_097
unfolding era_of div_euclid ◌-ℤ◌
era_of_lem (pos n) = ground arith
era_of_lem (negsuc n) = ground arith

pub day_of_era_lem : (z : ℤ) → day_of_era z ≡ pos (rem_euclid z 146_097)
unfolding day_of_era div_euclid rem_euclid ◌-ℤ◌ ◌*ℤ◌
day_of_era_lem (pos n) = rw (era_of_lem (pos n)) (ground arith)
day_of_era_lem (negsuc n) = rw (era_of_lem (negsuc n)) (ground arith)

next_inside :
    (z : ℤ)
    → rem_euclid z 146_097 < 146_096
    → (div_euclid (z +ℤ pos 1) 146_097 ≡ div_euclid z 146_097)
      × (rem_euclid (z +ℤ pos 1) 146_097 ≡ rem_euclid z 146_097 + 1)
unfolding ◌+ℤ◌ div_euclid rem_euclid
next_inside (pos n) h = ground arith
next_inside (negsuc zero) h = ground arith
next_inside (negsuc (suc n)) h = ground arith

next_outside :
    (z : ℤ)
    → rem_euclid z 146_097 ≡ 146_096
    → (div_euclid (z +ℤ pos 1) 146_097 ≡ div_euclid z 146_097 +ℤ pos 1)
      × (rem_euclid (z +ℤ pos 1) 146_097 ≡ 0)
unfolding ◌+ℤ◌ div_euclid rem_euclid
next_outside (pos n) h = ground arith
next_outside (negsuc zero) h = ground arith
next_outside (negsuc (suc n)) h = ground arith

pub rem_euclid-lt : (z : ℤ) → rem_euclid z 146_097 < 146_097
unfolding rem_euclid
rem_euclid-lt (pos n) = omega arith
rem_euclid-lt (negsuc n) = omega arith

-- The day after a day is the next one of its era, or the first one of the next era.
pub data NextDay (era : ℤ) (doe : ℕ) : ℤ → ℕ → Type 0 where
  inside : doe < 146_096 → {e : ℤ} {n : ℕ} → e ≡ era → n ≡ doe + 1 → NextDay era doe e n
  outside : doe ≡ 146_096 → {e : ℤ} {n : ℕ} → e ≡ era +ℤ pos 1 → n ≡ 0 → NextDay era doe e n

pub following_day :
    (z : ℤ)
    → NextDay
        (div_euclid z 146_097)
        (rem_euclid z 146_097)
        (div_euclid (z +ℤ pos 1) 146_097)
        (rem_euclid (z +ℤ pos 1) 146_097)
following_day z = elim (dec_lt (rem_euclid z 146_097) 146_096) [
  | yes p ↦ let (e, n) = next_inside z p in inside p e n
  | no p ↦
      let last : rem_euclid z 146_097 ≡ 146_096 = omega (arith, rem_euclid-lt z) in
      let (e, n) = next_outside z last in outside last e n
]
