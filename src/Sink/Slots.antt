-- ===== src/Sink/Slots.antt =====
-- src/sink.rs, `slot_start`: where a slot begins and ends.
use xoslog.Prelude.{ℕ, ◌+◌, ◌*◌, ◌/◌, ◌≤◌, ◌<◌, ◌≡◌, arith, some}
use xoslog.Prelude.Int.{◌+ℤ◌, ◌-ℤ◌, ◌*ℤ◌}
use xoslog.Time.{div_euclid}
use xoslog.Sink.Interval.{
  RotationInterval, never, hourly, daily, weekly, every, period_secs, iso_week_start_secs, slot_at,
  week_secs,
}

-- A weekly slot begins at or before the instant, and ends after it.
iso_week_start_secs_bounds :
    (secs : ℕ) → (iso_week_start_secs secs ≤ secs) × (secs < iso_week_start_secs secs + week_secs)
unfolding iso_week_start_secs div_euclid ◌+ℤ◌ ◌-ℤ◌ ◌*ℤ◌
iso_week_start_secs_bounds secs = ground arith

aligned_bounds :
    (secs period : ℕ)
    → 0 < period
    → (secs / period * period ≤ secs) × (secs < secs / period * period + period)
aligned_bounds secs period h = grind arith

-- The slot of an instant begins at or before it, and ends, one period later, after it.
pub slot_at_bounds :
    (i : RotationInterval) (secs start period : ℕ)
    → slot_at i secs ≡ some start
    → period_secs i ≡ some period
    → (start ≤ secs) × (secs < start + period)
unfolding slot_at period_secs
slot_at_bounds never secs start period h k = cc
slot_at_bounds hourly secs start period h k = ground arith
slot_at_bounds daily secs start period h k = ground arith
slot_at_bounds weekly secs start period h k = ground (arith, iso_week_start_secs_bounds secs)
slot_at_bounds (every d) secs start period h k = ground (arith, aligned_bounds secs d)
