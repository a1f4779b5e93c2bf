-- ===== src/Sink/Interval.antt =====
-- src/sink.rs, `RotationInterval`: the wall-clock slots of time-based rotation. A point in time is a
-- reading of the clock; a duration is its whole seconds, which is all that is used of it.
use xoslog.Prelude.{ℕ, ◌*◌, ◌/◌, Option, none, some, ◌==◌, if◌then◌else◌}
use xoslog.Prelude.Int.{pos, pos_part, ◌+ℤ◌, ◌-ℤ◌, ◌*ℤ◌, ltb_ℤ}
use xoslog.Time.{SystemTime, after_epoch, before_epoch, div_euclid}

pub data RotationInterval : Type 0 where
  never hourly daily weekly : RotationInterval
  every : ℕ → RotationInterval

abbrev pub hour_secs : ℕ
hour_secs = 3600

abbrev pub day_secs : ℕ
day_secs = 86_400

abbrev pub week_secs : ℕ
week_secs = 604_800

unfoldable pub period_secs : RotationInterval → Option ℕ
period_secs never = none
period_secs hourly = some hour_secs
period_secs daily = some day_secs
period_secs weekly = some week_secs
period_secs (every secs) = if secs == 0 then none else some secs

-- Times before the epoch clamp to 0.
unfoldable pub unix_secs : SystemTime → ℕ
unix_secs (after_epoch secs nanos) = secs
unix_secs (before_epoch secs nanos) = 0

abbrev pub epoch_monday_offset : ℕ
epoch_monday_offset = 3 * 86_400

unfoldable pub iso_week_start_secs : ℕ → ℕ
iso_week_start_secs secs =
    let shifted = pos secs +ℤ pos epoch_monday_offset in
    let start = div_euclid shifted week_secs *ℤ pos week_secs -ℤ pos epoch_monday_offset in
    if ltb_ℤ start (pos 0) then 0 else pos_part start

abbrev pub aligned : ℕ → Option ℕ → Option ℕ
aligned secs none = none
aligned secs (some period) = some (secs / period * period)

-- `slot_start` at a number of seconds since the epoch
unfoldable pub slot_at : RotationInterval → ℕ → Option ℕ
unfolding period_secs iso_week_start_secs
slot_at never secs = none
slot_at hourly secs = aligned secs (period_secs hourly)
slot_at daily secs = aligned secs (period_secs daily)
slot_at (every d) secs = aligned secs (period_secs (every d))
slot_at weekly secs = some (iso_week_start_secs secs)

unfoldable pub slot_start : RotationInterval → SystemTime → Option ℕ
unfolding slot_at unix_secs
slot_start i now = slot_at i (unix_secs now)
