-- ===== src/Suites/Intervals.antt =====
-- src/sink.rs: the tests of the intervals.
use xoslog.Prelude.Int.{◌*ℤ◌, ◌+ℤ◌, ◌-ℤ◌}
use xoslog.Time.{div_euclid}
use xoslog.Prelude.{◌≡◌, ℕ, ◌+◌, ◌*◌, ◌==◌, refl, Bool, true, false, Option, none, some, [], ◌∷◌}
use xoslog.Time.{SystemTime, after_epoch}
use xoslog.Sink.Interval.{never, hourly, daily, weekly, every, slot_start}
use xoslog.Suites.Asserts.{asserts, is_none}

abbrev at : ℕ → SystemTime
at secs = after_epoch secs 0

abbrev is_slot : Option ℕ → ℕ → Bool
is_slot none n = false
is_slot (some m) n = m == n

abbrev pub hourly_slot_aligns_to_epoch : Bool
hourly_slot_aligns_to_epoch = asserts (
    is_slot (slot_start hourly (at (3_600 + 59))) 3_600
    ∷ is_slot (slot_start hourly (at 7_200)) 7_200
    ∷ [])

abbrev pub daily_slot_aligns_to_midnight : Bool
daily_slot_aligns_to_midnight = is_slot (slot_start daily (at (86_400 + 12 * 3_600))) 86_400

abbrev pub weekly_slot_is_monday : Bool
weekly_slot_is_monday = asserts (
    is_slot (slot_start weekly (at (4 * 86_400))) (4 * 86_400)
    ∷ is_slot (slot_start weekly (at (4 * 86_400 + (2 * 86_400 + 3_600)))) (4 * 86_400)
    ∷ [])

abbrev pub never_and_zero_duration_have_no_slot : SystemTime → Bool
never_and_zero_duration_have_no_slot now =
    asserts (is_none (slot_start never now) ∷ is_none (slot_start (every 0) now) ∷ [])

slots_pass :
    asserts
      (hourly_slot_aligns_to_epoch ∷ daily_slot_aligns_to_midnight ∷ weekly_slot_is_monday ∷ [])
    ≡ true
unfolding slot_start ◌-ℤ◌ ◌*ℤ◌ div_euclid ◌+ℤ◌
slots_pass = refl

no_slot_pass : (now : SystemTime) → never_and_zero_duration_have_no_slot now ≡ true
unfolding slot_start
no_slot_pass now = refl
