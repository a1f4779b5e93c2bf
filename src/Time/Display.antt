-- ===== src/Time/Display.antt =====
-- src/time.rs, `Display for Timestamp`: the text has a fixed length and layout.
use xoslog.Prelude.{
  ℕ, zero, suc, ◌+◌, ◌/◌, ◌%◌, ◌<◌, ◌≡◌, refl, arith, ◌∷◌, ◌++◌, length, length-append,
}
use xoslog.Prelude.Int.{ℤ, pos, negsuc, pos_part, neg_part}
use xoslog.Prelude.Decimal.{zero_padded, signed_zero_padded, length-zero_padded}
use xoslog.Time.{Timestamp, display, display_offset}
use xoslog.Time.Fields.{IsClockTime}

-- What a text of full length needs: a year of at most four digits, and a date and time in range.
pub record IsPrintable (t : Timestamp) (y : ℕ) : Type 0 where
  pub year_is : t.year ≡ pos y
  pub year_in : y < 10_000
  pub month_in : t.month < 100
  pub day_in : t.day < 100
  pub clock : IsClockTime t

length-two : (n : ℕ) → n < 100 → length (zero_padded 2 n) ≡ 2
length-two n h = length-zero_padded 1 n h

length-display_date :
    (t : Timestamp) (y : ℕ)
    → IsPrintable t y
    → length (display t) ≡ 26 + length (display_offset t.offset_seconds)
unfolding display signed_zero_padded
length-display_date t y p = rw p.year_is (
    omega (
      arith,
      length-append (zero_padded 4 y),
      length-append (zero_padded 2 t.month),
      length-append (zero_padded 2 t.day),
      length-append (zero_padded 2 t.hour),
      length-append (zero_padded 2 t.minute),
      length-append (zero_padded 2 t.second),
      length-append (zero_padded 6 t.microsecond),
      length-zero_padded 3 y p.year_in,
      length-zero_padded 5 t.microsecond p.clock.microsecond_in,
      length-two t.month p.month_in,
      length-two t.day p.day_in,
      length-two t.hour (omega (arith, p.clock.hour_in)),
      length-two t.minute (omega (arith, p.clock.minute_in)),
      length-two t.second (omega (arith, p.clock.second_in)),
    ))

length-sign :
    (c n : ℕ)
    → n < 360_000
    → length (c ∷ (zero_padded 2 (n / 3600) ++ (b':' ∷ zero_padded 2 (n % 3600 / 60)))) ≡ 6
length-sign c n h = omega (
  arith,
  length-append (zero_padded 2 (n / 3600)),
  length-two (n / 3600) (omega arith),
  length-two (n % 3600 / 60) (omega arith),
)

-- The length of the offset's text: `Z`, or a sign with hours and minutes.
abbrev pub offset_length : ℤ → ℕ
offset_length (pos zero) = 1
offset_length _ = 6

length-display_offset :
    (o : ℤ)
    → pos_part o < 360_000
    → neg_part o < 360_000
    → length (display_offset o) ≡ offset_length o
unfolding display_offset
length-display_offset (pos zero) h k = refl
length-display_offset (pos (suc n)) h k = ground (arith, length-sign b'+' (suc n) h)
length-display_offset (negsuc n) h k = length-sign b'-' (n + 1) (omega arith)

-- The text of a timestamp whose year has at most four digits and whose fields are in range has 27
-- characters in UTC, and 32 with an offset of less than a hundred hours.
pub length-display :
    (t : Timestamp) (y : ℕ)
    → IsPrintable t y
    → pos_part t.offset_seconds < 360_000
    → neg_part t.offset_seconds < 360_000
    → length (display t) ≡ 26 + offset_length t.offset_seconds
length-display t y p h k =
    omega (arith, length-display_date t y p, length-display_offset t.offset_seconds h k)
