-- ===== src/Syslog/Stamps.antt =====
-- src/syslog.rs, `rfc3164_timestamp`, and a reader of such texts.
use xoslog.Prelude.{
  and_then, ℕ, zero, suc, ◌-◌, ◌+◌, ◌≤◌, ◌<◌, ◌≡◌, ◌∙◌, refl, Bool, true, false, Option, none, some,
  List, [], ◌∷◌, ◌++◌, arith, All, All-map, All-append, All-replicate, length, length-append,
  replicate, ◌==◌, if◌then◌else◌,
}
use xoslog.Prelude.Text.{Text, codes, text_eq}
use xoslog.Prelude.Decimal.{
  IsDigit, decimal, decimal-IsDigit, zero_padded, space_padded, value, value-decimal,
  length-zero_padded, length-space_padded,
}
use xoslog.Time.{Timestamp}
use xoslog.Time.Years.{passes_to, tested}
use xoslog.Syslog.{months, month_name, rfc3164_timestamp}
use xoslog.Syslog.Truncation.{IsAscii}
use xoslog.Syslog.Reading.{read_exactly, expect, read_exactly-append}

-- The month, the day and the time of a packet, as numbers; the year is not sent.
pub record Stamp : Type 0 where
  pub month : ℕ
  pub day : ℕ
  pub hour : ℕ
  pub minute : ℕ
  pub second : ℕ

-- The month with an English abbreviation
unfoldable pub month_number : Text → Option ℕ
month_number s =
    if text_eq s (codes "Jan")
    then some 1
    else if text_eq s (codes "Feb")
    then some 2
    else if text_eq s (codes "Mar")
    then some 3
    else if text_eq s (codes "Apr")
    then some 4
    else if text_eq s (codes "May")
    then some 5
    else if text_eq s (codes "Jun")
    then some 6
    else if text_eq s (codes "Jul")
    then some 7
    else if text_eq s (codes "Aug")
    then some 8
    else if text_eq s (codes "Sep")
    then some 9
    else if text_eq s (codes "Oct")
    then some 10
    else if text_eq s (codes "Nov")
    then some 11
    else if text_eq s (codes "Dec")
    then some 12
    else none

-- The number behind leading spaces
abbrev pub unpadded : Text → ℕ
unpadded [] = 0
unpadded (c ∷ s) = if c == b' ' then unpadded s else value 0 (c ∷ s)

-- `Mmm dd hh:mm:ss`
unfoldable pub read_stamp : Text → Option Stamp
read_stamp s = and_then (read_exactly 3 s) (λ month. and_then (month_number month.0) (λ m.
    and_then (expect (codes " ") month.1) (λ a. and_then (read_exactly 2 a) (λ day.
      and_then (expect (codes " ") day.1) (λ b. and_then (read_exactly 2 b) (λ hour.
        and_then (expect (codes ":") hour.1) (λ c. and_then (read_exactly 2 c) (λ minute.
          and_then (expect (codes ":") minute.1) (λ second. some (record {
            month = m;
            day = unpadded day.0;
            hour = value 0 hour.0;
            minute = value 0 minute.0;
            second = value 0 second;
          }))))))))))

-- A month of the year, and a day and a time of two digits each
pub record IsShort (t : Timestamp) : Type 0 where
  pub month_from : 1 ≤ t.month
  pub month_to : t.month ≤ 12
  pub day : t.day < 100
  pub hour : t.hour < 100
  pub minute : t.minute < 100
  pub second : t.second < 100

length-month_name :
    (ms : List Text) (i : ℕ) → All (λ m. length m ≡ 3) ms → length (month_name ms i) ≡ 3
unfolding month_name
length-month_name [] i h = refl
length-month_name (m ∷ ms) zero (k, h) = k
length-month_name (m ∷ ms) (suc i) (k, h) = length-month_name ms i h

is_month : Option ℕ → ℕ → Bool
is_month none m = false
is_month (some n) m = n == m

is_month_lem : (o : Option ℕ) (m : ℕ) → is_month o m ≡ true → o ≡ some m
unfolding is_month
is_month_lem none m h = cc
is_month_lem (some n) m h = ground arith

names_month : ℕ → Bool
names_month i = is_month (month_number (month_name months i)) (i + 1)

all_named : passes_to names_month 11 ≡ true
unfolding passes_to names_month is_month month_number month_name text_eq
all_named = refl

month_number-month_name : (i : ℕ) → i ≤ 11 → month_number (month_name months i) ≡ some (i + 1)
unfolding names_month
month_number-month_name i h =
    is_month_lem (month_number (month_name months i)) (i + 1) (tested names_month 11 i all_named h)

value-zeros : (k : ℕ) (s : Text) → value 0 (replicate k b'0' ++ s) ≡ value 0 s
value-zeros zero s = refl
value-zeros (suc k) s = value-zeros k s

value-zero_padded : (w n : ℕ) → value 0 (zero_padded w n) ≡ n
unfolding zero_padded
value-zero_padded w n = value-zeros (w - length (decimal n)) (decimal n) ∙ value-decimal n

unpadded-digits : (s : Text) → All IsDigit s → unpadded s ≡ value 0 s
unpadded-digits [] h = refl
unpadded-digits (c ∷ s) (hc, hs) = ground arith

unpadded-spaces : (k : ℕ) (s : Text) → unpadded (replicate k b' ' ++ s) ≡ unpadded s
unpadded-spaces zero s = refl
unpadded-spaces (suc k) s = unpadded-spaces k s

unpadded-space_padded : (w n : ℕ) → unpadded (space_padded w n) ≡ n
unfolding space_padded
unpadded-space_padded w n =
    unpadded-spaces (w - length (decimal n)) (decimal n)
    ∙ unpadded-digits (decimal n) (decimal-IsDigit n)
    ∙ value-decimal n

month_names_short : All (λ (m : Text). length m ≡ 3) months
month_names_short = (
  refl,
  (refl, (refl, (refl, (refl, (refl, (refl, (refl, (refl, (refl, (refl, (refl, tt))))))))))),
)

pub length-rfc3164_timestamp : (t : Timestamp) → IsShort t → length (rfc3164_timestamp t) ≡ 15
unfolding rfc3164_timestamp
length-rfc3164_timestamp t h = omega (
  arith,
  length-append (month_name months (t.month - 1)),
  length-append (space_padded 2 t.day),
  length-append (zero_padded 2 t.hour),
  length-append (zero_padded 2 t.minute),
  length-month_name months (t.month - 1) month_names_short,
  length-space_padded 1 t.day h.day,
  length-zero_padded 1 t.hour h.hour,
  length-zero_padded 1 t.minute h.minute,
  length-zero_padded 1 t.second h.second,
)

pub read_stamp-rfc3164_timestamp :
    (t : Timestamp)
    → IsShort t
    → read_stamp (rfc3164_timestamp t)
      ≡ some (record {
        month = t.month;
        day = t.day;
        hour = t.hour;
        minute = t.minute;
        second = t.second;
      })
unfolding read_stamp rfc3164_timestamp expect
read_stamp-rfc3164_timestamp t h =
    let same : t.month - 1 + 1 ≡ t.month = omega (arith, h.month_from) in
    rw
      (
        read_exactly-append (month_name months (t.month - 1)) _ 3
            (length-month_name months (t.month - 1) month_names_short),
        month_number-month_name (t.month - 1) (omega (arith, h.month_to)),
        same,
        read_exactly-append (space_padded 2 t.day) _ 2 (length-space_padded 1 t.day h.day),
        read_exactly-append (zero_padded 2 t.hour) _ 2 (length-zero_padded 1 t.hour h.hour),
        read_exactly-append (zero_padded 2 t.minute) _ 2 (length-zero_padded 1 t.minute h.minute),
        unpadded-space_padded 2 t.day,
        value-zero_padded 2 t.hour,
        value-zero_padded 2 t.minute,
        value-zero_padded 2 t.second,
      )
      refl

pub decimal-IsAscii : (n : ℕ) → All IsAscii (decimal n)
decimal-IsAscii n =
    All-map IsDigit IsAscii (decimal n) (λ c (k : IsDigit c). omega arith) (decimal-IsDigit n)

zero_padded-IsAscii : (w n : ℕ) → All IsAscii (zero_padded w n)
unfolding zero_padded
zero_padded-IsAscii w n =
    All-append IsAscii (replicate (w - length (decimal n)) b'0') (decimal n)
      (All-replicate IsAscii (w - length (decimal n)) b'0' (omega arith)) (decimal-IsAscii n)

space_padded-IsAscii : (w n : ℕ) → All IsAscii (space_padded w n)
unfolding space_padded
space_padded-IsAscii w n =
    All-append IsAscii (replicate (w - length (decimal n)) b' ') (decimal n)
      (All-replicate IsAscii (w - length (decimal n)) b' ' (omega arith)) (decimal-IsAscii n)

month_name-IsAscii : (ms : List Text) (i : ℕ) → All (All IsAscii) ms → All IsAscii (month_name ms i)
unfolding month_name
month_name-IsAscii [] i h = ground arith
month_name-IsAscii (m ∷ ms) zero (k, h) = k
month_name-IsAscii (m ∷ ms) (suc i) (k, h) = month_name-IsAscii ms i h

months-IsAscii : All (All IsAscii) months
months-IsAscii = ground arith

pub rfc3164_timestamp-IsAscii : (t : Timestamp) → All IsAscii (rfc3164_timestamp t)
unfolding rfc3164_timestamp
rfc3164_timestamp-IsAscii t =
    All-append IsAscii (month_name months (t.month - 1)) _
      (month_name-IsAscii months (t.month - 1) months-IsAscii)
      (
        omega arith,
        All-append IsAscii (space_padded 2 t.day) _ (space_padded-IsAscii 2 t.day) (
          omega arith,
          All-append IsAscii (zero_padded 2 t.hour) _ (zero_padded-IsAscii 2 t.hour) (
            omega arith,
            All-append IsAscii (zero_padded 2 t.minute) _ (zero_padded-IsAscii 2 t.minute)
                (omega arith, zero_padded-IsAscii 2 t.second),
          ),
        ),
      )
