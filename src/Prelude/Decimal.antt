-- ===== src/Prelude/Decimal.antt =====
-- Decimal numbers as Rust's `fmt` writes them, with and without padding, and their value.
use Prim.Native.Nat.{ℕ, zero, suc, ◌+◌, ◌-◌, ◌*◌, ◌/◌, ◌%◌, ◌≤◌, ◌<◌}
use mathlib.Core.Path.{◌≡◌, refl}
use mathlib.Core.List.{[], ◌∷◌, ◌++◌}
use native.Mathlib.Omega.{arith}
use native.Mathlib.Decide.{dec_lt}
use Prim.Native.Nat.{◌^◌}
use xoslog.Prelude.Tests.{ltb, if◌then◌else◌}
use xoslog.Prelude.Lists.{length, replicate, All, All-append, length-append, length-replicate}
use xoslog.Prelude.Text.{Text, is_empty}
use mathlib.Core.Bool.{false}
use xoslog.Prelude.Int.{ℤ, pos, negsuc}

-- The digits of a number; the first argument bounds how many rounds are made.
unfoldable pub digits : ℕ → ℕ → Text
digits zero n = []
digits (suc fuel) n =
    let front = digits fuel (n / 10) in
    if ltb n 10 then (b'0' + n) ∷ [] else front ++ ((b'0' + n % 10) ∷ [])

-- `{}` of an unsigned number; a number has fewer digits than its value, plus one.
unfoldable pub decimal : ℕ → Text
unfolding digits
decimal n = digits (suc n) n

-- `{:0w}` of an unsigned number
unfoldable pub zero_padded : ℕ → ℕ → Text
unfolding decimal
zero_padded w n = replicate (w - length (decimal n)) b'0' ++ decimal n

-- `{:w}` of an unsigned number, filled with spaces on the left
unfoldable pub space_padded : ℕ → ℕ → Text
unfolding decimal
space_padded w n = replicate (w - length (decimal n)) b' ' ++ decimal n

-- `{}` of a signed number
unfoldable pub signed_decimal : ℤ → Text
unfolding decimal
signed_decimal (pos n) = decimal n
signed_decimal (negsuc n) = b'-' ∷ decimal (suc n)

-- `{:0w}` of a signed number; the sign counts towards the width.
unfoldable pub signed_zero_padded : ℕ → ℤ → Text
unfolding zero_padded
signed_zero_padded w (pos n) = zero_padded w n
signed_zero_padded w (negsuc n) = b'-' ∷ zero_padded (w - 1) (suc n)

abbrev pub IsDigit : ℕ → Type 0
IsDigit c = (b'0' ≤ c) × (c ≤ b'9')

digits-IsDigit : (fuel n : ℕ) → All IsDigit (digits fuel n)
unfolding digits
digits-IsDigit zero n = tt
digits-IsDigit (suc fuel) n = ground (
  arith,
  All-append IsDigit (digits fuel (n / 10)) ((b'0' + n % 10) ∷ []) (digits-IsDigit fuel (n / 10))
      (omega arith),
)

-- A printed number holds digits only.
pub decimal-IsDigit : (n : ℕ) → All IsDigit (decimal n)
unfolding decimal
decimal-IsDigit n = digits-IsDigit (suc n) n

-- The number that digits spell behind `front`.
abbrev pub value : ℕ → Text → ℕ
value front [] = front
value front (d ∷ ds) = value ((d - b'0') + 10 * front) ds

value-append : (n : ℕ) (s t : Text) → value n (s ++ t) ≡ value (value n s) t
value-append n [] t = refl
value-append n (c ∷ s) t = value-append ((c - b'0') + 10 * n) s t

value-digits : (fuel n : ℕ) → n < fuel → value 0 (digits fuel n) ≡ n
unfolding digits
value-digits zero n h = absurd (omega arith)
value-digits (suc fuel) n h = ground (
  arith,
  value-append 0 (digits fuel (n / 10)) ((b'0' + n % 10) ∷ []),
  value-digits fuel (n / 10),
)

-- The rounds suffice: the digits printed spell the number.
pub value-decimal : (n : ℕ) → value 0 (decimal n) ≡ n
unfolding decimal
value-decimal n = value-digits (suc n) n (omega arith)

pub decimal_one : (n : ℕ) → n < 10 → decimal n ≡ (b'0' + n) ∷ []
unfolding decimal digits
decimal_one n h = ground arith

digits_two :
    (f n : ℕ) → 10 ≤ n → n < 100 → digits (suc (suc f)) n ≡ (b'0' + n / 10) ∷ (b'0' + n % 10) ∷ []
unfolding digits
digits_two f n h k = ground arith

pub decimal_two : (n : ℕ) → 10 ≤ n → n < 100 → decimal n ≡ (b'0' + n / 10) ∷ (b'0' + n % 10) ∷ []
unfolding decimal
decimal_two (suc zero) h k = absurd (omega arith)
decimal_two zero h k = absurd (omega arith)
decimal_two (suc (suc n)) h k = digits_two (suc n) (suc (suc n)) h k

-- `{:02}` of a number below a hundred is its two digits.
pub zero_padded_two : (n : ℕ) → n < 100 → zero_padded 2 n ≡ (b'0' + n / 10) ∷ (b'0' + n % 10) ∷ []
unfolding zero_padded
zero_padded_two n h = elim (dec_lt n 10) [
  | yes p ↦ rw (decimal_one n p) (ground arith)
  | no p ↦ rw (decimal_two n (omega arith) h) refl
]

length-digits-le : (fuel n w : ℕ) → n < 10 ^ suc w → length (digits fuel n) ≤ suc w
unfolding digits
length-digits-le zero n w h = omega arith
length-digits-le (suc fuel) n zero h = ground arith
length-digits-le (suc fuel) n (suc w) h = ground (
  arith,
  length-append (digits fuel (n / 10)) ((b'0' + n % 10) ∷ []),
  length-digits-le fuel (n / 10) w,
)

-- A number below 10 ^ w, padded to w places, takes up exactly w places.
pub length-zero_padded : (w n : ℕ) → n < 10 ^ suc w → length (zero_padded (suc w) n) ≡ suc w
unfolding zero_padded decimal
length-zero_padded w n h = omega (
  arith,
  length-append (replicate (suc w - length (decimal n)) b'0') (decimal n),
  length-replicate {A = ℕ} (suc w - length (decimal n)) b'0',
  length-digits-le (suc n) n w h,
)

pub length-space_padded : (w n : ℕ) → n < 10 ^ suc w → length (space_padded (suc w) n) ≡ suc w
unfolding space_padded decimal
length-space_padded w n h = omega (
  arith,
  length-append (replicate (suc w - length (decimal n)) b' ') (decimal n),
  length-replicate {A = ℕ} (suc w - length (decimal n)) b' ',
  length-digits-le (suc n) n w h,
)

some_last : (s : Text) (c : ℕ) → is_empty (s ++ (c ∷ [])) ≡ false
some_last [] c = refl
some_last (d ∷ s) c = refl

pub decimal_some : (n : ℕ) → is_empty (decimal n) ≡ false
unfolding decimal digits
decimal_some n = ground (arith, some_last (digits n (n / 10)) (b'0' + n % 10))
