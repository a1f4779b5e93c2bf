-- ===== src/Entry/Values.antt =====
-- src/entry.rs: which unsigned numbers a field keeps.
use xoslog.Prelude.{ℕ, ◌-◌, ◌^◌, ◌≤◌, ◌<◌, ◌≡◌, subst, arith}
use native.Mathlib.Decide.{dec_lt}
use xoslog.Prelude.Text.{Text}
use xoslog.Prelude.Int.{pos, negsuc}
use xoslog.Prelude.Decimal.{value, decimal, value-decimal}
use xoslog.Entry.{FieldValue, int, str, from_u64, from_usize}

-- The unsigned number that a field value shows: an integer that is not negative, or a text of
-- digits.
pub data Shows (n : ℕ) : FieldValue → Type 0 where
  as_int : Shows n (int (pos n))
  as_text : (s : Text) → value 0 s ≡ n → Shows n (str s)

-- Every `u64` is shown in full by the field that it becomes.
pub from_u64-Shows : (v : ℕ) → v < 2 ^ 64 → Shows v (from_u64 v)
unfolding from_u64
from_u64-Shows v h = elim (dec_lt v (2 ^ 63)) [
  | yes l ↦ subst (Shows v) (ground arith) as_int
  | no g ↦ subst (Shows v) (ground arith) (as_text (decimal v) (value-decimal v))
]

-- A `usize` of 2 ^ 63 or more becomes a negative number: 2 ^ 64 less than its value.
pub from_usize_wraps :
    (v : ℕ) → 2 ^ 63 ≤ v → v < 2 ^ 64 → from_usize v ≡ int (negsuc (2 ^ 64 - 1 - v))
unfolding from_usize
from_usize_wraps v h k = ground arith
