-- ===== src/Entry.antt =====
-- src/entry.rs: field values, fields and log records. Numbers come in by their value; a machine
-- integer is in the range of its type. An `f64` is its 64 bits, since the source only tests whether
-- it is finite and prints it.
pub mod Merge
pub mod Values
use xoslog.Prelude.{
  ℕ, zero, suc, ◌+◌, ◌-◌, ◌*◌, ◌/◌, ◌%◌, ◌^◌, Bool, true, false, not, ◌||◌, List, [], ◌∷◌, ◌++◌,
  ltb, if◌then◌else◌,
}
use xoslog.Prelude.Text.{Text, codes, text_eq, is_empty}
use xoslog.Prelude.Int.{ℤ, pos, negsuc}
use xoslog.Prelude.Decimal.{decimal}
use xoslog.Level.{Level}
use xoslog.Time.{Timestamp, SystemTime, now}

pub data FieldValue : Type 0 where
  str : Text → FieldValue
  int : ℤ → FieldValue
  float : ℕ → FieldValue
  bool : Bool → FieldValue
  null : FieldValue

abbrev pub is_string : FieldValue → Bool
is_string (str s) = true
is_string _ = false

-- `u as i64`: the low 64 bits, read as a signed number
unfoldable pub as_i64 : ℕ → ℤ
as_i64 u = let low = u % 2 ^ 64 in if ltb low (2 ^ 63) then pos low else negsuc (2 ^ 64 - 1 - low)

-- The conversions `From<T> for FieldValue`: `String`, `&str` and `&String`
abbrev pub from_text : Text → FieldValue
from_text s = str s

abbrev pub from_char : ℕ → FieldValue
from_char c = str (c ∷ [])

abbrev pub from_bool : Bool → FieldValue
from_bool b = bool b

-- `f64`, by its bits, and an `f32` by the bits of its widening `f64::from`
abbrev pub from_f64 : ℕ → FieldValue
from_f64 bits = float bits

-- `i8`, `i16`, `i32`, `i64`, `isize`, and `u8`, `u16`, `u32` by their value
abbrev pub from_int : ℤ → FieldValue
from_int v = int v

-- `From<u64>`: a value past `i64::MAX` is kept as text.
unfoldable pub from_u64 : ℕ → FieldValue
from_u64 v = if ltb v (2 ^ 63) then int (pos v) else str (decimal v)

-- `From<usize>`: `value as i64`
unfoldable pub from_usize : ℕ → FieldValue
unfolding as_i64
from_usize v = int (as_i64 v)

pub record Field : Type 0 where
  pub key : Text
  pub value : FieldValue

-- `Field::new`, and the shorthands `str`, `int`, `float` and `bool` with their values
abbrev pub field : Text → FieldValue → Field
field k v = record { key = k; value = v }

pub record LogEntry : Type 0 where
  pub timestamp : Timestamp
  pub level : Level
  pub message : Text
  pub target : Text
  pub file : Text
  pub line : ℕ
  pub fields : List Field

-- `LogEntry::new`, with the reading of the clock
unfoldable pub new_entry : SystemTime → Level → Text → Text → Text → ℕ → LogEntry
new_entry clock l msg target file line = record {
  timestamp = now clock (pos 0);
  level = l;
  message = msg;
  target = target;
  file = file;
  line = line;
  fields = [];
}

-- `LogEntry::field`
unfoldable pub with_field : LogEntry → Text → FieldValue → LogEntry
with_field e k v = record e { fields = e.fields ++ (field k v ∷ []) }

-- `LogEntry::with_fields`
unfoldable pub with_fields : LogEntry → List Field → LogEntry
with_fields e fs = record e { fields = e.fields ++ fs }

-- `iter().any(|existing| existing.key == key)`
unfoldable pub has_key : Text → List Field → Bool
has_key k [] = false
has_key k (f ∷ fs) = text_eq f.key k || has_key k fs

-- The loop of `merge_context`.
unfoldable pub merge_fields : List Field → List Field → List Field
unfolding has_key
merge_fields own [] = own
merge_fields own (f ∷ context) =
    merge_fields (if has_key f.key own then own else own ++ (f ∷ [])) context

-- `LogEntry::merge_context`
unfoldable pub merge_context : LogEntry → List Field → LogEntry
unfolding merge_fields
merge_context e context = record e { fields = merge_fields e.fields context }

-- `LogEntry::location`
unfoldable pub location : LogEntry → Text
location e =
    if is_empty e.file then [] else e.file ++ (b':' ∷ (decimal e.line ++ (codes " @ " ++ e.target)))
