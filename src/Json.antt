-- ===== src/Json.antt =====
-- src/json.rs: a record as one flat JSON object on one line. How an `f64` prints is the standard
-- library's, and an argument: `fmt_f64` takes the 64 bits.
pub mod Strings
pub mod Lines
pub mod Record
pub mod Reader
pub mod Tokens
pub mod Object
use xoslog.Prelude.{
  ℕ, ◌+◌, ◌-◌, ◌*◌, ◌/◌, ◌%◌, ◌^◌, Bool, true, false, not, ◌||◌, ◌&&◌, List, [], ◌∷◌, ◌++◌, ltb,
  leb, ◌==◌, if◌then◌else◌,
}
use xoslog.Prelude.Text.{Text, Bytes, codes, as_bytes}
use xoslog.Prelude.Decimal.{decimal, signed_decimal}
use xoslog.Level.{as_str}
use xoslog.Time.{display}
use xoslog.Entry.{FieldValue, str, int, float, bool, null, Field, LogEntry}

-- `char::is_control`: the Unicode category Cc
unfoldable pub is_control : ℕ → Bool
is_control c = ltb c 0x20 || (leb 0x7f c && leb c 0x9f)

-- `f64::is_finite`: the exponent bits are not all set
unfoldable pub is_finite : ℕ → Bool
is_finite bits = not (bits / 2 ^ 52 % 2048 == 2047)

abbrev pub hex_digit : ℕ → ℕ
hex_digit n = if ltb n 10 then b'0' + n else 87 + n

-- `{:04x}` of a number below 65536, as control characters are
abbrev pub hex4 : ℕ → Text
hex4 c =
    hex_digit (c / 4096 % 16)
    ∷ hex_digit (c / 256 % 16)
    ∷ hex_digit (c / 16 % 16)
    ∷ hex_digit (c % 16)
    ∷ []

-- What one round of the loop of `push_string` pushes.
unfoldable pub escape_char : ℕ → Text
unfolding is_control
escape_char ch =
    if ch == b'"'
    then b'\\' ∷ b'"' ∷ []
    else if ch == b'\\'
    then b'\\' ∷ b'\\' ∷ []
    else if ch == b'\n'
    then b'\\' ∷ b'n' ∷ []
    else if ch == b'\r'
    then b'\\' ∷ b'r' ∷ []
    else if ch == b'\t'
    then b'\\' ∷ b't' ∷ []
    else if ch == 0x08
    then b'\\' ∷ b'b' ∷ []
    else if ch == 0x0c
    then b'\\' ∷ b'f' ∷ []
    else if is_control ch
    then b'\\' ∷ b'u' ∷ hex4 ch
    else ch ∷ []

unfoldable pub escape : Text → Text
escape [] = []
escape (c ∷ s) = escape_char c ++ escape s

-- `push_string`
unfoldable pub push_string : Text → Text → Text
push_string out value = out ++ (b'"' ∷ (escape value ++ (b'"' ∷ [])))

abbrev pub show_bool : Bool → Text
show_bool true = codes "true"
show_bool false = codes "false"

-- `,"file":…,"line":…,"target":…`
unfoldable pub push_location : Text → LogEntry → Text
push_location line e =
    push_string
      (push_string (line ++ codes ",\"file\":") e.file
        ++ (codes ",\"line\":" ++ (decimal e.line ++ codes ",\"target\":")))
      e.target

-- The members that every record has.
unfoldable pub push_message : LogEntry → Text
push_message e =
    push_string
      (codes "{\"ts\":\""
        ++ (display e.timestamp
            ++ (codes "\",\"level\":\"" ++ (as_str e.level ++ codes "\",\"msg\":"))))
      e.message

module _ (fmt_f64 : ℕ → Text) where
  unfoldable pub push_value : Text → FieldValue → Text
  push_value out (str s) = push_string out s
  push_value out (int i) = out ++ signed_decimal i
  push_value out (float f) = out ++ (if is_finite f then fmt_f64 f else codes "null")
  push_value out (bool b) = out ++ show_bool b
  push_value out null = out ++ codes "null"

  unfoldable pub push_fields : Text → List Field → Text
  push_fields out [] = out
  push_fields out (f ∷ fs) =
      push_fields (push_value (push_string (out ++ (b',' ∷ [])) f.key ++ (b':' ∷ [])) f.value) fs

  -- The line of a record, with its newline.
  unfoldable pub json_line : LogEntry → Bool → Text
  json_line e include_location =
      let start = push_message e in
      push_fields (if include_location then push_location start e else start) e.fields
      ++ codes "}\n"

  -- `write_record` appends to `out`.
  unfoldable pub write_record : LogEntry → Bool → Bytes → Bytes
  write_record e include_location out = out ++ as_bytes (json_line e include_location)
