-- ===== src/Json/Reader.antt =====
-- A reader of JSON strings and of flat objects, after RFC 8259, to say what the lines of
-- src/json.rs mean. A `\u` escape stands for the scalar value of its four digits.
use xoslog.Prelude.{
  and_then, Bool, true, false, not, List, ℕ, zero, suc, ◌+◌, ◌-◌, ◌*◌, ◌||◌, ◌&&◌, Option, none,
  some, [], ◌∷◌, ltb, leb, ◌==◌, if◌then◌else◌, length,
}
use xoslog.Prelude.Text.{Text, codes, text_eq, is_empty, strip_prefix}
use xoslog.Prelude.Int.{ℤ, pos, negsuc}
use xoslog.Prelude.Decimal.{value}

pub data Mode : Type 0 where
  plain escaped : Mode
  hex : ℕ → ℕ → Mode

abbrev pub prepend : ℕ → Option (Text × Text) → Option (Text × Text)
prepend c none = none
prepend c (some (s, rest)) = some (c ∷ s, rest)

abbrev pub prepend? : Option ℕ → Option (Text × Text) → Option (Text × Text)
prepend? none r = none
prepend? (some c) r = prepend c r

unfoldable pub unescape : ℕ → Option ℕ
unescape c =
    if (c == b'"') || (c == b'\\') || (c == b'/')
    then some c
    else if c == b'b'
    then some 0x08
    else if c == b'f'
    then some 0x0c
    else if c == b'n'
    then some b'\n'
    else if c == b'r'
    then some b'\r'
    else if c == b't'
    then some b'\t'
    else none

unfoldable pub hex_value : ℕ → Option ℕ
hex_value c =
    if leb b'0' c && leb c b'9'
    then some (c - b'0')
    else if leb b'a' c && leb c b'f'
    then some (c - 87)
    else if leb b'A' c && leb c b'F'
    then some (c - 55)
    else none

-- The text up to the closing quote, and what follows the quote.
unfoldable pub read_string : Mode → Text → Option (Text × Text)
read_string m [] = none
read_string plain (c ∷ s) =
    let escape = read_string escaped s in
    let more = prepend c (read_string plain s) in
    if c == b'"'
    then some ([], s)
    else if c == b'\\'
    then escape
    else if ltb c 0x20
    then none
    else more
read_string escaped (c ∷ s) =
    let digits = read_string (hex 3 0) s in
    let more = prepend? (unescape c) (read_string plain s) in if c == b'u' then digits else more
read_string (hex zero acc) (c ∷ s) = elim (hex_value c) [
  | none ↦ none
  | some d ↦ prepend (acc * 16 + d) (read_string plain s)
]
read_string (hex (suc k) acc) (c ∷ s) = elim (hex_value c) [
  | none ↦ none
  | some d ↦ read_string (hex k (acc * 16 + d)) s
]

-- What stands behind a colon; `number` is a number that is not an integer in plain digits.
pub data JsonValue : Type 0 where
  string number : Text → JsonValue
  integer : ℤ → JsonValue
  boolean : Bool → JsonValue
  null : JsonValue

pub record Member : Type 0 where
  pub key : Text
  pub value : JsonValue

abbrev pub is_digit : ℕ → Bool
is_digit c = leb b'0' c && leb c b'9'

unfoldable pub all_digits : Text → Bool
all_digits [] = true
all_digits (c ∷ s) = is_digit c && all_digits s

abbrev pub negative : ℕ → ℤ
negative zero = pos 0
negative (suc n) = negsuc n

-- The number that a token of digits, signs and points spells.
unfoldable pub number_value : Text → JsonValue
number_value [] = number []
number_value (c ∷ s) =
    if (c == b'-') && not (is_empty s) && all_digits s
    then integer (negative (value 0 s))
    else if all_digits (c ∷ s)
    then integer (pos (value 0 (c ∷ s)))
    else number (c ∷ s)

abbrev pub is_numeric : ℕ → Bool
is_numeric c = is_digit c || (c == b'-') || (c == b'+') || (c == b'.') || (c == b'e') || (c == b'E')

unfoldable pub all_numeric : Text → Bool
all_numeric [] = true
all_numeric (c ∷ s) = is_numeric c && all_numeric s

unfoldable pub scalar : Text → Option JsonValue
scalar s =
    if not (is_empty s) && all_numeric s
    then some (number_value s)
    else if text_eq s (codes "null")
    then some null
    else if text_eq s (codes "true")
    then some (boolean true)
    else if text_eq s (codes "false")
    then some (boolean false)
    else none

-- The text up to the next comma or closing brace, and what follows.
unfoldable pub read_token : Text → Text × Text
read_token [] = ([], [])
read_token (c ∷ s) =
    let (t, rest) = read_token s in
    if (c == b',') || (c == b'}') then ([], c ∷ s) else (c ∷ t, rest)

abbrev pub as_string : Option (Text × Text) → Option (JsonValue × Text)
as_string r = and_then r (λ p. some (string p.0, p.1))

abbrev pub as_scalar : Text × Text → Option (JsonValue × Text)
as_scalar p = and_then (scalar p.0) (λ v. some (v, p.1))

unfoldable pub read_value : Text → Option (JsonValue × Text)
read_value [] = none
read_value (c ∷ s) =
    if c == b'"' then as_string (read_string plain s) else as_scalar (read_token (c ∷ s))

-- A comma and a member
unfoldable pub read_member : Text → Option (Member × Text)
read_member s = and_then (strip_prefix (codes ",\"") s) (λ t. and_then (read_string plain t) (λ k.
    and_then (strip_prefix (codes ":") k.1)
      (λ u. and_then (read_value u) (λ v. some (record { key = k.0; value = v.0 }, v.1)))))

-- Members, each behind a comma, up to the closing brace and the newline
unfoldable pub read_members : ℕ → Text → Option (List Member)
read_members zero s = none
read_members (suc fuel) s =
    let more =
      and_then (read_member s) (λ m. and_then (read_members fuel m.1) (λ ms. some (m.0 ∷ ms))) in
    if text_eq s (codes "}\n") then some [] else more

-- A line that holds one object with at least one member; each member takes up a character.
unfoldable pub read_object : Text → Option (List Member)
read_object s = and_then (strip_prefix (codes "{") s) (λ t. read_members (length s) (b',' ∷ t))
