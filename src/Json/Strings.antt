-- ===== src/Json/Strings.antt =====
-- src/json.rs, `push_string`: what is written is read back, and holds no control character.
use xoslog.Prelude.{
  ℕ, zero, suc, ◌+◌, ◌*◌, ◌/◌, ◌%◌, ◌≡◌, refl, ap, ◌∙◌, false, some, [], ◌∷◌, ◌++◌, arith,
  append_assoc, All, All-append, ◌<◌, Bool-cases, inl, inr,
}
use xoslog.Prelude.Text.{Text}
use xoslog.Json.{hex4, is_control, hex_digit, escape_char, escape}
use xoslog.Json.Reader.{plain, hex, prepend, unescape, hex_value, read_string}

hex_value_digit : (n : ℕ) → n < 16 → hex_value (hex_digit n) ≡ some n
unfolding hex_value
hex_value_digit n h = ground arith

read_digit :
    (k acc n : ℕ) (t : Text)
    → n < 16
    → read_string (hex (suc k) acc) (hex_digit n ∷ t) ≡ read_string (hex k (acc * 16 + n)) t
unfolding read_string
read_digit k acc n t h = ground (arith, hex_value_digit n h)

read_last_digit :
    (acc n : ℕ) (t : Text)
    → n < 16
    → read_string (hex zero acc) (hex_digit n ∷ t) ≡ prepend (acc * 16 + n) (read_string plain t)
unfolding read_string
read_last_digit acc n t h = ground (arith, hex_value_digit n h)

read_hex4 :
    (c : ℕ) (t : Text)
    → c < 65_536
    → read_string (hex 3 0) (hex4 c ++ t) ≡ prepend c (read_string plain t)
read_hex4 c t h =
    read_digit 2 0 (c / 4096 % 16) _ (omega arith)
    ∙ read_digit 1 _ (c / 256 % 16) _ (omega arith)
    ∙ read_digit 0 _ (c / 16 % 16) _ (omega arith)
    ∙ read_last_digit _ (c % 16) t (omega arith)
    ∙ ap (λ n. prepend n (read_string plain t)) (omega arith)

read_escaped_hex :
    (c : ℕ) (t : Text)
    → c < 65_536
    → read_string plain (b'\\' ∷ b'u' ∷ (hex4 c ++ t)) ≡ prepend c (read_string plain t)
unfolding read_string
read_escaped_hex c t h = read_hex4 c t h

read_escape_char :
    (c : ℕ) (t : Text) → read_string plain (escape_char c ++ t) ≡ prepend c (read_string plain t)
unfolding escape_char
read_escape_char c t = elim (Bool-cases (is_control c)) [
  | inl k ↦ unfold read_string unescape in ground (arith, read_escaped_hex c t)
  | inr k ↦ unfold read_string unescape is_control in ground arith
]

-- A text that is written as a JSON string is read back whole, whatever characters it holds and
-- whatever follows.
pub read_string-push_string :
    (value rest : Text) → read_string plain (escape value ++ (b'"' ∷ rest)) ≡ some (value, rest)
unfolding escape
read_string-push_string [] rest = unfold read_string in refl
read_string-push_string (c ∷ s) rest =
    ap (read_string plain) (append_assoc (escape_char c) (escape s) (b'"' ∷ rest))
    ∙ read_escape_char c (escape s ++ (b'"' ∷ rest))
    ∙ ap (prepend c) (read_string-push_string s rest)

-- A character that is not a control character.
abbrev pub IsVisible : ℕ → Type 0
IsVisible c = is_control c ≡ false

hex_digit-IsVisible : (n : ℕ) → n < 16 → IsVisible (hex_digit n)
unfolding is_control
hex_digit-IsVisible n h = ground arith

escape_char-IsVisible : (c : ℕ) → All IsVisible (escape_char c)
unfolding escape_char
escape_char-IsVisible c = elim (Bool-cases (is_control c)) [
  | inl k ↦ ground (
    arith,
    hex_digit-IsVisible (c / 4096 % 16),
    hex_digit-IsVisible (c / 256 % 16),
    hex_digit-IsVisible (c / 16 % 16),
    hex_digit-IsVisible (c % 16),
  )
  | inr k ↦ ground arith
]

pub escape-IsVisible : (s : Text) → All IsVisible (escape s)
unfolding escape
escape-IsVisible [] = tt
escape-IsVisible (c ∷ s) =
    All-append _ (escape_char c) (escape s) (escape_char-IsVisible c) (escape-IsVisible s)
