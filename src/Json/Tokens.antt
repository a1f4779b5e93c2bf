-- ===== src/Json/Tokens.antt =====
-- src/json.rs, `push_value`: numbers and words are tokens, which a JSON reader understands.
use xoslog.Prelude.{
  and_then, ℕ, suc, ◌≡◌, ◌∙◌, refl, ap, true, false, not, some, [], ◌∷◌, ◌++◌, arith, All, if_true,
  if_false, ◌||◌, ◌&&◌, ◌==◌,
}
use xoslog.Prelude.Text.{Text, codes, text_eq, is_empty}
use xoslog.Prelude.Int.{ℤ, pos, negsuc}
use xoslog.Prelude.Decimal.{
  IsDigit, decimal, decimal-IsDigit, decimal_some, signed_decimal, value, value-decimal,
}
use xoslog.Json.{is_control, escape_char, escape}
use xoslog.Json.Lines.{is_simple, Simple}
use xoslog.Json.Reader
use xoslog.Json.Reader.{
  JsonValue, string, integer, boolean, Member, all_digits, all_numeric, is_numeric, number_value,
  scalar, read_token, as_scalar, as_string, read_value, read_string, plain, read_member,
  read_members, read_object,
}

escape_simple : (c : ℕ) → is_simple c ≡ true → escape_char c ≡ c ∷ []
unfolding escape_char is_control
escape_simple c h = ground arith

pub escape-Simple : (s : Text) → Simple s → escape s ≡ s
unfolding escape
escape-Simple [] h = refl
escape-Simple (c ∷ s) (k, h) = rw (escape_simple c k, escape-Simple s h) refl

-- A number as Rust prints it: not empty, in characters of numbers.
abbrev pub IsNumber : Text → Type 0
IsNumber s = (not (is_empty s) && all_numeric s) ≡ true

-- Where a token ends
abbrev pub IsEnd : Text → Type 0
IsEnd rest = read_token rest ≡ ([], rest)

abbrev IsToken : Text → Type 0
IsToken = All (λ c. ((c == b',') || (c == b'}')) ≡ false)

read_token-append : (s rest : Text) → IsToken s → IsEnd rest → read_token (s ++ rest) ≡ (s, rest)
unfolding read_token
read_token-append [] rest h e = e
read_token-append (c ∷ s) rest (k, h) e = rw (read_token-append s rest h e) (if_false _ _ k)

numeric-IsToken : (s : Text) → all_numeric s ≡ true → IsToken s
unfolding all_numeric
numeric-IsToken [] h = tt
numeric-IsToken (c ∷ s) h = (ground arith, numeric-IsToken s (ground arith))

digits-numeric : (s : Text) → All IsDigit s → (all_numeric s ≡ true) × (all_digits s ≡ true)
unfolding all_numeric all_digits
digits-numeric [] h = (refl, refl)
digits-numeric (c ∷ s) (k, h) = ground (arith, digits-numeric s h)

digits_value :
    (s : Text) → is_empty s ≡ false → All IsDigit s → number_value s ≡ integer (pos (value 0 s))
unfolding number_value all_digits
digits_value [] e h = cc
digits_value (c ∷ s) e (k, h) = ground (arith, digits-numeric s h)

minus_value :
    (s : Text)
    → is_empty s ≡ false
    → All IsDigit s
    → number_value (b'-' ∷ s) ≡ integer (Reader.negative (value 0 s))
unfolding number_value
minus_value s e h = ground (arith, digits-numeric s h)

pub signed_decimal-IsNumber : (i : ℤ) → IsNumber (signed_decimal i)
unfolding signed_decimal all_numeric
signed_decimal-IsNumber (pos n) =
    ground (arith, decimal_some n, digits-numeric (decimal n) (decimal-IsDigit n))
signed_decimal-IsNumber (negsuc n) =
    ground (arith, digits-numeric (decimal (suc n)) (decimal-IsDigit (suc n)))

-- An integer is read back as it is.
pub number_value-signed_decimal : (i : ℤ) → number_value (signed_decimal i) ≡ integer i
unfolding signed_decimal
number_value-signed_decimal (pos n) =
    digits_value (decimal n) (decimal_some n) (decimal-IsDigit n)
    ∙ ap (λ n. integer (pos n)) (value-decimal n)
number_value-signed_decimal (negsuc n) =
    minus_value (decimal (suc n)) (decimal_some (suc n)) (decimal-IsDigit (suc n))
    ∙ ap (λ n. integer (Reader.negative n)) (value-decimal (suc n))

scalar_number : (s : Text) → IsNumber s → scalar s ≡ some (number_value s)
unfolding scalar
scalar_number s h = if_true _ _ h

-- A token that does not begin with a quote
read_value_token :
    (c : ℕ) (s rest : Text) (v : JsonValue)
    → (c == b'"') ≡ false
    → IsToken (c ∷ s)
    → IsEnd rest
    → scalar (c ∷ s) ≡ some v
    → read_value (c ∷ (s ++ rest)) ≡ some (v, rest)
unfolding read_value
read_value_token c s rest v no_quote h e known =
    if_false _ _ no_quote
    ∙ ap as_scalar (read_token-append (c ∷ s) rest h e)
    ∙ ap (λ o. and_then o (λ v. some (v, rest))) known

pub read_value_number :
    (s rest : Text) → IsNumber s → IsEnd rest → read_value (s ++ rest) ≡ some (number_value s, rest)
unfolding all_numeric
read_value_number [] rest h e = cc
read_value_number (c ∷ s) rest h e =
    read_value_token c s rest (number_value (c ∷ s)) (ground arith) (numeric-IsToken (c ∷ s) h) e
      (scalar_number (c ∷ s) h)

-- The words of JSON
pub read_words :
    (rest : Text)
    → IsEnd rest
    → (read_value (codes "null" ++ rest) ≡ some (Reader.null, rest))
      × (read_value (codes "true" ++ rest) ≡ some (boolean true, rest))
      × (read_value (codes "false" ++ rest) ≡ some (boolean false, rest))
unfolding scalar all_numeric text_eq
read_words rest e = (
  read_value_token b'n' (codes "ull") rest Reader.null refl (refl, (refl, (refl, (refl, tt)))) e
      refl,
  read_value_token b't' (codes "rue") rest (boolean true) refl (refl, (refl, (refl, (refl, tt)))) e
      refl,
  read_value_token b'f' (codes "alse") rest (boolean false) refl
      (refl, (refl, (refl, (refl, (refl, tt))))) e refl,
)
