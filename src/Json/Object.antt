-- ===== src/Json/Object.antt =====
-- src/json.rs, `write_record`: a JSON reader gets back what the record holds.
use xoslog.Prelude.{
  and_then, ℕ, zero, suc, ◌+◌, ◌≤◌, ◌<◌, ◌≡◌, ◌∙◌, refl, ap, Bool, true, false, some, List, [], ◌∷◌,
  ◌++◌, map, arith, append_assoc, if◌then◌else◌, Bool-cases, inl, inr, length, length-append,
}
use xoslog.Prelude.Text.{Text, codes, text_eq, strip_prefix}
use xoslog.Prelude.Int.{pos}
use xoslog.Prelude.Decimal.{signed_decimal}
use xoslog.Level.{as_str}
use xoslog.Time.{display}
use xoslog.Entry.{FieldValue, str, int, float, bool, null, Field, field, LogEntry}
use xoslog.Json.{
  is_finite, escape_char, escape, push_string, push_location, push_value, push_message, push_fields,
  json_line,
}
use xoslog.Json.Strings.{read_string-push_string}
use xoslog.Json.Lines.{display-Simple, as_str-Simple}
use xoslog.Json.Reader
use xoslog.Json.Reader.{
  JsonValue, string, integer, boolean, Member, all_digits, all_numeric, is_numeric, number_value,
  scalar, read_token, as_scalar, as_string, read_value, read_string, plain, read_member,
  read_members, read_object,
}
use xoslog.Json.Tokens.{
  escape-Simple, IsNumber, IsEnd, read_value_number, number_value-signed_decimal,
  signed_decimal-IsNumber, read_words,
}

abbrev the_member : Text → JsonValue → Member
the_member k v = record { key = k; value = v }

module _ (fmt_f64 : ℕ → Text) where
  -- What a field's value is to a reader.
  abbrev pub json_value : FieldValue → JsonValue
  json_value (str s) = string s
  json_value (int i) = integer i
  json_value (float f) = if is_finite f then number_value (fmt_f64 f) else Reader.null
  json_value (bool b) = boolean b
  json_value null = Reader.null

  abbrev pub member : Field → Member
  member f = record { key = f.key; value = json_value f.value }

  value_text : FieldValue → Text
  value_text v = push_value fmt_f64 [] v

  fields_text : List Field → Text
  fields_text [] = codes "}\n"
  fields_text (f ∷ fs) =
      b',' ∷ b'"' ∷ (escape f.key ++ (b'"' ∷ b':' ∷ (value_text f.value ++ fields_text fs)))

  push_value_eq : (out : Text) (v : FieldValue) → push_value fmt_f64 out v ≡ out ++ value_text v
  unfolding push_value value_text push_string
  push_value_eq out (str s) = refl
  push_value_eq out (int i) = refl
  push_value_eq out (float f) = refl
  push_value_eq out (bool b) = refl
  push_value_eq out null = refl

  push_fields_eq :
      (fs : List Field) (out : Text)
      → push_fields fmt_f64 out fs ++ codes "}\n" ≡ out ++ fields_text fs
  unfolding push_fields fields_text push_string
  push_fields_eq [] out = refl
  push_fields_eq (f ∷ fs) out =
      let keyed = push_string (out ++ (b',' ∷ [])) f.key ++ (b':' ∷ []) in
      push_fields_eq fs (push_value fmt_f64 keyed f.value)
      ∙ ap (λ t. t ++ fields_text fs) (push_value_eq keyed f.value)
      ∙ simp append_assoc

  fields_text-IsEnd : (fs : List Field) → IsEnd (fields_text fs)
  unfolding fields_text read_token
  fields_text-IsEnd [] = refl
  fields_text-IsEnd (f ∷ fs) = refl

  module _ (numbers : (f : ℕ) → is_finite f ≡ true → IsNumber (fmt_f64 f)) where
    read_value-value_text :
        (v : FieldValue) (rest : Text)
        → IsEnd rest
        → read_value (value_text v ++ rest) ≡ some (json_value v, rest)
    unfolding value_text push_value push_string
    read_value-value_text (str s) rest e =
        unfold read_value in
        ap (λ t. as_string (read_string plain t)) (append_assoc (escape s) (b'"' ∷ []) rest)
        ∙ ap as_string (read_string-push_string s rest)
    read_value-value_text (int i) rest e =
        read_value_number (signed_decimal i) rest (signed_decimal-IsNumber i) e
        ∙ ap (λ v. some (v, rest)) (number_value-signed_decimal i)
    read_value-value_text (float f) rest e = elim (Bool-cases (is_finite f)) [
      | inl k ↦ rw k (read_value_number (fmt_f64 f) rest (numbers f k) e)
      | inr k ↦ rw k (read_words rest e).0
    ]
    read_value-value_text (bool true) rest e = (read_words rest e).1
    read_value-value_text (bool false) rest e = (read_words rest e).2
    read_value-value_text null rest e = (read_words rest e).0

    read_member-member :
        (f : Field) (fs : List Field)
        → read_member (fields_text (f ∷ fs)) ≡ some (member f, fields_text fs)
    unfolding read_member fields_text strip_prefix
    read_member-member f fs =
        let rest = value_text f.value ++ fields_text fs in
        ap
          (λ r. and_then r (λ k. and_then (strip_prefix (codes ":") k.1) (λ u.
            and_then (read_value u) (λ (v : JsonValue × Text). some (the_member k.0 v.0, v.1)))))
          (read_string-push_string f.key (b':' ∷ rest))
        ∙ ap (λ r. and_then r (λ (v : JsonValue × Text). some (the_member f.key v.0, v.1)))
            (read_value-value_text f.value (fields_text fs) (fields_text-IsEnd fs))

    read_members_more :
        (f : Field) (fs : List Field) (fuel : ℕ)
        → read_members fuel (fields_text fs) ≡ some (map member fs)
        → read_members (suc fuel) (fields_text (f ∷ fs)) ≡ some (map member (f ∷ fs))
    unfolding read_members text_eq fields_text
    read_members_more f fs fuel h =
        ap
          (λ r.
            and_then r
              (λ (m : Member × Text). and_then (read_members fuel m.1) (λ ms. some (m.0 ∷ ms))))
          (read_member-member f fs)
        ∙ ap (λ r. and_then r (λ ms. some (member f ∷ ms))) h

    read_members-fields_text :
        (fs : List Field) (fuel : ℕ)
        → length fs < fuel
        → read_members fuel (fields_text fs) ≡ some (map member fs)
    read_members-fields_text fs zero h = absurd (omega arith)
    read_members-fields_text [] (suc fuel) h = unfold fields_text read_members text_eq in refl
    read_members-fields_text (f ∷ fs) (suc fuel) h =
        read_members_more f fs fuel (read_members-fields_text fs fuel (omega arith))

    length-fields_text : (fs : List Field) → length fs + 2 ≤ length (fields_text fs)
    unfolding fields_text
    length-fields_text [] = omega arith
    length-fields_text (f ∷ fs) =
        let rest = value_text f.value ++ fields_text fs in
        omega (
          arith,
          length-fields_text fs,
          length-append (escape f.key) (b'"' ∷ b':' ∷ rest),
          length-append (value_text f.value) (fields_text fs),
        )

  -- The members that come from the record itself
  abbrev pub own_fields : LogEntry → List Field
  own_fields e =
      field (codes "ts") (str (display e.timestamp))
      ∷ field (codes "level") (str (as_str e.level))
      ∷ field (codes "msg") (str e.message)
      ∷ []

  abbrev pub location_fields : LogEntry → Bool → List Field
  location_fields e true =
      field (codes "file") (str e.file)
      ∷ field (codes "line") (int (pos e.line))
      ∷ field (codes "target") (str e.target)
      ∷ []
  location_fields e false = []

  abbrev pub all_fields : LogEntry → Bool → List Field
  all_fields e include_location = own_fields e ++ (location_fields e include_location ++ e.fields)

  abbrev tail : Text → Text
  tail [] = []
  tail (c ∷ s) = s

  message_text :
      (e : LogEntry) (fs : List Field)
      → push_message e ++ fields_text fs ≡ b'{' ∷ tail (fields_text (own_fields e ++ fs))
  unfolding push_message push_string fields_text value_text push_value escape escape_char
  message_text e fs =
      rw
        (
          escape-Simple (display e.timestamp) (display-Simple e.timestamp),
          escape-Simple (as_str e.level) (as_str-Simple e.level),
        )
        (simp append_assoc)

  location_text :
      (e : LogEntry) (fs : List Field) (line : Text)
      → push_location line e ++ fields_text fs ≡ line ++ fields_text (location_fields e true ++ fs)
  unfolding push_location push_string fields_text value_text push_value escape escape_char
      signed_decimal
  location_text e fs line = simp append_assoc

  located_text :
      (e : LogEntry) (loc : Bool) (fs : List Field)
      → (if loc then push_location (push_message e) e else push_message e) ++ fields_text fs
        ≡ b'{' ∷ tail (fields_text (own_fields e ++ (location_fields e loc ++ fs)))
  located_text e true fs =
      location_text e fs (push_message e) ∙ message_text e (location_fields e true ++ fs)
  located_text e false fs = message_text e fs

  line_text :
      (e : LogEntry) (loc : Bool)
      → json_line fmt_f64 e loc ≡ b'{' ∷ tail (fields_text (all_fields e loc))
  unfolding json_line
  line_text e loc =
      push_fields_eq e.fields (if loc then push_location (push_message e) e else push_message e)
      ∙ located_text e loc e.fields

  first_comma :
      (f : Field) (fs : List Field) → b',' ∷ tail (fields_text (f ∷ fs)) ≡ fields_text (f ∷ fs)
  unfolding fields_text
  first_comma f fs = refl

  -- What the line of a record says: its time, level and message, its place if asked for, and its
  -- fields, in this order.
  abbrev pub object : LogEntry → Bool → List Member
  object e include_location = map member (all_fields e include_location)

  -- A JSON reader that reads the line of a record gets every member back with its value, whatever
  -- the texts, keys and numbers of the record are: texts character by character, integers as
  -- numbers, floats that are finite as the number that Rust prints and other floats as null. Rust
  -- prints a finite float in characters of numbers.
  pub read_object-json_line :
      (numbers : (f : ℕ) → is_finite f ≡ true → IsNumber (fmt_f64 f))
      → (e : LogEntry) (include_location : Bool)
      → read_object (json_line fmt_f64 e include_location) ≡ some (object e include_location)
  unfolding read_object strip_prefix
  read_object-json_line numbers e loc =
      let fs = all_fields e loc in
      let fits = length-fields_text numbers fs in
      let behind =
        field (codes "level") (str (as_str e.level))
        ∷ field (codes "msg") (str e.message)
        ∷ (location_fields e loc ++ e.fields) in
      let whole = first_comma (field (codes "ts") (str (display e.timestamp))) behind in
      let room : length fs < length (b'{' ∷ tail (fields_text fs)) =
        omega (arith, fits, ap length whole) in
      rw (line_text e loc) (
        ap (read_members (length (b'{' ∷ tail (fields_text fs)))) whole
        ∙ read_members-fields_text numbers fs (length (b'{' ∷ tail (fields_text fs))) room)
