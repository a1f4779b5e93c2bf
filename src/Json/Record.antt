-- ===== src/Json/Record.antt =====
-- src/json.rs, `write_record`: a record is one line, whatever its texts hold.
use xoslog.Prelude.{
  ℕ, ◌≡◌, refl, sym, ap, ◌∙◌, Bool, true, false, List, [], ◌∷◌, ◌++◌, arith, append_assoc,
  All-append, if◌then◌else◌, Bool-cases, inl, inr,
}
use xoslog.Prelude.Text.{Text, Bytes, codes, as_bytes}
use xoslog.Level.{as_str}
use xoslog.Time.{display}
use xoslog.Entry.{FieldValue, str, int, float, bool, null, Field, LogEntry}
use xoslog.Json.{
  is_control, is_finite, push_location, push_value, push_message, push_fields, json_line,
  write_record,
}
use xoslog.Json.Strings.{IsVisible}
use xoslog.Json.Lines.{
  Visible, NoNewline, signed_decimal-Visible, mark, literals-Visible, push_string-Visible,
  push_location-Visible, as_bytes-NoNewline, as_bytes-append, as_str-Visible, display-Visible,
}

marks-Visible : IsVisible b',' × IsVisible b':' × IsVisible b'}'
unfolding is_control
marks-Visible = ground arith

push_message-Visible : (e : LogEntry) → Visible (push_message e)
unfolding push_message
push_message-Visible e =
    let l = literals-Visible in
    push_string-Visible _ e.message (
      All-append _ (codes "{\"ts\":\"") _ l.0 (
        All-append _ (display e.timestamp) _ (display-Visible e.timestamp) (
          All-append _ (codes "\",\"level\":\"") _ l.1
            (All-append _ (as_str e.level) _ (as_str-Visible e.level) l.2))))

start_of : LogEntry → Bool → Text
start_of e include_location =
    let start = push_message e in if include_location then push_location start e else start

start_of-Visible : (e : LogEntry) (loc : Bool) → Visible (start_of e loc)
unfolding start_of
start_of-Visible e true = push_location-Visible _ e (push_message-Visible e)
start_of-Visible e false = push_message-Visible e

-- Floats print without control characters.
module _ (fmt_f64 : ℕ → Text) (floats : (f : ℕ) → Visible (fmt_f64 f)) where
  push_value-Visible :
      (out : Text) (v : FieldValue) → Visible out → Visible (push_value fmt_f64 out v)
  unfolding push_value
  push_value-Visible out (str s) h = push_string-Visible out s h
  push_value-Visible out (int i) h = All-append _ out _ h (signed_decimal-Visible i)
  push_value-Visible out (float f) h = elim (Bool-cases (is_finite f)) [
    | inl k ↦ rw k (All-append _ out _ h (floats f))
    | inr k ↦ rw k (All-append _ out _ h literals-Visible.6)
  ]
  push_value-Visible out (bool true) h = All-append _ out _ h literals-Visible.7
  push_value-Visible out (bool false) h = All-append _ out _ h literals-Visible.8
  push_value-Visible out null h = All-append _ out _ h literals-Visible.6

  push_fields-Visible :
      (fs : List Field) (out : Text) → Visible out → Visible (push_fields fmt_f64 out fs)
  unfolding push_fields
  push_fields-Visible [] out h = h
  push_fields-Visible (f ∷ fs) out h =
      let keyed =
        push_string-Visible (out ++ (b',' ∷ [])) f.key (mark _ out b',' [] marks-Visible.0 h tt) in
      push_fields-Visible fs _
        (push_value-Visible _ f.value (mark _ _ b':' [] marks-Visible.1 keyed tt))

  -- The line of a record without its newline.
  line_of : LogEntry → Bool → Text
  line_of e loc = push_fields fmt_f64 (start_of e loc) e.fields ++ (b'}' ∷ [])

  line_of-Visible : (e : LogEntry) (loc : Bool) → Visible (line_of e loc)
  unfolding line_of
  line_of-Visible e loc =
      mark _ _ b'}' [] marks-Visible.2 (push_fields-Visible e.fields _ (start_of-Visible e loc)) tt

  json_line-line_of :
      (e : LogEntry) (loc : Bool) → json_line fmt_f64 e loc ≡ line_of e loc ++ (b'\n' ∷ [])
  unfolding json_line line_of start_of
  json_line-line_of e loc =
      sym (append_assoc (push_fields fmt_f64 (start_of e loc) e.fields) (b'}' ∷ []) (b'\n' ∷ []))

  as_bytes_newline : as_bytes (b'\n' ∷ []) ≡ b'\n' ∷ []
  unfolding as_bytes
  as_bytes_newline = refl

  -- A record appends exactly one line: bytes that hold no newline, and then a newline. This is so
  -- whatever the message, the location, the keys and the values are, if no float prints with a
  -- control character.
  pub write_record-one_line :
      (e : LogEntry) (loc : Bool) (out : Bytes)
      → (line : Bytes) × NoNewline line
        × (write_record fmt_f64 e loc out ≡ out ++ (line ++ (b'\n' ∷ [])))
  unfolding write_record
  write_record-one_line e loc out = (
    as_bytes (line_of e loc),
    as_bytes-NoNewline (line_of e loc) (line_of-Visible e loc),
    ap (λ s. out ++ as_bytes s) (json_line-line_of e loc)
        ∙ ap (λ s. out ++ s)
            (as_bytes-append (line_of e loc) (b'\n' ∷ [])
              ∙ ap (λ n. as_bytes (line_of e loc) ++ n) as_bytes_newline),
  )
