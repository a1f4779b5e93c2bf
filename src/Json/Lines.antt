-- ===== src/Json/Lines.antt =====
-- src/json.rs, `write_record`: a record is one line, whatever its texts hold.
use xoslog.Prelude.{
  ℕ, suc, Bool, true, not, ◌&&◌, ◌==◌, leb, ltb, ◌+◌, ◌-◌, ◌/◌, ◌%◌, ◌≡◌, ◌≢◌, refl, sym, ap, ◌∙◌,
  [], ◌∷◌, ◌++◌, arith, append_assoc, All, All-append, All-map, All-replicate, length, replicate,
}
use xoslog.Prelude.Text.{Text, Bytes, codes, as_bytes, utf8_char}
use xoslog.Prelude.Int.{ℤ, pos, negsuc}
use xoslog.Prelude.Decimal.{
  IsDigit, decimal, decimal-IsDigit, zero_padded, signed_decimal, signed_zero_padded,
}
use xoslog.Level.{Level, as_str}
use xoslog.Time.{Timestamp, display, display_offset}
use xoslog.Entry.{LogEntry}
use xoslog.Json.{is_control, escape, push_string, push_location}
use xoslog.Json.Strings.{IsVisible, escape-IsVisible}

abbrev pub Visible : Text → Type 0
Visible = All IsVisible

-- A printable ASCII character that a JSON string holds as it is
abbrev pub is_simple : ℕ → Bool
is_simple c = leb b' ' c && ltb c 0x7f && not (c == b'"') && not (c == b'\\')

abbrev pub Simple : Text → Type 0
Simple = All (λ c. is_simple c ≡ true)

Simple-Visible : (s : Text) → Simple s → Visible s
unfolding is_control
Simple-Visible s h = All-map _ _ s (λ c k. ground arith) h

digit-simple : (c : ℕ) → IsDigit c → is_simple c ≡ true
digit-simple c h = ground arith

decimal-Simple : (n : ℕ) → Simple (decimal n)
decimal-Simple n = All-map _ _ (decimal n) digit-simple (decimal-IsDigit n)

zero_padded-Simple : (w n : ℕ) → Simple (zero_padded w n)
unfolding zero_padded
zero_padded-Simple w n =
    All-append _ (replicate (w - length (decimal n)) b'0') (decimal n)
      (All-replicate _ (w - length (decimal n)) b'0' (digit-simple b'0' (omega arith)))
      (decimal-Simple n)

signed_decimal-Simple : (z : ℤ) → Simple (signed_decimal z)
unfolding signed_decimal
signed_decimal-Simple (pos n) = decimal-Simple n
signed_decimal-Simple (negsuc n) = (refl, decimal-Simple (suc n))

signed_zero_padded-Simple : (w : ℕ) (z : ℤ) → Simple (signed_zero_padded w z)
unfolding signed_zero_padded
signed_zero_padded-Simple w (pos n) = zero_padded-Simple w n
signed_zero_padded-Simple w (negsuc n) = (refl, zero_padded-Simple (w - 1) (suc n))

pub decimal-Visible : (n : ℕ) → Visible (decimal n)
decimal-Visible n = Simple-Visible (decimal n) (decimal-Simple n)

pub signed_decimal-Visible : (z : ℤ) → Visible (signed_decimal z)
signed_decimal-Visible z = Simple-Visible (signed_decimal z) (signed_decimal-Simple z)

-- Two texts around a mark
pub mark {ℓ} :
    (P : ℕ → Type ℓ) (s : Text) (c : ℕ) (t : Text) → P c → All P s → All P t → All P (s ++ (c ∷ t))
mark P s c t hc hs ht = All-append P s (c ∷ t) hs (hc, ht)

display_offset-Simple : (o : ℤ) → Simple (display_offset o)
unfolding display_offset
display_offset-Simple (pos n) = ground (
  arith,
  mark _ (zero_padded 2 (n / 3600)) b':' (zero_padded 2 (n % 3600 / 60)) refl
      (zero_padded-Simple 2 (n / 3600)) (zero_padded-Simple 2 (n % 3600 / 60)),
)
display_offset-Simple (negsuc n) = (
  refl,
  mark _ (zero_padded 2 ((n + 1) / 3600)) b':' (zero_padded 2 ((n + 1) % 3600 / 60)) refl
      (zero_padded-Simple 2 ((n + 1) / 3600)) (zero_padded-Simple 2 ((n + 1) % 3600 / 60)),
)

pub display-Simple : (t : Timestamp) → Simple (display t)
unfolding display
display-Simple t = mark _ _ _ _ refl (signed_zero_padded-Simple 4 t.year) (
    mark _ _ _ _ refl (zero_padded-Simple 2 t.month) (
      mark _ _ _ _ refl (zero_padded-Simple 2 t.day) (
        mark _ _ _ _ refl (zero_padded-Simple 2 t.hour) (
          mark _ _ _ _ refl (zero_padded-Simple 2 t.minute) (
            mark _ _ _ _ refl (zero_padded-Simple 2 t.second) (
              All-append _ (zero_padded 6 t.microsecond) _ (zero_padded-Simple 6 t.microsecond)
                (display_offset-Simple t.offset_seconds)))))))

pub display-Visible : (t : Timestamp) → Visible (display t)
display-Visible t = Simple-Visible (display t) (display-Simple t)

pub as_str-Simple : (l : Level) → Simple (as_str l)
unfolding as_str
as_str-Simple l = ground arith

pub as_str-Visible : (l : Level) → Visible (as_str l)
as_str-Visible l = Simple-Visible (as_str l) (as_str-Simple l)

pub literals-Visible :
    Visible (codes "{\"ts\":\"")
    × Visible (codes "\",\"level\":\"")
    × Visible (codes "\",\"msg\":")
    × Visible (codes ",\"file\":")
    × Visible (codes ",\"line\":")
    × Visible (codes ",\"target\":")
    × Visible (codes "null")
    × Visible (codes "true")
    × Visible (codes "false")
unfolding is_control
literals-Visible = ground arith

pub push_string-Visible : (out v : Text) → Visible out → Visible (push_string out v)
unfolding push_string is_control
push_string-Visible out v h =
    mark _ out b'"' _ refl h (mark _ (escape v) b'"' [] refl (escape-IsVisible v) tt)

pub push_location-Visible :
    (line : Text) (e : LogEntry) → Visible line → Visible (push_location line e)
unfolding push_location
push_location-Visible line e h =
    let l = literals-Visible in
    push_string-Visible _ e.target (
      All-append _ (push_string (line ++ codes ",\"file\":") e.file) _
        (push_string-Visible _ e.file (All-append _ line _ h l.3))
        (All-append _ (codes ",\"line\":") _ l.4
          (All-append _ (decimal e.line) _ (decimal-Visible e.line) l.5)))

-- What a byte of a text that is not a newline may not be.
abbrev pub NoNewline : Bytes → Type 0
NoNewline = All (λ b. b ≢ b'\n')

utf8_char-NoNewline : (c : ℕ) → IsVisible c → NoNewline (utf8_char c)
unfolding utf8_char is_control
utf8_char-NoNewline c h = ground arith

pub as_bytes-NoNewline : (s : Text) → Visible s → NoNewline (as_bytes s)
unfolding as_bytes
as_bytes-NoNewline [] h = tt
as_bytes-NoNewline (c ∷ s) (hc, hs) =
    All-append _ (utf8_char c) (as_bytes s) (utf8_char-NoNewline c hc) (as_bytes-NoNewline s hs)

pub as_bytes-append : (s t : Text) → as_bytes (s ++ t) ≡ as_bytes s ++ as_bytes t
unfolding as_bytes
as_bytes-append [] t = refl
as_bytes-append (c ∷ s) t =
    ap (λ r. utf8_char c ++ r) (as_bytes-append s t)
    ∙ sym (append_assoc (utf8_char c) (as_bytes s) (as_bytes t))
