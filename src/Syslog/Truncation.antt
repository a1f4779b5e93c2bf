-- ===== src/Syslog/Truncation.antt =====
-- src/syslog.rs, `build_packet`: what cutting a message at a byte does to its text.
use native.Mathlib.Decide.{dec_lt}
use native.Mathlib.Nat.{zero-add, suc-add}
use xoslog.Prelude.{
  ℕ, zero, suc, ◌+◌, ◌-◌, ◌≤◌, ◌<◌, ◌≡◌, ◌⊎◌, inl, refl, sym, ap, ◌∙◌, [], ◌∷◌, ◌++◌, arith, All,
  take, length, length-append, append-nil,
}
use xoslog.Prelude.Text.{Text, Bytes, as_bytes, utf8_char}
use xoslog.Syslog.Lossy.{start, decode, from_utf8_lossy, replacement}

-- A Unicode scalar value, as a Rust `char` is.
abbrev pub IsScalar : ℕ → Type 0
IsScalar c = (c < 0xd800) ⊎ ((0xe000 ≤ c) × (c < 0x110000))

pub decode-utf8_char :
    (c : ℕ) (s : Bytes)
    → IsScalar c
    → decode start (utf8_char c ++ s) ≡ utf8_char c ++ decode start s
unfolding decode utf8_char
decode-utf8_char c s h = ground arith

-- A character that is cut short is replaced by U+FFFD.
pub decode_cut :
    (c n : ℕ)
    → IsScalar c
    → suc n < length (utf8_char c)
    → decode start (take (suc n) (utf8_char c)) ≡ replacement
unfolding decode utf8_char
decode_cut c zero h k = ground arith
decode_cut c (suc zero) h k = ground arith
decode_cut c (suc (suc zero)) h k = ground arith
decode_cut c (suc (suc (suc n))) h k = ground arith

pub take_within : (n : ℕ) (s t : Bytes) → n ≤ length s → take n (s ++ t) ≡ take n s
take_within zero s t h = refl
take_within (suc n) [] t h = absurd (omega arith)
take_within (suc n) (x ∷ s) t h = ap (λ r. x ∷ r) (take_within n s t (omega arith))

pub take_beyond : (n : ℕ) (s t : Bytes) → take (length s + n) (s ++ t) ≡ s ++ take n t
take_beyond n [] t = rw zero-add refl
take_beyond n (x ∷ s) t = rw suc-add (ap (λ r. x ∷ r) (take_beyond n s t))

length-cut :
    (c n : ℕ)
    → IsScalar c
    → n < length (utf8_char c)
    → length (decode start (take n (utf8_char c))) ≤ n + 2
unfolding decode
length-cut c zero h k = omega arith
length-cut c (suc n) h k = omega (arith, ap length (decode_cut c n h k))

-- Cutting the bytes of a text anywhere and decoding what is left adds at most two bytes: those by
-- which U+FFFD is longer than one byte of a character.
pub length-from_utf8_lossy-take :
    (n : ℕ) (s : Text) → All IsScalar s → length (from_utf8_lossy (take n (as_bytes s))) ≤ n + 2
unfolding from_utf8_lossy as_bytes
length-from_utf8_lossy-take zero [] h = unfold decode in omega arith
length-from_utf8_lossy-take (suc n) [] h = unfold decode in omega arith
length-from_utf8_lossy-take n (c ∷ s) (hc, hs) = elim (dec_lt n (length (utf8_char c))) [
  | yes l ↦ rw (take_within n (utf8_char c) (as_bytes s) (omega arith)) (length-cut c n hc l)
  | no g ↦
      let m : ℕ = n - length (utf8_char c) in
      let e : length (utf8_char c) + m ≡ n = omega arith in
      omega (
        arith,
        ap length (ap (λ k. decode start (take k (utf8_char c ++ as_bytes s))) e),
        ap length (ap (decode start) (take_beyond m (utf8_char c) (as_bytes s))),
        ap length (decode-utf8_char c (take m (as_bytes s)) hc),
        length-append (utf8_char c) (decode start (take m (as_bytes s))),
        length-from_utf8_lossy-take m s hs,
      )
]

-- A text that is not cut is decoded to its own bytes.
pub from_utf8_lossy-as_bytes :
    (s : Text) → All IsScalar s → from_utf8_lossy (as_bytes s) ≡ as_bytes s
unfolding from_utf8_lossy as_bytes
from_utf8_lossy-as_bytes [] h = unfold decode in refl
from_utf8_lossy-as_bytes (c ∷ s) (hc, hs) =
    decode-utf8_char c (as_bytes s) hc ∙ ap (λ r. utf8_char c ++ r) (from_utf8_lossy-as_bytes s hs)

abbrev pub IsAscii : ℕ → Type 0
IsAscii c = c < 0x80

-- ASCII bytes are decoded to themselves.
pub decode-ascii : (s t : Bytes) → All IsAscii s → decode start (s ++ t) ≡ s ++ decode start t
unfolding decode
decode-ascii [] t h = refl
decode-ascii (c ∷ s) t (hc, hs) = ground (arith, decode-ascii s t hs)

pub from_utf8_lossy_ascii : (s : Bytes) → All IsAscii s → from_utf8_lossy s ≡ s
unfolding from_utf8_lossy
from_utf8_lossy_ascii s h =
    ap (decode start) (sym (append-nil s)) ∙ decode-ascii s [] h ∙ unfold decode in append-nil s

-- Cutting a text behind the first byte of a two-byte character leaves three bytes more than the
-- text before that character.
pub length-cut_two :
    (a : Bytes) (c : ℕ) (rest : Text)
    → All IsAscii a
    → 0x80 ≤ c
    → c < 0x800
    → length (from_utf8_lossy (take (length a + 1) (a ++ as_bytes (c ∷ rest)))) ≡ length a + 3
unfolding from_utf8_lossy as_bytes
length-cut_two a c rest ha lo hi =
    let two : length (utf8_char c) ≡ 2 = unfold utf8_char in ground arith in
    let cut : take 1 (utf8_char c ++ as_bytes rest) ≡ take 1 (utf8_char c) =
      take_within 1 (utf8_char c) (as_bytes rest) (omega arith) in
    let lost : decode start (take 1 (utf8_char c)) ≡ replacement =
      decode_cut c 0 (inl (omega arith)) (omega arith) in
    omega (
      arith,
      ap length (
          ap (decode start) (take_beyond 1 a (utf8_char c ++ as_bytes rest))
          ∙ decode-ascii a (take 1 (utf8_char c ++ as_bytes rest)) ha
          ∙ ap (λ r. a ++ r) (ap (decode start) cut ∙ lost)),
      length-append a replacement,
    )
