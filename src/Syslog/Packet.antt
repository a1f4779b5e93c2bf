-- ===== src/Syslog/Packet.antt =====
-- src/syslog.rs: the size and the content of a datagram, its priority, and the tag.
use xoslog.Prelude.{
  ℕ, zero, suc, ◌+◌, ◌-◌, ◌/◌, ◌%◌, ◌≤◌, ◌<◌, ◌≡◌, ◌≢◌, refl, ap, ◌∙◌, Bool, true, ◌||◌, ◌==◌, [],
  ◌∷◌, ◌++◌, map, arith, All, All-take, take, length, length-append, length-take, min,
}
use xoslog.Prelude.Text.{Text, Bytes, as_bytes}
use xoslog.Level.{Level}
use xoslog.Time.{Timestamp}
use xoslog.Syslog.Lossy.{from_utf8_lossy}
use xoslog.Syslog.{
  Facility, code, level_to_severity, priority, packet_header, strip_newline, append_message,
  build_packet, max_syslog_packet, is_ascii_alphanumeric, safe_char, sanitize_ident,
}
use xoslog.Syslog.Truncation.{
  from_utf8_lossy_ascii, length-cut_two, IsScalar, IsAscii, length-from_utf8_lossy-take,
}

-- The priority fits its byte, and both of its parts can be read off it.
pub priority_decodes :
    (f : Facility) (l : Level)
    → (priority f l < 192) × (priority f l / 8 ≡ code f) × (priority f l % 8 ≡ level_to_severity l)
unfolding priority
priority_decodes f l = ground arith

-- A record as the formatter hands it over: a line and its newline.
abbrev pub line : Bytes → Bytes
line s = s ++ (b'\n' ∷ [])

strip_newline-line : (s : Bytes) → strip_newline (line s) ≡ s
unfolding strip_newline
strip_newline-line [] = refl
strip_newline-line (c ∷ []) = refl
strip_newline-line (c ∷ d ∷ s) = ap (λ r. c ∷ r) (strip_newline-line (d ∷ s))

take-min : (n : ℕ) (s : Bytes) → take (min (length s) n) s ≡ take n s
take-min zero s = ap (λ k. take k s) (let e : min (length s) 0 ≡ 0 = omega arith in e)
take-min (suc n) [] = ap (λ k. take {A = ℕ} k []) (let e : min 0 (suc n) ≡ 0 = omega arith in e)
take-min (suc n) (c ∷ s) =
    let e : min (suc (length s)) (suc n) ≡ suc (min (length s) n) = omega arith in
    ap (λ k. take k (c ∷ s)) e ∙ ap (λ r. c ∷ r) (take-min n s)

append_message-line :
    (header s : Bytes)
    → append_message header (line s)
      ≡ header ++ from_utf8_lossy (take (max_syslog_packet - length header) s)
unfolding append_message
append_message-line header s =
    rw (strip_newline-line s, take-min (max_syslog_packet - length header) s) refl

module _ (f : Facility) (l : Level) (t : Timestamp) (hostname ident : Text) (pid : ℕ) where
  abbrev pub header_bytes : Bytes
  header_bytes = as_bytes (packet_header f l t hostname ident pid)

  packet-line :
      (s : Bytes)
      → build_packet f l t hostname ident pid (line s)
        ≡ header_bytes ++ from_utf8_lossy (take (max_syslog_packet - length header_bytes) s)
  unfolding build_packet
  packet-line s = append_message-line header_bytes s

  -- The packet of an ASCII record is the header and as much of the record as fits, without its
  -- newline; it has at most 1024 bytes, if the header has.
  pub build_packet_ascii :
      (s : Bytes)
      → All IsAscii s
      → length header_bytes ≤ max_syslog_packet
      → (build_packet f l t hostname ident pid (line s)
          ≡ header_bytes ++ take (max_syslog_packet - length header_bytes) s)
        × (length (build_packet f l t hostname ident pid (line s)) ≤ max_syslog_packet)
  build_packet_ascii s h k =
      let room : ℕ = max_syslog_packet - length header_bytes in
      let exact =
        packet-line s
        ∙ ap (λ r. header_bytes ++ r) (from_utf8_lossy_ascii (take room s) (All-take _ room s h)) in
      (
        exact,
        omega
            (arith, ap length exact, length-append header_bytes (take room s), length-take room s),
      )

  -- The packet of any record exceeds the limit of 1024 bytes by at most two, if the header is
  -- within the limit.
  pub length-build_packet-le :
      (s : Text)
      → All IsScalar s
      → length header_bytes ≤ max_syslog_packet
      → length (build_packet f l t hostname ident pid (line (as_bytes s))) ≤ max_syslog_packet + 2
  length-build_packet-le s h k = omega (
    arith,
    ap length (packet-line (as_bytes s)),
    length-append header_bytes
        (from_utf8_lossy (take (max_syslog_packet - length header_bytes) (as_bytes s))),
    length-from_utf8_lossy-take (max_syslog_packet - length header_bytes) s h,
  )

  -- A record whose cut falls behind the first byte of a two-byte character makes a packet of 1026
  -- bytes.
  pub length-build_packet_over :
      (a : Bytes) (c : ℕ) (rest : Text)
      → All IsAscii a
      → 0x80 ≤ c
      → c < 0x800
      → length header_bytes + length a ≡ 1023
      → length (build_packet f l t hostname ident pid (line (a ++ as_bytes (c ∷ rest))))
        ≡ max_syslog_packet + 2
  length-build_packet_over a c rest ha lo hi e =
      let room : max_syslog_packet - length header_bytes ≡ length a + 1 = omega arith in
      let text = a ++ as_bytes (c ∷ rest) in
      omega (
        arith,
        ap length (packet-line text),
        length-append header_bytes
            (from_utf8_lossy (take (max_syslog_packet - length header_bytes) text)),
        ap (λ n. length (from_utf8_lossy (take n text))) room,
        length-cut_two a c rest ha lo hi,
      )

abbrev pub is_safe : ℕ → Bool
is_safe c = is_ascii_alphanumeric c || (c == b'_') || (c == b'-') || (c == b'.')

safe_char-is_safe : (c : ℕ) → is_safe (safe_char c) ≡ true
unfolding safe_char
safe_char-is_safe c = ground arith

map-safe_char : (s : Text) → All (λ c. is_safe c ≡ true) (map safe_char s)
map-safe_char [] = tt
map-safe_char (c ∷ s) = (safe_char-is_safe c, map-safe_char s)

safe_char_idem : (c : ℕ) → safe_char (safe_char c) ≡ safe_char c
unfolding safe_char
safe_char_idem c = ground arith

map-safe_char_idem : (s : Text) → map safe_char (map safe_char s) ≡ map safe_char s
map-safe_char_idem [] = refl
map-safe_char_idem (c ∷ s) = cc (safe_char_idem c, map-safe_char_idem s)

-- A tag that is sanitized is not empty and holds only ASCII letters, digits, `_`, `-` and `.`;
-- sanitizing it again does not change it.
pub sanitize_ident_safe :
    (s : Text)
    → (sanitize_ident s ≢ [])
      × All (λ c. is_safe c ≡ true) (sanitize_ident s)
      × (sanitize_ident (sanitize_ident s) ≡ sanitize_ident s)
unfolding sanitize_ident
sanitize_ident_safe [] = ((λ e. cc), ground arith, refl)
sanitize_ident_safe (c ∷ s) = ((λ e. cc), map-safe_char (c ∷ s), map-safe_char_idem (c ∷ s))
