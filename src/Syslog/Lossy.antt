-- ===== src/Syslog/Lossy.antt =====
-- `String::from_utf8_lossy` of the standard library, byte by byte: a maximal part of an ill-formed
-- sequence is replaced by U+FFFD. Its only caller is `build_packet` of src/syslog.rs.
use xoslog.Prelude.{ℕ, ◌-◌, ◌||◌, ◌&&◌, [], ◌∷◌, ◌++◌, ltb, leb, ◌==◌, if◌then◌else◌}
use xoslog.Prelude.Text.{Bytes}

-- `need pending lo hi more`: inside a sequence, whose next byte must be from `lo` to `hi`, and
-- `more` more after it.
pub data Decoder : Type 0 where
  start : Decoder
  need : Bytes → ℕ → ℕ → ℕ → Decoder

-- U+FFFD in UTF-8
abbrev pub replacement : Bytes
replacement = 0xef ∷ 0xbf ∷ 0xbd ∷ []

-- At the first byte of a sequence: what is put out at once, and the state after it.
unfoldable pub begin : ℕ → Bytes × Decoder
begin c =
    if ltb c 0x80
    then (c ∷ [], start)
    else if leb 0xc2 c && leb c 0xdf
    then ([], need (c ∷ []) 0x80 0xbf 0)
    else if c == 0xe0
    then ([], need (c ∷ []) 0xa0 0xbf 1)
    else if (leb 0xe1 c && leb c 0xec) || (leb 0xee c && leb c 0xef)
    then ([], need (c ∷ []) 0x80 0xbf 1)
    else if c == 0xed
    then ([], need (c ∷ []) 0x80 0x9f 1)
    else if c == 0xf0
    then ([], need (c ∷ []) 0x90 0xbf 2)
    else if leb 0xf1 c && leb c 0xf3
    then ([], need (c ∷ []) 0x80 0xbf 2)
    else if c == 0xf4
    then ([], need (c ∷ []) 0x80 0x8f 2)
    else (replacement, start)

-- A byte that does not continue the sequence ends it, and begins the next one.
unfoldable pub feed : Decoder → ℕ → Bytes × Decoder
unfolding begin
feed start c = begin c
feed (need pending lo hi more) c =
    if leb lo c && leb c hi
    then (if more == 0
        then (pending ++ (c ∷ []), start)
        else ([], need (pending ++ (c ∷ [])) 0x80 0xbf (more - 1)))
    else (replacement ++ (begin c).0, (begin c).1)

unfoldable pub decode : Decoder → Bytes → Bytes
unfolding feed
decode start [] = []
decode (need pending lo hi more) [] = replacement
decode d (c ∷ s) = (feed d c).0 ++ decode (feed d c).1 s

-- The bytes of the `String` that results.
unfoldable pub from_utf8_lossy : Bytes → Bytes
unfolding decode
from_utf8_lossy s = decode start s
