-- ===== src/Level.antt =====
-- src/level.rs: the severity levels, their order, their names and the parser of names.
pub mod Names
use xoslog.Prelude.{ℕ, Bool, true, false, Option, none, some, ltb, if◌then◌else◌}
use xoslog.Prelude.Text.{Text, codes, text_eq, trim, lower, to_ascii_lowercase}

pub data Level : Type 0 where
  trace debug info warn error off : Level

-- The discriminants, by which `Ord` is derived.
abbrev pub rank : Level → ℕ
rank trace = 0
rank debug = 1
rank info = 2
rank warn = 3
rank error = 4
rank off = 5

abbrev pub level_lt : Level → Level → Bool
level_lt a b = ltb (rank a) (rank b)

abbrev pub is_off : Level → Bool
is_off off = true
is_off _ = false

unfoldable pub as_str : Level → Text
as_str trace = codes "TRACE"
as_str debug = codes "DEBUG"
as_str info = codes "INFO"
as_str warn = codes "WARN"
as_str error = codes "ERROR"
as_str off = codes "OFF"

-- The `match` of `Level::parse`, on the text in lower case.
unfoldable pub parse_lower : Text → Option Level
parse_lower s =
    if text_eq s (codes "trace")
    then some trace
    else if text_eq s (codes "debug")
    then some debug
    else if text_eq s (codes "info")
    then some info
    else if text_eq s (codes "warn")
    then some warn
    else if text_eq s (codes "warning")
    then some warn
    else if text_eq s (codes "error")
    then some error
    else if text_eq s (codes "off")
    then some off
    else none

unfoldable pub parse : Text → Option Level
unfolding parse_lower
parse input = parse_lower (to_ascii_lowercase (trim input))
