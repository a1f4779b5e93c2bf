-- ===== src/Suites/Levels.antt =====
-- src/level.rs: the tests.
use xoslog.Prelude.{◌≡◌, refl, Bool, true, [], ◌∷◌}
use xoslog.Prelude.Text.{codes, text_eq, trim, trim_start, trim_end, is_whitespace, lower}
use xoslog.Level.{trace, debug, info, warn, error, off, level_lt, parse, parse_lower, as_str}
use xoslog.Suites.Asserts.{all, asserts, is_level, is_none}

abbrev pub ordering : Bool
ordering = asserts (
    level_lt trace debug
    ∷ level_lt debug info
    ∷ level_lt info warn
    ∷ level_lt warn error
    ∷ level_lt error off
    ∷ [])

abbrev pub parse_cases : Bool
parse_cases = asserts (
    is_level (parse (codes "INFO")) info
    ∷ is_level (parse (codes " info ")) info
    ∷ is_level (parse (codes "WARNING")) warn
    ∷ is_level (parse (codes "Error")) error
    ∷ is_none (parse (codes "verbose"))
    ∷ is_none (parse (codes ""))
    ∷ [])

abbrev pub str_roundtrip : Bool
str_roundtrip =
    all (λ l. is_level (parse (as_str l)) l) (trace ∷ debug ∷ info ∷ warn ∷ error ∷ off ∷ [])

levels_pass : (ordering ≡ true) × (parse_cases ≡ true) × (str_roundtrip ≡ true)
unfolding parse parse_lower trim trim_start trim_end is_whitespace lower text_eq as_str
levels_pass = (refl, refl, refl)
