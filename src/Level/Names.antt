-- ===== src/Level/Names.antt =====
-- Which texts `Level::parse` of src/level.rs accepts.
use xoslog.Prelude.{ℕ, ◌≡◌, ◌⊎◌, refl, true, some, [], ◌∷◌, ◌++◌, map, arith, All}
use xoslog.Prelude.Text.{
  Text, codes, text_eq, text_eq_iff, is_whitespace, trim_start, trim_end, trim, lower,
  to_ascii_lowercase, is_empty,
}
use xoslog.Level.{Level, warn, as_str, parse_lower, parse}

abbrev pub IsBlank : Text → Type 0
IsBlank = All (λ c. is_whitespace c ≡ true)

trim_start-append : (a s : Text) → IsBlank a → trim_start (a ++ s) ≡ trim_start s
unfolding trim_start
trim_start-append [] s h = refl
trim_start-append (c ∷ a) s (hc, ha) = ground (arith, trim_start-append a s ha)

trim_end_blank : (b : Text) → IsBlank b → trim_end b ≡ []
unfolding trim_end
trim_end_blank [] h = refl
trim_end_blank (c ∷ b) (hc, hb) = ground (arith, trim_end_blank b hb)

trim_end-append : (s b : Text) → IsBlank b → trim_end (s ++ b) ≡ trim_end s
unfolding trim_end
trim_end-append [] b h = trim_end_blank b h
trim_end-append (c ∷ s) b h = ground (arith, trim_end-append s b h)

trim_start_blank : (b : Text) → IsBlank b → trim_start b ≡ []
unfolding trim_start
trim_start_blank [] h = refl
trim_start_blank (c ∷ b) (hc, hb) = ground (arith, trim_start_blank b hb)

trim_end-trim_start-append :
    (s b : Text) → IsBlank b → trim_end (trim_start (s ++ b)) ≡ trim_end (trim_start s)
unfolding trim_start trim_end
trim_end-trim_start-append [] b h = ground (arith, trim_start_blank b h)
trim_end-trim_start-append (c ∷ s) b h =
    ground (arith, trim_end-trim_start-append s b h, trim_end-append s b h)

-- White space on either side does not change what `trim` returns.
pub trim-surrounded : (a s b : Text) → IsBlank a → IsBlank b → trim (a ++ (s ++ b)) ≡ trim s
unfolding trim
trim-surrounded a s b ha hb =
    ground (arith, trim_start-append a (s ++ b) ha, trim_end-trim_start-append s b hb)

is_whitespace-lower : (c : ℕ) → is_whitespace (lower c) ≡ is_whitespace c
unfolding is_whitespace lower
is_whitespace-lower c = ground arith

trim_start-map : (s : Text) → trim_start (map lower s) ≡ map lower (trim_start s)
unfolding trim_start
trim_start-map [] = refl
trim_start-map (c ∷ s) = ground (arith, trim_start-map s, is_whitespace-lower c)

is_empty-map : (s : Text) → is_empty (map lower s) ≡ is_empty s
is_empty-map [] = refl
is_empty-map (c ∷ s) = refl

trim_end-map : (s : Text) → trim_end (map lower s) ≡ map lower (trim_end s)
unfolding trim_end
trim_end-map [] = refl
trim_end-map (c ∷ s) =
    ground (arith, trim_end-map s, is_whitespace-lower c, is_empty-map (trim_end s))

pub trim-map : (s : Text) → trim (map lower s) ≡ map lower (trim s)
unfolding trim
trim-map s = ground (arith, trim_start-map s, trim_end-map (trim_start s))

parse_lower_names :
    (l : Level) → parse_lower (to_ascii_lowercase (trim (to_ascii_lowercase (as_str l)))) ≡ some l
unfolding parse_lower as_str text_eq trim lower is_whitespace
parse_lower_names Level.trace = refl
parse_lower_names Level.debug = refl
parse_lower_names Level.info = refl
parse_lower_names Level.warn = refl
parse_lower_names Level.error = refl
parse_lower_names Level.off = refl

lower_idem : (c : ℕ) → lower (lower c) ≡ lower c
unfolding lower
lower_idem c = ground arith

map-lower_idem : (s : Text) → map lower (map lower s) ≡ map lower s
map-lower_idem [] = refl
map-lower_idem (c ∷ s) = ground (arith, lower_idem c, map-lower_idem s)

-- A level's name, in upper or lower case or a mixture, with any white space around it, is parsed
-- as that level.
pub parse-as_str :
    (l : Level) (a s b : Text)
    → IsBlank a
    → IsBlank b
    → to_ascii_lowercase s ≡ to_ascii_lowercase (as_str l)
    → parse (a ++ (s ++ b)) ≡ some l
unfolding parse
parse-as_str l a s b ha hb h =
    rw (trim-surrounded a s b ha hb, ← map-lower_idem (trim s), ← trim-map s, h)
      (parse_lower_names l)

parse_lower_sound :
    (t : Text) (l : Level)
    → parse_lower t ≡ some l
    → (t ≡ to_ascii_lowercase (as_str l)) ⊎ ((l ≡ warn) × (t ≡ codes "warning"))
unfolding parse_lower as_str lower
parse_lower_sound t l h = ground (
  arith,
  text_eq_iff t (codes "trace"),
  text_eq_iff t (codes "debug"),
  text_eq_iff t (codes "info"),
  text_eq_iff t (codes "warn"),
  text_eq_iff t (codes "warning"),
  text_eq_iff t (codes "error"),
  text_eq_iff t (codes "off"),
)

-- What is accepted is a name of the level that is returned: its canonical name or, for `warn`,
-- also `warning`, in any case and with white space around it.
pub parse_sound :
    (s : Text) (l : Level)
    → parse s ≡ some l
    → (to_ascii_lowercase (trim s) ≡ to_ascii_lowercase (as_str l))
      ⊎ ((l ≡ warn) × (to_ascii_lowercase (trim s) ≡ codes "warning"))
unfolding parse
parse_sound s l = parse_lower_sound (to_ascii_lowercase (trim s)) l
