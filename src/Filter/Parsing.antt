-- ===== src/Filter/Parsing.antt =====
-- src/filter.rs, `TargetFilter::parse`: which directives the list holds after parsing.
use xoslog.Prelude.{
  ◌≡◌, ◌≢◌, inl, inr, refl, sym, Option, none, some, List, [], ◌∷◌, arith, All, Bool-cases,
  Option-cases, if◌then◌else◌,
}
use xoslog.Prelude.Text.{Text, text_eq, text_eq_iff, split, is_empty}
use xoslog.Level.{Level}
use xoslog.Filter.{
  Directive, read_directive, upsert, parse_pieces, first_or_empty, parse, find_global,
}

-- No two directives have the same target.
abbrev pub Distinct : List Directive → Type 0
Distinct [] = Unit
Distinct (d ∷ ds) = All (λ e. e.target ≢ d.target) ds × Distinct ds

upsert-All :
    (t : Text) (d : Directive) (ds : List Directive)
    → d.target ≢ t
    → All (λ e. e.target ≢ t) ds
    → All (λ e. e.target ≢ t) (upsert d ds)
unfolding upsert
upsert-All t d [] h all = (h, tt)
upsert-All t d (e ∷ ds) h (he, hs) = elim (Bool-cases (text_eq e.target d.target)) [
  | inl q ↦ rw q (he, hs)
  | inr q ↦ rw q (he, upsert-All t d ds h hs)
]

upsert-Distinct : (d : Directive) (ds : List Directive) → Distinct ds → Distinct (upsert d ds)
unfolding upsert
upsert-Distinct d [] h = (tt, tt)
upsert-Distinct d (e ∷ ds) (he, hs) = elim (Bool-cases (text_eq e.target d.target)) [
  | inl q ↦ rw q (he, hs)
  | inr q ↦ rw q (
    upsert-All e.target d ds (λ p. cc ((text_eq_iff e.target d.target).1 (sym p))) he,
    upsert-Distinct d ds hs,
  )
]

parse_pieces-Distinct :
    (ps : List Text) (ds : List Directive) → Distinct ds → Distinct (parse_pieces ps ds)
unfolding parse_pieces
parse_pieces-Distinct [] ds h = h
parse_pieces-Distinct (p ∷ ps) ds h = elim (Option-cases (read_directive p)) [
  | inl e ↦ rw e (parse_pieces-Distinct ps ds h)
  | inr (d, e) ↦ rw e (parse_pieces-Distinct ps (upsert d ds) (upsert-Distinct d ds h))
]

-- The pieces of a specification, each of which is read as a directive.
abbrev pub pieces : Text → List Text
pieces spec = split b',' (first_or_empty (split b'/' spec))

-- Whatever the specification, the parsed filter has at most one directive for each target.
pub parse-Distinct : (spec : Text) → Distinct (parse spec).directives
unfolding parse
parse-Distinct spec = parse_pieces-Distinct (pieces spec) [] tt

-- The level that a list of directives gives to a target that is written out.
pub level_for : Text → List Directive → Option Level
level_for t [] = none
level_for t (d ∷ ds) = if text_eq d.target t then some d.level else level_for t ds

abbrev pub or_else : Option Level → Option Level → Option Level
or_else none o = o
or_else (some l) o = some l

-- The last level that any of the pieces asks for a target.
abbrev asks : Text → Option Directive → Option Level
asks t none = none
asks t (some d) = if text_eq d.target t then some d.level else none

pub last_asked : Text → List Text → Option Level
last_asked t [] = none
last_asked t (p ∷ ps) = or_else (last_asked t ps) (asks t (read_directive p))

level_for-upsert :
    (t : Text) (d : Directive) (ds : List Directive)
    → level_for t (upsert d ds) ≡ (if text_eq d.target t then some d.level else level_for t ds)
unfolding level_for upsert
level_for-upsert t d [] = refl
level_for-upsert t d (e ∷ ds) = ground (
  arith,
  level_for-upsert t d ds,
  text_eq_iff e.target d.target,
  text_eq_iff e.target t,
  text_eq_iff d.target t,
)

level_for-parse_pieces :
    (t : Text) (ps : List Text) (ds : List Directive)
    → level_for t (parse_pieces ps ds) ≡ or_else (last_asked t ps) (level_for t ds)
unfolding parse_pieces last_asked
level_for-parse_pieces t [] ds = refl
level_for-parse_pieces t (p ∷ ps) ds = elim (Option-cases (read_directive p)) [
  | inl e ↦ rw e (ground (arith, level_for-parse_pieces t ps ds))
  | inr (d, e) ↦
      rw e (ground (arith, level_for-parse_pieces t ps (upsert d ds), level_for-upsert t d ds))
]

-- For every target, the filter holds the level that the last directive for that target asks for;
-- a directive that cannot be read asks for nothing.
pub level_for-parse :
    (spec t : Text) → level_for t (parse spec).directives ≡ last_asked t (pieces spec)
unfolding parse level_for
level_for-parse spec t = ground (arith, level_for-parse_pieces t (pieces spec) [])

is_empty-text_eq : (t : Text) → is_empty t ≡ text_eq t []
unfolding text_eq
is_empty-text_eq [] = refl
is_empty-text_eq (c ∷ t) = refl

pub find_global-level_for : (ds : List Directive) → find_global ds ≡ level_for [] ds
unfolding find_global level_for
find_global-level_for [] = refl
find_global-level_for (d ∷ ds) = ground (arith, find_global-level_for ds, is_empty-text_eq d.target)
