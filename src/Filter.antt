-- ===== src/Filter.antt =====
-- src/filter.rs: the directives, their parser, and the decision whether a record passes.
pub mod Matching
pub mod Longest
pub mod Order
pub mod Parsing
pub mod Printing
use xoslog.Prelude.{
  ℕ, Bool, true, false, not, ◌&&◌, ◌||◌, Option, none, some, List, [], ◌∷◌, ltb, if◌then◌else◌,
  length,
}
use xoslog.Prelude.Text.{Text, codes, text_eq, is_empty, trim, split, strip_prefix, as_bytes}
use xoslog.Level
use xoslog.Level.{Level, trace, rank, is_off, level_lt}

pub record Directive : Type 0 where
  pub target : Text
  pub level : Level

abbrev pub directive : Text → Level → Directive
directive t l = record { target = t; level = l }

pub record TargetFilter : Type 0 where
  pub directives : List Directive

-- The environment variable that `from_env` reads.
abbrev pub default_filter_env : Text
default_filter_env = codes "XOSLOG"

abbrev pub with_target : Text → Option Level → Option Directive
with_target t none = none
with_target t (some l) = some (directive t l)

-- A bare token: a level is the global default, anything else a target at `trace`.
abbrev pub bare_token : Text → Option Level → Option Directive
bare_token part0 none = some (directive part0 trace)
bare_token part0 (some l) = some (directive [] l)

-- The `match` on the parts between `=` signs; `none` is `continue`.
unfoldable pub read_parts : List Text → Option Directive
read_parts (part0 ∷ []) = bare_token part0 (Level.parse part0)
read_parts (part0 ∷ part1 ∷ []) =
    let level = trim part1 in
    if is_empty level
    then (if is_empty part0 then none else some (directive part0 trace))
    else with_target part0 (Level.parse level)
read_parts _ = none

-- One round of the loop of `parse`, up to the directive that it yields.
unfoldable pub read_directive : Text → Option Directive
unfolding read_parts
read_directive piece =
    let raw = trim piece in if is_empty raw then none else read_parts (split b'=' raw)

-- A later directive with the same target replaces the level of the earlier one.
unfoldable pub upsert : Directive → List Directive → List Directive
upsert d [] = d ∷ []
upsert d (e ∷ ds) =
    if text_eq e.target d.target then record e { level = d.level } ∷ ds else e ∷ upsert d ds

abbrev pub add_parsed : Option Directive → List Directive → List Directive
add_parsed none ds = ds
add_parsed (some d) ds = upsert d ds

unfoldable pub parse_pieces : List Text → List Directive → List Directive
parse_pieces [] ds = ds
parse_pieces (p ∷ ps) ds = parse_pieces ps (add_parsed (read_directive p) ds)

-- `iter.next().unwrap_or("")`
abbrev pub first_or_empty : List Text → Text
first_or_empty [] = []
first_or_empty (t ∷ ts) = t

-- `TargetFilter::parse`
unfoldable pub parse : Text → TargetFilter
unfolding parse_pieces
parse spec = record { directives = parse_pieces (split b',' (first_or_empty (split b'/' spec))) [] }

-- `from_env_name`, on what `std::env::var` returned for the name.
unfoldable pub from_env_name : Option Text → Option TargetFilter
from_env_name none = none
from_env_name (some spec) = if is_empty (trim spec) then none else some (parse spec)

-- `from_env`: the environment is a function of the variable's name.
unfoldable pub from_env : (Text → Option Text) → Option TargetFilter
unfolding from_env_name
from_env env = from_env_name (env default_filter_env)

-- `is_empty` of a filter
abbrev pub has_no_directives : TargetFilter → Bool
has_no_directives f = is_empty f.directives

unfoldable pub find_global : List Directive → Option Level
find_global [] = none
find_global (d ∷ ds) = if is_empty d.target then some d.level else find_global ds

unfoldable pub global_default : TargetFilter → Option Level
unfolding find_global
global_default f = find_global f.directives

abbrev pub unwrap_or {ℓ} : {A : Type ℓ} → Option A → A → A
unwrap_or none d = d
unwrap_or (some a) d = a

unfoldable pub default_level : TargetFilter → Level → Level
unfolding global_default
default_level f base = unwrap_or (global_default f) base

abbrev pub starts_with_colons : Option Text → Bool
starts_with_colons none = false
starts_with_colons (some rest) = elim (strip_prefix (codes "::") rest) [
  | none ↦ false
  | some r ↦ true
]

-- `module_matches(directive, target)`
unfoldable pub module_matches : Text → Text → Bool
module_matches dir target =
    if text_eq target dir then true else starts_with_colons (strip_prefix dir target)

abbrev pub keep_longer : Option (ℕ × Level) → ℕ → Level → Option (ℕ × Level)
keep_longer none len l = some (len, l)
keep_longer (some (best_len, best)) len l =
    if ltb len best_len then some (best_len, best) else some (len, l)

-- One round of the loop of `effective_level`.
unfoldable pub consider : Text → Directive → Option (ℕ × Level) → Option (ℕ × Level)
consider target d best =
    if is_empty d.target
    then best
    else if module_matches d.target target
    then keep_longer best (length (as_bytes d.target)) d.level
    else best

unfoldable pub best_match : Text → List Directive → Option (ℕ × Level) → Option (ℕ × Level)
unfolding consider
best_match target [] best = best
best_match target (d ∷ ds) best = best_match target ds (consider target d best)

abbrev pub level_or : Option (ℕ × Level) → Level → Level
level_or none d = d
level_or (some (len, l)) d = l

unfoldable pub effective_level : TargetFilter → Text → Level → Level
unfolding best_match
effective_level f target base =
    level_or (best_match target f.directives none) (default_level f base)

unfoldable pub enabled : TargetFilter → Text → Level → Level → Bool
enabled f target l base =
    let effective = effective_level f target base in
    if is_off l then false else not (is_off effective) && not (level_lt l effective)
