-- ===== src/Examples/Filters.antt =====
-- Levels and filters on concrete inputs.
use mathlib.Core.List.{Memᴰ}
use xoslog.Prelude.{◌≡◌, ◌↔◌, ◌⊎◌, ◌≢◌, ◌≤◌, refl, true, some, List, [], ◌∷◌, ◌++◌, All, arith}
use xoslog.Prelude.Text.{codes, is_whitespace, lower}
use xoslog.Level.{Level, trace, debug, info, warn, error, off, rank, as_str}
use xoslog.Level
use xoslog.Level.Names.{parse-as_str}
use xoslog.Filter.{
  Directive, TargetFilter, directive, module_matches, default_level, effective_level, enabled,
  parse,
}
use xoslog.Filter.Matching.{InScope, module_matches_iff}
use xoslog.Filter.Longest.{Covers, IsMostSpecific, effective_level-IsMostSpecific, enabled_iff}
use xoslog.Filter.Order.{SameMembers, effective_level_same}
use xoslog.Filter.Parsing.{level_for, last_asked, pieces, level_for-parse}
use xoslog.Filter.Printing.{print, parse-print, HasPlainTargets}

parse-as_str_example : Level.parse (codes " " ++ (codes "wArN" ++ codes "\n")) ≡ some warn
unfolding is_whitespace as_str lower
parse-as_str_example =
    parse-as_str warn (codes " ") (codes "wArN") (codes "\n") (refl, tt) (refl, tt) refl

module_matches_iff_example :
    (module_matches (codes "app") (codes "app::db") ≡ true)
    ↔ InScope (codes "app") (codes "app::db")
module_matches_iff_example = module_matches_iff (codes "app") (codes "app::db")

abbrev two : List Directive
two = directive (codes "app") warn ∷ directive (codes "app::db") trace ∷ []

abbrev two_swapped : List Directive
two_swapped = directive (codes "app::db") trace ∷ directive (codes "app") warn ∷ []

abbrev filter_two : TargetFilter
filter_two = record { directives = two }

abbrev filter_swapped : TargetFilter
filter_swapped = record { directives = two_swapped }

effective_level-IsMostSpecific_example :
    (All (λ e. ¬ (Covers (codes "app::db") e)) two
      × (effective_level filter_two (codes "app::db") info ≡ default_level filter_two info))
    ⊎ ((d : Directive) × IsMostSpecific (codes "app::db") two d
        × (effective_level filter_two (codes "app::db") info ≡ d.level))
effective_level-IsMostSpecific_example =
    effective_level-IsMostSpecific filter_two (codes "app::db") info

enabled_iff_example :
    (enabled filter_two (codes "app") error info ≡ true)
    ↔ ((error ≢ off) × (rank (effective_level filter_two (codes "app") info) ≤ rank error))
enabled_iff_example = enabled_iff filter_two (codes "app") error info

swap : {a b d : Directive} → Memᴰ d (a ∷ b ∷ []) → Memᴰ d (b ∷ a ∷ [])
swap (Memᴰ.head p) = Memᴰ.tail (Memᴰ.head p)
swap (Memᴰ.tail (Memᴰ.head p)) = Memᴰ.head p
swap (Memᴰ.tail (Memᴰ.tail m)) = elim m [ ]

two-SameMembers : SameMembers two two_swapped
two-SameMembers d = (swap, swap)

effective_level_same_example :
    effective_level filter_two (codes "app::db::pool") info
    ≡ effective_level filter_swapped (codes "app::db::pool") info
effective_level_same_example =
    effective_level_same filter_two filter_swapped (codes "app::db::pool") info
      (((λ e. cc), tt), (tt, tt)) two-SameMembers

level_for-parse_example :
    level_for (codes "app") (parse (codes "app=warn,debug,app=error")).directives
    ≡ last_asked (codes "app") (pieces (codes "app=warn,debug,app=error"))
level_for-parse_example = level_for-parse (codes "app=warn,debug,app=error") (codes "app")

two-HasPlainTargets : HasPlainTargets two
unfolding is_whitespace
two-HasPlainTargets = ground arith

parse-print_example : parse (print two) ≡ filter_two
parse-print_example = parse-print two two-HasPlainTargets (((λ e. cc), tt), (tt, tt))
