-- ===== src/Suites/Filters.antt =====
-- src/filter.rs: the tests.
use xoslog.Prelude.{◌≡◌, refl, Bool, true, not, List, [], ◌∷◌}
use xoslog.Prelude.Text.{
  Text, codes, text_eq, trim, trim_start, trim_end, is_whitespace, lower, split, strip_prefix,
  as_bytes,
}
use xoslog.Level
use xoslog.Level.{Level, trace, debug, info, warn, error, off, parse_lower}
use xoslog.Filter.{
  TargetFilter, parse, parse_pieces, read_directive, read_parts, upsert, has_no_directives,
  find_global, global_default, default_level, module_matches, consider, best_match, effective_level,
  enabled,
}
use xoslog.Suites.Asserts.{all, asserts, is_level, is_none, level_eq}

abbrev empty_spec : Text → Bool
empty_spec spec =
    let filter = parse spec in
    asserts (
      has_no_directives filter
      ∷ is_none (global_default filter)
      ∷ enabled filter (codes "anything") info info
      ∷ not (enabled filter (codes "anything") debug info)
      ∷ [])

abbrev pub empty_spec_yields_empty_filter : Bool
empty_spec_yields_empty_filter =
    all empty_spec (codes "" ∷ codes "   " ∷ codes "," ∷ codes " , " ∷ codes "   ," ∷ [])

abbrev bare_debug : Text → Bool
bare_debug spec =
    let filter = parse spec in
    asserts (
      is_level (global_default filter) debug
      ∷ level_eq (default_level filter info) debug
      ∷ enabled filter (codes "any::target") debug info
      ∷ not (enabled filter (codes "any::target") trace info)
      ∷ [])

abbrev pub bare_level_is_global_default : Bool
bare_level_is_global_default =
    all bare_debug (codes "debug" ∷ codes "DEBUG" ∷ codes "Debug" ∷ codes "deBuG" ∷ [])

abbrev visible_levels : List Level
visible_levels = trace ∷ debug ∷ info ∷ warn ∷ error ∷ []

abbrev pub bare_off_disables_everything : Bool
bare_off_disables_everything =
    let filter = parse (codes "off") in
    asserts (
      is_level (global_default filter) off
      ∷ all (λ l. not (enabled filter (codes "any::target") l info)) visible_levels
      ∷ [])

-- The assertion that a target has an effective level
abbrev level_of : TargetFilter → Text → Level → Bool
level_of filter target l = level_eq (effective_level filter target info) l

abbrev pub bare_target_enables_at_trace : Bool
bare_target_enables_at_trace =
    let filter = parse (codes "hyper") in
    asserts (
      is_none (global_default filter)
      ∷ level_of filter (codes "hyper") trace
      ∷ level_of filter (codes "hyper::client") trace
      ∷ enabled filter (codes "hyper::client") trace info
      ∷ level_of filter (codes "myapp") info
      ∷ [])

abbrev pub empty_level_is_bare_target : Bool
empty_level_is_bare_target = level_of (parse (codes "hyper=")) (codes "hyper") trace

abbrev pub target_directive_matches_descendants_not_siblings : Bool
target_directive_matches_descendants_not_siblings =
    let filter = parse (codes "myapp=debug") in
    asserts (
      level_of filter (codes "myapp") debug
      ∷ level_of filter (codes "myapp::server") debug
      ∷ level_of filter (codes "myapp::server::tls") debug
      ∷ level_of filter (codes "myapp_client") info
      ∷ level_of filter (codes "myappx") info
      ∷ [])

abbrev pub longest_match_wins : Bool
longest_match_wins =
    let filter = parse (codes "crate2=info,crate2::mod=debug") in
    asserts (
      level_of filter (codes "crate2") info
      ∷ level_of filter (codes "crate2::mod") debug
      ∷ level_of filter (codes "crate2::mod::deep") debug
      ∷ [])

abbrev pub target_off_suppresses_only_that_target : Bool
target_off_suppresses_only_that_target =
    let filter = parse (codes "myapp=off") in
    asserts (
      all (λ l. not (enabled filter (codes "myapp::x") l info)) visible_levels
      ∷ enabled filter (codes "other") info info
      ∷ enabled filter (codes "other") error info
      ∷ [])

abbrev pub mixed_spec_example : Bool
mixed_spec_example =
    let filter = parse (codes "myapp=debug,hyper=warn") in
    asserts (
      enabled filter (codes "myapp") debug info
      ∷ enabled filter (codes "myapp::sub") info info
      ∷ enabled filter (codes "hyper") warn info
      ∷ not (enabled filter (codes "hyper") info info)
      ∷ enabled filter (codes "unrelated") info info
      ∷ not (enabled filter (codes "unrelated") debug info)
      ∷ [])

abbrev pub global_level_with_overrides : Bool
global_level_with_overrides =
    let filter = parse (codes "debug,hyper=warn") in
    asserts (
      level_eq (default_level filter info) debug
      ∷ enabled filter (codes "myapp") debug info
      ∷ not (enabled filter (codes "myapp") trace info)
      ∷ not (enabled filter (codes "hyper") debug info)
      ∷ enabled filter (codes "hyper") warn info
      ∷ [])

abbrev pub invalid_directives_are_skipped : Bool
invalid_directives_are_skipped =
    let filter = parse (codes "foo=invalid,bad=a=b,ok=warn,=,") in
    asserts (
      is_none (global_default filter)
      ∷ level_of filter (codes "ok") warn
      ∷ level_of filter (codes "foo") info
      ∷ level_of filter (codes "bad") info
      ∷ [])

abbrev pub later_directive_replaces_earlier : Bool
later_directive_replaces_earlier =
    level_of (parse (codes "myapp=info,myapp=debug")) (codes "myapp") debug

abbrev pub warning_alias_and_case_insensitive_levels : Bool
warning_alias_and_case_insensitive_levels =
    let filter = parse (codes "a=WARNING,b=WaRn,c=Off") in
    asserts (
      level_of filter (codes "a") warn
      ∷ level_of filter (codes "b") warn
      ∷ level_of filter (codes "c") off
      ∷ not (enabled filter (codes "c") error info)
      ∷ [])

abbrev pub regex_suffix_is_ignored : Bool
regex_suffix_is_ignored =
    level_of (parse (codes "myapp=debug/secret-pattern")) (codes "myapp") debug

abbrev pub off_level_never_enabled : Bool
off_level_never_enabled = not (enabled (parse (codes "myapp=debug")) (codes "myapp") off info)

abbrev pub base_off_disables_unmatched : Bool
base_off_disables_unmatched =
    let filter = parse (codes "myapp=debug") in
    asserts (
      enabled filter (codes "myapp") debug off ∷ not (enabled filter (codes "other") info off) ∷ [])

abbrev pub module_matches_boundary : Bool
module_matches_boundary = asserts (
    module_matches (codes "myapp") (codes "myapp")
    ∷ module_matches (codes "myapp") (codes "myapp::server")
    ∷ not (module_matches (codes "myapp") (codes "myapp_client"))
    ∷ not (module_matches (codes "myapp") (codes "my"))
    ∷ not (module_matches (codes "") (codes "myapp"))
    ∷ [])

filters_pass :
    asserts (
      empty_spec_yields_empty_filter ∷ bare_level_is_global_default ∷ bare_off_disables_everything
      ∷ bare_target_enables_at_trace ∷ empty_level_is_bare_target
      ∷ target_directive_matches_descendants_not_siblings ∷ longest_match_wins
      ∷ target_off_suppresses_only_that_target ∷ mixed_spec_example ∷ global_level_with_overrides
      ∷ invalid_directives_are_skipped ∷ later_directive_replaces_earlier
      ∷ warning_alias_and_case_insensitive_levels ∷ regex_suffix_is_ignored
      ∷ off_level_never_enabled ∷ base_off_disables_unmatched ∷ module_matches_boundary ∷ [])
    ≡ true
unfolding parse parse_pieces read_directive read_parts upsert find_global global_default
    default_level module_matches consider best_match effective_level enabled Level.parse parse_lower
    trim trim_start trim_end is_whitespace lower split strip_prefix text_eq as_bytes
filters_pass = refl
