-- ===== src/Filter/Matching.antt =====
-- src/filter.rs, `module_matches`: which targets a directive covers.
use xoslog.Prelude.{
  ℕ, ◌≡◌, ◌⊎◌, ◌↔◌, inl, inr, refl, ap, true, some, [], ◌∷◌, ◌++◌, arith, ◌≤◌, length,
  length-append, Option-cases, Bool-cases, ◌∙◌,
}
use xoslog.Prelude.Text.{Text, codes, text_eq, text_eq_iff, strip_prefix, as_bytes, utf8_char}
use xoslog.Filter.{module_matches, starts_with_colons}

strip_prefix-append : (p r : Text) → strip_prefix p (p ++ r) ≡ some r
unfolding strip_prefix
strip_prefix-append [] r = refl
strip_prefix-append (c ∷ p) r = ground (arith, strip_prefix-append p r)

pub strip_prefix_sound : (p t r : Text) → strip_prefix p t ≡ some r → t ≡ p ++ r
unfolding strip_prefix
strip_prefix_sound [] t r h = cc
strip_prefix_sound (c ∷ p) [] r h = cc
strip_prefix_sound (c ∷ p) (d ∷ t) r h = ground (arith, strip_prefix_sound p t r)

-- The scope of a directive: the module itself, and the modules below it.
abbrev pub InScope : Text → Text → Type 0
InScope dir target = (target ≡ dir) ⊎ ((rest : Text) × (target ≡ dir ++ (codes "::" ++ rest)))

colons-InScope :
    (dir target rest : Text)
    → target ≡ dir ++ rest
    → starts_with_colons (some rest) ≡ true
    → InScope dir target
colons-InScope dir target rest e h = elim (Option-cases (strip_prefix (codes "::") rest)) [
  | inl n ↦ absurd (ground arith)
  | inr (r, s) ↦ inr (r, e ∙ ap (λ x. dir ++ x) (strip_prefix_sound (codes "::") rest r s))
]

module_matches_sound : (dir target : Text) → module_matches dir target ≡ true → InScope dir target
unfolding module_matches
module_matches_sound dir target h = elim (Option-cases (strip_prefix dir target)) [
  | inl n ↦ inl (ground (arith, text_eq_iff target dir))
  | inr (r, s) ↦ elim (Bool-cases (text_eq target dir)) [
    | inl e ↦ inl ((text_eq_iff target dir).0 e)
    | inr e ↦ colons-InScope dir target r (strip_prefix_sound dir target r s) (ground arith)
  ]
]

colons-append : (rest : Text) → starts_with_colons (some (codes "::" ++ rest)) ≡ true
unfolding strip_prefix
colons-append rest = refl

InScope-module_matches : (dir target : Text) → InScope dir target → module_matches dir target ≡ true
unfolding module_matches
InScope-module_matches dir target (inl e) = ground (arith, text_eq_iff target dir)
InScope-module_matches dir target (inr (rest, e)) =
    rw e (rw strip_prefix-append (ground (arith, colons-append rest)))

-- A directive matches exactly the module that it names and the modules below it: a target that
-- only begins with the directive's text is not matched.
pub module_matches_iff :
    (dir target : Text) → (module_matches dir target ≡ true) ↔ InScope dir target
module_matches_iff dir target = (module_matches_sound dir target, InScope-module_matches dir target)

utf8_char_pos : (c : ℕ) → 1 ≤ length (utf8_char c)
unfolding utf8_char
utf8_char_pos c = ground arith

-- Two prefixes of one text with the same number of bytes are the same text.
pub eq_of_prefixes :
    (p q r s : Text) → p ++ r ≡ q ++ s → length (as_bytes p) ≡ length (as_bytes q) → p ≡ q
unfolding as_bytes
eq_of_prefixes [] [] r s e h = refl
eq_of_prefixes [] (d ∷ q) r s e h =
    absurd (omega (arith, length-append (utf8_char d) (as_bytes q), utf8_char_pos d))
eq_of_prefixes (c ∷ p) [] r s e h =
    absurd (omega (arith, length-append (utf8_char c) (as_bytes p), utf8_char_pos c))
eq_of_prefixes (c ∷ p) (d ∷ q) r s e h =
    let same : c ≡ d = ground arith in
    let rest : p ++ r ≡ q ++ s = ground arith in
    let lens : length (as_bytes p) ≡ length (as_bytes q) =
      ground (
        arith,
        length-append (utf8_char c) (as_bytes p),
        length-append (utf8_char d) (as_bytes q),
      ) in
    cc (same, eq_of_prefixes p q r s rest lens)
