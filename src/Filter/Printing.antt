-- ===== src/Filter/Printing.antt =====
-- src/filter.rs: a specification that is written from a list of directives parses to that list.
use xoslog.Prelude.{
  ℕ, ◌≡◌, ◌≢◌, refl, sym, ap, subst, false, some, List, [], ◌∷◌, ◌++◌, arith, All, All-append,
  All-append_right, All-map, ◌∙◌, map, append_assoc, append-nil,
}
use xoslog.Prelude.Text.{
  Text, text_eq_iff, split, is_empty, trim, trim_start, trim_end, is_whitespace,
}
use xoslog.Level
use xoslog.Level.{Level, as_str}
use xoslog.Level.Names.{parse-as_str}
use xoslog.Filter.{Directive, directive, read_parts, read_directive, upsert, parse_pieces, parse}
use xoslog.Filter.Parsing.{Distinct}

-- A character that may stand in a printed target: no separator and no white space.
abbrev pub IsPlain : ℕ → Type 0
IsPlain c = (c ≢ b'/') × (c ≢ b',') × (c ≢ b'=') × (is_whitespace c ≡ false)

-- A directive as it is written: a bare level for the global default, else `target=level`.
pub print_at : Text → Level → Text
print_at [] l = as_str l
print_at (c ∷ t) l = (c ∷ t) ++ (b'=' ∷ as_str l)

abbrev pub print_directive : Directive → Text
print_directive d = print_at d.target d.level

pub print_more : List Directive → Text
print_more [] = []
print_more (d ∷ ds) = b',' ∷ (print_directive d ++ print_more ds)

pub print : List Directive → Text
print [] = []
print (d ∷ ds) = print_directive d ++ print_more ds

as_str-IsPlain : (l : Level) → All IsPlain (as_str l)
unfolding as_str is_whitespace
as_str-IsPlain l = ground arith

split_lacks : (sep : ℕ) (p : Text) → All (λ c. c ≢ sep) p → split sep p ≡ p ∷ []
unfolding split
split_lacks sep [] h = refl
split_lacks sep (c ∷ p) (hc, hp) = rw (split_lacks sep p hp) (ground arith)

split-append :
    (sep : ℕ) (p rest : Text)
    → All (λ c. c ≢ sep) p
    → split sep (p ++ (sep ∷ rest)) ≡ p ∷ split sep rest
unfolding split
split-append sep [] rest h = ground arith
split-append sep (c ∷ p) rest (hc, hp) = rw (split-append sep p rest hp) (ground arith)

trim_start_unspaced : (s : Text) → All (λ c. is_whitespace c ≡ false) s → trim_start s ≡ s
unfolding trim_start
trim_start_unspaced [] h = refl
trim_start_unspaced (c ∷ s) (hc, hs) = ground arith

trim_end_unspaced : (s : Text) → All (λ c. is_whitespace c ≡ false) s → trim_end s ≡ s
unfolding trim_end
trim_end_unspaced [] h = refl
trim_end_unspaced (c ∷ s) (hc, hs) = ground (arith, trim_end_unspaced s hs)

trim_unspaced : (s : Text) → All (λ c. is_whitespace c ≡ false) s → trim s ≡ s
unfolding trim
trim_unspaced s h = ground (arith, trim_start_unspaced s h, trim_end_unspaced s h)

parse_name : (l : Level) → Level.parse (as_str l) ≡ some l
parse_name l = rw (← append-nil (as_str l)) (parse-as_str l [] (as_str l) [] tt tt refl)

unspaced_of_plain : (s : Text) → All IsPlain s → All (λ c. is_whitespace c ≡ false) s
unspaced_of_plain s = All-map _ _ s (λ c h. h.3)

trim-as_str : (l : Level) → trim (as_str l) ≡ as_str l
trim-as_str l = trim_unspaced (as_str l) (unspaced_of_plain (as_str l) (as_str-IsPlain l))

is_empty-as_str : (l : Level) → is_empty (as_str l) ≡ false
unfolding as_str
is_empty-as_str l = ground arith

split-as_str : (l : Level) → split b'=' (as_str l) ≡ as_str l ∷ []
split-as_str l =
    split_lacks b'=' (as_str l) (All-map _ _ (as_str l) (λ c h. h.2) (as_str-IsPlain l))

read_parts_level : (t : Text) (l : Level) → read_parts (t ∷ as_str l ∷ []) ≡ some (directive t l)
unfolding read_parts
read_parts_level t l = rw (trim-as_str l, is_empty-as_str l, parse_name l) refl

read_parts_bare : (l : Level) → read_parts (as_str l ∷ []) ≡ some (directive [] l)
unfolding read_parts
read_parts_bare l = rw (parse_name l) refl

read_unspaced :
    (s : Text)
    → All (λ c. is_whitespace c ≡ false) s
    → is_empty s ≡ false
    → read_directive s ≡ read_parts (split b'=' s)
unfolding read_directive
read_unspaced s h e = rw (trim_unspaced s h, e) refl

-- What a printed directive may hold: an `=`, but none of the outer separators.
abbrev IsInner : ℕ → Type 0
IsInner c = (c ≢ b'/') × (c ≢ b',') × (is_whitespace c ≡ false)

print_at-IsInner : (t : Text) (l : Level) → All IsPlain t → All IsInner (print_at t l)
unfolding print_at is_whitespace
print_at-IsInner [] l h = All-map _ _ (as_str l) (λ c k. (k.0, k.1, k.3)) (as_str-IsPlain l)
print_at-IsInner (c ∷ t) l h =
    All-append _ (c ∷ t) (b'=' ∷ as_str l) (All-map _ _ (c ∷ t) (λ x k. (k.0, k.1, k.3)) h)
      (ground arith, All-map _ _ (as_str l) (λ x k. (k.0, k.1, k.3)) (as_str-IsPlain l))

is_empty-print_at : (t : Text) (l : Level) → is_empty (print_at t l) ≡ false
unfolding print_at
is_empty-print_at [] l = is_empty-as_str l
is_empty-print_at (c ∷ t) l = refl

read_print_at :
    (t : Text) (l : Level) → All IsPlain t → read_directive (print_at t l) ≡ some (directive t l)
read_print_at t l h =
    read_unspaced (print_at t l) (All-map _ _ (print_at t l) (λ c k. k.2) (print_at-IsInner t l h))
      (is_empty-print_at t l)
    ∙ parts t h
  where
    parts :
        (t : Text) → All IsPlain t → read_parts (split b'=' (print_at t l)) ≡ some (directive t l)
    parts [] _ = unfold print_at in rw (split-as_str l) (read_parts_bare l)
    parts (c ∷ t) k =
        unfold print_at in
        rw
          (
            split-append b'=' (c ∷ t) (as_str l) (All-map _ _ (c ∷ t) (λ c h. h.2) k),
            split-as_str l,
          )
          (read_parts_level (c ∷ t) l)

-- The directives of a list have plain targets.
abbrev pub HasPlainTargets : List Directive → Type 0
HasPlainTargets = All (λ d. All IsPlain d.target)

split-print :
    (d : Directive) (ds : List Directive)
    → HasPlainTargets (d ∷ ds)
    → split b',' (print (d ∷ ds)) ≡ map print_directive (d ∷ ds)
unfolding print print_more
split-print d [] (h, hs) = rw (append-nil (print_directive d)) (
    split_lacks b',' (print_directive d)
      (All-map _ _ (print_directive d) (λ c k. k.1) (print_at-IsInner d.target d.level h)))
split-print d (e ∷ ds) (h, hs) =
    split-append b',' (print_directive d) (print (e ∷ ds))
      (All-map _ _ (print_directive d) (λ c k. k.1) (print_at-IsInner d.target d.level h))
    ∙ ap (λ r. print_directive d ∷ r) (split-print e ds hs)

print_more-no_slash :
    (ds : List Directive) → HasPlainTargets ds → All (λ c. c ≢ b'/') (print_more ds)
unfolding print_more
print_more-no_slash [] h = tt
print_more-no_slash (d ∷ ds) (h, hs) = (
  (omega arith),
  All-append _ (print_directive d) (print_more ds)
      (All-map _ _ (print_directive d) (λ c k. k.0) (print_at-IsInner d.target d.level h))
      (print_more-no_slash ds hs),
)

print-no_slash : (ds : List Directive) → HasPlainTargets ds → All (λ c. c ≢ b'/') (print ds)
unfolding print
print-no_slash [] h = tt
print-no_slash (d ∷ ds) (h, hs) =
    All-append _ (print_directive d) (print_more ds)
      (All-map _ _ (print_directive d) (λ c k. k.0) (print_at-IsInner d.target d.level h))
      (print_more-no_slash ds hs)

upsert_new :
    (d : Directive) (ds : List Directive)
    → All (λ e. e.target ≢ d.target) ds
    → upsert d ds ≡ ds ++ (d ∷ [])
unfolding upsert
upsert_new d [] h = refl
upsert_new d (e ∷ ds) (h, hs) = ground (arith, text_eq_iff e.target d.target, upsert_new d ds hs)

Distinct-fresh :
    (ds : List Directive) (d : Directive) (es : List Directive)
    → Distinct (ds ++ (d ∷ es))
    → All (λ e. e.target ≢ d.target) ds
Distinct-fresh [] d es h = tt
Distinct-fresh (x ∷ ds) d es (hx, hs) =
    ((λ e. (All-append_right _ ds (d ∷ es) hx).0 (sym e)), Distinct-fresh ds d es hs)

parse_pieces_step :
    (p : Text) (ps : List Text) (d : Directive) (ds : List Directive)
    → read_directive p ≡ some d
    → parse_pieces (p ∷ ps) ds ≡ parse_pieces ps (upsert d ds)
unfolding parse_pieces
parse_pieces_step p ps d ds e = rw e refl

parse_printed :
    (ds es : List Directive)
    → HasPlainTargets es
    → Distinct (ds ++ es)
    → parse_pieces (map print_directive es) ds ≡ ds ++ es
unfolding parse_pieces
parse_printed ds [] h k = sym (append-nil ds)
parse_printed ds (d ∷ es) (h, hs) k =
    let grown = sym (append_assoc ds (d ∷ []) es) in
    parse_pieces_step _ (map print_directive es) d ds (read_print_at d.target d.level h)
    ∙ ap (parse_pieces (map print_directive es)) (upsert_new d ds (Distinct-fresh ds d es k))
    ∙ parse_printed (ds ++ (d ∷ [])) es hs (subst Distinct grown k)
    ∙ sym grown

-- Writing the directives of a filter and parsing the text gives the same directives back, if no
-- target is listed twice and no target holds a separator or white space.
pub parse-print :
    (ds : List Directive)
    → HasPlainTargets ds
    → Distinct ds
    → parse (print ds) ≡ record { directives = ds }
unfolding parse
parse-print ds h k =
    ap (λ x. record { directives = x })
      (rw (split_lacks b'/' (print ds) (print-no_slash ds h)) (go ds h k))
  where
    go :
        (ds : List Directive)
        → HasPlainTargets ds
        → Distinct ds
        → parse_pieces (split b',' (print ds)) [] ≡ ds
    go [] h k = unfold print split parse_pieces read_directive trim in refl
    go (d ∷ ds) h k = rw (split-print d ds h) (parse_printed [] (d ∷ ds) h k)
