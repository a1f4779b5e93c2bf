-- ===== src/Filter/Order.antt =====
-- src/filter.rs: the order of directives does not matter, since no target is listed twice.
use mathlib.Core.List.{Memᴰ}
use xoslog.Prelude.{
  ◌≡◌, ◌↔◌, inl, inr, sym, ap, append-nil, subst, List, [], ◌∷◌, ◌++◌, arith, All, ◌∙◌, ◌⊎◌, ◌≢◌,
  none, some, refl, Bool-cases,
}
use xoslog.Prelude.Text.{Text, codes, is_empty}
use xoslog.Level.{Level}
use xoslog.Filter.{
  Directive, TargetFilter, find_global, global_default, default_level, effective_level,
}
use xoslog.Filter.Matching.{module_matches_iff, eq_of_prefixes}
use xoslog.Filter.Longest.{
  Covers, is_empty_iff, byte_len, IsMostSpecific, effective_level-IsMostSpecific,
}
use xoslog.Filter.Parsing.{Distinct}

module _ (P : Directive → Type 0) {d : Directive} where
  All_at : (ds : List Directive) → All P ds → Memᴰ d ds → P d
  All_at [] h m = elim m [ ]
  All_at (e ∷ ds) (he, hs) (Memᴰ.head p) = subst P (sym p) he
  All_at (e ∷ ds) (he, hs) (Memᴰ.tail m) = All_at ds hs m

eq_of_Distinct :
    {a b : Directive} (ds : List Directive)
    → Distinct ds
    → Memᴰ a ds
    → Memᴰ b ds
    → a.target ≡ b.target
    → a ≡ b
eq_of_Distinct [] h m n e = elim m [ ]
eq_of_Distinct (d ∷ ds) (h, hs) (Memᴰ.head p) (Memᴰ.head q) e = p ∙ sym q
eq_of_Distinct {b = b} (d ∷ ds) (h, hs) (Memᴰ.head p) (Memᴰ.tail n) e =
    absurd (All_at _ ds h n (sym e ∙ ap (λ (x : Directive). x.target) p))
eq_of_Distinct (d ∷ ds) (h, hs) (Memᴰ.tail m) (Memᴰ.head q) e =
    absurd (All_at _ ds h m (e ∙ ap (λ (x : Directive). x.target) q))
eq_of_Distinct (d ∷ ds) (h, hs) (Memᴰ.tail m) (Memᴰ.tail n) e = eq_of_Distinct ds hs m n e

-- The text of a covering directive is a prefix of the target.
Covers-prefix :
    (target : Text) (d : Directive) → Covers target d → (r : Text) × (target ≡ d.target ++ r)
Covers-prefix target d (_, m) = elim ((module_matches_iff d.target target).0 m) [
  | inl e ↦ ([], e ∙ sym (append-nil d.target))
  | inr (rest, e) ↦ (codes "::" ++ rest, e)
]

-- Two covering directives of the same length name the same module.
Covers-same :
    (target : Text) (a b : Directive)
    → Covers target a
    → Covers target b
    → byte_len a ≡ byte_len b
    → a.target ≡ b.target
Covers-same target a b ca cb h =
    let (r, e) = Covers-prefix target a ca in
    let (s, k) = Covers-prefix target b cb in eq_of_prefixes a.target b.target r s (sym e ∙ k) h

-- Two lists with the same members.
abbrev pub SameMembers : List Directive → List Directive → Type 0
SameMembers ds es = (d : Directive) → Memᴰ d ds ↔ Memᴰ d es

find_global-cases :
    (ds : List Directive)
    → (All (λ e. e.target ≢ []) ds × (find_global ds ≡ none))
      ⊎ ((d : Directive) × Memᴰ d ds × (d.target ≡ []) × (find_global ds ≡ some d.level))
unfolding find_global
find_global-cases [] = inl (tt, refl)
find_global-cases (d ∷ ds) = elim (Bool-cases (is_empty d.target)) [
  | inl e ↦ inr (d, Memᴰ.head refl, (is_empty_iff d.target).0 e, rw e refl)
  | inr e ↦ elim (find_global-cases ds) [
    | inl (all, n) ↦ inl (((λ t. cc ((is_empty_iff d.target).1 t)), all), rw e n)
    | inr (x, m, t, s) ↦ inr (x, Memᴰ.tail m, t, rw e s)
  ]
]

module _ (f g : TargetFilter) (target : Text) (base : Level) (distinct : Distinct f.directives)
    (same : SameMembers f.directives g.directives) where
  most_specific_unique :
      (a b : Directive)
      → IsMostSpecific target f.directives a
      → IsMostSpecific target g.directives b
      → a ≡ b
  most_specific_unique a b ma mb =
      let b_in_f = (same b).1 mb.listed in
      let a_in_g = (same a).0 ma.listed in
      let le = All_at _ f.directives ma.longest b_in_f mb.covers in
      let ge = All_at _ g.directives mb.longest a_in_g ma.covers in
      eq_of_Distinct f.directives distinct ma.listed b_in_f
        (Covers-same target a b ma.covers mb.covers (omega arith))

  best_level_same :
      (a : Directive)
      → IsMostSpecific target f.directives a
      → effective_level g target base ≡ a.level
  best_level_same a ma = elim (effective_level-IsMostSpecific g target base) [
    | inl (none_covers, e) ↦
        absurd (All_at _ g.directives none_covers ((same a).0 ma.listed) ma.covers)
    | inr (b, mb, e) ↦ cc (e, most_specific_unique a b ma mb)
  ]

  global_default_same : global_default f ≡ global_default g
  unfolding global_default
  global_default_same = elim (find_global-cases f.directives) [
    | inl (all, n) ↦ elim (find_global-cases g.directives) [
      | inl (all', n') ↦ n ∙ sym n'
      | inr (b, mb, t, e) ↦ absurd (All_at _ f.directives all ((same b).1 mb) t)
    ]
    | inr (a, ma, ta, ea) ↦ elim (find_global-cases g.directives) [
      | inl (all', n') ↦ absurd (All_at _ g.directives all' ((same a).0 ma) ta)
      | inr (b, mb, tb, eb) ↦
          cc (ea, eb, eq_of_Distinct f.directives distinct ma ((same b).1 mb) (ta ∙ sym tb))
    ]
  ]

  -- Two filters that hold the same directives, in whatever order, give every target the same
  -- effective level, if no target is listed twice.
  pub effective_level_same : effective_level f target base ≡ effective_level g target base
  unfolding default_level
  effective_level_same = elim (effective_level-IsMostSpecific f target base) [
    | inr (a, ma, e) ↦ e ∙ sym (best_level_same a ma)
    | inl (none_covers, e) ↦ elim (effective_level-IsMostSpecific g target base) [
      | inl (_, e') ↦ cc (e, e', global_default_same)
      | inr (b, mb, e') ↦
          absurd (All_at _ f.directives none_covers ((same b).1 mb.listed) mb.covers)
    ]
  ]
