-- ===== src/Filter/Longest.antt =====
-- src/filter.rs, `effective_level` and `enabled`: the most specific directive decides.
use mathlib.Core.List.{Memᴰ}
use native.Mathlib.Nat.{le_refl}
use xoslog.Prelude.{
  ltb, subst, All-map, ℕ, ◌≡◌, ◌≢◌, ◌⊎◌, ◌↔◌, inl, inr, refl, true, Option, none, some, List, [],
  ◌∷◌, arith, ◌≤◌, length, All, Bool-cases,
}
use xoslog.Prelude.Text.{Text, as_bytes, is_empty}
use xoslog.Level.{Level, off, rank}
use xoslog.Filter.{
  Directive, TargetFilter, module_matches, consider, best_match, keep_longer, effective_level,
  default_level, enabled,
}

-- A directive with a target of its own that covers `target`.
abbrev pub Covers : Text → Directive → Type 0
Covers target d = (d.target ≢ []) × (module_matches d.target target ≡ true)

abbrev pub byte_len : Directive → ℕ
byte_len d = length (as_bytes d.target)

-- `d` is a covering directive of the list than which no other covering one is longer.
pub record IsMostSpecific (target : Text) (ds : List Directive) (d : Directive) : Type 0 where
  pub listed : Memᴰ d ds
  pub covers : Covers target d
  pub longest : All (λ e. Covers target e → byte_len e ≤ byte_len d) ds

abbrev Within : Option (ℕ × Level) → ℕ → Type 0
Within none n = ⊥
Within (some (len, l)) n = n ≤ len

abbrev AtMost : Option (ℕ × Level) → ℕ → Type 0
AtMost none n = Unit
AtMost (some (len, l)) n = len ≤ n

-- What the loop makes of `start`: it keeps it, or a most specific directive takes its place.
abbrev Outcome : Text → List Directive → Option (ℕ × Level) → Option (ℕ × Level) → Type 0
Outcome target ds start r =
    ((r ≡ start) × All (λ e. Covers target e → Within start (byte_len e)) ds)
    ⊎ ((d : Directive) × IsMostSpecific target ds d
        × AtMost start (byte_len d)
        × (r ≡ some (byte_len d, d.level)))

pub is_empty_iff : (t : Text) → (is_empty t ≡ true) ↔ (t ≡ [])
is_empty_iff [] = ((λ _. refl), (λ _. refl))
is_empty_iff (c ∷ t) = ((λ h. cc), (λ h. cc))

consider-cases :
    (target : Text) (d : Directive) (b : Option (ℕ × Level))
    → ((¬ (Covers target d)) × (consider target d b ≡ b))
      ⊎ (Covers target d × (consider target d b ≡ keep_longer b (byte_len d) d.level))
unfolding consider
consider-cases target d b = elim (Bool-cases (is_empty d.target)) [
  | inl e ↦ inl ((λ c. c.0 ((is_empty_iff d.target).0 e)), rw e refl)
  | inr e ↦ elim (Bool-cases (module_matches d.target target)) [
    | inl m ↦ inr (((λ t. cc ((is_empty_iff d.target).1 t)), m), rw (e, m) refl)
    | inr m ↦ inl ((λ c. cc), rw (e, m) refl)
  ]
]

le_of_bounds : (o : Option (ℕ × Level)) (m n : ℕ) → Within o m → AtMost o n → m ≤ n
le_of_bounds none m n h k = absurd h
le_of_bounds (some (len, l)) m n h k = omega arith

AtMost-trans : (o : Option (ℕ × Level)) (m n : ℕ) → AtMost o m → m ≤ n → AtMost o n
AtMost-trans none m n h k = tt
AtMost-trans (some (len, l)) m n h k = omega arith

module _ (target : Text) (d : Directive) (ds : List Directive) where
  -- A directive that does not cover the target, or is shorter than what is held, is passed over.
  pass_over :
      (start r : Option (ℕ × Level))
      → (Covers target d → Within start (byte_len d))
      → Outcome target ds start r
      → Outcome target (d ∷ ds) start r
  pass_over start r h (inl (e, all)) = inl (e, (h, all))
  pass_over start r h (inr (x, most, at, e)) = inr (
    x,
    record {
      listed = Memᴰ.tail most.listed;
      covers = most.covers;
      longest = ((λ c. le_of_bounds start (byte_len d) (byte_len x) (h c) at), most.longest);
    },
    at,
    e,
  )

  -- A covering directive that is not shorter than what is held takes its place.
  take_over :
      (start r : Option (ℕ × Level))
      → Covers target d
      → AtMost start (byte_len d)
      → Outcome target ds (some (byte_len d, d.level)) r
      → Outcome target (d ∷ ds) start r
  take_over start r c at (inl (e, all)) =
      inr (
        d,
        record { listed = Memᴰ.head refl; covers = c; longest = ((λ _. le_refl _), all) },
        at,
        e,
      )
  take_over start r c at (inr (x, most, at', e)) = inr (
    x,
    record {
      listed = Memᴰ.tail most.listed;
      covers = most.covers;
      longest = ((λ _. at'), most.longest);
    },
    AtMost-trans start (byte_len d) (byte_len x) at at',
    e,
  )

  step-Outcome :
      (start r : Option (ℕ × Level))
      → Covers target d
      → Outcome target ds (keep_longer start (byte_len d) d.level) r
      → Outcome target (d ∷ ds) start r
  step-Outcome none r c o = take_over none r c tt o
  step-Outcome (some (len, l)) r c o = elim (Bool-cases (ltb (byte_len d) len)) [
    | inl h ↦ pass_over _ r (λ _. ground arith) (subst (λ b. Outcome target ds b r) (rw h refl) o)
    | inr h ↦ take_over _ r c (ground arith) (subst (λ b. Outcome target ds b r) (rw h refl) o)
  ]

best_match-Outcome :
    (target : Text) (ds : List Directive) (start : Option (ℕ × Level))
    → Outcome target ds start (best_match target ds start)
unfolding best_match
best_match-Outcome target [] start = inl (refl, tt)
best_match-Outcome target (d ∷ ds) start = elim (consider-cases target d start) [
  | inl (nc, e) ↦
      rw e (pass_over target d ds start _ (λ c. absurd (nc c)) (best_match-Outcome target ds start))
  | inr (c, e) ↦ rw e (step-Outcome target d ds start _ c (best_match-Outcome target ds _))
]

-- The effective level of a target is that of a most specific directive: one that covers the target
-- and whose name is at least as long, in bytes, as that of any other directive that covers it.
-- Where no directive covers the target it is the default level.
pub effective_level-IsMostSpecific :
    (f : TargetFilter) (target : Text) (base : Level)
    → (All (λ e. ¬ (Covers target e)) f.directives
        × (effective_level f target base ≡ default_level f base))
      ⊎ ((d : Directive) × IsMostSpecific target f.directives d
          × (effective_level f target base ≡ d.level))
unfolding effective_level
effective_level-IsMostSpecific f target base = elim (best_match-Outcome target f.directives none) [
  | inl (e, all) ↦ inl (All-map _ _ f.directives (λ d h c. h c) all, rw e refl)
  | inr (d, most, at, e) ↦ inr (d, most, rw e refl)
]

-- A record passes exactly if it is not at `Off` and its level is at least the effective level of
-- its target; in particular nothing passes where that level is `Off`.
pub enabled_iff :
    (f : TargetFilter) (target : Text) (l base : Level)
    → (enabled f target l base ≡ true)
      ↔ ((l ≢ off) × (rank (effective_level f target base) ≤ rank l))
unfolding enabled
enabled_iff f target l base = (ground arith, ground arith)
