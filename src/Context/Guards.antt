-- ===== src/Context/Guards.antt =====
-- src/context.rs, `Drop for ContextGuard`: a guard removes its own frame and no other.
use xoslog.Prelude.{
  ℕ, ◌≡◌, ◌≢◌, refl, sym, List, [], ◌∷◌, ◌++◌, arith, All, All-append, All-append_right, Bool-cases,
  inl, inr, ◌==◌,
}
use xoslog.Context.{Frame, remove_frame}

-- The number is not that of a frame of the stack.
abbrev pub Unused : ℕ → List Frame → Type 0
Unused id = All (λ f. f.id ≢ id)

-- No two frames of the stack have the same number.
abbrev pub DistinctIds : List Frame → Type 0
DistinctIds [] = Unit
DistinctIds (f ∷ stack) = Unused f.id stack × DistinctIds stack

-- The frame with the guard's number goes, and all others stay in their order.
pub remove_frame-middle :
    (a : List Frame) (f : Frame) (b : List Frame)
    → Unused f.id a
    → remove_frame f.id (a ++ (f ∷ b)) ≡ a ++ b
unfolding remove_frame
remove_frame-middle [] f b h = ground arith
remove_frame-middle (x ∷ a) f b (hx, ha) = ground (arith, remove_frame-middle a f b ha)

-- Guards may be dropped in any order.
pub remove_frame_comm :
    (g h : ℕ) (stack : List Frame)
    → remove_frame g (remove_frame h stack) ≡ remove_frame h (remove_frame g stack)
unfolding remove_frame
remove_frame_comm g h [] = refl
remove_frame_comm g h (f ∷ stack) = ground (arith, remove_frame_comm g h stack)

Unused-remove_frame :
    (id g : ℕ) (stack : List Frame) → Unused id stack → Unused id (remove_frame g stack)
unfolding remove_frame
Unused-remove_frame id g [] h = tt
Unused-remove_frame id g (f ∷ stack) (hf, hs) = elim (Bool-cases (f.id == g)) [
  | inl e ↦ rw e hs
  | inr e ↦ rw e (hf, Unused-remove_frame id g stack hs)
]

pub remove_frame-DistinctIds :
    (g : ℕ) (stack : List Frame) → DistinctIds stack → DistinctIds (remove_frame g stack)
unfolding remove_frame
remove_frame-DistinctIds g [] h = tt
remove_frame-DistinctIds g (f ∷ stack) (hf, hs) = elim (Bool-cases (f.id == g)) [
  | inl e ↦ rw e hs
  | inr e ↦ rw e (Unused-remove_frame f.id g stack hf, remove_frame-DistinctIds g stack hs)
]

pub DistinctIds-middle :
    (a : List Frame) (f : Frame) (b : List Frame) → DistinctIds (a ++ (f ∷ b)) → Unused f.id a
DistinctIds-middle [] f b h = tt
DistinctIds-middle (x ∷ a) f b (hx, ha) =
    ((λ e. (All-append_right _ a (f ∷ b) hx).0 (sym e)), DistinctIds-middle a f b ha)

pub DistinctIds-snoc :
    (a : List Frame) (f : Frame) → DistinctIds a → Unused f.id a → DistinctIds (a ++ (f ∷ []))
DistinctIds-snoc [] f h u = (tt, tt)
DistinctIds-snoc (x ∷ a) f (hx, ha) (ux, ua) =
    (All-append _ a (f ∷ []) hx ((λ e. ux (sym e)), tt), DistinctIds-snoc a f ha ua)
