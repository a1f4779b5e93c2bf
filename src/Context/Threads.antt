-- ===== src/Context/Threads.antt =====
-- src/context.rs: all threads of a process, pushing and dropping in any order.
use xoslog.Prelude.{
  ℕ, ◌+◌, ◌%◌, ◌^◌, ◌<◌, ◌≡◌, ◌≢◌, refl, sym, ap, ◌∙◌, List, [], ◌∷◌, ◌++◌, arith, All, All-append,
  All-map, ◌==◌, if◌then◌else◌, subst, append-nil, ==_iff, Bool-cases, inl, inr,
}
use xoslog.Entry.{Field}
use xoslog.Context.{Frame, Process, initial, push_context, drop_guard, remove_frame, set_stack}
use xoslog.Context.Guards.{
  DistinctIds, remove_frame-middle, remove_frame-DistinctIds, DistinctIds-middle, DistinctIds-snoc,
}

-- One step of any thread. Fewer than 2 ^ 64 frames are pushed in the life of the process.
pub data Step (p : Process) : Process → Type 0 where
  push : (t : ℕ) (fs : List Field) → p.next_id + 1 < 2 ^ 64 → Step p (push_context t fs p).0
  drop : (t guard : ℕ) → Step p (drop_guard t guard p)

pub data Reach (p : Process) : Process → Type 0 where
  start : Reach p p
  step : {q r : Process} → Reach p q → Step q r → Reach p r

-- Frame numbers have been given out by the counter, and no stack has one twice.
pub record IsNumbered (p : Process) : Type 0 where
  pub given : (t : ℕ) → All (λ f. f.id < p.next_id) (p.stacks t)
  pub distinct : (t : ℕ) → DistinctIds (p.stacks t)

remove_frame-given :
    (n g : ℕ) (stack : List Frame)
    → All (λ f. f.id < n) stack
    → All (λ f. f.id < n) (remove_frame g stack)
unfolding remove_frame
remove_frame-given n g [] h = tt
remove_frame-given n g (f ∷ stack) (hf, hs) = elim (Bool-cases (f.id == g)) [
  | inl e ↦ rw e hs
  | inr e ↦ rw e (hf, remove_frame-given n g stack hs)
]

-- A property of all stacks is kept when one stack is replaced by one that has it.
set_stack-all :
    (P : List Frame → Type 0) (stacks : ℕ → List Frame) (t : ℕ) (s : List Frame)
    → ((u : ℕ) → P (stacks u))
    → P s
    → (u : ℕ) → P (set_stack stacks t s u)
set_stack-all P stacks t s h k u = elim (Bool-cases (u == t)) [
  | inl e ↦ rw e k
  | inr e ↦ rw e (h u)
]

initial-IsNumbered : IsNumbered initial
initial-IsNumbered = record { given = λ t. tt; distinct = λ t. tt }

push-IsNumbered :
    (t : ℕ) (fs : List Field) (p : Process)
    → p.next_id + 1 < 2 ^ 64
    → IsNumbered p
    → IsNumbered (push_context t fs p).0
unfolding push_context
push-IsNumbered t fs p room h =
    let frame : Frame = record { id = p.next_id; fields = fs } in
    let grow : (p.next_id + 1) % 2 ^ 64 ≡ p.next_id + 1 = omega arith in
    record {
      given = rw grow (
          set_stack-all (All (λ f. f.id < p.next_id + 1)) p.stacks t (p.stacks t ++ (frame ∷ []))
            (λ u. All-map _ _ (p.stacks u) (λ f l. omega arith) (h.given u))
            (All-append _ (p.stacks t) (frame ∷ [])
              (All-map _ _ (p.stacks t) (λ f l. omega arith) (h.given t)) (omega arith)));
      distinct = set_stack-all DistinctIds p.stacks t (p.stacks t ++ (frame ∷ [])) h.distinct (
          DistinctIds-snoc (p.stacks t) frame (h.distinct t)
            (All-map _ _ (p.stacks t) (λ f l e. omega arith) (h.given t)));
    }

drop-IsNumbered : (t g : ℕ) (p : Process) → IsNumbered p → IsNumbered (drop_guard t g p)
unfolding drop_guard
drop-IsNumbered t g p h = record {
  given =
      set_stack-all (All (λ f. f.id < p.next_id)) p.stacks t (remove_frame g (p.stacks t)) h.given
        (remove_frame-given p.next_id g (p.stacks t) (h.given t));
  distinct =
      set_stack-all DistinctIds p.stacks t (remove_frame g (p.stacks t)) h.distinct
        (remove_frame-DistinctIds g (p.stacks t) (h.distinct t));
}

Step-IsNumbered : {p q : Process} → Step p q → IsNumbered p → IsNumbered q
Step-IsNumbered {p} (push t fs room) h = push-IsNumbered t fs p room h
Step-IsNumbered {p} (drop t g) h = drop-IsNumbered t g p h

-- However the threads of a process push and drop, no two frames of a thread's stack have the same
-- number, and all numbers have been given out before.
pub Reach-IsNumbered : {p : Process} → Reach initial p → IsNumbered p
Reach-IsNumbered start = initial-IsNumbered
Reach-IsNumbered (step r s) = Step-IsNumbered s (Reach-IsNumbered r)

set_stack_self : (stacks : ℕ → List Frame) (t : ℕ) (s : List Frame) → set_stack stacks t s t ≡ s
set_stack_self stacks t s = ground arith

-- In every process that can come about, dropping the guard of a frame removes that frame from the
-- stack of its thread, keeps the other frames and their order, and leaves all other threads alone.
pub drop_guard_exact :
    (p : Process) (t u : ℕ) (a : List Frame) (f : Frame) (b : List Frame)
    → Reach initial p
    → p.stacks t ≡ a ++ (f ∷ b)
    → (drop_guard t f.id p).stacks u ≡ (if u == t then a ++ b else p.stacks u)
unfolding drop_guard
drop_guard_exact p t u a f b r e =
    let distinct = subst DistinctIds e ((Reach-IsNumbered r).distinct t) in
    let gone : remove_frame f.id (p.stacks t) ≡ a ++ b =
      ap (remove_frame f.id) e ∙ remove_frame-middle a f b (DistinctIds-middle a f b distinct) in
    ap (λ s. set_stack p.stacks t s u) gone

-- A scope that is entered and left again leaves no trace on any stack.
pub drop_guard-push_context :
    (p : Process) (t u : ℕ) (fs : List Field)
    → Reach initial p
    → (drop_guard t (push_context t fs p).1 (push_context t fs p).0).stacks u ≡ p.stacks u
unfolding push_context drop_guard
drop_guard-push_context p t u fs r =
    let frame : Frame = record { id = p.next_id; fields = fs } in
    let grown = p.stacks t ++ (frame ∷ []) in
    let n = Reach-IsNumbered r in
    let unused =
      All-map _ (λ (f : Frame). f.id ≢ p.next_id) (p.stacks t) (λ f l e. omega arith) (n.given t) in
    let gone : remove_frame p.next_id (set_stack p.stacks t grown t) ≡ p.stacks t =
      ap (remove_frame p.next_id) (set_stack_self p.stacks t grown)
      ∙ remove_frame-middle (p.stacks t) frame [] unused
      ∙ append-nil (p.stacks t) in
    elim (Bool-cases (u == t)) [
      | inl e ↦ rw e (gone ∙ ap p.stacks (sym ((==_iff u t).0 e)))
      | inr e ↦ rw e refl
    ]
