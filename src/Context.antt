-- ===== src/Context.antt =====
-- src/context.rs: the stack of context frames of each thread, and the guards that remove them.
-- A process is the stacks of its threads, by thread number, and the counter `NEXT_FRAME_ID`.
pub mod Merged
pub mod Guards
pub mod Threads
use xoslog.Prelude.{ℕ, ◌+◌, ◌%◌, ◌^◌, List, [], ◌∷◌, ◌++◌, ◌==◌, Bool, if◌then◌else◌}
use xoslog.Prelude.Text.{Text, text_eq}
use xoslog.Entry.{Field}

pub record Frame : Type 0 where
  pub id : ℕ
  pub fields : List Field

-- A `ContextGuard` is the number of the frame that it removes.
abbrev pub ContextGuard : Type 0
ContextGuard = ℕ

pub record ContextSnapshot : Type 0 where
  pub fields : List Field

pub record Process : Type 0 where
  pub stacks : ℕ → List Frame
  pub next_id : ℕ

abbrev pub initial : Process
initial = record { stacks = λ t. []; next_id = 1 }

-- `merged.iter_mut().find(..)`: an existing field of the same key is replaced, else the field is
-- pushed.
unfoldable pub merge_field : List Field → Field → List Field
merge_field [] f = f ∷ []
merge_field (e ∷ merged) f = if text_eq e.key f.key then f ∷ merged else e ∷ merge_field merged f

unfoldable pub merge_frame : List Field → List Field → List Field
unfolding merge_field
merge_frame merged [] = merged
merge_frame merged (f ∷ fs) = merge_frame (merge_field merged f) fs

unfoldable pub merge_frames : List Field → List Frame → List Field
unfolding merge_frame
merge_frames merged [] = merged
merge_frames merged (frame ∷ stack) = merge_frames (merge_frame merged frame.fields) stack

-- `current_context` on the stack of the calling thread
unfoldable pub current_context : List Frame → List Field
unfolding merge_frames
current_context [] = []
current_context (frame ∷ stack) = merge_frames [] (frame ∷ stack)

-- `capture_context`
unfoldable pub capture_context : List Frame → ContextSnapshot
capture_context stack = record { fields = current_context stack }

abbrev pub set_stack : (ℕ → List Frame) → ℕ → List Frame → ℕ → List Frame
set_stack stacks t s u = if u == t then s else stacks u

-- `push_context` on thread `t`; `fetch_add` wraps around at 2 ^ 64.
unfoldable pub push_context : ℕ → List Field → Process → Process × ContextGuard
push_context t fs p = (
  record p {
    stacks = set_stack p.stacks t (p.stacks t ++ (record { id = p.next_id; fields = fs } ∷ []));
    next_id = (p.next_id + 1) % 2 ^ 64;
  },
  p.next_id,
)

-- `ContextSnapshot::enter`
unfoldable pub enter : ℕ → ContextSnapshot → Process → Process × ContextGuard
unfolding push_context
enter t snapshot p = push_context t snapshot.fields p

-- `position` and `remove`: the first frame with the guard's number goes.
unfoldable pub remove_frame : ContextGuard → List Frame → List Frame
remove_frame id [] = []
remove_frame id (frame ∷ stack) = if frame.id == id then stack else frame ∷ remove_frame id stack

-- `Drop for ContextGuard` on thread `t`
unfoldable pub drop_guard : ℕ → ContextGuard → Process → Process
unfolding remove_frame
drop_guard t guard p = record p { stacks = set_stack p.stacks t (remove_frame guard (p.stacks t)) }
