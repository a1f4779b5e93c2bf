-- ===== src/Examples/Contexts.antt =====
-- Context frames on concrete stacks.
use xoslog.Prelude.{◌≡◌, refl, List, [], ◌∷◌, ◌++◌, arith, ◌==◌, if◌then◌else◌}
use xoslog.Prelude.Text.{codes}
use xoslog.Prelude.Int.{pos}
use xoslog.Entry.{int, Field, field}
use xoslog.Entry.Merge.{find_field}
use xoslog.Context.{
  Frame, Process, initial, push_context, drop_guard, current_context, enter, capture_context,
}
use xoslog.Context.Merged.{innermost, find_field-current_context, current_context-enter}
use xoslog.Context.Threads.{push, Reach, start, step, drop_guard_exact}

abbrev outer : List Field
outer = field (codes "user") (int (pos 1)) ∷ field (codes "job") (int (pos 2)) ∷ []

abbrev inner : List Field
inner = field (codes "user") (int (pos 3)) ∷ []

abbrev once : Process
once = (push_context 0 outer initial).0

abbrev twice : Process
twice = (push_context 0 inner once).0

once-Reach : Reach initial once
once-Reach = step start (push 0 outer (omega arith))

twice-Reach : Reach initial twice
unfolding push_context
twice-Reach = step once-Reach (push 0 inner (ground arith))

find_field-current_context_example :
    find_field (codes "user") (current_context (twice.stacks 0))
    ≡ innermost (codes "user") (twice.stacks 0)
find_field-current_context_example = find_field-current_context (codes "user") (twice.stacks 0)

abbrev first_frame : Frame
first_frame = record { id = 1; fields = outer }

abbrev second_frame : Frame
second_frame = record { id = 2; fields = inner }

twice-stack : twice.stacks 0 ≡ [] ++ (first_frame ∷ second_frame ∷ [])
unfolding push_context
twice-stack = refl

drop_guard_exact_example :
    (drop_guard 0 1 twice).stacks 0 ≡ (if 0 == 0 then [] ++ (second_frame ∷ []) else twice.stacks 0)
drop_guard_exact_example =
    drop_guard_exact twice 0 0 [] first_frame (second_frame ∷ []) twice-Reach twice-stack

current_context-enter_example :
    current_context ((enter 1 (capture_context (twice.stacks 0)) twice).0.stacks 1)
    ≡ current_context (twice.stacks 0)
unfolding push_context
current_context-enter_example = current_context-enter 0 1 twice refl
