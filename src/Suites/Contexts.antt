-- ===== src/Suites/Contexts.antt =====
-- src/context.rs: the tests. A test runs on thread 0 of a process, from an empty stack.
use xoslog.Prelude.{◌≡◌, ℕ, ◌&&◌, ◌==◌, refl, Bool, true, List, [], ◌∷◌, length}
use xoslog.Prelude.Text.{Text, codes, text_eq, is_empty}
use xoslog.Entry.{str, Field, field}
use xoslog.Context.{
  Process, initial, current_context, capture_context, push_context, enter, drop_guard,
}
use xoslog.Suites.Asserts.{asserts, any, value_eq}

abbrev context_of : Process → ℕ → List Field
context_of p t = current_context (p.stacks t)

abbrev context : Process → List Field
context p = context_of p 0

abbrev text_field : Text → Text → Field
text_field k v = field k (str v)

abbrev has_key : Text → List Field → Bool
has_key k fs = any (λ (f : Field). text_eq f.key k) fs

abbrev has_text : Text → Text → List Field → Bool
has_text k v fs = any (λ (f : Field). text_eq f.key k && value_eq f.value (str v)) fs

abbrev pub context_is_empty_by_default : Bool
context_is_empty_by_default = is_empty (context initial)

abbrev only_key : Text → List Field → Bool
only_key k fs = (length fs == 1) && has_key k fs

abbrev pub guard_removes_scope_on_drop : Bool
guard_removes_scope_on_drop =
    let (p, guard) = push_context 0 (text_field (codes "request_id") (codes "abc") ∷ []) initial in
    asserts (
      is_empty (context initial)
      ∷ only_key (codes "request_id") (context p)
      ∷ is_empty (context (drop_guard 0 guard p))
      ∷ [])

abbrev pub nested_scopes_merge_innermost_wins : Bool
nested_scopes_merge_innermost_wins =
    let (p, outer) =
      push_context 0
        (text_field (codes "request_id") (codes "outer")
          ∷ text_field (codes "user") (codes "alice")
          ∷ [])
        initial in
    let (q, inner) = push_context 0 (text_field (codes "request_id") (codes "inner") ∷ []) p in
    let r = drop_guard 0 inner q in
    asserts (
      (length (context q) == 2)
      ∷ has_text (codes "request_id") (codes "inner") (context q)
      ∷ has_text (codes "user") (codes "alice") (context q)
      ∷ (length (context r) == 2)
      ∷ has_text (codes "request_id") (codes "outer") (context r)
      ∷ is_empty (context (drop_guard 0 outer r))
      ∷ [])

abbrev pub guards_may_drop_out_of_order : Bool
guards_may_drop_out_of_order =
    let (p, first) = push_context 0 (text_field (codes "a") (codes "1") ∷ []) initial in
    let (q, second) = push_context 0 (text_field (codes "b") (codes "2") ∷ []) p in
    let r = drop_guard 0 first q in
    asserts (only_key (codes "b") (context r) ∷ is_empty (context (drop_guard 0 second r)) ∷ [])

abbrev pub snapshot_is_independent_and_reenterable : Bool
snapshot_is_independent_and_reenterable =
    let (p, guard) = push_context 0 (text_field (codes "request_id") (codes "abc") ∷ []) initial in
    let snapshot = capture_context (p.stacks 0) in
    let (q, inner) = push_context 0 (text_field (codes "extra") (codes "x") ∷ []) p in
    let (r, entered) = enter 0 snapshot q in
    let s = drop_guard 0 inner (drop_guard 0 entered r) in
    let (t, other) = push_context 0 (text_field (codes "request_id") (codes "zzz") ∷ []) s in
    let (u, reentered) = enter 0 snapshot t in
    asserts (
      (length snapshot.fields == 1)
      ∷ has_key (codes "extra") (context r)
      ∷ has_key (codes "request_id") (context r)
      ∷ has_text (codes "request_id") (codes "zzz") (context t)
      ∷ has_text (codes "request_id") (codes "abc") (context u)
      ∷ has_key (codes "request_id") (context u)
      ∷ [])

-- The new thread is number 1.
abbrev pub snapshot_can_move_to_another_thread : Bool
snapshot_can_move_to_another_thread =
    let (p, guard) = push_context 0 (text_field (codes "request_id") (codes "abc") ∷ []) initial in
    let snapshot = capture_context (p.stacks 0) in
    let (q, moved) = enter 1 snapshot p in
    asserts (
      is_empty (context_of p 1)
      ∷ only_key (codes "request_id") (context_of q 1)
      ∷ (length (context (drop_guard 1 moved q)) == 1)
      ∷ [])

contexts_pass :
    asserts (
      context_is_empty_by_default ∷ guard_removes_scope_on_drop ∷ nested_scopes_merge_innermost_wins
      ∷ guards_may_drop_out_of_order ∷ snapshot_is_independent_and_reenterable
      ∷ snapshot_can_move_to_another_thread ∷ [])
    ≡ true
unfolding current_context push_context text_eq drop_guard capture_context enter
contexts_pass = refl
