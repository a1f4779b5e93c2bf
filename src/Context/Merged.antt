-- ===== src/Context/Merged.antt =====
-- src/context.rs, `current_context`: one field for each key, and the innermost one wins.
use xoslog.Prelude.{
  ℕ, append_assoc, ◌≡◌, refl, sym, ap, subst, ◌∙◌, false, Option, none, some, List, [], ◌∷◌, ◌++◌,
  arith, if◌then◌else◌, append-nil, Bool-cases, inl, inr,
}
use xoslog.Prelude.Text.{Text, text_eq, text_eq_iff}
use xoslog.Entry.{Field, FieldValue, has_key}
use xoslog.Entry.Merge.{has_key-append, find_field, or_field, UniqueKeys}
use xoslog.Context.{
  Frame, Process, enter, set_stack, merge_field, merge_frame, merge_frames, current_context,
  capture_context,
}

-- The value that a frame gives to a key: the last one where it names the key more than once.
pub last_field : Text → List Field → Option FieldValue
last_field k [] = none
last_field k (f ∷ fs) = or_field (last_field k fs) (if text_eq f.key k then some f.value else none)

-- The value of a key in a stack: that of the innermost frame that has the key.
pub innermost : Text → List Frame → Option FieldValue
innermost k [] = none
innermost k (frame ∷ stack) = or_field (innermost k stack) (last_field k frame.fields)

find_field-merge_field :
    (k : Text) (merged : List Field) (f : Field)
    → find_field k (merge_field merged f)
      ≡ (if text_eq f.key k then some f.value else find_field k merged)
unfolding find_field merge_field
find_field-merge_field k [] f = refl
find_field-merge_field k (e ∷ merged) f = ground (
  arith,
  find_field-merge_field k merged f,
  text_eq_iff e.key f.key,
  text_eq_iff e.key k,
  text_eq_iff f.key k,
)

find_field-merge_frame :
    (k : Text) (merged fs : List Field)
    → find_field k (merge_frame merged fs) ≡ or_field (last_field k fs) (find_field k merged)
unfolding merge_frame last_field
find_field-merge_frame k merged [] = refl
find_field-merge_frame k merged (f ∷ fs) =
    ground
      (arith, find_field-merge_frame k (merge_field merged f) fs, find_field-merge_field k merged f)

find_field-merge_frames :
    (k : Text) (merged : List Field) (stack : List Frame)
    → find_field k (merge_frames merged stack) ≡ or_field (innermost k stack) (find_field k merged)
unfolding merge_frames innermost
find_field-merge_frames k merged [] = refl
find_field-merge_frames k merged (frame ∷ stack) = ground (
  arith,
  find_field-merge_frames k (merge_frame merged frame.fields) stack,
  find_field-merge_frame k merged frame.fields,
)

or_none : (o : Option FieldValue) → or_field o none ≡ o
or_none none = refl
or_none (some v) = refl

-- In the merged context every key has the value of the innermost frame that has the key, and the
-- last one of that frame.
pub find_field-current_context :
    (k : Text) (stack : List Frame) → find_field k (current_context stack) ≡ innermost k stack
unfolding current_context find_field innermost
find_field-current_context k [] = refl
find_field-current_context k (frame ∷ stack) =
    find_field-merge_frames k [] (frame ∷ stack) ∙ or_none (innermost k (frame ∷ stack))

has_key-merge_field :
    (k : Text) (merged : List Field) (f : Field)
    → text_eq f.key k ≡ false
    → has_key k merged ≡ false
    → has_key k (merge_field merged f) ≡ false
unfolding has_key merge_field
has_key-merge_field k [] f h m = ground arith
has_key-merge_field k (e ∷ merged) f h m = ground (arith, has_key-merge_field k merged f h)

merge_field-UniqueKeys :
    (merged : List Field) (f : Field) → UniqueKeys merged → UniqueKeys (merge_field merged f)
unfolding merge_field has_key
merge_field-UniqueKeys [] f u = (refl, tt)
merge_field-UniqueKeys (e ∷ merged) f (ue, us) = elim (Bool-cases (text_eq e.key f.key)) [
  | inl same ↦
      rw same (subst (λ k. has_key k merged ≡ false) ((text_eq_iff e.key f.key).0 same) ue, us)
  | inr other ↦ rw other (
    has_key-merge_field e.key merged f
        (ground (arith, text_eq_iff e.key f.key, text_eq_iff f.key e.key)) ue,
    merge_field-UniqueKeys merged f us,
  )
]

merge_frame-UniqueKeys :
    (merged fs : List Field) → UniqueKeys merged → UniqueKeys (merge_frame merged fs)
unfolding merge_frame
merge_frame-UniqueKeys merged [] u = u
merge_frame-UniqueKeys merged (f ∷ fs) u =
    merge_frame-UniqueKeys (merge_field merged f) fs (merge_field-UniqueKeys merged f u)

merge_frames-UniqueKeys :
    (merged : List Field) (stack : List Frame)
    → UniqueKeys merged
    → UniqueKeys (merge_frames merged stack)
unfolding merge_frames
merge_frames-UniqueKeys merged [] u = u
merge_frames-UniqueKeys merged (frame ∷ stack) u =
    merge_frames-UniqueKeys (merge_frame merged frame.fields) stack
      (merge_frame-UniqueKeys merged frame.fields u)

-- The merged context has no key twice.
pub current_context-UniqueKeys : (stack : List Frame) → UniqueKeys (current_context stack)
unfolding current_context
current_context-UniqueKeys [] = tt
current_context-UniqueKeys (frame ∷ stack) = merge_frames-UniqueKeys [] (frame ∷ stack) tt

merge_field_new :
    (merged : List Field) (f : Field)
    → has_key f.key merged ≡ false
    → merge_field merged f ≡ merged ++ (f ∷ [])
unfolding merge_field has_key
merge_field_new [] f h = refl
merge_field_new (e ∷ merged) f h = ground (arith, merge_field_new merged f)

new_key :
    (ms : List Field) (f : Field) (fs : List Field)
    → UniqueKeys (ms ++ (f ∷ fs))
    → has_key f.key ms ≡ false
unfolding has_key
new_key [] f fs u = refl
new_key (m ∷ ms) f fs (um, us) = ground (
  arith,
  new_key ms f fs us,
  has_key-append m.key ms (f ∷ fs),
  text_eq_iff m.key f.key,
  text_eq_iff f.key m.key,
)

-- Merging fields with new and different keys appends them.
merge_frame_new :
    (merged fs : List Field) → UniqueKeys (merged ++ fs) → merge_frame merged fs ≡ merged ++ fs
unfolding merge_frame
merge_frame_new merged [] u = sym (append-nil merged)
merge_frame_new merged (f ∷ fs) u =
    let grown = sym (append_assoc merged (f ∷ []) fs) in
    ap (λ m. merge_frame m fs) (merge_field_new merged f (new_key merged f fs u))
    ∙ merge_frame_new (merged ++ (f ∷ [])) fs (subst UniqueKeys grown u)
    ∙ sym grown

current_context_one :
    (frame : Frame) → UniqueKeys frame.fields → current_context (frame ∷ []) ≡ frame.fields
unfolding current_context merge_frames
current_context_one frame u = merge_frame_new [] frame.fields u

-- Entering a snapshot on a thread with no context gives that thread the context that was captured.
pub current_context-enter :
    (t u : ℕ) (p : Process)
    → p.stacks u ≡ []
    → current_context ((enter u (capture_context (p.stacks t)) p).0.stacks u)
      ≡ current_context (p.stacks t)
unfolding enter capture_context
current_context-enter t u p h =
    let frame : Frame = record { id = p.next_id; fields = current_context (p.stacks t) } in
    let placed : set_stack p.stacks u (p.stacks u ++ (frame ∷ [])) u ≡ frame ∷ [] = ground arith in
    ap current_context placed ∙ current_context_one frame (current_context-UniqueKeys (p.stacks t))
