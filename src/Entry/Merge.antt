-- ===== src/Entry/Merge.antt =====
-- src/entry.rs, `merge_context`: what it keeps and what it adds.
use xoslog.Prelude.{
  ◌≡◌, refl, sym, ap, ◌∙◌, true, false, ◌||◌, Option, none, some, List, [], ◌∷◌, ◌++◌, All, arith,
  if◌then◌else◌, append-nil, append_assoc, Bool-cases, inl, inr,
}
use xoslog.Prelude.Text.{Text, text_eq, text_eq_iff}
use xoslog.Entry.{Field, FieldValue, LogEntry, has_key, merge_fields, merge_context}

-- The value of the first field with a key.
unfoldable pub find_field : Text → List Field → Option FieldValue
find_field k [] = none
find_field k (f ∷ fs) = if text_eq f.key k then some f.value else find_field k fs

-- No two fields have the same key.
abbrev pub UniqueKeys : List Field → Type 0
UniqueKeys [] = Unit
UniqueKeys (f ∷ fs) = (has_key f.key fs ≡ false) × UniqueKeys fs

abbrev pub or_field : Option FieldValue → Option FieldValue → Option FieldValue
or_field none o = o
or_field (some v) o = some v

pub has_key-append :
    (k : Text) (fs gs : List Field) → has_key k (fs ++ gs) ≡ (has_key k fs || has_key k gs)
unfolding has_key
has_key-append k [] gs = refl
has_key-append k (f ∷ fs) gs = ground (arith, has_key-append k fs gs)

pub find_field-append :
    (k : Text) (fs gs : List Field)
    → find_field k (fs ++ gs) ≡ or_field (find_field k fs) (find_field k gs)
unfolding find_field
find_field-append k [] gs = refl
find_field-append k (f ∷ fs) gs = ground (arith, find_field-append k fs gs)

pub find_field-none : (k : Text) (fs : List Field) → has_key k fs ≡ false → find_field k fs ≡ none
unfolding find_field has_key
find_field-none k [] h = refl
find_field-none k (f ∷ fs) h = ground (arith, find_field-none k fs)

find_field-some :
    (k : Text) (fs : List Field) (g : Option FieldValue)
    → has_key k fs ≡ true
    → or_field (find_field k fs) g ≡ find_field k fs
unfolding find_field has_key
find_field-some k [] g h = cc
find_field-some k (f ∷ fs) g h = ground (arith, find_field-some k fs g)

merge_step :
    (k : Text) (own : List Field) (f : Field)
    → find_field k (if has_key f.key own then own else own ++ (f ∷ []))
      ≡ or_field (find_field k own) (find_field k (f ∷ []))
unfolding find_field
merge_step k own f = elim (Bool-cases (has_key f.key own)) [
  | inl h ↦ rw h (ground (arith, find_field-some k own (some f.value), text_eq_iff f.key k))
  | inr h ↦ rw h (find_field-append k own (f ∷ []))
]

or_field_assoc : (a b c : Option FieldValue) → or_field (or_field a b) c ≡ or_field a (or_field b c)
or_field_assoc none b c = refl
or_field_assoc (some v) b c = refl

find_field-merge_fields :
    (k : Text) (own context : List Field)
    → find_field k (merge_fields own context) ≡ or_field (find_field k own) (find_field k context)
unfolding merge_fields
find_field-merge_fields k own [] = ground (arith, find_field-append k own [], append-nil own)
find_field-merge_fields k own (f ∷ context) =
    find_field-merge_fields k (if has_key f.key own then own else own ++ (f ∷ [])) context
    ∙ ap (λ o. or_field o (find_field k context)) (merge_step k own f)
    ∙ or_field_assoc (find_field k own) (find_field k (f ∷ [])) (find_field k context)
    ∙ ap (or_field (find_field k own)) (sym (find_field-append k (f ∷ []) context))

-- What a merge adds to the fields `own`: fields of keys that these do not have, each key once.
pub record IsAddition (own extra : List Field) : Type 0 where
  pub lacked : All (λ (f : Field). has_key f.key own ≡ false) extra
  pub single : UniqueKeys extra

lacks_front :
    (own extra : List Field) (f : Field)
    → All (λ (g : Field). has_key g.key (own ++ (f ∷ [])) ≡ false) extra
    → All (λ (g : Field). has_key g.key own ≡ false) extra × (has_key f.key extra ≡ false)
unfolding has_key
lacks_front own [] f h = (tt, refl)
lacks_front own (g ∷ extra) f (h, hs) =
    let (front, apart) = lacks_front own extra f hs in
    let both = has_key-append g.key own (f ∷ []) in
    (
      (ground (arith, both), front),
      ground (arith, both, apart, text_eq_iff f.key g.key, text_eq_iff g.key f.key),
    )

merge_fields-IsAddition :
    (own context : List Field)
    → (extra : List Field) × (merge_fields own context ≡ own ++ extra) × IsAddition own extra
unfolding merge_fields
merge_fields-IsAddition own [] = ([], sym (append-nil own), record { lacked = tt; single = tt })
merge_fields-IsAddition own (f ∷ context) = elim (Bool-cases (has_key f.key own)) [
  | inl old ↦ rw old (merge_fields-IsAddition own context)
  | inr new ↦
      let (extra, e, adds) = merge_fields-IsAddition (own ++ (f ∷ [])) context in
      let (lacked, apart) = lacks_front own extra f adds.lacked in
      (
        f ∷ extra,
        rw new (e ∙ append_assoc own (f ∷ []) extra),
        record { lacked = (new, lacked); single = (apart, adds.single) },
      )
]

-- Merging keeps the record and its own fields, in front and in order; behind these it adds fields of
-- keys that the record lacks only, each key once; and it finds for a key the value that the record
-- gives it, or else the one that the context gives it first.
pub merge_context-adds :
    (e : LogEntry) (context : List Field)
    → (extra : List Field) × (merge_context e context ≡ record e { fields = e.fields ++ extra })
      × IsAddition e.fields extra
      × ((k : Text)
          → find_field k (e.fields ++ extra)
            ≡ or_field (find_field k e.fields) (find_field k context))
unfolding merge_context
merge_context-adds e context =
    let (extra, same, adds) = merge_fields-IsAddition e.fields context in
    (
      extra,
      ap (λ fs. record e { fields = fs }) same,
      adds,
      (λ k. ap (find_field k) (sym same) ∙ find_field-merge_fields k e.fields context),
    )
