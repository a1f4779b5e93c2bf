-- ===== src/Suites/Entries.antt =====
-- src/entry.rs: the tests.
use xoslog.Prelude.{
  ◌≡◌, ◌-◌, ◌^◌, refl, ℕ, zero, suc, Bool, true, false, List, [], ◌∷◌, ◌==◌, length,
}
use xoslog.Prelude.Text.{codes, text_eq}
use xoslog.Prelude.Int.{pos}
use xoslog.Prelude.Decimal.{decimal}
use xoslog.Level.{info}
use xoslog.Time.{SystemTime}
use xoslog.Entry.{
  FieldValue, str, int, float, bool, from_text, from_bool, from_f64, from_int, from_u64, Field,
  field, new_entry, with_field,
}
use xoslog.Suites.Asserts.{asserts, value_eq}

-- The bits of 1.5
abbrev pub one_and_a_half : FieldValue
one_and_a_half = float 0x3ff8000000000000

abbrev pub field_helpers : Bool
field_helpers =
    let f = field (codes "user") (str (codes "alice")) in
    asserts (
      text_eq f.key (codes "user")
      ∷ value_eq f.value (str (codes "alice"))
      ∷ value_eq (field (codes "n") (int (pos 3))).value (int (pos 3))
      ∷ value_eq (field (codes "ok") (bool true)).value (bool true)
      ∷ value_eq (field (codes "r") one_and_a_half).value one_and_a_half
      ∷ [])

abbrev pub conversions : Bool
conversions =
    let big = 2 ^ 64 - 1 in
    asserts (
      value_eq (from_text (codes "x")) (str (codes "x"))
      ∷ value_eq (from_int (pos 42)) (int (pos 42))
      ∷ value_eq (from_f64 0x3ff8000000000000) one_and_a_half
      ∷ value_eq (from_bool true) (bool true)
      ∷ value_eq (from_u64 big) (str (decimal big))
      ∷ [])

-- The field at an index passes a test.
abbrev holds_at : ℕ → (Field → Bool) → List Field → Bool
holds_at n p [] = false
holds_at zero p (f ∷ fs) = p f
holds_at (suc n) p (f ∷ fs) = holds_at n p fs

abbrev pub entry_fields_chain : SystemTime → Bool
entry_fields_chain clock =
    let entry =
      with_field
        (with_field (new_entry clock info (codes "msg") [] [] 0) (codes "user")
          (from_text (codes "alice")))
        (codes "count") (from_int (pos 3)) in
    asserts (
      (length entry.fields == 2)
      ∷ holds_at 0 (λ (f : Field). text_eq f.key (codes "user")) entry.fields
      ∷ holds_at 1 (λ (f : Field). value_eq f.value (int (pos 3))) entry.fields
      ∷ [])

field_helpers_pass : field_helpers ≡ true
unfolding text_eq
field_helpers_pass = refl

conversions_pass : conversions ≡ true
unfolding text_eq from_u64 decimal
conversions_pass = refl

entry_fields_chain_pass : (clock : SystemTime) → entry_fields_chain clock ≡ true
unfolding text_eq with_field new_entry
entry_fields_chain_pass clock = refl
