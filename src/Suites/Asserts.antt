-- ===== src/Suites/Asserts.antt =====
-- What the assertions of the tests compare.
use xoslog.Prelude.{
  ℕ, zero, suc, Bool, true, false, not, ◌&&◌, ◌||◌, ◌==◌, Option, none, some, List, [], ◌∷◌,
}
use xoslog.Prelude.Text.{Text, text_eq, strip_prefix}
use xoslog.Prelude.Int.{ℤ, pos, negsuc}
use xoslog.Level.{Level, rank}
use xoslog.Entry.{FieldValue, str, int, float, bool, null}

abbrev pub all {ℓ} : {A : Type ℓ} → (A → Bool) → List A → Bool
all p [] = true
all p (x ∷ xs) = p x && all p xs

abbrev pub any {ℓ} : {A : Type ℓ} → (A → Bool) → List A → Bool
any p [] = false
any p (x ∷ xs) = p x || any p xs

-- All assertions of a test hold.
abbrev pub asserts : List Bool → Bool
asserts bs = all (λ b. b) bs

abbrev pub level_eq : Level → Level → Bool
level_eq a b = rank a == rank b

abbrev pub is_level : Option Level → Level → Bool
is_level none l = false
is_level (some a) l = level_eq a l

abbrev pub is_none {ℓ} : {A : Type ℓ} → Option A → Bool
is_none none = true
is_none (some a) = false

abbrev pub int_eq : ℤ → ℤ → Bool
int_eq (pos a) (pos b) = a == b
int_eq (negsuc a) (negsuc b) = a == b
int_eq (pos a) (negsuc b) = false
int_eq (negsuc a) (pos b) = false

abbrev pub bool_eq : Bool → Bool → Bool
bool_eq true b = b
bool_eq false b = not b

abbrev pub value_eq : FieldValue → FieldValue → Bool
value_eq (str s) (str t) = text_eq s t
value_eq (int i) (int j) = int_eq i j
value_eq (float f) (float h) = f == h
value_eq (bool a) (bool b) = bool_eq a b
value_eq null null = true
value_eq _ _ = false

unfoldable pub starts_with : Text → Text → Bool
starts_with s p = not (is_none (strip_prefix p s))

unfoldable pub contains : Text → Text → Bool
unfolding starts_with
contains [] p = starts_with [] p
contains (c ∷ s) p = starts_with (c ∷ s) p || contains s p

unfoldable pub ends_with : Text → Text → Bool
ends_with [] p = text_eq [] p
ends_with (c ∷ s) p = text_eq (c ∷ s) p || ends_with s p

-- The character at an index of a text
unfoldable pub char_at : Text → ℕ → ℕ → Bool
char_at [] n c = false
char_at (d ∷ s) zero c = d == c
char_at (d ∷ s) (suc n) c = char_at s n c
