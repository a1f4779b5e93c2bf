-- ===== src/Syslog/Reading.antt =====
-- How a receiver of the packets of src/syslog.rs reads text: up to a mark, by length, or a given text.
use xoslog.Prelude.{
  and_then, ℕ, zero, suc, ◌<◌, ◌≡◌, ◌∙◌, refl, ap, true, false, Option, none, some, [], ◌∷◌, ◌++◌,
  arith, All, All-map, length, ◌==◌, if◌then◌else◌, if_true, if_false,
}
use xoslog.Prelude.Text.{Text}
use xoslog.Prelude.Decimal.{IsDigit, decimal, decimal-IsDigit}

abbrev push : ℕ → Option (Text × Text) → Option (Text × Text)
push c r = and_then r (λ p. some (c ∷ p.0, p.1))

-- The text up to a mark, and what follows the mark
unfoldable pub read_until : ℕ → Text → Option (Text × Text)
read_until stop [] = none
read_until stop (c ∷ s) =
    let more = push c (read_until stop s) in if c == stop then some ([], s) else more

unfoldable pub read_exactly : ℕ → Text → Option (Text × Text)
read_exactly zero s = some ([], s)
read_exactly (suc n) [] = none
read_exactly (suc n) (c ∷ s) = push c (read_exactly n s)

unfoldable pub expect : Text → Text → Option Text
expect [] s = some s
expect (m ∷ ms) [] = none
expect (m ∷ ms) (c ∷ s) = let more = expect ms s in if m == c then more else none

abbrev pub Lacks : ℕ → Text → Type 0
Lacks stop = All (λ c. (c == stop) ≡ false)

pub read_until-append :
    (stop : ℕ) (s rest : Text)
    → Lacks stop s
    → read_until stop (s ++ (stop ∷ rest)) ≡ some (s, rest)
unfolding read_until
read_until-append stop [] rest h =
    let here : (stop == stop) ≡ true = ground arith in if_true _ _ here
read_until-append stop (c ∷ s) rest (k, h) =
    if_false _ _ k ∙ ap (push c) (read_until-append stop s rest h)

pub read_exactly-append :
    (s rest : Text) (n : ℕ) → length s ≡ n → read_exactly n (s ++ rest) ≡ some (s, rest)
unfolding read_exactly
read_exactly-append [] rest zero h = refl
read_exactly-append [] rest (suc n) h = absurd (omega (arith, h))
read_exactly-append (c ∷ s) rest zero h = absurd (omega (arith, h))
read_exactly-append (c ∷ s) rest (suc n) h =
    ap (push c) (read_exactly-append s rest n (omega (arith, h)))

pub decimal-Lacks : (stop n : ℕ) → b'9' < stop → Lacks stop (decimal n)
decimal-Lacks stop n h =
    All-map _ _ (decimal n) (λ c (k : IsDigit c). ground arith) (decimal-IsDigit n)
