-- ===== src/Sink/Paths.antt =====
-- src/sink.rs, `backup_path`: the paths of the backups differ from each other and from the active
-- file's.
use xoslog.Prelude.{
  ℕ, ◌≡◌, ◌≢◌, ◌∙◌, refl, sym, ap, false, ◌∷◌, ◌++◌, arith, ◌==◌, ==_iff, Bool-cases, inl, inr, [],
  length, length-append,
}
use xoslog.Prelude.Text.{Text, text_eq, text_eq_iff}
use xoslog.Prelude.Decimal.{decimal, value, value-decimal}
use xoslog.Sink.FileSink.{backup_path}

behind : Text → Text → Text
behind [] t = t
behind (c ∷ s) [] = []
behind (c ∷ s) (d ∷ t) = behind s t

behind-append : (s t : Text) → behind s (s ++ t) ≡ t
unfolding behind
behind-append [] t = refl
behind-append (c ∷ s) t = behind-append s t

tail_or : Text → Text
tail_or [] = []
tail_or (c ∷ s) = s

-- Backups of different numbers have different paths.
backup_path_injective : (path : Text) (i j : ℕ) → backup_path path i ≡ backup_path path j → i ≡ j
unfolding backup_path tail_or
backup_path_injective path i j h =
    let same : b'.' ∷ decimal i ≡ b'.' ∷ decimal j =
      sym (behind-append path (b'.' ∷ decimal i))
      ∙ ap (behind path) h
      ∙ behind-append path (b'.' ∷ decimal j) in
    sym (value-decimal i) ∙ ap (λ s. value 0 (tail_or s)) same ∙ value-decimal j

text_eq_unequal : (s t : Text) → s ≢ t → text_eq s t ≡ false
text_eq_unequal s t h = elim (Bool-cases (text_eq s t)) [
  | inl e ↦ absurd (h ((text_eq_iff s t).0 e))
  | inr e ↦ e
]

-- The test of two backups' paths is the test of their numbers.
pub text_eq-backup_path :
    (path : Text) (i j : ℕ) → text_eq (backup_path path i) (backup_path path j) ≡ (i == j)
text_eq-backup_path path i j = elim (Bool-cases (i == j)) [
  | inl e ↦
      (text_eq_iff (backup_path path i) (backup_path path j)).1
        (ap (backup_path path) ((==_iff i j).0 e))
      ∙ sym e
  | inr e ↦
      text_eq_unequal (backup_path path i) (backup_path path j)
        (λ h. ground (arith, backup_path_injective path i j h, ==_iff i j))
      ∙ sym e
]

length_longer : (s : Text) (c : ℕ) (t : Text) → s ≢ s ++ (c ∷ t)
length_longer s c t h = omega (arith, ap length h, length-append s (c ∷ t))

pub text_eq-backup_path_active : (path : Text) (i : ℕ) → text_eq path (backup_path path i) ≡ false
unfolding backup_path
text_eq-backup_path_active path i =
    text_eq_unequal path (backup_path path i) (length_longer path b'.' (decimal i))

pub text_eq-backup_path_path : (path : Text) (i : ℕ) → text_eq (backup_path path i) path ≡ false
unfolding backup_path
text_eq-backup_path_path path i =
    text_eq_unequal (backup_path path i) path (λ h. length_longer path b'.' (decimal i) (sym h))
