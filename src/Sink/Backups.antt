-- ===== src/Sink/Backups.antt =====
-- src/sink.rs, `shift_backups`: which file has which name after the loop over the backups.
use xoslog.Prelude.{
  Option-cases, ℕ, zero, suc, ◌+◌, ◌-◌, ◌≤◌, ◌≡◌, ◌∙◌, refl, sym, ap, false, none, arith, ◌==◌,
  Bool-cases, inl, inr, if◌then◌else◌,
}
use native.Mathlib.Decide.{dec_le}
use xoslog.Prelude.Text.{Text, text_eq, text_eq_iff}
use xoslog.Sink.Disk.{Disk, rename, or_same, remove_file}
use xoslog.Sink.FileSink.{
  FileSink, Faults, backup_path, shift_slots, remove_ignored, rename_ignored,
}
use xoslog.Sink.Paths.{text_eq-backup_path}

-- A rename to a free name, its result ignored: it does the same whether there is a file or not.
rename_moves :
    (src dst q : Text) (d : Disk)
    → d.names dst ≡ none
    → (or_same (rename src dst d) d).names q
      ≡ (if text_eq q dst then d.names src else if text_eq q src then none else d.names q)
unfolding rename
rename_moves src dst q d free = elim (Option-cases (d.names src)) [
  | inr (f, e) ↦ rw e refl
  | inl e ↦ rw e (elim (Bool-cases (text_eq q dst)) [
    | inl h ↦ rw h (ap d.names ((text_eq_iff q dst).0 h) ∙ free)
    | inr h ↦ rw h (elim (Bool-cases (text_eq q src)) [
      | inl k ↦ rw k (ap d.names ((text_eq_iff q src).0 k) ∙ e)
      | inr k ↦ rw k refl
    ])
  ])
]

rename_ignored-other :
    (faults : Faults) (src dst q : Text) (d : Disk)
    → text_eq q src ≡ false
    → text_eq q dst ≡ false
    → (rename_ignored faults src dst d).names q ≡ d.names q
unfolding rename_ignored rename
rename_ignored-other faults src dst q d h k = elim (Bool-cases (faults.refuses src)) [
  | inl e ↦ rw e refl
  | inr e ↦ elim (Option-cases (d.names src)) [
    | inl f ↦ rw (e, f) refl
    | inr (g, f) ↦ rw (e, f, k, h) refl
  ]
]

-- The loop leaves alone all names but those of its own backups.
pub shift_slots-other :
    (faults : Faults) (path : Text) (n : ℕ) (d : Disk) (q : Text)
    → ((j : ℕ) → j ≤ suc n → text_eq q (backup_path path j) ≡ false)
    → (shift_slots faults path n d).names q ≡ d.names q
unfolding shift_slots
shift_slots-other faults path zero d q h = refl
shift_slots-other faults path (suc n) d q h =
    shift_slots-other faults path n
      (rename_ignored faults (backup_path path (suc n)) (backup_path path (suc n + 1)) d) q
      (λ j l. h j (omega arith))
    ∙ rename_ignored-other faults (backup_path path (suc n)) (backup_path path (suc n + 1)) q d
        (h (suc n) (omega arith)) (h (suc n + 1) (omega arith))

rename_moves_backup :
    (faults : Faults) (path : Text) (n i : ℕ) (d : Disk)
    → ((p : Text) → faults.refuses p ≡ false)
    → d.names (backup_path path (n + 1)) ≡ none
    → (rename_ignored faults (backup_path path n) (backup_path path (n + 1)) d).names
        (backup_path path i)
      ≡ (if i == n + 1
          then d.names (backup_path path n)
          else if i == n
          then none
          else d.names (backup_path path i))
unfolding rename_ignored
rename_moves_backup faults path n i d quiet free =
    rw
      (
        quiet (backup_path path n),
        sym (text_eq-backup_path path i n),
        sym (text_eq-backup_path path i (n + 1)),
      )
      (rename_moves (backup_path path n) (backup_path path (n + 1)) (backup_path path i) d free)

-- Moving the backups n, .. 1 up by one, the place behind them being free.
pub shift_slots-names :
    (faults : Faults) (path : Text) (n : ℕ) (d : Disk) (i : ℕ)
    → ((p : Text) → faults.refuses p ≡ false)
    → d.names (backup_path path (n + 1)) ≡ none
    → 1 ≤ i
    → i ≤ n + 1
    → (shift_slots faults path n d).names (backup_path path i)
      ≡ (if i == 1 then none else d.names (backup_path path (i - 1)))
unfolding shift_slots
shift_slots-names faults path zero d i quiet free l u = let one : i ≡ 1 = omega arith in rw one free
shift_slots-names faults path (suc n) d i quiet free l u =
    let d1 = rename_ignored faults (backup_path path (suc n)) (backup_path path (suc n + 1)) d in
    let free1 : d1.names (backup_path path (n + 1)) ≡ none =
      ground (arith, rename_moves_backup faults path (suc n) (n + 1) d quiet free) in
    elim (dec_le i (n + 1)) [
      | yes h ↦
          shift_slots-names faults path n d1 i quiet free1 l h
          ∙ ground (arith, rename_moves_backup faults path (suc n) (i - 1) d quiet free)
      | no h ↦
          let below : i - 1 ≡ suc n = omega arith in
          shift_slots-other faults path n d1 (backup_path path i)
            (λ j k. text_eq-backup_path path i j ∙ ground arith)
          ∙ ground (
            arith,
            rename_moves_backup faults path (suc n) i d quiet free,
            ap (λ j. d.names (backup_path path j)) below,
          )
    ]

-- The names after the loop, with the oldest backup removed before.
removed_free :
    (faults : Faults) (p : Text) (d : Disk)
    → ((p : Text) → faults.refuses p ≡ false)
    → (remove_ignored faults p d).names p ≡ none
unfolding remove_ignored remove_file
removed_free faults p d quiet = rw (quiet p, (text_eq_iff p p).1 refl) refl

removed-other :
    (faults : Faults) (p q : Text) (d : Disk)
    → text_eq q p ≡ false
    → (remove_ignored faults p d).names q ≡ d.names q
unfolding remove_ignored remove_file
removed-other faults p q d h = elim (Bool-cases (faults.refuses p)) [
  | inl e ↦ rw e refl
  | inr e ↦ rw (e, h) refl
]

-- The disk before the last rename of `shift_backups`.
abbrev pub shifted : Faults → FileSink → Disk → Disk
shifted faults s d =
    shift_slots faults s.path (s.max_backups - 1)
      (remove_ignored faults (backup_path s.path s.max_backups) d)

pub shifted-backup :
    (faults : Faults) (s : FileSink) (d : Disk) (i : ℕ)
    → ((p : Text) → faults.refuses p ≡ false)
    → 1 ≤ i
    → i ≤ s.max_backups
    → (shifted faults s d).names (backup_path s.path i)
      ≡ (if i == 1 then none else d.names (backup_path s.path (i - 1)))
shifted-backup faults s d i quiet l u =
    let room : s.max_backups - 1 + 1 ≡ s.max_backups = omega arith in
    let removed = remove_ignored faults (backup_path s.path s.max_backups) d in
    shift_slots-names faults s.path (s.max_backups - 1) removed i quiet
      (rw room (removed_free faults (backup_path s.path s.max_backups) d quiet)) l (omega arith)
    ∙ ground (
      arith,
      removed-other faults (backup_path s.path s.max_backups) (backup_path s.path (i - 1)) d
          (text_eq-backup_path s.path (i - 1) s.max_backups ∙ ground arith),
    )

pub shifted-other :
    (faults : Faults) (s : FileSink) (d : Disk) (q : Text)
    → ((j : ℕ) → text_eq q (backup_path s.path j) ≡ false)
    → (shifted faults s d).names q ≡ d.names q
shifted-other faults s d q h =
    shift_slots-other faults s.path (s.max_backups - 1)
      (remove_ignored faults (backup_path s.path s.max_backups) d) q (λ j l. h j)
    ∙ removed-other faults (backup_path s.path s.max_backups) q d (h s.max_backups)

-- No file is written to, and none is made.
abbrev pub SameFiles : Disk → Disk → Type 0
SameFiles d e = (d.contents ≡ e.contents) × (d.fresh ≡ e.fresh)

pub rename_ignored-SameFiles :
    (faults : Faults) (src dst : Text) (d : Disk) → SameFiles (rename_ignored faults src dst d) d
unfolding rename_ignored rename
rename_ignored-SameFiles faults src dst d = elim (Bool-cases (faults.refuses src)) [
  | inl e ↦ rw e (refl, refl)
  | inr e ↦ elim (Option-cases (d.names src)) [
    | inl f ↦ rw (e, f) (refl, refl)
    | inr (g, f) ↦ rw (e, f) (refl, refl)
  ]
]

shift_slots-SameFiles :
    (faults : Faults) (path : Text) (n : ℕ) (d : Disk) → SameFiles (shift_slots faults path n d) d
unfolding shift_slots
shift_slots-SameFiles faults path zero d = (refl, refl)
shift_slots-SameFiles faults path (suc n) d =
    let next = rename_ignored faults (backup_path path (suc n)) (backup_path path (suc n + 1)) d in
    let (c, f) = shift_slots-SameFiles faults path n next in
    let (c1, f1) =
      rename_ignored-SameFiles faults (backup_path path (suc n)) (backup_path path (suc n + 1)) d in
    (c ∙ c1, f ∙ f1)

remove_ignored-SameFiles :
    (faults : Faults) (p : Text) (d : Disk) → SameFiles (remove_ignored faults p d) d
unfolding remove_ignored remove_file
remove_ignored-SameFiles faults p d = elim (Bool-cases (faults.refuses p)) [
  | inl e ↦ rw e (refl, refl)
  | inr e ↦ rw e (refl, refl)
]

pub shifted-SameFiles :
    (faults : Faults) (s : FileSink) (d : Disk) → SameFiles (shifted faults s d) d
shifted-SameFiles faults s d =
    let oldest = backup_path s.path s.max_backups in
    let (c, f) =
      shift_slots-SameFiles faults s.path (s.max_backups - 1) (remove_ignored faults oldest d) in
    let (c1, f1) = remove_ignored-SameFiles faults oldest d in (c ∙ c1, f ∙ f1)
