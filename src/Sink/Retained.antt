-- ===== src/Sink/Retained.antt =====
-- src/sink.rs: the text that a file sink keeps, oldest backup first, and what a write makes of it.
use xoslog.Prelude.{
  ℕ, zero, suc, ◌-◌, ◌≤◌, ◌<◌, ◌≡◌, ◌≢◌, ◌∙◌, refl, sym, ap, false, Option, none, some, [], ◌++◌,
  arith, ◌==◌, Bool-cases, inl, inr, if◌then◌else◌, append-nil, append_assoc, if_false,
}
use native.Mathlib.Decide.{dec_lt}
use xoslog.Prelude.Text.{Text, Bytes}
use xoslog.Time.{SystemTime}
use xoslog.Sink.Disk.{Disk}
use xoslog.Sink.FileSink.{FileSink, Faults, Outcome, backup_path, rotate, reopen_shifted, reopened}
use xoslog.Sink.Rotation.{IsQuiet, rotated_lem}
use xoslog.Sink.Writes.{IsOpen, rotate-IsFresh, fresh-IsOpen}

abbrev pub found_text : Disk → Option ℕ → Bytes
found_text d none = []
found_text d (some f) = d.contents f

-- The bytes under a name, none if there is no such file
abbrev pub file_text : Disk → Text → Bytes
file_text d p = found_text d (d.names p)

-- The backups n, .. 1, in this order
unfoldable pub backups_text : FileSink → Disk → ℕ → Bytes
backups_text s d zero = []
backups_text s d (suc n) = file_text d (backup_path s.path (suc n)) ++ backups_text s d n

-- All that the sink keeps, in the order in which it was written
unfoldable pub retained : FileSink → Disk → Bytes
unfolding backups_text
retained s d = backups_text s d s.max_backups ++ d.contents s.file

-- The file that a rotation gives up: the last backup or, with no backups, the active file itself.
pub oldest : FileSink → Disk → Bytes
oldest s d =
    if s.max_backups == 0 then d.contents s.file else file_text d (backup_path s.path s.max_backups)

-- No backup is the active file.
abbrev pub IsApart : FileSink → Disk → Type 0
IsApart s d =
    (i f : ℕ)
    → 1 ≤ i
    → i ≤ s.max_backups
    → d.names (backup_path s.path i) ≡ some f
    → (f < d.fresh) × (f ≢ s.file)

pub record IsReady (s : FileSink) (d : Disk) : Type 0 where
  pub opened : IsOpen s d
  pub apart : IsApart s d

below_name :
    (path : Text) (n : ℕ)
    → (if suc (suc n) == 1 then path else backup_path path (suc (suc n) - 1))
      ≡ backup_path path (suc n)
below_name path n =
    let not_first : (suc (suc n) == 1) ≡ false = ground arith in
    let below : suc (suc n) - 1 ≡ suc n = omega arith in
    if_false _ _ not_first ∙ ap (backup_path path) below

-- A rotation, successful or not, keeps the settings of the sink.
pub rotate_settings :
    (faults : Faults) (now : SystemTime) (s : FileSink) (d : Disk)
    → ((rotate faults now s d).sink.path ≡ s.path)
      × ((rotate faults now s d).sink.max_backups ≡ s.max_backups)
unfolding rotate reopen_shifted reopened
rotate_settings faults now s d = ground arith

pub found_text-eq :
    (d e : Disk) (o : Option ℕ)
    → ((f : ℕ) → o ≡ some f → e.contents f ≡ d.contents f)
    → found_text e o ≡ found_text d o
found_text-eq d e none h = refl
found_text-eq d e (some f) h = h f refl

module _ (faults : Faults) (now : SystemTime) (s : FileSink) (d : Disk) (quiet : IsQuiet faults)
    (ready : IsReady s d) where
  abbrev rotated : Outcome
  rotated = rotate faults now s d

  named_made :
      (i f : ℕ)
      → 1 ≤ i
      → i ≤ s.max_backups
      → d.names (if i == 1 then s.path else backup_path s.path (i - 1)) ≡ some f
      → f < d.fresh
  named_made i f l u e = elim (Bool-cases (i == 1)) [
    | inl k ↦
        let here : d.names s.path ≡ some f =
          ap (λ b. d.names (if b then s.path else backup_path s.path (i - 1))) (sym k) ∙ e in
        let same : s.file ≡ f = cc (here, ready.opened.named) in
        omega (arith, ready.opened.made, same)
    | inr k ↦
        let there : d.names (backup_path s.path (i - 1)) ≡ some f =
          ap (λ b. d.names (if b then s.path else backup_path s.path (i - 1))) (sym k) ∙ e in
        (ready.apart (i - 1) f (ground arith) (omega arith) there).0
  ]

  -- After a rotation each backup holds what the name below it held.
  rotated_text :
      (i : ℕ)
      → 1 ≤ i
      → i ≤ s.max_backups
      → file_text rotated.disk (backup_path s.path i)
        ≡ file_text d (if i == 1 then s.path else backup_path s.path (i - 1))
  rotated_text i l u =
      let named = rotated_lem faults now s d s.file i 0 quiet ready.opened.named l u in
      ap (found_text rotated.disk) named.1
      ∙ found_text-eq d rotated.disk
          (d.names (if i == 1 then s.path else backup_path s.path (i - 1)))
          (λ f e.
            (rotated_lem faults now s d s.file i f quiet ready.opened.named l u).5
              (named_made i f l u e))

  rotated_backups :
      (n : ℕ)
      → suc n ≤ s.max_backups
      → backups_text s rotated.disk (suc n) ≡ backups_text s d n ++ d.contents s.file
  unfolding backups_text
  rotated_backups zero u =
      append-nil (file_text rotated.disk (backup_path s.path 1))
      ∙ rotated_text 1 (omega arith) u
      ∙ ap (found_text d) ready.opened.named
  rotated_backups (suc n) u =
      let here =
        rotated_text (suc (suc n)) (omega arith) u ∙ ap (file_text d) (below_name s.path n) in
      ap (λ t. t ++ backups_text s rotated.disk (suc n)) here
      ∙ ap (λ t. file_text d (backup_path s.path (suc n)) ++ t) (rotated_backups n (omega arith))
      ∙ sym (
          append_assoc (file_text d (backup_path s.path (suc n))) (backups_text s d n)
            (d.contents s.file))

  rotated-IsApart : 0 < s.max_backups → IsApart rotated.sink rotated.disk
  rotated-IsApart some_backups i f l u e =
      let (path, max) = rotate_settings faults now s d in
      let within : i ≤ s.max_backups = omega arith in
      let r = rotated_lem faults now s d s.file i 0 quiet ready.opened.named l within in
      let named : rotated.disk.names (backup_path s.path i) ≡ some f =
        ap (λ p. rotated.disk.names (backup_path p i)) (sym path) ∙ e in
      let older = named_made i f l within (sym r.1 ∙ named) in
      (omega (arith, r.6, r.9, older), (λ same. omega (arith, same, r.9, older)))

  pub rotate-IsReady : IsReady rotated.sink rotated.disk
  rotate-IsReady = record {
    opened = fresh-IsOpen rotated (rotate-IsFresh faults now s d quiet ready.opened);
    apart = elim (dec_lt 0 s.max_backups) [
      | yes h ↦ rotated-IsApart h
      | no h ↦ λ i f l u e. absurd (omega (arith, (rotate_settings faults now s d).1))
    ];
  }

  backups_text-path :
      (t : FileSink) (e : Disk) (n : ℕ) → t.path ≡ s.path → backups_text t e n ≡ backups_text s e n
  unfolding backups_text
  backups_text-path t e zero h = refl
  backups_text-path t e (suc n) h =
      ap (λ p. file_text e (backup_path p (suc n)) ++ backups_text t e n) h
      ∙ ap (λ r. file_text e (backup_path s.path (suc n)) ++ r) (backups_text-path t e n h)

  retained-rotated : retained rotated.sink rotated.disk ≡ backups_text s rotated.disk s.max_backups
  unfolding retained
  retained-rotated =
      let (path, max) = rotate_settings faults now s d in
      let fresh = rotate-IsFresh faults now s d quiet ready.opened in
      ap (λ t. backups_text rotated.sink rotated.disk rotated.sink.max_backups ++ t) fresh.2
      ∙ append-nil (backups_text rotated.sink rotated.disk rotated.sink.max_backups)
      ∙ ap (backups_text rotated.sink rotated.disk) max
      ∙ backups_text-path rotated.sink rotated.disk s.max_backups path

  retained_split :
      (n : ℕ)
      → s.max_backups ≡ n
      → backups_text s d n ++ d.contents s.file
        ≡ (if n == 0 then d.contents s.file else file_text d (backup_path s.path n))
          ++ backups_text s rotated.disk n
  unfolding backups_text
  retained_split zero h = sym (append-nil (d.contents s.file))
  retained_split (suc n) h =
      let positive : (suc n == 0) ≡ false = ground arith in
      append_assoc (file_text d (backup_path s.path (suc n))) (backups_text s d n)
        (d.contents s.file)
      ∙ ap (λ t. file_text d (backup_path s.path (suc n)) ++ t)
          (sym (rotated_backups n (omega arith)))
      ∙ ap (λ t. t ++ backups_text s rotated.disk (suc n)) (sym (if_false _ _ positive))

  -- A rotation gives up the oldest file and nothing else.
  pub rotate-retained : retained s d ≡ oldest s d ++ retained rotated.sink rotated.disk
  unfolding retained oldest
  rotate-retained =
      retained_split s.max_backups refl ∙ ap (λ t. oldest s d ++ t) (sym retained-rotated)
