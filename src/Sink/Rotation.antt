-- ===== src/Sink/Rotation.antt =====
-- src/sink.rs, `rotate`: where the active file and the backups are after a rotation.
use xoslog.Prelude.{
  ℕ, ◌-◌, ◌≤◌, ◌<◌, ◌≡◌, ◌∙◌, refl, sym, ap, false, none, some, arith, ◌==◌, Bool-cases, inl, inr,
  if◌then◌else◌, [],
}
use xoslog.Prelude.Text.{Text, text_eq_iff}
use xoslog.Time.{SystemTime}
use xoslog.Sink.Disk.{Disk, rename, open_append}
use xoslog.Sink.FileSink.{
  FileSink, Faults, backup_path, shift_backups, rotate, rename_failed, rename_active,
  reopen_shifted, reopened,
}
use xoslog.Sink.Paths.{text_eq-backup_path, text_eq-backup_path_active, text_eq-backup_path_path}
use xoslog.Sink.Backups.{shifted, shifted-backup, shifted-other, shifted-SameFiles}

-- The kernel takes every call of a rotation.
pub record IsQuiet (faults : Faults) : Type 0 where
  pub names : (p : Text) → faults.refuses p ≡ false
  pub flush : faults.flush_fails ≡ false
  pub opens : faults.open_fails ≡ false

pub rotate-shifted :
    (faults : Faults) (now : SystemTime) (s : FileSink) (d : Disk)
    → IsQuiet faults
    → 0 < s.max_backups
    → rotate faults now s d
      ≡ reopen_shifted faults now s (
          rename_active false
            (rename s.path (backup_path s.path 1) (shifted faults s d))
            (shifted faults s d))
unfolding rotate shift_backups
rotate-shifted faults now s d quiet some_backups =
    rw (quiet.flush, quiet.names s.path) (ground arith)

-- If there is no active file, a rotation with backups fails although the kernel takes its other
-- calls, and leaves the active path missing; still it moves all backups up by one, so that the
-- oldest is dropped and the first place is empty.
pub rotate_missing :
    (faults : Faults) (now : SystemTime) (s : FileSink) (d : Disk) (i : ℕ)
    → IsQuiet faults
    → d.names s.path ≡ none
    → 1 ≤ i
    → i ≤ s.max_backups
    → ((rotate faults now s d).error ≡ some rename_failed)
      × ((rotate faults now s d).disk.names s.path ≡ none)
      × ((rotate faults now s d).disk.names (backup_path s.path i)
          ≡ (if i == 1 then none else d.names (backup_path s.path (i - 1))))
unfolding rename reopen_shifted
rotate_missing faults now s d i quiet missing l u =
    let gone = shifted-other faults s d s.path (text_eq-backup_path_active s.path) ∙ missing in
    rw (rotate-shifted faults now s d quiet (omega arith), gone)
      (refl, gone, shifted-backup faults s d i quiet.names l u)

-- The end of a rotation, from the disk on which the backups have been moved.
pub reopened_lem :
    (faults : Faults) (now : SystemTime) (s : FileSink) (e : Disk) (f i g : ℕ)
    → faults.open_fails ≡ false
    → e.names s.path ≡ some f
    → let r =
        reopen_shifted faults now s
          (rename_active false (rename s.path (backup_path s.path 1) e) e) in
      (r.error ≡ none)
      × (r.disk.names (backup_path s.path i)
          ≡ (if i == 1 then some f else e.names (backup_path s.path i)))
      × (r.disk.names s.path ≡ some r.sink.file)
      × (r.disk.contents r.sink.file ≡ [])
      × (r.sink.size ≡ 0)
      × (g < e.fresh → r.disk.contents g ≡ e.contents g)
      × (r.sink.file < r.disk.fresh)
      × (r.sink.path ≡ s.path)
      × (r.sink.max_backups ≡ s.max_backups)
      × (r.sink.file ≡ e.fresh)
unfolding rename reopen_shifted open_append reopened
reopened_lem faults now s e f i g opens active =
    rw
      (
        active,
        opens,
        text_eq-backup_path_active s.path 1,
        (text_eq_iff s.path s.path).1 refl,
        text_eq-backup_path_path s.path i,
        text_eq-backup_path s.path i 1,
      )
      (
        refl,
        refl,
        rw ((text_eq_iff s.path s.path).1 refl) refl,
        ground arith,
        refl,
        (λ h. ground arith),
        omega arith,
        refl,
        refl,
        refl,
      )

backup_name :
    (i f : ℕ) (e d : Disk) (s : FileSink)
    → e.names (backup_path s.path i)
      ≡ (if i == 1 then none else d.names (backup_path s.path (i - 1)))
    → d.names s.path ≡ some f
    → (if i == 1 then some f else e.names (backup_path s.path i))
      ≡ d.names (if i == 1 then s.path else backup_path s.path (i - 1))
backup_name i f e d s h active = elim (Bool-cases (i == 1)) [
  | inl k ↦ rw k (sym active)
  | inr k ↦ rw k (h ∙ rw k refl)
]

-- A successful rotation with backups, seen at the `i`-th backup and at the file `g`.
pub rotated_lem :
    (faults : Faults) (now : SystemTime) (s : FileSink) (d : Disk) (f i g : ℕ)
    → IsQuiet faults
    → d.names s.path ≡ some f
    → 1 ≤ i
    → i ≤ s.max_backups
    → let r = rotate faults now s d in
      (r.error ≡ none)
      × (r.disk.names (backup_path s.path i)
          ≡ d.names (if i == 1 then s.path else backup_path s.path (i - 1)))
      × (r.disk.names s.path ≡ some r.sink.file)
      × (r.disk.contents r.sink.file ≡ [])
      × (r.sink.size ≡ 0)
      × (g < d.fresh → r.disk.contents g ≡ d.contents g)
      × (r.sink.file < r.disk.fresh)
      × (r.sink.path ≡ s.path)
      × (r.sink.max_backups ≡ s.max_backups)
      × (r.sink.file ≡ d.fresh)
rotated_lem faults now s d f i g quiet active l u =
    let here = shifted-other faults s d s.path (text_eq-backup_path_active s.path) ∙ active in
    let (no_error, names, path, empty, size, kept, made, same_path, same_max, file) =
      reopened_lem faults now s (shifted faults s d) f i g quiet.opens here in
    let (same, fresh) = shifted-SameFiles faults s d in
    let backup = shifted-backup faults s d i quiet.names l u in
    rw (rotate-shifted faults now s d quiet (omega arith)) (
      no_error,
      names ∙ backup_name i f (shifted faults s d) d s backup active,
      path,
      empty,
      size,
      (λ old. kept (rw fresh old) ∙ ap (λ c. c g) same),
      made,
      same_path,
      same_max,
      file ∙ fresh,
    )

-- If the kernel takes its calls and the active file is there, a rotation with backups succeeds:
-- the first backup is the file that was active, and every other backup, up to the last that is
-- kept, is the one that had the number below; the active path is a new empty file, the sink counts
-- from 0, and the contents of the files made before do not change.
pub rotate-backups :
    (faults : Faults) (now : SystemTime) (s : FileSink) (d : Disk) (f i g : ℕ)
    → IsQuiet faults
    → d.names s.path ≡ some f
    → g < d.fresh
    → 1 ≤ i
    → i ≤ s.max_backups
    → ((rotate faults now s d).error ≡ none)
      × ((rotate faults now s d).disk.names (backup_path s.path i)
          ≡ d.names (if i == 1 then s.path else backup_path s.path (i - 1)))
      × ((rotate faults now s d).disk.names s.path ≡ some (rotate faults now s d).sink.file)
      × ((rotate faults now s d).disk.contents (rotate faults now s d).sink.file ≡ [])
      × ((rotate faults now s d).sink.size ≡ 0)
      × ((rotate faults now s d).disk.contents g ≡ d.contents g)
rotate-backups faults now s d f i g quiet active old l u =
    let (no_error, names, path, empty, size, kept, _, _, _, _) =
      rotated_lem faults now s d f i g quiet active l u in
    (no_error, names, path, empty, size, kept old)
