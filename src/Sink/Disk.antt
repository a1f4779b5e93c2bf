-- ===== src/Sink/Disk.antt =====
-- The part of the file system that src/sink.rs uses: names of files, and files that stay what they
-- are when they are renamed, as an open handle does not follow a name.
use xoslog.Prelude.{ℕ, ◌+◌, Option, none, some, [], ◌++◌, ◌==◌, if◌then◌else◌}
use xoslog.Prelude.Text.{Text, Bytes, text_eq}

pub record Disk : Type 0 where
  pub names : Text → Option ℕ
  pub contents : ℕ → Bytes
  pub fresh : ℕ

abbrev pub set_name : (Text → Option ℕ) → Text → Option ℕ → Text → Option ℕ
set_name names p f q = if text_eq q p then f else names q

abbrev pub set_contents : (ℕ → Bytes) → ℕ → Bytes → ℕ → Bytes
set_contents contents f s g = if g == f then s else contents g

-- `std::fs::remove_file`, its result ignored
unfoldable pub remove_file : Text → Disk → Disk
remove_file p d = record d { names = set_name d.names p none }

-- `std::fs::rename`: it fails if there is no such file, and else replaces the other name.
abbrev pub rename_found : Option ℕ → Text → Text → Disk → Option Disk
rename_found none src dst d = none
rename_found (some f) src dst d =
    some (record d { names = set_name (set_name d.names src none) dst (some f) })

unfoldable pub rename : Text → Text → Disk → Option Disk
rename src dst d = rename_found (d.names src) src dst d

abbrev pub or_same : Option Disk → Disk → Disk
or_same none d = d
or_same (some e) d = e

abbrev pub create : Text → Disk → ℕ × Disk
create p d = (
  d.fresh,
  record {
    names = set_name d.names p (some d.fresh);
    contents = set_contents d.contents d.fresh [];
    fresh = d.fresh + 1;
  },
)

abbrev pub open_found : Option ℕ → Text → Disk → ℕ × Disk
open_found none p d = create p d
open_found (some f) p d = (f, d)

-- `OpenOptions::new().create(true).append(true).open(..)`
unfoldable pub open_append : Text → Disk → ℕ × Disk
open_append p d = open_found (d.names p) p d

abbrev pub truncate_found : Option ℕ → Text → Disk → ℕ × Disk
truncate_found none p d = create p d
truncate_found (some f) p d = (f, record d { contents = set_contents d.contents f [] })

-- `OpenOptions::new().create(true).write(true).truncate(true).open(..)`
unfoldable pub open_truncate : Text → Disk → ℕ × Disk
open_truncate p d = truncate_found (d.names p) p d

-- Bytes at the end of an open file
unfoldable pub append_bytes : ℕ → Bytes → Disk → Disk
append_bytes f s d = record d { contents = set_contents d.contents f (d.contents f ++ s) }
