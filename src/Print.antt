-- ===== src/Print.antt =====
-- scripts/jellyfin-io-bench: the reports as text. What main.go's `indent` and the printers write to
-- the standard output, and the texts of the notes.
pub mod Notes
pub mod Reports
pub mod Phases
pub mod Indented
use nixos_fleet.Base.{ℕ, List, ◌++◌, map, Bytes}
use nixos_fleet.Nfs.Mounts.{FsType, named, unknown_magic}
use nixos_fleet.Text.Cut.{split, join}
use nixos_fleet.Text.Format.{hexadecimal, trim_newlines}
use nixos_fleet.Base.{ascii}

-- The text of a type of file system, of one that is not known by its number.
unfoldable pub fs_text : FsType → Bytes
fs_text (named kind) = kind
fs_text (unknown_magic n) = ascii "magic=0x" ++ hexadecimal n

unfoldable pub indent : Bytes → Bytes → Bytes
indent s prefix = join b'\n' (map (λ l. prefix ++ l) (split b'\n' (trim_newlines s)))
