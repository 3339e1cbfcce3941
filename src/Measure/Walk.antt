-- ===== src/Measure/Walk.antt =====
-- measure.go: `dirBytes`, with the walk of path/filepath.WalkDir that calls it back.
pub mod Total
use nixos_fleet.Base.{ℕ, ◌+◌, List, [], ◌∷◌, ◌++◌, Option, none, some, Error, Result, ok, err}
use nixos_fleet.Base.Word.{add64}

-- What the walk finds: a file with the answer of `d.Info`, or a directory with the error of
-- os.ReadDir, if there is one, and its entries in order.
mutual
  pub data Entry : Type 0 where
    file : Result ℕ → Entry
    dir : Option Error → Entries → Entry

  pub data Entries : Type 0 where
    end : Entries
    entry : Entry → Entries → Entries

-- The variables of the closure.
pub record Tally : Type 0 where
  pub size : ℕ
  pub files : ℕ

abbrev pub Visit : Type 0
Visit = Tally × Option Error

count_file : Result ℕ → Tally → Visit
count_file (ok n) t = (record { size = add64 t.size n; files = t.files + 1 }, none)
count_file (err e) t = (t, some e)

-- An error of the callback ends the walk.
abbrev and_then : Visit → (Tally → Visit) → Visit
and_then (t, none) next = next t
and_then (t, some e) next = (t, some e)

unfoldable mutual
  unfolding count_file

  pub walk : Entry → Tally → Visit
  walk (file r) t = count_file r t
  walk (dir none es) t = walk_entries es t
  walk (dir (some e) es) t = (t, some e)

  pub walk_entries : Entries → Tally → Visit
  walk_entries end t = (t, none)
  walk_entries (entry x xs) t = and_then (walk x t) (walk_entries xs)

-- `root` is the answer of os.Lstat.
unfoldable pub dir_bytes : Result Entry → ℕ × ℕ × Option Error
dir_bytes (err e) = (0, 0, some e)
dir_bytes (ok root) =
    let (t, e) = walk root (record { size = 0; files = 0 }) in (t.size, t.files, e)
