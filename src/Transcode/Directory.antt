-- ===== src/Transcode/Directory.antt =====
-- transcode.go: `emptyDir` and `mountTmpfs`, over what the file system and mount answer.
pub mod Removal
use nixos_fleet.Base.{ℕ, List, [], ◌∷◌, ◌++◌, Option, none, some, Bytes, ascii, Error, mount_failed}
use nixos_fleet.Text.Words.{trim_space}

-- The answer of os.ReadDir: there is no such directory, another error, or the entries' names.
pub data Listing : Type 0 where
  missing : Listing
  unreadable : Error → Listing
  entries : List Bytes → Listing

-- What `emptyDir` does to the directory.
pub data Change : Type 0 where
  made : Change
  removed : Bytes → Change

-- `remove` is os.RemoveAll of an entry. The changes are those that were tried.
unfoldable pub remove_entries : (Bytes → Option Error) → List Bytes → List Change × Option Error
remove_entries remove [] = ([], none)
remove_entries remove (name ∷ names) =
    let rest = remove_entries remove names in
    elim (remove name) [
      | some e ↦ (removed name ∷ [], some e)
      | none ↦ (removed name ∷ rest.0, rest.1)
    ]

-- `mkdir` is the answer of os.MkdirAll.
unfoldable pub empty_dir :
    Option Error → (Bytes → Option Error) → Listing → List Change × Option Error
empty_dir mkdir remove missing = (made ∷ [], mkdir)
empty_dir mkdir remove (unreadable e) = ([], some e)
empty_dir mkdir remove (entries names) = remove_entries remove names

-- `decimal` is the verb %d.
unfoldable pub tmpfs_options : (ℕ → Bytes) → Bytes → ℕ → ℕ → Bytes
tmpfs_options decimal size uid gid =
    ascii "size="
    ++ (size
        ++ (ascii ",mode=0750,uid="
            ++ (decimal uid ++ (ascii ",gid=" ++ (decimal gid ++ ascii ",nosuid,nodev,noexec")))))

-- The mount's answer: what it wrote, and its error.
abbrev mount_answer : Bytes × Option Error → Option Error
mount_answer (output, none) = none
mount_answer (output, some e) = some (mount_failed e (trim_space output))

-- `mkdir` is the answer of os.MkdirAll, and `run` what a command does with its arguments.
unfoldable pub mount_tmpfs :
    Option Error
    → (List Bytes → Bytes × Option Error)
    → (ℕ → Bytes)
    → Bytes
    → Bytes
    → ℕ
    → ℕ
    → Option Error
mount_tmpfs (some e) run decimal dir size uid gid = some e
mount_tmpfs none run decimal dir size uid gid = mount_answer (
    run (
      ascii "mount"
      ∷ ascii "-t"
      ∷ ascii "tmpfs"
      ∷ ascii "-o"
      ∷ tmpfs_options decimal size uid gid
      ∷ ascii "tmpfs"
      ∷ dir
      ∷ []))
