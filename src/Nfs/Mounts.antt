-- ===== src/Nfs/Mounts.antt =====
-- nfs.go: `MountInfo`, `findmntFSType`, `parseProcMounts`, `destAvail` and `destSize`, over the
-- answers of statfs and what a read of /proc/mounts gave.
pub mod Last
use nixos_fleet.Base.{
  ℕ, ◌==◌, Bool, false, not, List, [], ◌∷◌, ◌++◌, Option, none, some, if◌then◌else◌, Bytes, ascii,
  Error, not_in_proc_mounts, Result, ok, err, ◌>>=◌,
}
use nixos_fleet.Base.Float.{Float64, of_uint}
use nixos_fleet.Base.Word.{mul64}
use nixos_fleet.Measure.Disk.{Statfs}
use nixos_fleet.Measure.Rates.{mib}
use nixos_fleet.Text.Cut.{equal, has_prefix, split, cut}
use nixos_fleet.Text.Lines.{scan_lines}
use nixos_fleet.Text.Words.{fields}

unfoldable pub dest_avail : (Bytes → Result Statfs) → Bytes → Result ℕ
dest_avail statfs path = do st ← statfs path; ok (mul64 st.bavail st.bsize)

-- The size and what is free of it.
unfoldable pub dest_size : (Bytes → Result Statfs) → Bytes → Result (ℕ × ℕ)
dest_size statfs path = do st ← statfs path; ok (mul64 st.blocks st.bsize, mul64 st.bavail st.bsize)

-- The text of a file system's type. A magic number that the code does not know is kept as a number,
-- which the code prints in hexadecimal.
pub data FsType : Type 0 where
  named : Bytes → FsType
  unknown_magic : ℕ → FsType

unfoldable pub fs_type_of : ℕ → FsType
fs_type_of kind =
    if kind == 0x01021994
    then named (ascii "tmpfs")
    else if kind == 0xEF53
    then named (ascii "ext4")
    else if kind == 0x58465342
    then named (ascii "xfs")
    else if kind == 0x6969
    then named (ascii "nfs")
    else if kind == 0x0187
    then named (ascii "autofs")
    else unknown_magic kind

unfoldable pub findmnt_fs_type : (Bytes → Result Statfs) → Bytes → FsType
unfolding fs_type_of
findmnt_fs_type statfs path = elim (statfs path) [
  | err e ↦ named (ascii "unknown")
  | ok st ↦ fs_type_of st.kind
]

pub record MountInfo {ℓ} (F : Type ℓ) : Type ℓ where
  pub target : Bytes
  pub source : Bytes
  pub fs_type : FsType
  pub options : Bytes
  pub server_addr : Bytes
  pub tailscale : Bool
  pub avail_mib : F
  pub size_mib : F

module _ {ℓ} {F : Type ℓ} ⦃f : Float64 F⦄ where
  -- A value with these fields, and the others zero.
  abbrev pub mount_info : Bytes → Bytes → FsType → Bytes → MountInfo F
  mount_info target source kind options = record {
    target = target;
    source = source;
    fs_type = kind;
    options = options;
    server_addr = [];
    tailscale = false;
    avail_mib = of_uint 0;
    size_mib = of_uint 0;
  }

module _ {ℓ} {F : Type ℓ} where
  abbrev take_addr : MountInfo F → Option (Bytes × Bytes) → MountInfo F
  take_addr info none = info
  take_addr info (some (k, v)) =
      if not (equal k (ascii "addr"))
      then info
      else record info { server_addr = v; tailscale = has_prefix v (ascii "100.") }

  -- The loop over the options.
  unfoldable pub mount_options : MountInfo F → List Bytes → MountInfo F
  mount_options info [] = info
  mount_options info (opt ∷ opts) = mount_options (take_addr info (cut b'=' opt)) opts

module _ {ℓ} {F : Type ℓ} ⦃f : Float64 F⦄ where
  -- What a line says of the target, by its fields; `none` where the loop goes on.
  unfoldable pub mount_entry : Bytes → List Bytes → Option (MountInfo F)
  mount_entry target (source ∷ point ∷ kind ∷ options ∷ _) =
      if not (equal point target)
      then none
      else some (mount_options (mount_info target source (named kind) options) (split b',' options))
  mount_entry target _ = none

  abbrev newer : Option (MountInfo F) → Option (MountInfo F) → Option (MountInfo F)
  newer none last = last
  newer (some info) last = some info

  -- The loop over the lines; `last` is `none` while `found` is false.
  unfoldable pub last_mount : Bytes → Option (MountInfo F) → List Bytes → Option (MountInfo F)
  last_mount target last [] = last
  last_mount target last (line ∷ ls) =
      last_mount target (newer (mount_entry target (fields line)) last) ls

  abbrev pub with_size : MountInfo F → Result (ℕ × ℕ) → MountInfo F
  with_size info (err e) = info
  with_size info (ok (total, avail)) = record info { size_mib = mib total; avail_mib = mib avail }

  unfoldable pub parse_proc_mounts :
      (Bytes → Result Statfs) → Bytes → Result Bytes → MountInfo F × Option Error
  parse_proc_mounts statfs target (err e) = (mount_info target [] (named []) [], some e)
  parse_proc_mounts statfs target (ok text) = elim (last_mount target none (scan_lines text)) [
    | none ↦ (mount_info target [] (findmnt_fs_type statfs target) [], some not_in_proc_mounts)
    | some info ↦ (with_size info (dest_size statfs target), none)
  ]
