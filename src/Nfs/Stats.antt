-- ===== src/Nfs/Stats.antt =====
-- nfs.go: `NFSSnap`, `readNFSSnap`, `uintFields` and `nfsDelta`, over what os.Open and a read of
-- /proc/self/mountstats gave.
pub mod Sections
pub mod Growth
use nixos_fleet.Base.{
  ℕ, Bool, true, false, ◌&&◌, List, [], ◌∷◌, ◌++◌, Option, none, some, if◌then◌else◌, Bytes, ascii,
  Error, Result, ok, err,
}
use nixos_fleet.Base.Word.{sub64}
use nixos_fleet.Text.Cut.{has_prefix, trim_prefix, contains}
use nixos_fleet.Text.Lines.{scan_lines}
use nixos_fleet.Text.Number.{parse_uint}
use nixos_fleet.Text.Words.{fields, trim_space}

pub record NfsSnap : Type 0 where
  pub normal_read : ℕ
  pub normal_write : ℕ
  pub server_read : ℕ
  pub server_write : ℕ
  pub write_ops : ℕ
  pub commit_ops : ℕ
  pub read_plus_ops : ℕ
  pub sends : ℕ
  pub recvs : ℕ
  pub bad_xids : ℕ
  pub found : Bool

-- The zero value.
abbrev pub no_snap : NfsSnap
no_snap = record {
  normal_read = 0;
  normal_write = 0;
  server_read = 0;
  server_write = 0;
  write_ops = 0;
  commit_ops = 0;
  read_plus_ops = 0;
  sends = 0;
  recvs = 0;
  bad_xids = 0;
  found = false;
}

abbrev keep_uint : ℕ × Option Error → List ℕ → List ℕ
keep_uint (n, none) ns = n ∷ ns
keep_uint (n, some e) ns = ns

unfoldable pub keep_uints : List Bytes → List ℕ
keep_uints [] = []
keep_uints (f ∷ fs) = keep_uint (parse_uint f) (keep_uints fs)

unfoldable pub uint_fields : Bytes → List ℕ
unfolding keep_uints
uint_fields s = keep_uints (fields s)

-- `len(nums) >= 6`
unfoldable pub bytes_stats : NfsSnap → List ℕ → NfsSnap
bytes_stats snap (n0 ∷ n1 ∷ n2 ∷ n3 ∷ n4 ∷ n5 ∷ _) = record snap {
  normal_read = n0;
  normal_write = n1;
  server_read = n4;
  server_write = n5;
  found = true;
}
bytes_stats snap _ = snap

-- `len(nums) >= 7` and `len(nums) >= 8`
unfoldable pub xprt_stats : NfsSnap → List ℕ → NfsSnap
xprt_stats snap (n0 ∷ n1 ∷ n2 ∷ n3 ∷ n4 ∷ n5 ∷ n6 ∷ n7 ∷ _) = record snap {
  sends = n5;
  recvs = n6;
  bad_xids = n7;
}
xprt_stats snap (n0 ∷ n1 ∷ n2 ∷ n3 ∷ n4 ∷ n5 ∷ n6 ∷ _) = record snap { sends = n5; recvs = n6 }
xprt_stats snap _ = snap

unfoldable pub write_stats : NfsSnap → List ℕ → NfsSnap
write_stats snap (n ∷ _) = record snap { write_ops = n }
write_stats snap _ = snap

unfoldable pub commit_stats : NfsSnap → List ℕ → NfsSnap
commit_stats snap (n ∷ _) = record snap { commit_ops = n }
commit_stats snap _ = snap

unfoldable pub read_plus_stats : NfsSnap → List ℕ → NfsSnap
read_plus_stats snap (n ∷ _) = record snap { read_plus_ops = n }
read_plus_stats snap _ = snap

-- The switch on a line of the mount's section, with its white space trimmed.
unfoldable pub stat_line : NfsSnap → Bytes → NfsSnap
stat_line snap line =
    if has_prefix line (ascii "bytes:")
    then bytes_stats snap (uint_fields (trim_space (trim_prefix line (ascii "bytes:"))))
    else if has_prefix line (ascii "xprt:")
    then xprt_stats snap (uint_fields line)
    else if has_prefix line (ascii "WRITE:")
    then write_stats snap (uint_fields line)
    else if has_prefix line (ascii "COMMIT:")
    then commit_stats snap (uint_fields line)
    else if has_prefix line (ascii "READ_PLUS:")
    then read_plus_stats snap (uint_fields line)
    else snap

abbrev pub is_device : Bytes → Bool
is_device line = has_prefix line (ascii "device ")

-- The loop; `inside` is the variable `in`.
unfoldable pub snap_lines : Bytes → Bool → NfsSnap → List Bytes → NfsSnap
snap_lines want inside snap [] = snap
snap_lines want true snap (line ∷ ls) = elim (is_device line) [
  | true ↦ snap
  | false ↦ snap_lines want true (stat_line snap (trim_space line)) ls
]
snap_lines want false snap (line ∷ ls) =
    snap_lines want (is_device line && contains line want) snap ls

abbrev pub wanted : Bytes → Bytes
wanted mountpoint = ascii " mounted on " ++ (mountpoint ++ ascii " with fstype nfs")

unfoldable pub read_nfs_snap : Bytes → Result Bytes → NfsSnap
unfolding snap_lines stat_line uint_fields bytes_stats xprt_stats write_stats commit_stats
    read_plus_stats
read_nfs_snap mountpoint (err e) = no_snap
read_nfs_snap mountpoint (ok text) = snap_lines (wanted mountpoint) false no_snap (scan_lines text)

unfoldable pub nfs_delta : NfsSnap → NfsSnap → NfsSnap
nfs_delta a b = record {
  normal_read = sub64 b.normal_read a.normal_read;
  normal_write = sub64 b.normal_write a.normal_write;
  server_read = sub64 b.server_read a.server_read;
  server_write = sub64 b.server_write a.server_write;
  write_ops = sub64 b.write_ops a.write_ops;
  commit_ops = sub64 b.commit_ops a.commit_ops;
  read_plus_ops = sub64 b.read_plus_ops a.read_plus_ops;
  sends = sub64 b.sends a.sends;
  recvs = sub64 b.recvs a.recvs;
  bad_xids = sub64 b.bad_xids a.bad_xids;
  found = a.found && b.found;
}
