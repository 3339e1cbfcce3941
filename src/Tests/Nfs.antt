-- ===== src/Tests/Nfs.antt =====
-- nfs.go at small inputs.
use nixos_fleet.Base.{
  ◌-◌, ◌&&◌, true, List, [], ◌∷◌, ◌++◌, ◌≡◌, refl, none, some, arith, Bytes, ascii,
  not_in_proc_mounts, Result, ok, inl, inr, All,
}
use nixos_fleet.Base.Float.{Micros, micros_float}
use nixos_fleet.Base.Word.{u64_mod}
use nixos_fleet.Measure.Disk.{Statfs}
use nixos_fleet.Nfs.Mounts.{
  named, mount_info, with_size, dest_size, findmnt_fs_type, parse_proc_mounts,
}
use nixos_fleet.Nfs.Mounts.Last.{
  IsElse, at_addr, last_addr, parse_proc_mounts-last, parse_proc_mounts-absent,
}
use nixos_fleet.Nfs.Stats.{NfsSnap, no_snap, read_nfs_snap, wanted, nfs_delta}
use nixos_fleet.Nfs.Stats.Growth.{reading, grown, nfs_delta-grown}
use nixos_fleet.Nfs.Stats.Sections.{
  IsUint64, section, read_section, read_nfs_snap-section, read_nfs_snap-IsUint64,
}
use nixos_fleet.Text.Cut.{has_prefix, trim_prefix, cut_prefix, contains, split}
use nixos_fleet.Text.Lines.{scan_lines}
use nixos_fleet.Text.Number.{parse_uint, parse_digits}
use nixos_fleet.Text.Render.{Spells, last, word}
use nixos_fleet.Text.Words.{fields, fields_from, space_width, trim_space}

abbrev stats : Bytes
stats =
    ascii
      "device x mounted on / with fstype ext4\ndevice s:/m mounted on /m with fstype nfs4 statvers=1.1\n"
    ++ ascii
        "\tbytes:\t1 2 3 4 5 6 7 8\n\txprt:\ttcp 0 1 2 3 4 11 12 1\n\tWRITE: 9 9\ndevice y mounted on /y\n\tbytes: 0 0 0 0 0 0"

abbrev snap : NfsSnap
snap = record no_snap {
  normal_read = 1;
  normal_write = 2;
  server_read = 5;
  server_write = 6;
  write_ops = 9;
  sends = 11;
  recvs = 12;
  bad_xids = 1;
  found = true;
}

read_nfs_snap-stats : read_nfs_snap (ascii "/m") (ok stats) ≡ snap
unfolding read_nfs_snap scan_lines has_prefix trim_prefix cut_prefix contains trim_space fields
    fields_from space_width parse_uint parse_digits
read_nfs_snap-stats = refl

read_nfs_snap-section_example :
    read_nfs_snap (ascii "/m") (ok stats)
    ≡ read_section no_snap (section (wanted (ascii "/m")) (scan_lines stats))
read_nfs_snap-section_example = read_nfs_snap-section (ascii "/m") stats

read_nfs_snap-stats-IsUint64 : IsUint64 (read_nfs_snap (ascii "/m") (ok stats))
read_nfs_snap-stats-IsUint64 = read_nfs_snap-IsUint64 (ascii "/m") stats

-- Counters of which one wraps.
abbrev before : NfsSnap
before = record no_snap { normal_read = u64_mod - 1; sends = 4; found = true }

abbrev growth : NfsSnap
growth = record no_snap { normal_read = 3; sends = 1; found = true }

nfs_delta-grown_example :
    nfs_delta (reading before) (reading (grown before growth))
    ≡ record growth { found = true && true }
nfs_delta-grown_example = nfs_delta-grown before growth (ground arith)

abbrev mounts : Bytes
mounts =
    ascii
      "s:/old /m nfs4 addr=10.0.0.1\ns:/m /m nfs4 rw,addr=100.64.0.9 0 0\nproc /proc proc rw 0 0\nx\n"

abbrev mount_line : Bytes
mount_line = ascii "s:/m /m nfs4 rw,addr=100.64.0.9 0 0"

abbrev rest_words : List Bytes
rest_words = ascii "0" ∷ ascii "0" ∷ []

abbrev lines_before : List Bytes
lines_before = ascii "s:/old /m nfs4 addr=10.0.0.1" ∷ []

abbrev lines_after : List Bytes
lines_after = ascii "proc /proc proc rw 0 0" ∷ ascii "x" ∷ []

abbrev statfs : Bytes → Result Statfs
statfs path = ok (record { kind = 0x6969; bsize = 1024; blocks = 4096; bavail = 2048 })

mounts-lines : scan_lines mounts ≡ lines_before ++ (mount_line ∷ lines_after)
unfolding scan_lines
mounts-lines = refl

mount_line-Spells :
    Spells mount_line
      (ascii "s:/m" ∷ ascii "/m" ∷ ascii "nfs4" ∷ ascii "rw,addr=100.64.0.9" ∷ rest_words)
mount_line-Spells = word b' ' (ground arith) refl (
    word b' ' (ground arith) refl (
      word b' ' (ground arith) refl
        (word b' ' (ground arith) refl (word b' ' (ground arith) refl (last (ground arith))))))

proc-IsElse : IsElse (ascii "/m") (ascii "proc /proc proc rw 0 0")
unfolding fields fields_from space_width
proc-IsElse = inr λ e. cc

short-IsElse : IsElse (ascii "/m") (ascii "x")
unfolding fields fields_from space_width
short-IsElse = inl (omega arith)

parse_proc_mounts-last_example :
    let info =
      mount_info {F = Micros}
        (ascii "/m")
        (ascii "s:/m")
        (named (ascii "nfs4"))
        (ascii "rw,addr=100.64.0.9") in
    let found = at_addr info (last_addr [] (split b',' (ascii "rw,addr=100.64.0.9"))) in
    parse_proc_mounts statfs (ascii "/m") (ok mounts)
    ≡ (with_size found (dest_size statfs (ascii "/m")), none)
parse_proc_mounts-last_example =
    parse_proc_mounts-last statfs (ascii "/m") mounts lines_before mount_line lines_after
      mounts-lines mount_line-Spells (proc-IsElse, (short-IsElse, tt))

-- The address is read, and marked as Tailscale.
last_addr-options : last_addr [] (split b',' (ascii "rw,addr=100.64.0.9")) ≡ ascii "100.64.0.9"
unfolding split cut_prefix
last_addr-options = refl

abbrev other_mounts : Bytes
other_mounts = ascii "proc /proc proc rw 0 0\nx\n"

other_mounts-IsElse : All (IsElse (ascii "/m")) (scan_lines other_mounts)
unfolding scan_lines
other_mounts-IsElse = (proc-IsElse, (short-IsElse, tt))

parse_proc_mounts-absent_example :
    parse_proc_mounts {F = Micros} statfs (ascii "/m") (ok other_mounts)
    ≡ (mount_info (ascii "/m") [] (findmnt_fs_type statfs (ascii "/m")) [], some not_in_proc_mounts)
parse_proc_mounts-absent_example =
    parse_proc_mounts-absent statfs (ascii "/m") other_mounts other_mounts-IsElse
