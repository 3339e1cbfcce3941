-- ===== src/Nfs/Stats/Sections.antt =====
-- `readNFSSnap` reads one section of /proc/self/mountstats, and what it reads are uint64 numbers.
use nixos_fleet.Base.{
  ℕ, ◌<◌, true, false, ◌&&◌, List, [], ◌∷◌, ◌≡◌, ◌∙◌, refl, if◌then◌else◌, All, arith, Bytes, ascii,
  ok, Bool-cases, inl, inr,
}
use nixos_fleet.Base.Word.{u64_mod}
use nixos_fleet.Nfs.Stats.{
  NfsSnap, no_snap, keep_uints, uint_fields, stat_line, is_device, snap_lines, wanted,
  read_nfs_snap, bytes_stats, xprt_stats, write_stats, commit_stats, read_plus_stats,
}
use nixos_fleet.Text.Cut.{trim_prefix, contains}
use nixos_fleet.Text.Lines.{scan_lines}
use nixos_fleet.Text.Number.{parse_uint-lt}
use nixos_fleet.Text.Words.{fields, trim_space}

-- The lines up to the next device.
abbrev pub until_device : List Bytes → List Bytes
until_device [] = []
until_device (line ∷ ls) = if is_device line then [] else line ∷ until_device ls

-- The lines of the first section whose device line holds `want`.
abbrev pub section : Bytes → List Bytes → List Bytes
section want [] = []
section want (line ∷ ls) =
    if is_device line && contains line want then until_device ls else section want ls

abbrev pub read_section : NfsSnap → List Bytes → NfsSnap
read_section snap [] = snap
read_section snap (line ∷ ls) = read_section (stat_line snap (trim_space line)) ls

snap_lines-until_device :
    (want : Bytes) (ls : List Bytes) (snap : NfsSnap)
    → snap_lines want true snap ls ≡ read_section snap (until_device ls)
unfolding snap_lines
snap_lines-until_device want [] snap = refl
snap_lines-until_device want (line ∷ ls) snap = elim (Bool-cases (is_device line)) [
  | inl new ↦ rw (new, snap_lines)
  | inr old ↦
      rw (old, snap_lines) (snap_lines-until_device want ls (stat_line snap (trim_space line)))
]

snap_lines-section :
    (want : Bytes) (ls : List Bytes) (snap : NfsSnap)
    → snap_lines want false snap ls ≡ read_section snap (section want ls)
unfolding snap_lines
snap_lines-section want [] snap = refl
snap_lines-section want (line ∷ ls) snap =
    elim (Bool-cases (is_device line && contains line want)) [
      | inl here ↦ rw here (snap_lines-until_device want ls snap)
      | inr off ↦ rw off (snap_lines-section want ls snap)
    ]

-- `readNFSSnap` is the switch on the lines of one section, from the zero value: the first section
-- whose device line names the mount point with an nfs type, up to the next device line. Lines
-- of other sections change nothing, and with no such section the result is the zero value.
pub read_nfs_snap-section :
    (mountpoint text : Bytes)
    → read_nfs_snap mountpoint (ok text)
      ≡ read_section no_snap (section (wanted mountpoint) (scan_lines text))
read_nfs_snap-section mountpoint text =
    start ∙ snap_lines-section (wanted mountpoint) (scan_lines text) no_snap
  where
    start :
        read_nfs_snap mountpoint (ok text)
        ≡ snap_lines (wanted mountpoint) false no_snap (scan_lines text)
    start = unfold read_nfs_snap in refl

-- Every counter is a uint64.
pub record IsUint64 (s : NfsSnap) : Type 0 where
  pub normal_read : s.normal_read < u64_mod
  pub normal_write : s.normal_write < u64_mod
  pub server_read : s.server_read < u64_mod
  pub server_write : s.server_write < u64_mod
  pub write_ops : s.write_ops < u64_mod
  pub commit_ops : s.commit_ops < u64_mod
  pub read_plus_ops : s.read_plus_ops < u64_mod
  pub sends : s.sends < u64_mod
  pub recvs : s.recvs < u64_mod
  pub bad_xids : s.bad_xids < u64_mod

abbrev AllUint64 : List ℕ → Type 0
AllUint64 = All λ n. n < u64_mod

keep_uints-AllUint64 : (fs : List Bytes) → AllUint64 (keep_uints fs)
unfolding keep_uints
keep_uints-AllUint64 [] = tt
keep_uints-AllUint64 (f ∷ fs) = ground (arith, parse_uint-lt f, keep_uints-AllUint64 fs)

uint_fields-AllUint64 : (s : Bytes) → AllUint64 (uint_fields s)
unfolding uint_fields
uint_fields-AllUint64 s = keep_uints-AllUint64 (fields s)

bytes_stats-IsUint64 :
    (s : NfsSnap) (ns : List ℕ) → IsUint64 s → AllUint64 ns → IsUint64 (bytes_stats s ns)
unfolding bytes_stats
bytes_stats-IsUint64 s ns v h = ground arith

xprt_stats-IsUint64 :
    (s : NfsSnap) (ns : List ℕ) → IsUint64 s → AllUint64 ns → IsUint64 (xprt_stats s ns)
unfolding xprt_stats
xprt_stats-IsUint64 s ns v h = ground arith

stat_line-IsUint64 : (s : NfsSnap) (line : Bytes) → IsUint64 s → IsUint64 (stat_line s line)
unfolding stat_line write_stats commit_stats read_plus_stats
stat_line-IsUint64 s line v =
    let ns = uint_fields line in
    let bs = uint_fields (trim_space (trim_prefix line (ascii "bytes:"))) in
    let ns-AllUint64 = uint_fields-AllUint64 line in
    let bs-AllUint64 = uint_fields-AllUint64 (trim_space (trim_prefix line (ascii "bytes:"))) in
    ground
      (arith, bytes_stats-IsUint64 s bs v bs-AllUint64, xprt_stats-IsUint64 s ns v ns-AllUint64)

read_section-IsUint64 : (ls : List Bytes) (s : NfsSnap) → IsUint64 s → IsUint64 (read_section s ls)
read_section-IsUint64 [] s v = v
read_section-IsUint64 (line ∷ ls) s v =
    read_section-IsUint64 ls (stat_line s (trim_space line))
      (stat_line-IsUint64 s (trim_space line) v)

-- Every counter that `readNFSSnap` returns is a uint64, whatever the text.
pub read_nfs_snap-IsUint64 :
    (mountpoint text : Bytes) → IsUint64 (read_nfs_snap mountpoint (ok text))
read_nfs_snap-IsUint64 mountpoint text =
    rw (read_nfs_snap-section mountpoint text)
      (read_section-IsUint64 (section (wanted mountpoint) (scan_lines text)) no_snap (omega arith))
