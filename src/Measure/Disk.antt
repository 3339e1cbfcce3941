-- ===== src/Measure/Disk.antt =====
-- measure.go: `diskTicks` and `readDisk`, over what a read of /sys/block/<dev>/stat gave, and
-- `rootAvail` over statfs of "/".
pub mod Reading
use nixos_fleet.Base.{
  ℕ, suc, ltb, Bool, List, [], ◌∷◌, if◌then◌else◌, length, get_or, Bytes, ascii, Result, ok, err,
  short_diskstat, ◌>>=◌,
}
use nixos_fleet.Base.Word.{mul64}
use nixos_fleet.Text.Number.{parse_uint, checked}
use nixos_fleet.Text.Words.{fields}

pub record DiskTicks : Type 0 where
  pub sectors_read : ℕ
  pub sectors_written : ℕ

unfoldable pub disk_fields : Bytes → List Bytes → Result DiskTicks
disk_fields dev fs = if ltb (length fs) 7 then err (short_diskstat dev) else do
  sectors ← checked (parse_uint (get_or fs 2 []))
  written ← checked (parse_uint (get_or fs 6 []))
  ok (record { sectors_read = sectors; sectors_written = written })

unfoldable pub read_disk : Bytes → Result Bytes → Result DiskTicks
unfolding disk_fields
read_disk dev file = do text ← file; disk_fields dev (fields text)

-- The fields of syscall.Statfs_t that the code reads.
pub record Statfs : Type 0 where
  pub kind : ℕ
  pub bsize : ℕ
  pub blocks : ℕ
  pub bavail : ℕ

unfoldable pub root_avail : (Bytes → Result Statfs) → Result ℕ
root_avail statfs = do st ← statfs (ascii "/"); ok (mul64 st.bavail st.bsize)
