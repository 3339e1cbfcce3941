-- ===== src/Measure/Disk/Reading.antt =====
-- What `read_disk` takes from /sys/block/<dev>/stat.
use nixos_fleet.Base.{ℕ, ◌≤◌, List, ◌≡◌, refl, ◌∙◌, length, get_or, arith, Bytes, ok}
use nixos_fleet.Measure.Cpu.Reading.{
  AllWrites, AllWrites-AllParse, get_or-AllParse, length-AllParse,
}
use nixos_fleet.Measure.Disk.{disk_fields, read_disk}
use nixos_fleet.Text.Words.{fields}
use nixos_fleet.Text.Render.{Spells, fields-Spells}

disk_fields-AllWrites :
    (dev : Bytes) (words : List Bytes) (ns : List ℕ)
    → AllWrites words ns
    → 7 ≤ length ns
    → disk_fields dev words
      ≡ ok (record { sectors_read = get_or ns 2 0; sectors_written = get_or ns 6 0 })
unfolding disk_fields
disk_fields-AllWrites dev words ns w b =
    let h = AllWrites-AllParse words ns w in
    ground (
      arith,
      get_or-AllParse words ns 2 (omega arith) h,
      get_or-AllParse words ns 6 b h,
      length-AllParse words ns h,
    )

read_disk-fields : (dev text : Bytes) → read_disk dev (ok text) ≡ disk_fields dev (fields text)
unfolding read_disk
read_disk-fields dev text = refl

-- A file of at least seven decimal uint64 numbers with white space between is read as its third
-- and its seventh number, for every device.
pub read_disk-Spells :
    (dev : Bytes) {text : Bytes} {words : List Bytes} (ns : List ℕ)
    → Spells text words
    → AllWrites words ns
    → 7 ≤ length ns
    → read_disk dev (ok text)
      ≡ ok (record { sectors_read = get_or ns 2 0; sectors_written = get_or ns 6 0 })
read_disk-Spells dev {text} {words} ns s w b =
    read_disk-fields dev text ∙ rw (fields-Spells s) (disk_fields-AllWrites dev words ns w b)
