-- ===== src/Print/Phases.antt =====
-- main.go: `printPhase`; directplay.go: `printDirectPlay`.
use nixos_fleet.Base.{
  not, ◌&&◌, ◌||◌, [], ◌∷◌, ◌++◌, Option, none, some, map, if◌then◌else◌, Bytes, ascii,
}
use nixos_fleet.Base.Float.{Float64, of_uint}
use nixos_fleet.Direct.Phase.{DirectPlayPhase}
use nixos_fleet.Direct.Report.{DirectPlayReport}
use nixos_fleet.Health.{HealthSummary}
use nixos_fleet.Measure.Rates.{mib}
use nixos_fleet.Nfs.Stats.{NfsSnap}
use nixos_fleet.Print.{fs_text, indent}
use nixos_fleet.Print.Notes.{direct_note}
use nixos_fleet.Print.Reports.{newline, unless_empty, note_line}
use nixos_fleet.Text.Cut.{equal}
use nixos_fleet.Text.Format.{Verbs, concat, decimal, bool_text}
use nixos_fleet.Transcode.Phase.{PhaseResult}

module _ {ℓ} {F : Type ℓ} ⦃f : Float64 F⦄ (v : Verbs F) where
  abbrev found_nfs : (NfsSnap → Bytes) → Option NfsSnap → Bytes
  found_nfs text none = []
  found_nfs text (some n) = if n.found then text n else []

  -- Piece by piece: the destination, the rates, the sizes, the NFS counters and the health poll.
  unfoldable pub dest_text : PhaseResult F → Bytes
  dest_text p = concat (
      ascii "  dest="
      ∷ p.dest
      ∷ ascii " fstype="
      ∷ fs_text p.fs_type
      ∷ ascii " throttle(-re)="
      ∷ bool_text p.realtime_throttle
      ∷ ascii " wall="
      ∷ v.fixed 1 p.wall_seconds
      ∷ ascii "s ffmpeg="
      ∷ p.ffmpeg_exit
      ∷ newline
      ∷ [])

  unfoldable pub rates_text : PhaseResult F → Bytes
  rates_text p = concat (
      ascii "  iowait avg="
      ∷ v.fixed 2 p.iowait_pct
      ∷ ascii "% max="
      ∷ v.fixed 2 p.iowait_pct_max
      ∷ ascii "%  sda read="
      ∷ v.fixed 1 p.sda_mib_read
      ∷ ascii " MiB write="
      ∷ v.fixed 1 p.sda_mib_written
      ∷ ascii " MiB\n"
      ∷ [])

  -- The sign before `=` is U+0394.
  abbrev delta_text : F → Bytes
  delta_text d = (0xCE ∷ 0x94 ∷ ascii "=") ++ v.signed 1 d

  unfoldable pub sizes_text : PhaseResult F → Bytes
  sizes_text p = concat (
      ascii "  dest="
      ∷ v.fixed 1 p.dest_mib
      ∷ ascii " MiB ("
      ∷ decimal p.files
      ∷ ascii " files)  root avail "
      ∷ delta_text p.root_avail_delta_mib
      ∷ ascii " MiB (after "
      ∷ v.fixed 1 p.root_avail_after_mib
      ∷ ascii " MiB)  dest avail "
      ∷ delta_text p.dest_avail_delta_mib
      ∷ ascii " MiB\n"
      ∷ [])

  unfoldable pub phase_nfs_text : NfsSnap → Bytes
  phase_nfs_text n = concat (
      ascii "  nfs write="
      ∷ v.fixed 1 (mib n.server_write)
      ∷ ascii " MiB (ops="
      ∷ decimal n.write_ops
      ∷ ascii " commit="
      ∷ decimal n.commit_ops
      ∷ ascii ")  server read="
      ∷ v.fixed 1 (mib n.server_read)
      ∷ ascii " MiB  badxid="
      ∷ decimal n.bad_xids
      ∷ newline
      ∷ [])

  abbrev polled_text : HealthSummary F → Bytes
  polled_text h = concat (
      ascii "  jellyfin HTTP ok="
      ∷ decimal h.good
      ∷ ascii " fail="
      ∷ decimal h.fail
      ∷ ascii " avg="
      ∷ v.fixed 1 h.avg_millis
      ∷ ascii "ms max="
      ∷ v.fixed 1 h.max_millis
      ∷ ascii "ms"
      ∷ unless_empty h.last_error (ascii " last_err=" ++ h.last_error)
      ∷ newline
      ∷ [])

  unfoldable pub health_text : Option (HealthSummary F) → Bytes
  health_text none = []
  health_text (some h) = unless_empty h.url (polled_text h)

  unfoldable pub tail_text : PhaseResult F → Bytes
  tail_text p =
      if not (equal p.ffmpeg_tail []) && not (equal p.name (ascii "idle"))
      then ascii "  ffmpeg tail:\n" ++ (indent p.ffmpeg_tail (ascii "    ") ++ newline)
      else []

  unfoldable pub print_phase : PhaseResult F → Bytes
  print_phase p = concat (
      concat (ascii "\n== " ∷ p.name ∷ ascii " ==\n" ∷ [])
      ∷ dest_text p
      ∷ rates_text p
      ∷ sizes_text p
      ∷ found_nfs phase_nfs_text p.nfs
      ∷ health_text p.health
      ∷ tail_text p
      ∷ [])

  unfoldable pub windows_text : DirectPlayPhase F → Bytes
  windows_text p = concat (
      ascii "     windows min="
      ∷ v.fixed 1 p.min_window_mbps
      ∷ ascii " p5="
      ∷ v.fixed 1 p.p5_window_mbps
      ∷ ascii " max="
      ∷ v.fixed 1 p.max_window_mbps
      ∷ ascii " Mbps\n"
      ∷ [])

  unfoldable pub player_text : DirectPlayPhase F → Bytes
  player_text p = concat (
      ascii "     preroll="
      ∷ v.fixed 2 p.preroll_seconds
      ∷ ascii "s playing="
      ∷ v.fixed 1 p.playing_seconds
      ∷ ascii "s stalls="
      ∷ decimal p.stall_count
      ∷ ascii " ("
      ∷ v.fixed 2 p.stall_seconds
      ∷ ascii "s)\n"
      ∷ [])

  unfoldable pub copy_text : DirectPlayPhase F → Bytes
  copy_text p = concat (
      ascii "     out_time="
      ∷ v.fixed 1 p.out_time_seconds
      ∷ ascii "s speed_min="
      ∷ v.fixed 2 p.speed_min
      ∷ ascii "x stalls="
      ∷ decimal p.stall_count
      ∷ ascii " lag="
      ∷ v.fixed 2 p.stall_seconds
      ∷ ascii "s\n"
      ∷ [])

  abbrev direct_nfs_text : NfsSnap → Bytes
  direct_nfs_text n = concat (
      ascii "     nfs read="
      ∷ v.fixed 1 (mib n.server_read)
      ∷ ascii " MiB badxid="
      ∷ decimal n.bad_xids
      ∷ newline
      ∷ [])

  -- The body of the loop over the phases.
  unfoldable pub direct_phase_text : DirectPlayPhase F → Bytes
  direct_phase_text p =
      let is = λ (k : Bytes). equal p.kind k in
      concat (
        concat (
          ascii "  -- "
          ∷ p.name
          ∷ ascii " ("
          ∷ p.kind
          ∷ ascii ") pass="
          ∷ bool_text p.pass
          ∷ ascii " wall="
          ∷ v.fixed 1 p.wall_seconds
          ∷ ascii "s read="
          ∷ v.fixed 1 p.read_mib
          ∷ ascii " MiB avg="
          ∷ v.fixed 1 p.avg_mbps
          ∷ ascii " Mbps\n"
          ∷ [])
        ∷ (if is (ascii "sequential") || is (ascii "player") then windows_text p else [])
        ∷ (if is (ascii "player") then player_text p else [])
        ∷ (if is (ascii "ffmpeg") then copy_text p else [])
        ∷ found_nfs direct_nfs_text p.nfs
        ∷ unless_empty p.error (concat (ascii "     err=" ∷ p.error ∷ newline ∷ []))
        ∷ [])

  abbrev gib : F → F
  gib n = f.div (f.div (f.div n (of_uint 1024)) (of_uint 1024)) (of_uint 1024)

  unfoldable pub print_direct_play : DirectPlayReport F → Bytes
  print_direct_play r = concat (
      ascii "== direct play ==\n"
      ∷ concat (ascii "  input=" ∷ r.input ∷ newline ∷ [])
      ∷ concat (
          ascii "  size="
          ∷ v.fixed 1 (gib (of_uint r.file_size))
          ∷ ascii " GiB duration="
          ∷ v.fixed 0 r.duration_seconds
          ∷ ascii "s avg="
          ∷ v.fixed 1 r.avg_mbps
          ∷ ascii " Mbps drain="
          ∷ v.fixed 0 r.drain_mbps
          ∷ ascii " Mbps buffer="
          ∷ v.fixed 0 r.buffer_seconds
          ∷ ascii "s pass="
          ∷ bool_text r.pass
          ∷ newline
          ∷ [])
      ∷ concat (map direct_phase_text r.phases)
      ∷ concat (map (λ n. note_line (direct_note v n)) r.notes)
      ∷ [])
