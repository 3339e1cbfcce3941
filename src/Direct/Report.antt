-- ===== src/Direct/Report.antt =====
-- directplay.go: `runDirectPlay`, which runs the phases, judges them and reports.
pub mod Verdict
pub mod Kinds
pub mod Tags
use nixos_fleet.Base.{
  ℕ, ◌+◌, ◌^◌, ltb, ◌==◌, Bool, true, false, not, ◌&&◌, List, [], ◌∷◌, ◌++◌, Option, none, some,
  if◌then◌else◌, Bytes, ascii, Error, Result,
}
use nixos_fleet.Base.Float.{Float64, of_uint, seconds}
use nixos_fleet.Base.Int.{ℤ, pos, ltb_ℤ}
use nixos_fleet.Direct.Copy.{CopyEnv, run_ffmpeg_copy}
use nixos_fleet.Direct.Media.{Media, probe_media, drop_caches}
use nixos_fleet.Direct.Phase.{DirectPlayPhase, Run, finished, waiting, panicked}
use nixos_fleet.Direct.Player.{PlayerEnv, run_player_sim}
use nixos_fleet.Direct.Sequential.{ReadEnv, run_sequential_max}
use nixos_fleet.Measure.Disk.{Statfs}
use nixos_fleet.Nfs.Mounts.{FsType, named, unknown_magic, findmnt_fs_type}
use nixos_fleet.Text.Cut.{equal}

pub record DirectPlayOpts {ℓ} (F : Type ℓ) : Type ℓ where
  pub input : Bytes
  pub ffmpeg : Bytes
  pub ffprobe : Bytes
  pub media_mount : Bytes
  pub run_for : ℤ
  pub seek : ℤ
  pub drain_mbps : F
  pub buffer : ℤ
  pub drop_cache : Bool

-- The texts of `Notes`.
pub data Note {ℓ} (F : Type ℓ) : Type ℓ where
  not_nfs : (mount : Bytes) → FsType → Note F
  drop_failed : (why : Bytes) → Error → Note F
  dropped : (why : Bytes) → Note F
  drains : (mbps : F) → (buffer avg : F) → Note F
  about_reads about_copies : Note F

pub record DirectPlayReport {ℓ} (F : Type ℓ) : Type ℓ where
  pub input : Bytes
  pub file_size : ℕ
  pub duration_seconds : F
  pub avg_mbps : F
  pub drain_mbps : F
  pub buffer_seconds : F
  pub media_mount : Bytes
  pub pass : Bool
  pub phases : List (DirectPlayPhase F)
  pub notes : List (Note F)

-- What the run meets. `sync` and `write` are the answers of the two calls of dropCaches, and `fast`
-- and `paced` what ffmpeg does with its arguments.
pub record DirectEnv : Type 0 where
  pub stat : Result ℕ
  pub output : Bytes → Result Bytes
  pub statfs : Bytes → Result Statfs
  pub sync_0 : Option Error
  pub write_0 : Option Error
  pub sync_1 : Option Error
  pub write_1 : Option Error
  pub player : PlayerEnv
  pub sequential : ReadEnv
  pub fast : Bytes → List Bytes → CopyEnv
  pub paced : Bytes → List Bytes → CopyEnv

abbrev pub is_nfs : FsType → Bool
is_nfs (named t) = equal t (ascii "nfs")
is_nfs (unknown_magic n) = false

abbrev pub bind_run {ℓ κ} : {A : Type ℓ} {B : Type κ} → Run A → (A → Run B) → Run B
bind_run (finished a) next = next a
bind_run waiting next = waiting
bind_run panicked next = panicked

module _ {ℓ} {F : Type ℓ} ⦃f : Float64 F⦄ where
  abbrev pub is_clean : DirectPlayPhase F → Bool
  is_clean ph = equal ph.error []

  unfoldable pub judge_player : DirectPlayPhase F → DirectPlayPhase F
  judge_player ph = record ph {
    pass = is_clean ph && (ph.stall_count == 0 && f.lt (of_uint 0) ph.playing_seconds);
  }

  unfoldable pub judge_sequential : F → DirectPlayPhase F → DirectPlayPhase F
  judge_sequential drain ph = record ph { pass = is_clean ph && f.le drain ph.avg_mbps }

  -- At least 95 % of the media time was copied.
  abbrev pub is_long : ℤ → DirectPlayPhase F → Bool
  is_long run_for ph = f.le (f.mul (seconds run_for) (f.decimal 95 2)) ph.out_time_seconds

  unfoldable pub judge_fast : ℤ → DirectPlayPhase F → DirectPlayPhase F
  judge_fast run_for ph = record ph { pass = is_clean ph && is_long run_for ph }

  unfoldable pub judge_paced : ℤ → DirectPlayPhase F → DirectPlayPhase F
  judge_paced run_for ph = record ph {
    pass =
        if f.lt (of_uint 2) ph.stall_seconds
        then false
        else is_clean ph && (ph.stall_count == 0 && is_long run_for ph);
  }

  -- The loop over the phases.
  unfoldable pub all_pass : List (DirectPlayPhase F) → Bool
  all_pass [] = true
  all_pass (p ∷ ps) = if not p.pass then false else all_pass ps

  unfoldable pub average_mbps : Media F → F
  average_mbps m =
      if ltb 0 m.bit_rate
      then f.div (of_uint m.bit_rate) (of_uint (10 ^ 6))
      else if f.lt (of_uint 0) m.duration && ltb 0 m.size
      then f.div (f.div (f.mul (of_uint 8) (of_uint m.size)) (of_uint (10 ^ 6))) m.duration
      else of_uint 0

  -- Where the reads of the file begin, by the place to seek to and the file's length in seconds.
  unfoldable pub read_offset : ℤ → Media F → ℤ
  read_offset seek m =
      let frac = f.div (seconds seek) m.duration in
      if ltb_ℤ (pos 0) seek
        && f.lt (of_uint 0) m.duration
        && (f.lt (of_uint 0) frac && f.lt frac (f.decimal 9 1))
      then f.trunc (f.mul (of_uint m.size) frac)
      else pos 0

  -- Where ffmpeg begins.
  unfoldable pub copy_seek : ℤ → Media F → ℤ
  copy_seek seek m =
      if f.lt (of_uint 0) m.duration && f.le m.duration (seconds seek) then pos 0 else seek

  -- The closure `drop`.
  unfoldable pub drop_note : Bool → Bytes → Option Error → List (Note F)
  drop_note false why e = []
  drop_note true why none = dropped why ∷ []
  drop_note true why (some e) = drop_failed why e ∷ []

  -- The phases in order, judged, each behind those before it; `drain` is the rate in Mbps.
  unfoldable pub behind_fast :
      DirectPlayOpts F
      → DirectEnv
      → Media F
      → F
      → (player sequential fast : DirectPlayPhase F) → Run (List (DirectPlayPhase F))
  behind_fast o env m drain player sequential fast =
      bind_run (run_ffmpeg_copy o.ffmpeg o.input (copy_seek o.seek m) o.run_for true env.paced)
        λ paced. finished (
          judge_player player
          ∷ judge_sequential drain sequential
          ∷ judge_fast o.run_for fast
          ∷ judge_paced o.run_for paced
          ∷ [])

  unfoldable pub behind_sequential :
      DirectPlayOpts F
      → DirectEnv
      → Media F
      → F
      → (player sequential : DirectPlayPhase F) → Run (List (DirectPlayPhase F))
  behind_sequential o env m drain player sequential =
      if equal o.ffmpeg []
      then finished (judge_player player ∷ judge_sequential drain sequential ∷ [])
      else bind_run (run_ffmpeg_copy o.ffmpeg o.input (copy_seek o.seek m) o.run_for false env.fast)
          (behind_fast o env m drain player sequential)

  unfoldable pub behind_player :
      DirectPlayOpts F
      → DirectEnv
      → Media F
      → F
      → DirectPlayPhase F
      → Run (List (DirectPlayPhase F))
  behind_player o env m drain player =
      bind_run (run_sequential_max (read_offset o.seek m) o.run_for env.sequential)
        (behind_sequential o env m drain player)

  unfoldable pub run_phases :
      DirectPlayOpts F → DirectEnv → Media F → F → Run (List (DirectPlayPhase F))
  run_phases o env m drain =
      let drain_bps = f.div (f.mul drain (of_uint (10 ^ 6))) (of_uint 8) in
      bind_run (run_player_sim (read_offset o.seek m) o.run_for drain_bps o.buffer env.player)
        (behind_player o env m drain)

  abbrev pub first_report : DirectPlayOpts F → DirectPlayReport F
  first_report o = record {
    input = o.input;
    file_size = 0;
    duration_seconds = of_uint 0;
    avg_mbps = of_uint 0;
    drain_mbps = o.drain_mbps;
    buffer_seconds = seconds o.buffer;
    media_mount = o.media_mount;
    pass = false;
    phases = [];
    notes = [];
  }

  -- The rate of a UHD disc where none is given.
  unfoldable pub drain_rate : F → F
  drain_rate mbps = if f.le mbps (of_uint 0) then of_uint 128 else mbps

  abbrev mount_note : DirectPlayOpts F → DirectEnv → List (Note F)
  mount_note o env =
      let kind = findmnt_fs_type env.statfs o.media_mount in
      if not (is_nfs kind) then not_nfs o.media_mount kind ∷ [] else []

  unfoldable pub full_report :
      DirectPlayOpts F → DirectEnv → Media F → List (DirectPlayPhase F) → DirectPlayReport F
  full_report o env m phases =
      let avg = average_mbps m in
      let drain = drain_rate o.drain_mbps in
      record {
        input = o.input;
        file_size = m.size;
        duration_seconds = m.duration;
        avg_mbps = avg;
        drain_mbps = drain;
        buffer_seconds = seconds o.buffer;
        media_mount = o.media_mount;
        pass = all_pass phases;
        phases = phases;
        notes =
            mount_note o env
            ++ (drop_note o.drop_cache (ascii "player_buffer") (drop_caches env.sync_0 env.write_0)
                ++ (drop_note o.drop_cache (ascii "nfs_sequential_max")
                      (drop_caches env.sync_1 env.write_1)
                    ++ (drains drain (seconds o.buffer) avg ∷ about_reads ∷ about_copies ∷ [])));
      }

  unfoldable pub report_of :
      DirectPlayOpts F
      → DirectEnv
      → Media F × Option Error
      → Run (DirectPlayReport F × Option Error)
  report_of o env (m, some e) = finished (first_report o, some e)
  report_of o env (m, none) =
      bind_run (run_phases o env m (drain_rate o.drain_mbps))
        λ phases. finished (full_report o env m phases, none)

  unfoldable pub run_direct_play :
      DirectPlayOpts F → DirectEnv → Run (DirectPlayReport F × Option Error)
  run_direct_play o env = report_of o env (probe_media env.stat env.output o.ffprobe)
