-- ===== src/Direct/Copy.antt =====
-- directplay.go: `runFFmpegCopy`, over what ffmpeg writes and the readings of the clock.
pub mod Runs
use nixos_fleet.Base.{
  ℕ, zero, suc, ◌+◌, ◌^◌, ltb, ◌==◌, Bool, true, false, not, ◌&&◌, List, [], ◌∷◌, ◌++◌, Option,
  none, some, if◌then◌else◌, Bytes, ascii, length,
}
use nixos_fleet.Base.Float.{Float64, of_uint, seconds}
use nixos_fleet.Base.Int.{ℤ, pos, sub_ℕ, ltb_ℤ}
use nixos_fleet.Direct.Phase.{DirectPlayPhase, new_phase, reported_delta, Run, finished, panicked}
use nixos_fleet.Direct.Progress.{Sample, parse_ffmpeg_progress}
use nixos_fleet.Direct.Stats.{WindowStats, window_stats}
use nixos_fleet.Measure.Rates.{mib}
use nixos_fleet.Nfs.Stats.{NfsSnap}
use nixos_fleet.Text.Cut.{equal}
use nixos_fleet.Text.Words.{trim_space}
use nixos_fleet.Transcode.Tail.{last_lines}

-- The variables that the closure `onSample` shares with the function.
pub record Copy {ℓ} (F : Type ℓ) : Type ℓ where
  pub min_speed : F
  pub last_out : F
  pub slow_n : ℕ
  pub slow_run : ℕ
  pub windows : List F
  pub prev_out : F
  pub prev_wall : ℕ

module _ {ℓ} {F : Type ℓ} ⦃f : Float64 F⦄ where
  -- `paced && speed > 0 && speed < 0.90`
  unfoldable pub is_slow : Bool → F → Bool
  is_slow paced speed = paced && (f.lt (of_uint 0) speed && f.lt speed (f.decimal 90 2))

  -- The count of slow runs, which grows at the third sample of a run.
  abbrev pub count_slow : Bool → Copy F → Copy F
  count_slow slow st =
      if slow
      then record st {
        slow_run = suc st.slow_run;
        slow_n = if suc st.slow_run == 3 then suc st.slow_n else st.slow_n;
      }
      else record st { slow_run = 0 }

  abbrev keep_min : F → Copy F → Copy F
  keep_min speed st =
      if f.lt (of_uint 0) speed && f.lt speed st.min_speed
      then record st { min_speed = speed }
      else st

  abbrev add_window : Bool → F → F → Copy F → Copy F
  add_window paced dt d_media st =
      if f.lt (of_uint 0) dt && (f.lt (of_uint 0) d_media && not paced)
      then record st { windows = st.windows ++ f.div d_media dt ∷ [] }
      else st

  -- The closure, with the reading of the clock that it makes.
  unfoldable pub on_sample : Bool → Copy F → Sample F → ℕ → Copy F
  on_sample paced st s now =
      let dt = seconds (sub_ℕ now st.prev_wall) in
      let d_media = f.sub s.out_time st.prev_out in
      let seen = record (keep_min s.speed st) { last_out = s.out_time } in
      record (count_slow (is_slow paced s.speed) (add_window paced dt d_media seen)) {
        prev_out = s.out_time;
        prev_wall = now;
      }

  -- The calls in order; `clock k` is the reading in the call number `k`.
  unfoldable pub on_samples : Bool → (ℕ → ℕ) → ℕ → Copy F → List (Sample F) → Copy F
  on_samples paced clock k st [] = st
  on_samples paced clock k st (s ∷ ss) =
      on_samples paced clock (suc k) (on_sample paced st s (clock k)) ss

  unfoldable pub first_copy : ℕ → Copy F
  first_copy start = record {
    min_speed = of_uint (10 ^ 9);
    last_out = of_uint 0;
    slow_n = 0;
    slow_run = 0;
    windows = [];
    prev_out = of_uint 0;
    prev_wall = start;
  }

-- What the run meets: the errors of the pipe and of the start, what ffmpeg writes, the clock, the
-- error of Wait and of the context behind it, and the NFS counters.
pub record CopyEnv : Type 0 where
  pub pipe_error : Option Bytes
  pub start_error : Option Bytes
  pub start : ℕ
  pub stdout : Bytes
  pub stderr : Bytes
  pub clock : ℕ → ℕ
  pub ended : ℕ
  pub wait_error : Option Bytes
  pub ctx_error : Option Bytes
  pub nfs0 : NfsSnap
  pub nfs1 : NfsSnap

abbrev copy_progress : List Bytes
copy_progress =
    ascii "-hide_banner"
    ∷ ascii "-nostdin"
    ∷ ascii "-loglevel"
    ∷ ascii "warning"
    ∷ ascii "-progress"
    ∷ ascii "pipe:1"
    ∷ ascii "-stats_period"
    ∷ ascii "0.5"
    ∷ []

abbrev copy_to_null : List Bytes
copy_to_null =
    ascii "-map"
    ∷ ascii "0"
    ∷ ascii "-c"
    ∷ ascii "copy"
    ∷ ascii "-f"
    ∷ ascii "null"
    ∷ ascii "-"
    ∷ []

-- The error of the phase, by that of Wait and of the context.
unfoldable pub copy_error : Option Bytes → Option Bytes → Bytes → Bytes
copy_error (some e) none stderr =
    let tail = trim_space stderr in
    if equal tail [] then e else e ++ (ascii ": " ++ last_lines tail 8)
copy_error _ _ stderr = []

module _ {ℓ} (F : Type ℓ) ⦃f : Float64 F⦄ where
  -- The arguments of ffmpeg.
  unfoldable pub copy_args : Bytes → ℤ → ℤ → Bool → List Bytes
  copy_args input seek media_for paced =
      let start =
        if ltb_ℤ (pos 0) seek then ascii "-ss" ∷ f.fixed3 (seconds {F = F} seek) ∷ [] else [] in
      let pace = if paced then ascii "-re" ∷ [] else [] in
      copy_progress
      ++ (start
          ++ (pace
              ++ (ascii "-i"
                  ∷ input
                  ∷ ascii "-t"
                  ∷ f.fixed3 (seconds {F = F} media_for)
                  ∷ copy_to_null)))

module _ {ℓ} {F : Type ℓ} ⦃f : Float64 F⦄ where
  abbrev copy_phase : Bool → DirectPlayPhase F
  copy_phase paced =
      new_phase (if paced then ascii "ffmpeg_copy_re" else ascii "ffmpeg_copy") (ascii "ffmpeg")

  -- What the NFS counters say, if the mount was found.
  abbrev with_delta : F → Option NfsSnap → DirectPlayPhase F → DirectPlayPhase F
  with_delta wall none ph = ph
  with_delta wall (some d) ph = record ph {
    nfs = some d;
    read_mib = mib d.server_read;
    avg_mbps =
        if f.lt (of_uint 0) wall && ltb 0 d.server_read
        then f.div (f.div (f.mul (of_uint 8) (of_uint d.server_read)) (of_uint (10 ^ 6))) wall
        else ph.avg_mbps;
  }

  -- The speed windows of the run that is not paced.
  abbrev with_windows :
      List F → DirectPlayPhase F → Option (WindowStats F) → Run (DirectPlayPhase F)
  with_windows ws ph none = panicked
  with_windows ws ph (some stats) = finished (record ph {
    min_window_mbps = stats.low;
    p5_window_mbps = stats.p5;
    max_window_mbps = stats.high;
    windows = ws;
  })

  -- What follows the loop.
  unfoldable pub copy_result : Bool → CopyEnv → Copy F → Run (DirectPlayPhase F)
  copy_result paced env st =
      let wall = seconds (sub_ℕ env.ended env.start) in
      let lag =
        paced && (f.lt (of_uint 0) st.last_out && f.lt (f.add st.last_out (of_uint 2)) wall) in
      let timed = record (copy_phase paced) {
        wall_seconds = wall;
        out_time_seconds = st.last_out;
        speed_min = if f.lt st.min_speed (of_uint (10 ^ 9)) then st.min_speed else of_uint 0;
        stall_count = st.slow_n;
        stall_seconds = if lag then f.sub wall st.last_out else of_uint 0;
      } in
      let ph = record (with_delta wall (reported_delta env.nfs0 env.nfs1) timed) {
        error = copy_error env.wait_error env.ctx_error env.stderr;
      } in
      if not paced && ltb 0 (length st.windows)
      then with_windows st.windows ph (window_stats st.windows)
      else finished ph

  abbrev started_copy : Bool → CopyEnv → Option Bytes → Run (DirectPlayPhase F)
  started_copy paced env (some e) = finished (record (copy_phase paced) { error = e })
  started_copy paced env none =
      copy_result paced env
        (on_samples paced env.clock 0 (first_copy env.start) (parse_ffmpeg_progress env.stdout))

  abbrev piped_copy : Bool → CopyEnv → Option Bytes → Run (DirectPlayPhase F)
  piped_copy paced env (some e) = finished (record (copy_phase paced) { error = e })
  piped_copy paced env none = started_copy paced env env.start_error

  -- `launch` is what the program does with its arguments.
  unfoldable pub run_ffmpeg_copy :
      Bytes → Bytes → ℤ → ℤ → Bool → (Bytes → List Bytes → CopyEnv) → Run (DirectPlayPhase F)
  run_ffmpeg_copy ffmpeg input seek media_for paced launch =
      let env = launch ffmpeg (copy_args F input seek media_for paced) in
      piped_copy paced env env.pipe_error
