-- ===== src/Tests/Report.antt =====
-- directplay.go, the sequential read and the whole report, at small inputs.
use nixos_fleet.Base.{
  ℕ, ◌+◌, ◌*◌, true, false, List, [], ◌∷◌, ◌≡◌, ◌≢◌, ◌↔◌, refl, Option, none, some, Bytes, ascii,
  Error, Result, ok,
}
use nixos_fleet.Base.Float.{Micros, micros_float, of_uint, seconds}
use nixos_fleet.Base.Int.{pos}
use nixos_fleet.Base.Word.{add64}
use nixos_fleet.Direct.Copy.{CopyEnv}
use nixos_fleet.Direct.Media.{Media, media_value, media_lines, of_size, probe_media}
use nixos_fleet.Direct.Media.Values.{media_of, probe_media-media_of}
use nixos_fleet.Direct.Phase.{Run, finished, waiting, panicked}
use nixos_fleet.Direct.Player.{
  ReadEnd, more, failed, Round, PlayerEnv, first_state, player_loop, player_round, timed_round,
  read_round, drain, drain_to, to_read, receive, begin_play, roll_windows, after_read, player_phase,
  player_result, opened_player, run_player_sim,
}
use nixos_fleet.Direct.Report.{
  DirectPlayOpts, DirectPlayReport, DirectEnv, judge_player, judge_sequential, all_pass,
  read_offset, run_phases, behind_player, behind_sequential, drain_rate, full_report, report_of,
  run_direct_play, first_report,
}
use nixos_fleet.Direct.Report.Tags.{tags, expected, run_direct_play-tags}
use nixos_fleet.Direct.Report.Verdict.{Accepts, run_direct_play-Accepts}
use nixos_fleet.Direct.Sequential.{
  ReadRound, Reader, ReadEnv, take_in, next_read, read_once, reader_round, reader_loop,
  first_reader, close_last, read_result, opened_reader, run_sequential_max,
}
use nixos_fleet.Direct.Sequential.Lost.{reader_loop-no_error}
use nixos_fleet.Direct.Sequential.Total.{IsHeld, reader_loop-IsHeld}
use nixos_fleet.Direct.Stats.{window_stats, total, sort, insert, less, percentile, sorted_stats}
use nixos_fleet.Direct.Windows.{second, mbps, roll, roll_to, close_window}
use nixos_fleet.Nfs.Stats.{no_snap}
use nixos_fleet.Text.Cut.{equal, cut, split}
use nixos_fleet.Text.Number.{parse_uint, parse_digits}

abbrev read_at : ℕ → ℕ → ReadEnd → ReadRound
read_at t n end = record { ctx = none; now = t; offer = n; read_end = end; got = t + second }

-- A read of 1000 bytes, and one that fails.
abbrev failing : List ReadRound
failing = read_at 0 1000 more ∷ read_at second 0 (failed (ascii "EIO")) ∷ []

abbrev failed_reader : Reader Micros
failed_reader = record {
  total = 1000;
  windows = record { bytes = 0; closed = mbps 1000 ∷ mbps 0 ∷ []; next = 3 * second };
  error = [];
}

-- The error of the read is not in the result.
reader_loop-failing : reader_loop 0 (pos (9 * second)) failing (first_reader 0) ≡ some failed_reader
unfolding reader_loop reader_round read_once next_read take_in first_reader add64 roll_to roll
    close_window
reader_loop-failing = refl

reader_loop-no_error_example : failed_reader.error ≡ []
reader_loop-no_error_example =
    reader_loop-no_error 0 (pos (9 * second)) failing ((refl, tt), ((refl, refl), tt))
      reader_loop-failing

reader_loop-IsHeld_example : IsHeld failed_reader
reader_loop-IsHeld_example = reader_loop-IsHeld 0 (pos (9 * second)) failing reader_loop-failing

abbrev probed_text : Bytes
probed_text = ascii "duration=9\nbit_rate=8\nsize=0\n"

abbrev output : Bytes → Result Bytes
output ffprobe = ok probed_text

abbrev ffprobe : Bytes
ffprobe = ascii "ffprobe"

ffprobe-ne-nil : ffprobe ≢ []
ffprobe-ne-nil e = cc

probe_media-media_of_example :
    probe_media {F = Micros} (ok 1000) output ffprobe
    ≡ (media_of (of_size 1000) (split b'\n' probed_text), none)
probe_media-media_of_example = probe_media-media_of Micros 1000 output ffprobe ffprobe-ne-nil refl

abbrev media : Media Micros
media = record { duration = of_uint 9; bit_rate = 8; size = 1000 }

probe_media-media : probe_media (ok 1000) output ffprobe ≡ (media, none)
unfolding probe_media media_lines media_value equal cut split parse_uint parse_digits
probe_media-media = refl

abbrev play_at : ℕ → ℕ → Round
play_at t n = record { ctx = none; now = t; woke = t; offer = n; read_end = more; got = t }

abbrev player_env : PlayerEnv
player_env = record {
  open_error = none;
  seek_error = none;
  nfs0 = no_snap;
  nfs1 = no_snap;
  start = 0;
  rounds = play_at 0 60 ∷ play_at second 60 ∷ play_at (2 * second) 0 ∷ [];
  ended = 3 * second;
  played = 3 * second;
}

abbrev read_env : ReadEnv
read_env = record {
  open_error = none;
  seek_error = none;
  nfs0 = no_snap;
  nfs1 = no_snap;
  start = 0;
  rounds = read_at 0 1000 more ∷ read_at (2 * second) 0 more ∷ [];
  closing = 2 * second;
  ended = 2 * second;
}

abbrev copy_env : CopyEnv
copy_env = record {
  pipe_error = none;
  start_error = some (ascii "ENOENT");
  start = 0;
  stdout = [];
  stderr = [];
  clock = λ k. 0;
  ended = 0;
  wait_error = none;
  ctx_error = none;
  nfs0 = no_snap;
  nfs1 = no_snap;
}

abbrev env : DirectEnv
env = record {
  stat = ok 1000;
  output = output;
  statfs = λ path. ok (record { kind = 0x6969; bsize = 1; blocks = 1; bavail = 1 });
  sync_0 = none;
  write_0 = none;
  sync_1 = none;
  write_1 = none;
  player = player_env;
  sequential = read_env;
  fast = λ ffmpeg args. copy_env;
  paced = λ ffmpeg args. copy_env;
}

-- 50 bytes in a second, and a buffer of two seconds.
abbrev opts : DirectPlayOpts Micros
opts = record {
  input = ascii "/m/a.mkv";
  ffmpeg = [];
  ffprobe = ffprobe;
  media_mount = ascii "/m";
  run_for = pos (2 * second);
  seek = pos 0;
  drain_mbps = 400;
  buffer = pos (2 * second);
  drop_cache = false;
}

abbrev report_in : Run (DirectPlayReport Micros × Option Error) → DirectPlayReport Micros
report_in (finished (rep, e)) = rep
report_in waiting = first_report opts
report_in panicked = first_report opts

abbrev made : DirectPlayReport Micros
made = report_in (run_direct_play opts env)

run_direct_play-made : run_direct_play opts env ≡ finished (made, none)
unfolding run_direct_play report_of run_phases behind_player behind_sequential drain_rate
    run_player_sim opened_player player_result player_loop player_round timed_round read_round drain
    drain_to to_read receive begin_play roll_windows after_read first_state add64 roll_to roll
    close_window window_stats total sort insert less percentile sorted_stats run_sequential_max
    opened_reader read_result reader_loop reader_round read_once next_read take_in first_reader
    close_last mbps probe_media media_lines media_value equal cut split parse_uint parse_digits
    read_offset seconds
run_direct_play-made = refl

run_direct_play-tags_example : tags made.phases ≡ expected opts.ffmpeg
run_direct_play-tags_example = run_direct_play-tags opts env run_direct_play-made

run_direct_play-Accepts_example :
    (made.pass ≡ true) ↔ Accepts [] (pos (2 * second)) made.drain_mbps made.phases
run_direct_play-Accepts_example =
    run_direct_play-Accepts opts env probe_media-media run_direct_play-made

made-pass : made.pass ≡ true
unfolding run_direct_play report_of run_phases behind_player behind_sequential drain_rate
    run_player_sim opened_player player_result player_loop player_round timed_round read_round drain
    drain_to to_read receive begin_play roll_windows after_read first_state add64 roll_to roll
    close_window window_stats total sort insert less percentile sorted_stats run_sequential_max
    opened_reader read_result reader_loop reader_round read_once next_read take_in first_reader
    close_last mbps probe_media media_lines media_value equal cut split parse_uint parse_digits
    read_offset seconds full_report judge_player judge_sequential all_pass player_phase
made-pass = refl
