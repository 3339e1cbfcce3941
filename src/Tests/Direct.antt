-- ===== src/Tests/Direct.antt =====
-- directplay.go at small inputs.
use mathlib.Core.List.{Mem}
use nixos_fleet.Base.{
  ℕ, ◌+◌, ◌*◌, ◌/◌, ◌^◌, ◌≤◌, ◌<◌, leb, true, false, List, [], ◌∷◌, ◌≡◌, ◌≢◌, refl, none, some, map,
  length, All, arith, Bytes, ascii, inl, inr, leb-false→lt,
}
use nixos_fleet.Base.Float.{Micros, micros_float, Micros-IsOrdered, of_uint, ◌≼◌, seconds}
use nixos_fleet.Base.Int.{pos, ◌+ℤ◌}
use nixos_fleet.Base.Word.{add64}
use nixos_fleet.Direct.Copy.{is_slow, on_samples, first_copy}
use nixos_fleet.Direct.Copy.Runs.{long_runs, on_samples-long_runs}
use nixos_fleet.Direct.Player.{
  more, Round, Player, Setup, first_state, player_loop, player_round, timed_round, read_round,
  drain, drain_to, to_read, receive, begin_play, roll_windows, after_read,
}
use nixos_fleet.Direct.Player.Ends.{player_loop-ends}
use nixos_fleet.Direct.Player.Invariant.{IsSound, player_loop-IsSound}
use nixos_fleet.Direct.Progress.{
  Sample, parse_ffmpeg_progress, progress_lines, progress_value, speed_of, ends_sample,
}
use nixos_fleet.Direct.Stats.{
  WindowStats, window_stats, total, sort, insert, less, percentile, sorted_stats,
}
use nixos_fleet.Direct.Stats.Range.{HasIndices, window_stats-range}
use nixos_fleet.Direct.Windows.{Windows, second, mbps, roll, roll_to, close_window}
use nixos_fleet.Direct.Windows.Schedule.{IsOnSchedule, roll_to-IsOnSchedule}
use nixos_fleet.Text.Cut.{equal, cut, trim_suffix, has_suffix}
use nixos_fleet.Text.Lines.{scan_lines}

Micros-trunc : (p n : ℕ) → leb (10 ^ 6) p ≡ false → p * (n * 10 ^ 6) / 10 ^ 6 / 10 ^ 6 ≤ n
Micros-trunc p n h =
    let small : p < 10 ^ 6 = leb-false→lt (10 ^ 6) p h in
    let regroup : p * (n * 10 ^ 6) ≡ p * n * 10 ^ 6 = grind arith in
    let le : p * n ≤ 10 ^ 6 * n = grind arith in omega arith

Micros-HasIndices : HasIndices Micros
Micros-HasIndices = record {
  trunc-mul-le = λ p n number above below small.
      (p * (n * 10 ^ 6) / 10 ^ 6 / 10 ^ 6, refl, Micros-trunc p n below);
  p5_number = refl;
  p5_pos = refl;
  p5_lt_one = refl;
}

abbrev series : List Micros
series = of_uint 9 ∷ of_uint 2 ∷ of_uint 5 ∷ []

window_stats-range_example :
    (st : WindowStats Micros) × (window_stats series ≡ some st)
    × All (λ w. st.low ≼ w) series
    × All (λ w. w ≼ st.high) series
    × Mem st.low series
    × Mem st.p5 series
    × Mem st.high series
    × (st.low ≼ st.p5)
    × (st.p5 ≼ st.high)
    × (st.avg ≡ micros_float.div (total (of_uint 0) series) (of_uint (length series)))
window_stats-range_example =
    window_stats-range Micros-HasIndices Micros-IsOrdered series (λ e. cc) (omega arith)
      (refl, (refl, (refl, tt)))

window_stats-series :
    window_stats series
    ≡ some (record { low = of_uint 2; p5 = of_uint 2; high = of_uint 9; avg = 16_000_000 / 3 })
unfolding window_stats total sort insert less percentile sorted_stats
window_stats-series = refl

abbrev empty_windows : Windows Micros
empty_windows = record { bytes = 0; closed = []; next = second }

roll_to-IsOnSchedule_example :
    let r = roll_to (3 * second) empty_windows in
    IsOnSchedule 0 r × (3 * second < r.next) × (r.next ≤ 3 * second + second)
roll_to-IsOnSchedule_example =
    roll_to-IsOnSchedule 0 (3 * second) empty_windows (omega arith) (omega arith)

roll_to-three : length (roll_to (3 * second) empty_windows).closed ≡ 3
unfolding roll_to roll close_window
roll_to-three = refl

-- A buffer of 100 bytes, drained by 50 in a second.
abbrev setup : Setup Micros
setup = record {
  start = 0;
  run_for = pos (9 * second);
  drain_bps = of_uint 50;
  cap_bytes = of_uint 100;
}

abbrev read_at : ℕ → ℕ → Round
read_at t n = record { ctx = none; now = t; woke = t; offer = n; read_end = more; got = t }

-- The buffer fills, runs dry once, and the time is over.
abbrev rounds : List Round
rounds = read_at 0 60 ∷ read_at second 60 ∷ read_at (5 * second) 10 ∷ read_at (9 * second) 1 ∷ []

abbrev end_state : Player Micros
end_state = record {
  level = of_uint 0;
  playing = true;
  play_start = second;
  total = 120;
  stall_n = 2;
  stall_dur = pos 5_600_000_000;
  windows = record { bytes = 0; closed = mbps 120 ∷ []; next = 2 * second };
  last = 9 * second;
  preroll_seconds = seconds (pos second);
  error = [];
}

player_loop-rounds : player_loop setup rounds (first_state 0) ≡ some end_state
unfolding player_loop player_round timed_round read_round drain drain_to to_read receive begin_play
    roll_windows after_read first_state add64 roll_to roll close_window seconds ◌+ℤ◌
player_loop-rounds = refl

player_loop-IsSound_example : IsSound end_state
player_loop-IsSound_example = player_loop-IsSound setup rounds 0 player_loop-rounds

player_loop-ends_example : player_loop setup rounds (first_state 0) ≢ none
player_loop-ends_example =
    player_loop-ends setup rounds (first_state 0) (inr (inr (inr (inl (inr refl)))))

abbrev at_speed : ℕ → Sample Micros
at_speed percent = record { speed = percent * 10_000; out_time = of_uint 0 }

abbrev samples : List (Sample Micros)
samples =
    at_speed 100
    ∷ at_speed 50
    ∷ at_speed 50
    ∷ at_speed 50
    ∷ at_speed 50
    ∷ at_speed 100
    ∷ at_speed 50
    ∷ at_speed 50
    ∷ []

on_samples-long_runs_example :
    (on_samples true (λ k. k * second) 0 (first_copy 0) samples).slow_n
    ≡ long_runs false (map (λ s. is_slow true s.speed) samples)
on_samples-long_runs_example = on_samples-long_runs true (λ k. k * second) 0 samples

long_runs-samples : long_runs false (map (λ s. is_slow true s.speed) samples) ≡ 1
unfolding is_slow
long_runs-samples = refl

abbrev progress_text : Bytes
progress_text =
    ascii "out_time_us=5\nspeed=2x\nprogress=continue\nout_time_us=7\nspeed=N/A\nprogress=end\n"

parse_ffmpeg_progress-text :
    parse_ffmpeg_progress {F = Micros} progress_text
    ≡ record { speed = of_uint 2; out_time = 5 } ∷ record { speed = 0; out_time = 7 } ∷ []
unfolding parse_ffmpeg_progress progress_lines progress_value speed_of ends_sample equal cut
    trim_suffix has_suffix scan_lines
parse_ffmpeg_progress-text = refl
