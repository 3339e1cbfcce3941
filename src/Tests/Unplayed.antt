-- ===== src/Tests/Unplayed.antt =====
-- directplay.go: a player whose first read fails.
use nixos_fleet.Base.{◌*◌, [], ◌∷◌, ◌≡◌, refl, none, some, ascii}
use nixos_fleet.Base.Float.{Micros, micros_float, of_uint}
use nixos_fleet.Base.Int.{pos}
use nixos_fleet.Base.Word.{add64}
use nixos_fleet.Direct.Phase.{DirectPlayPhase, new_phase, Run, finished, waiting, panicked}
use nixos_fleet.Direct.Player.{
  failed, Round, Player, Setup, PlayerEnv, first_state, player_loop, player_round, timed_round,
  read_round, drain, drain_to, to_read, receive, begin_play, roll_windows, after_read, player_phase,
  player_result,
}
use nixos_fleet.Direct.Player.Unplayed.{IsTold, not_prerolled, player_result-IsTold}
use nixos_fleet.Direct.Stats.{window_stats}
use nixos_fleet.Direct.Windows.{second, roll, roll_to, close_window}
use nixos_fleet.Nfs.Stats.{no_snap}

abbrev setup : Setup Micros
setup = record {
  start = 0;
  run_for = pos (9 * second);
  drain_bps = of_uint 50;
  cap_bytes = of_uint 100;
}

abbrev bad_read : Round
bad_read = record {
  ctx = none;
  now = 0;
  woke = 0;
  offer = 0;
  read_end = failed (ascii "EIO");
  got = 5;
}

abbrev env : PlayerEnv
env = record {
  open_error = none;
  seek_error = none;
  nfs0 = no_snap;
  nfs1 = no_snap;
  start = 0;
  rounds = bad_read ∷ [];
  ended = second;
  played = second;
}

abbrev phase_in : Run (DirectPlayPhase Micros) → DirectPlayPhase Micros
phase_in (finished ph) = ph
phase_in waiting = new_phase [] []
phase_in panicked = new_phase [] []

abbrev result : Run (DirectPlayPhase Micros)
result = player_result setup env (player_loop setup env.rounds (first_state 0))

result-finished : result ≡ finished (phase_in result)
unfolding player_result player_loop player_round timed_round read_round drain drain_to to_read
    receive begin_play roll_windows after_read first_state add64 roll_to roll close_window
    window_stats
result-finished = refl

player_result-IsTold_example :
    (st : Player Micros) × (player_loop setup env.rounds (first_state 0) ≡ some st)
    × IsTold st (phase_in result)
player_result-IsTold_example = player_result-IsTold setup env result-finished

-- The error of the read is not the one that is reported.
result-error : (phase_in result).error ≡ not_prerolled
unfolding player_result player_loop player_round timed_round read_round drain drain_to to_read
    receive begin_play roll_windows after_read first_state add64 roll_to roll close_window
    window_stats player_phase
result-error = refl
