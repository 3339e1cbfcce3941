-- ===== src/Tests/Select.antt =====
-- runFFmpeg in one order of its steps: the timer fires, and the process ends on the interrupt.
use nixos_fleet.Base.{◌+◌, [], ◌∷◌, refl, arith, none, some, ascii, true}
use nixos_fleet.Base.Float.{Micros, micros_float}
use nixos_fleet.Transcode.Ffmpeg.{FfmpegOutcome, sigint}
use nixos_fleet.Transcode.Ffmpeg.Select.{
  Death, interrupting, returned, Live, grace, launched_live, start_ffmpeg, results, move, send,
  fire, take_interrupted, pass, write, die, Reach, here, next,
}
use nixos_fleet.Transcode.Ffmpeg.Select.Waited.{IsOver, run_ffmpeg-waited}
use nixos_fleet.Transcode.Ffmpeg.Select.Goes.{Goes}

abbrev status : Death
status = record { error = some (ascii "exit status 255"); state = some (ascii "exit status 255") }

-- The timer has fired, and the process runs.
abbrev asked : Live Micros
asked = record (launched_live 6 10) {
  clock = 16;
  output = ascii "frame";
  signals = sigint ∷ [];
  runner = interrupting (16 + grace);
}

asked-Reach : Reach 5 6 10 asked
unfolding start_ffmpeg launched_live
asked-Reach =
    next (next (next (here refl) (write (ascii "frame") refl refl)) (pass 10 refl))
      (move (fire refl (omega arith) refl))

abbrev told : FfmpegOutcome Micros
told = results 5 (record asked { clock = 2_000_016 }) (ascii "exit status 255") none

abbrev gone : Live Micros
gone = record asked {
  clock = 2_000_016;
  process = some status;
  sent = true;
  runner = returned told;
}

gone-Reach : Reach 5 6 10 gone
unfolding start_ffmpeg launched_live
gone-Reach =
    next
      (next (next (next asked-Reach (pass 2_000_000 refl)) (die status refl refl))
        (move (send status refl refl refl)))
      (move (take_interrupted (16 + grace) status refl refl refl))

run_ffmpeg-waited_example : IsOver 5 gone told
run_ffmpeg-waited_example = run_ffmpeg-waited 5 6 10 gone-Reach refl
