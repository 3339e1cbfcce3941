-- ===== src/Transcode/Ffmpeg/Select.antt =====
-- scripts/jellyfin-io-bench/transcode.go: `runFFmpeg` from the start of the process on, one step at
-- a time: the process, the goroutine that waits for it, the timers and the select.
pub mod Waited
pub mod Goes
use nixos_fleet.Base.{
  ℕ, ◌+◌, ◌*◌, ◌^◌, ◌≤◌, Bool, true, false, List, [], ◌∷◌, ◌++◌, ◌≡◌, ◌⊎◌, inl, inr, Option, none,
  some, Bytes, ascii, Error, system,
}
use nixos_fleet.Base.Float.{Float64, of_uint, seconds}
use nixos_fleet.Base.Int.{sub_ℕ}
use nixos_fleet.Transcode.Ffmpeg.{FfmpegOutcome, Signal, sigint, sigkill, state_or}
use nixos_fleet.Transcode.Tail.{last_lines}

-- The texts of the error that Wait returns and of the state that it stores, where it does.
pub record Death : Type 0 where
  pub error : Option Bytes
  pub state : Option Bytes

-- Where runFFmpeg stands: at its select, at that behind SIGINT, whose timer fires at `until`, at a
-- receive behind SIGKILL, or returned.
pub data Runner {ℓ} (F : Type ℓ) : Type ℓ where
  selecting killing : Runner F
  interrupting : (until : ℕ) → Runner F
  abandoning : (error : Bytes) → Runner F
  returned : FfmpegOutcome F → Runner F

-- The clock and the time at which the first timer fires; how the process ended, if it did, and what
-- it wrote till then; whether the goroutine has sent what Wait returned, and the channel `done`;
-- the text of ctx.Err; and the signals that were sent.
pub record Live {ℓ} (F : Type ℓ) : Type ℓ where
  pub clock : ℕ
  pub deadline : ℕ
  pub process : Option Death
  pub output : Bytes
  pub sent : Bool
  pub channel : Option Death
  pub over : Option Bytes
  pub signals : List Signal
  pub runner : Runner F

abbrev pub grace : ℕ
grace = 8 * 10 ^ 9

module _ {ℓ} {F : Type ℓ} ⦃f : Float64 F⦄ where
  -- The timer begins at `now`, which is not before `start`.
  unfoldable pub launched_live : ℕ → ℕ → Live F
  launched_live now run_for = record {
    clock = now;
    deadline = now + run_for;
    process = none;
    output = [];
    sent = false;
    channel = none;
    over = none;
    signals = [];
    runner = selecting;
  }

  -- From the error of cmd.Start.
  unfoldable pub start_ffmpeg : Option Bytes → ℕ → ℕ → FfmpegOutcome F ⊎ Live F
  start_ffmpeg (some e) now run_for = inl (record {
    exit = ascii "start-failed";
    tail = [];
    wall = of_uint 0;
    error = some (system e);
    signals = [];
  })
  start_ffmpeg none now run_for = inr (launched_live now run_for)

  -- The results of a return, with the tail of the buffer and the time that has passed.
  abbrev pub results : ℕ → Live F → Bytes → Option Error → FfmpegOutcome F
  results start s exit e = record {
    exit = exit;
    tail = last_lines s.output 12;
    wall = seconds (sub_ℕ s.clock start);
    error = e;
    signals = s.signals;
  }

  -- The first case of the select.
  abbrev pub exit_of : ℕ → Live F → Option Bytes → FfmpegOutcome F
  exit_of start s none = results start s (ascii "exited") none
  exit_of start s (some e) = results start s e (some (system e))

  -- A receive from `done`, and the return behind it.
  abbrev pub return_with : FfmpegOutcome F → Live F → Live F
  return_with out s = record s { channel = none; runner = returned out }

  -- A step of the program: the goroutine sends what Wait returned, or runFFmpeg takes a case that is
  -- ready, whichever it is.
  pub data Move (start : ℕ) (s t : Live F) : Type ℓ where
    send :
        (d : Death)
        → s.process ≡ some d
        → s.sent ≡ false
        → t ≡ record s { sent = true; channel = some d }
        → Move start s t
    take_end :
        (d : Death)
        → s.runner ≡ selecting
        → s.channel ≡ some d
        → t ≡ return_with (exit_of start s d.error) s
        → Move start s t
    fire :
        s.runner ≡ selecting
        → s.deadline ≤ s.clock
        → t
          ≡ record s { signals = s.signals ++ sigint ∷ []; runner = interrupting (s.clock + grace) }
        → Move start s t
    abandon :
        (e : Bytes)
        → s.runner ≡ selecting
        → s.over ≡ some e
        → t ≡ record s { signals = s.signals ++ sigkill ∷ []; runner = abandoning e }
        → Move start s t
    take_interrupted :
        (until : ℕ) (d : Death)
        → s.runner ≡ interrupting until
        → s.channel ≡ some d
        → t ≡ return_with (results start s (state_or (ascii "interrupted") d.state) none) s
        → Move start s t
    overstay :
        (until : ℕ)
        → s.runner ≡ interrupting until
        → until ≤ s.clock
        → t ≡ record s { signals = s.signals ++ sigkill ∷ []; runner = killing }
        → Move start s t
    take_killed :
        (d : Death)
        → s.runner ≡ killing
        → s.channel ≡ some d
        → t ≡ return_with (results start s (ascii "killed") none) s
        → Move start s t
    take_abandoned :
        (e : Bytes) (d : Death)
        → s.runner ≡ abandoning e
        → s.channel ≡ some d
        → t ≡ return_with (results start s (ascii "ctx") (some (system e))) s
        → Move start s t

  -- A step of the program, or one from outside: time passes, the process writes or ends, or the
  -- context does.
  pub data Step (start : ℕ) (s t : Live F) : Type ℓ where
    move : Move start s t → Step start s t
    pass : (n : ℕ) → t ≡ record s { clock = s.clock + n } → Step start s t
    write :
        (b : Bytes) → s.process ≡ none → t ≡ record s { output = s.output ++ b } → Step start s t
    die : (d : Death) → s.process ≡ none → t ≡ record s { process = some d } → Step start s t
    cancel : (e : Bytes) → s.over ≡ none → t ≡ record s { over = some e } → Step start s t

  pub data Reach (start now run_for : ℕ) : Live F → Type ℓ where
    here : {s : Live F} → start_ffmpeg none now run_for ≡ inr s → Reach start now run_for s
    next : {s t : Live F} → Reach start now run_for s → Step start s t → Reach start now run_for t
