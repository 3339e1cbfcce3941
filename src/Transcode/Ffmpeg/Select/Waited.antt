-- ===== src/Transcode/Ffmpeg/Select/Waited.antt =====
-- What `runFFmpeg` returns behind the start of its process, in any order of the steps.
use nixos_fleet.Base.{
  ℕ, ◌+◌, ◌≤◌, true, [], ◌∷◌, ◌≡◌, ◌≢◌, refl, Option, none, some, arith, Bytes, subst,
}
use nixos_fleet.Base.Float.{Float64}
use nixos_fleet.Transcode.Ffmpeg.{
  FfmpegEnd, not_started, ended, interrupted, overstayed, cancelled, FfmpegOutcome, sigint, sigkill,
  run_ffmpeg,
}
use nixos_fleet.Transcode.Ffmpeg.Select.{
  Death, Runner, selecting, killing, interrupting, abandoning, returned, Live, grace, launched_live,
  start_ffmpeg, exit_of, return_with, Move, send, take_end, fire, abandon, take_interrupted,
  overstay, take_killed, take_abandoned, Step, move, pass, write, die, cancel, Reach, here, next,
}

-- Whether the select can end so at the time `now`, the process having ended in the way `d`.
abbrev pub Fits : Death → (deadline : ℕ) → Option Bytes → ℕ → FfmpegEnd → Type 0
Fits d deadline over now (not_started e) = ⊥
Fits d deadline over now (ended e) = e ≡ d.error
Fits d deadline over now (interrupted state) = (state ≡ d.state) × (deadline ≤ now)
Fits d deadline over now overstayed = deadline + grace ≤ now
Fits d deadline over now (cancelled e) = over ≡ some e

module _ {ℓ} {F : Type ℓ} ⦃f : Float64 F⦄ (start : ℕ) where
  -- What has been done by a return of `out`.
  pub record IsOver (s : Live F) (out : FfmpegOutcome F) : Type ℓ where
    pub death : Death
    pub now : ℕ
    pub end : FfmpegEnd
    pub reaped : s.process ≡ some death
    pub no_goroutine : s.sent ≡ true
    pub drained : s.channel ≡ none
    pub fits : Fits death s.deadline s.over now end
    pub past : now ≤ s.clock
    pub outcome : out ≡ run_ffmpeg s.output start now end
    pub silent : s.signals ≡ out.signals

  -- The signals and the times of each place.
  abbrev Placed : Live F → Runner F → Type 0
  Placed s selecting = s.signals ≡ []
  Placed s (interrupting until) =
      (s.signals ≡ sigint ∷ []) × (s.deadline + grace ≤ until) × (s.deadline ≤ s.clock)
  Placed s killing = (s.signals ≡ sigint ∷ sigkill ∷ []) × (s.deadline + grace ≤ s.clock)
  Placed s (abandoning e) = (s.signals ≡ sigkill ∷ []) × (s.over ≡ some e)
  Placed s (returned out) = Unit

  abbrev Returns : Live F → Runner F → Type ℓ
  Returns s (returned out) = IsOver s out
  Returns s _ = Unit

  -- What is in the channel is how the process ended.
  abbrev IsCarried : Live F → Option Death → Type 0
  IsCarried s none = Unit
  IsCarried s (some d) = (s.process ≡ some d) × (s.sent ≡ true)

  -- Till the return, what was sent is in the channel.
  abbrev pub IsKept : Live F → Runner F → Type 0
  IsKept s (returned out) = Unit
  IsKept s _ = s.sent ≡ true → s.channel ≢ none

  pub record Inv (s : Live F) : Type ℓ where
    pub carried : IsCarried s s.channel
    pub kept : IsKept s s.runner
    pub placed : Placed s s.runner
    pub returns : Returns s s.runner

  launched_live-Inv : (now run_for : ℕ) → Inv (launched_live now run_for)
  unfolding launched_live
  launched_live-Inv now run_for = record {
    carried = tt;
    kept = λ e. absurd (cc);
    placed = refl;
    returns = tt;
  }

  exit_of-run_ffmpeg :
      (s : Live F)
      → s.signals ≡ []
      → (e : Option Bytes) → exit_of start s e ≡ run_ffmpeg s.output start s.clock (ended e)
  unfolding run_ffmpeg
  exit_of-run_ffmpeg s h none = rw h refl
  exit_of-run_ffmpeg s h (some e) = rw h refl

  exit_of-signals : (s : Live F) (e : Option Bytes) → s.signals ≡ (exit_of start s e).signals
  exit_of-signals s none = refl
  exit_of-signals s (some e) = refl

  -- A receive from the channel, with a return of what `end` gives.
  receive-Inv :
      {s t : Live F} (d : Death) (end : FfmpegEnd) (out : FfmpegOutcome F)
      → Inv s
      → s.channel ≡ some d
      → Fits d s.deadline s.over s.clock end
      → out ≡ run_ffmpeg s.output start s.clock end
      → s.signals ≡ out.signals
      → t ≡ return_with out s
      → Inv t
  receive-Inv {s} d end out inv c fits same silent r =
      let carried : (s.process ≡ some d) × (s.sent ≡ true) = ground arith in
      rw r (record {
        carried = tt;
        kept = tt;
        placed = tt;
        returns = record {
          death = d;
          now = s.clock;
          end = end;
          reaped = carried.0;
          no_goroutine = carried.1;
          drained = refl;
          fits = fits;
          past = omega arith;
          outcome = same;
          silent = silent;
        };
      })

  Move-Inv : {s t : Live F} → Inv s → Move start s t → Inv t
  unfolding run_ffmpeg
  Move-Inv inv (send d e n r) = ground arith
  Move-Inv {s} inv (take_end d e c r) =
      let sent : s.signals ≡ [] = ground arith in
      receive-Inv d (ended d.error) _ inv c refl (exit_of-run_ffmpeg s sent d.error)
        (exit_of-signals s d.error) r
  Move-Inv inv (fire e l r) = ground arith
  Move-Inv inv (abandon x e o r) = ground arith
  Move-Inv {s} inv (take_interrupted until d e c r) =
      let placed : (s.signals ≡ sigint ∷ []) × (s.deadline ≤ s.clock) = ground arith in
      receive-Inv d (interrupted d.state) _ inv c (refl, placed.1) (rw (placed.0) refl) refl r
  Move-Inv inv (overstay until e l r) = ground arith
  Move-Inv {s} inv (take_killed d e c r) =
      let placed : (s.signals ≡ sigint ∷ sigkill ∷ []) × (s.deadline + grace ≤ s.clock) =
        ground arith in
      receive-Inv d overstayed _ inv c (placed.1) (rw (placed.0) refl) refl r
  Move-Inv {s} inv (take_abandoned x d e c r) =
      let placed : (s.signals ≡ sigkill ∷ []) × (s.over ≡ some x) = ground arith in
      receive-Inv d (cancelled x) _ inv c (placed.1) (rw (placed.0) refl) refl r

  Step-Inv : {s t : Live F} → Inv s → Step start s t → Inv t
  Step-Inv inv (move m) = Move-Inv inv m
  Step-Inv inv (pass n r) = ground arith
  Step-Inv inv (write b alive r) = ground arith
  Step-Inv inv (die d alive r) = ground arith
  Step-Inv inv (cancel e n r) = ground arith

  module _ (now run_for : ℕ) where
    pub Reach-Inv : {s : Live F} → Reach start now run_for s → Inv s
    unfolding start_ffmpeg
    Reach-Inv (here e) = ground (arith, launched_live-Inv now run_for)
    Reach-Inv (next r st) = Step-Inv (Reach-Inv r) st

    -- Whatever the order of the steps, a return behind the start of the process comes when the
    -- process has ended and the goroutine that waited for it too, with the channel empty. What it
    -- returns is what `run_ffmpeg` tells, for all that the process wrote, of one end of the select that
    -- fits how the process ended and what the clock and the context were: an interrupt only once
    -- the timer had fired, SIGKILL only 8 seconds later or where the context was done. No signal is
    -- sent behind it.
    pub run_ffmpeg-waited :
        {s : Live F} {out : FfmpegOutcome F}
        → Reach start now run_for s
        → s.runner ≡ returned out
        → IsOver s out
    run_ffmpeg-waited {s} {out} reach e =
        let inv = Reach-Inv reach in subst (Returns s) e inv.returns
