-- ===== src/Transcode/Ffmpeg/Select/Goes.antt =====
-- That `runFFmpeg` ends once its process does, and what it waits for till then.
use nixos_fleet.Base.{ℕ, ◌+◌, ◌<◌, [], ◌∷◌, ◌≡◌, none, some, if◌then◌else◌}
use nixos_fleet.Base.Float.{Float64}
use nixos_fleet.Transcode.Ffmpeg.{sigint, sigkill}
use nixos_fleet.Transcode.Ffmpeg.Select.{
  Runner, selecting, killing, interrupting, abandoning, returned, Live, Move,
}

-- What is left to do.
abbrev pub runner_left {ℓ} : {F : Type ℓ} → Runner F → ℕ
runner_left selecting = 3
runner_left (interrupting until) = 2
runner_left killing = 1
runner_left (abandoning e) = 1
runner_left (returned out) = 0

abbrev pub left {ℓ} : {F : Type ℓ} → Live F → ℕ
left s = runner_left s.runner + (if s.sent then 0 else 1)

-- What it may wait for where the process runs: the timer and the context, the 8 seconds behind
-- SIGINT, or the end of a process that was sent SIGKILL.
abbrev pub Awaits {ℓ} : {F : Type ℓ} → Live F → Runner F → Type 0
Awaits s selecting = (s.clock < s.deadline) × (s.over ≡ none)
Awaits s (interrupting until) = (s.clock < until) × (s.signals ≡ sigint ∷ [])
Awaits s killing = s.signals ≡ sigint ∷ sigkill ∷ []
Awaits s (abandoning e) = (s.signals ≡ sigkill ∷ []) × (s.over ≡ some e)
Awaits s (returned out) = ⊥

module _ {ℓ} {F : Type ℓ} ⦃f : Float64 F⦄ (start : ℕ) where
  -- A step of the program that brings the end nearer.
  abbrev pub Goes : Live F → Type ℓ
  Goes s = (t : Live F) × Move start s t × (left t < left s)
