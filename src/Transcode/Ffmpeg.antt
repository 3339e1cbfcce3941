-- ===== src/Transcode/Ffmpeg.antt =====
-- transcode.go: `runFFmpeg`, over how the process ends.
pub mod Select
use nixos_fleet.Base.{
  ℕ, Bool, not, ◌&&◌, List, [], ◌∷◌, ◌++◌, Option, none, some, if◌then◌else◌, Bytes, ascii, Error,
  system,
}
use nixos_fleet.Base.Float.{Float64, of_uint, seconds}
use nixos_fleet.Base.Int.{sub_ℕ}
use nixos_fleet.Text.Cut.{equal}
use nixos_fleet.Transcode.Tail.{last_lines}

-- How the select ends: cmd.Start fails; the process ends by itself, with the text of Wait's error;
-- the timer fires and the process ends within 8 s, with the text of its state, or does not; or the
-- context is done.
pub data FfmpegEnd : Type 0 where
  not_started : (error : Bytes) → FfmpegEnd
  ended : (error : Option Bytes) → FfmpegEnd
  interrupted : (state : Option Bytes) → FfmpegEnd
  overstayed : FfmpegEnd
  cancelled : (error : Bytes) → FfmpegEnd

pub data Signal : Type 0 where
  sigint sigkill : Signal

-- The results, and the signals that the process group was sent.
pub record FfmpegOutcome {ℓ} (F : Type ℓ) : Type ℓ where
  pub exit : Bytes
  pub tail : Bytes
  pub wall : F
  pub error : Option Error
  pub signals : List Signal

abbrev encoder : List Bytes
encoder =
    ascii "-an"
    ∷ ascii "-vf"
    ∷ ascii "vpp_qsv=w=1920:h=1080:format=nv12"
    ∷ ascii "-c:v"
    ∷ ascii "h264_qsv"
    ∷ ascii "-preset"
    ∷ ascii "veryfast"
    ∷ ascii "-b:v"
    ∷ ascii "8M"
    ∷ ascii "-f"
    ∷ ascii "hls"
    ∷ ascii "-hls_time"
    ∷ ascii "4"
    ∷ ascii "-hls_list_size"
    ∷ ascii "0"
    ∷ []

abbrev decoder : List Bytes
decoder =
    ascii "-hwaccel"
    ∷ ascii "qsv"
    ∷ ascii "-hwaccel_output_format"
    ∷ ascii "qsv"
    ∷ ascii "-qsv_device"
    ∷ ascii "/dev/dri/renderD128"
    ∷ []

-- `playlist` is filepath.Join(dest, "bench.m3u8").
unfoldable pub ffmpeg_args : Bytes → Bytes → Bool → List Bytes
ffmpeg_args input playlist realtime =
    let pace = if realtime then ascii "-re" ∷ [] else [] in
    (ascii "-hide_banner"
      ∷ ascii "-nostdin"
      ∷ ascii "-y"
      ∷ ascii "-loglevel"
      ∷ ascii "warning"
      ∷ ascii "-stats"
      ∷ [])
    ++ (pace ++ (decoder ++ (ascii "-i" ∷ input ∷ (encoder ++ playlist ∷ []))))

abbrev driver : List Bytes
driver = ascii "LIBVA_DRIVER_NAME=iHD" ∷ ascii "LIBVA_DRIVERS_PATH=/run/opengl-driver/lib/dri" ∷ []

abbrev pub other_user : Bytes → Bool
other_user user = not (equal user []) && not (equal user (ascii "root"))

-- The program and its arguments, for this user.
unfoldable pub ffmpeg_command : Bytes → Bytes → List Bytes → Bytes × List Bytes
ffmpeg_command user ffmpeg args =
    if other_user user
    then (
      ascii "runuser",
      (ascii "-u" ∷ user ∷ ascii "--" ∷ ascii "env" ∷ driver) ++ (ffmpeg ∷ args),
    )
    else (ffmpeg, args)

abbrev pub state_or : Bytes → Option Bytes → Bytes
state_or text none = text
state_or text (some state) = state

module _ {ℓ} {F : Type ℓ} ⦃f : Float64 F⦄ where
  -- `output` is what the process wrote, and the two times are readings of the clock.
  unfoldable pub run_ffmpeg : Bytes → ℕ → ℕ → FfmpegEnd → FfmpegOutcome F
  run_ffmpeg output start now end =
      let tail = last_lines output 12 in
      let wall = seconds (sub_ℕ now start) in
      elim end [
        | not_started e ↦ record {
          exit = ascii "start-failed";
          tail = output;
          wall = of_uint 0;
          error = some (system e);
          signals = [];
        }
        | ended none ↦ record {
          exit = ascii "exited";
          tail = tail;
          wall = wall;
          error = none;
          signals = [];
        }
        | ended (some e) ↦ record {
          exit = e;
          tail = tail;
          wall = wall;
          error = some (system e);
          signals = [];
        }
        | interrupted state ↦ record {
          exit = state_or (ascii "interrupted") state;
          tail = tail;
          wall = wall;
          error = none;
          signals = sigint ∷ [];
        }
        | overstayed ↦ record {
          exit = ascii "killed";
          tail = tail;
          wall = wall;
          error = none;
          signals = sigint ∷ sigkill ∷ [];
        }
        | cancelled e ↦ record {
          exit = ascii "ctx";
          tail = tail;
          wall = wall;
          error = some (system e);
          signals = sigkill ∷ [];
        }
      ]
