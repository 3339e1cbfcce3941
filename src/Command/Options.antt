-- ===== src/Command/Options.antt =====
-- scripts/jellyfin-io-bench/main.go: the flags of `main`, their defaults, and what their arguments
-- set. time.ParseDuration and strconv.ParseFloat are parameters.
use nixos_fleet.Base.{
  ℕ, ◌*◌, ◌^◌, Bool, true, false, List, [], ◌∷◌, Bytes, ascii, Result, ok, ◌>>=◌,
}
use nixos_fleet.Base.Float.{Float64, of_uint}
use nixos_fleet.Base.Int.{ℤ, pos}
use nixos_fleet.Text.Flag.{Kind, switch, valued}

pub record Options {ℓ} (F : Type ℓ) : Type ℓ where
  pub json_path : Bytes
  pub name : Bytes
  pub input : Bytes
  pub ffmpeg_path : Bytes
  pub work_dir : Bytes
  pub nfs_cache : Bytes
  pub nfs_media : Bytes
  pub seek : ℤ
  pub buffer_for : ℤ
  pub drain_mbps : F
  pub drop_cache : Bool
  pub health_url : Bytes
  pub xml_path : Bytes
  pub disk_dev : Bytes
  pub as_user : Bytes
  pub tmpfs_size : Bytes
  pub duration : ℤ
  pub idle_for : ℤ
  pub force : Bool
  pub include_disk : Bool

pub record Parsers {ℓ} (F : Type ℓ) : Type ℓ where
  pub duration : Bytes → Result ℤ
  pub float : Bytes → Result F

abbrev pub default_input : Bytes
default_input =
    ascii
      "/mnt/nfs/media/movies/Oppenheimer.2023.2160p.UHD.Bluray.REMUX.HDR10.HEVC.DTS-HD.MA.5.1-GHD[TGx]/Oppenheimer.2023.2160p.UHD.Bluray.REMUX.HDR10.HEVC.DTS-HD.MA.5.1-GHD.mkv"

abbrev nanos : ℕ → ℤ
nanos s = pos (s * 10 ^ 9)

module _ {ℓ} {F : Type ℓ} where
  unfoldable pub defaults : ⦃f : Float64 F⦄ → Options F
  defaults = record {
    json_path = [];
    name = ascii "jellyfin.alexmayers.co.za";
    input = default_input;
    ffmpeg_path = [];
    work_dir = ascii "/var/tmp/jellyfin-io-bench";
    nfs_cache = ascii "/mnt/nfs/jellyfin/cache";
    nfs_media = ascii "/mnt/nfs/media";
    seek = nanos 600;
    buffer_for = nanos 10;
    drain_mbps = of_uint 128;
    drop_cache = true;
    health_url = ascii "http://127.0.0.1:8096/System/Info/Public";
    xml_path = ascii "/mnt/nfs/jellyfin/config/config/system.xml";
    disk_dev = ascii "sda";
    as_user = [];
    tmpfs_size = ascii "2048M";
    duration = nanos 120;
    idle_for = nanos 15;
    force = false;
    include_disk = false;
  }

  -- StringVar, DurationVar, Float64Var and BoolVar.
  abbrev string_var : (Bytes → Options F → Options F) → Kind (Options F)
  string_var set = valued λ v o. ok (set v o)

  abbrev read_var {κ} :
      {V : Type κ} → (Bytes → Result V) → (V → Options F → Options F) → Kind (Options F)
  read_var parse set = valued λ v o. parse v >>= λ x. ok (set x o)

  -- The flags, in the order of the code.
  abbrev pub formals : Parsers F → List (Bytes × Kind (Options F))
  formals ps =
      (ascii "json", string_var λ v o. record o { json_path = v })
      ∷ (ascii "host", string_var λ v o. record o { name = v })
      ∷ (ascii "input", string_var λ v o. record o { input = v })
      ∷ (ascii "ffmpeg", string_var λ v o. record o { ffmpeg_path = v })
      ∷ (ascii "workdir", string_var λ v o. record o { work_dir = v })
      ∷ (ascii "nfs-cache", string_var λ v o. record o { nfs_cache = v })
      ∷ (ascii "nfs-media", string_var λ v o. record o { nfs_media = v })
      ∷ (ascii "seek", read_var ps.duration λ v o. record o { seek = v })
      ∷ (ascii "buffer", read_var ps.duration λ v o. record o { buffer_for = v })
      ∷ (ascii "drain-mbps", read_var ps.float λ v o. record o { drain_mbps = v })
      ∷ (ascii "drop-cache", switch λ b o. record o { drop_cache = b })
      ∷ (ascii "health", string_var λ v o. record o { health_url = v })
      ∷ (ascii "system-xml", string_var λ v o. record o { xml_path = v })
      ∷ (ascii "disk", string_var λ v o. record o { disk_dev = v })
      ∷ (ascii "user", string_var λ v o. record o { as_user = v })
      ∷ (ascii "tmpfs-size", string_var λ v o. record o { tmpfs_size = v })
      ∷ (ascii "duration", read_var ps.duration λ v o. record o { duration = v })
      ∷ (ascii "idle", read_var ps.duration λ v o. record o { idle_for = v })
      ∷ (ascii "force", switch λ b o. record o { force = b })
      ∷ (ascii "include-disk", switch λ b o. record o { include_disk = b })
      ∷ []
