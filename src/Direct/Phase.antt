-- ===== src/Direct/Phase.antt =====
-- directplay.go: `DirectPlayPhase`, and how an NFS delta gets into it.
use nixos_fleet.Base.{ℕ, Bool, false, ◌||◌, List, [], Option, none, some, if◌then◌else◌, Bytes}
use nixos_fleet.Base.Float.{Float64, of_uint}
use nixos_fleet.Nfs.Stats.{NfsSnap, nfs_delta}

pub record DirectPlayPhase {ℓ} (F : Type ℓ) : Type ℓ where
  pub name : Bytes
  pub kind : Bytes
  pub wall_seconds : F
  pub read_mib : F
  pub avg_mbps : F
  pub min_window_mbps : F
  pub p5_window_mbps : F
  pub max_window_mbps : F
  pub preroll_seconds : F
  pub playing_seconds : F
  pub stall_count : ℕ
  pub stall_seconds : F
  pub speed_min : F
  pub out_time_seconds : F
  pub pass : Bool
  pub error : Bytes
  pub nfs : Option NfsSnap
  pub windows : List F

module _ {ℓ} {F : Type ℓ} ⦃f : Float64 F⦄ where
  -- A phase with this name and kind, and the other fields zero.
  abbrev pub new_phase : Bytes → Bytes → DirectPlayPhase F
  new_phase name kind =
      let zero = of_uint 0 in
      record {
        name = name;
        kind = kind;
        wall_seconds = zero;
        read_mib = zero;
        avg_mbps = zero;
        min_window_mbps = zero;
        p5_window_mbps = zero;
        max_window_mbps = zero;
        preroll_seconds = zero;
        playing_seconds = zero;
        stall_count = 0;
        stall_seconds = zero;
        speed_min = zero;
        out_time_seconds = zero;
        pass = false;
        error = [];
        nfs = none;
        windows = [];
      }

-- The delta is reported if either reading found the mount.
unfoldable pub reported_delta : NfsSnap → NfsSnap → Option NfsSnap
reported_delta nfs0 nfs1 = if nfs0.found || nfs1.found then some (nfs_delta nfs0 nfs1) else none

-- How the code ends on the readings that it is given: it returns, it would read on behind the last
-- of them, or it panics on an index.
pub data Run {ℓ} (A : Type ℓ) : Type ℓ where
  finished : A → Run A
  waiting : Run A
  panicked : Run A
