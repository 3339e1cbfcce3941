-- ===== src/Tests/Probe.antt =====
-- probe.go at small inputs.
use nixos_fleet.Base.{◌++◌, ◌∷◌, false, ◌&&◌, [], ◌≡◌, refl, none, any, Bytes, ascii, Result, ok}
use nixos_fleet.Base.Float.{Micros, micros_float, of_uint}
use nixos_fleet.Dns.{answered}
use nixos_fleet.Measure.Disk.{Statfs}
use nixos_fleet.Nfs.Mounts.{named, parse_proc_mounts}
use nixos_fleet.Probe.{Command, cache_path, property}
use nixos_fleet.Probe.Report.{ProbeEnv, is_type, run_probe}
use nixos_fleet.Probe.Report.Noted.{tells_space, run_probe-space}
use nixos_fleet.Text.Cut.{equal, has_prefix, cut_prefix, cut, split}

cache_path-xml :
    cache_path
      (ascii "<Config><CachePath></Cache><CachePath>/c</CachePath><CachePath>/d</CachePath>")
    ≡ ascii "/c"
unfolding cache_path cut_prefix cut has_prefix
cache_path-xml = refl

abbrev unit_text : Bytes
unit_text = ascii "LoadState=loaded\nWhat=a=b\nLoadState=masked\n"

property-last : property (ascii "LoadState") [] (split b'\n' unit_text) ≡ ascii "masked"
unfolding property cut split equal
property-last = refl

abbrev silent : Command
silent = record { output = []; error = none }

abbrev statfs : Bytes → Result Statfs
statfs path = ok (record { kind = 0x6969; bsize = 1048576; blocks = 9; bavail = 5 })

abbrev pub env : ProbeEnv
env = record {
  xml = ok [];
  statfs = statfs;
  mounts = ok (ascii "s:/c /c nfs4 rw 0 0\n");
  truenas = record { addrs = []; error = none; elapsed = 0 };
  is_active = silent;
  fetch = λ url. answered 200 [] [] 0;
  in_dir = λ dir name. dir ++ (b'/' ∷ name);
  write = λ args. silent;
  systemctl = λ args. silent;
}

run_probe-space_example :
    let mnt = (parse_proc_mounts {F = Micros} env.statfs (ascii "/c") env.mounts).0 in
    (any tells_space (run_probe {F = Micros} env (ascii "/c") (ascii "http://j")).notes
      ≡ is_type (ascii "nfs") mnt.fs_type && micros_float.lt (of_uint 0) mnt.avail_mib)
    × (mnt.fs_type ≡ named (ascii "nfs4")
        → any tells_space (run_probe {F = Micros} env (ascii "/c") (ascii "http://j")).notes
          ≡ false)
run_probe-space_example = run_probe-space Micros env (ascii "/c") (ascii "http://j")
