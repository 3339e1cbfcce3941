-- ===== src/Probe.antt =====
-- scripts/jellyfin-io-bench/probe.go, over what the files and the commands answer.
pub mod Report
use nixos_fleet.Base.{
  ℕ, Bool, true, false, not, ◌&&◌, ◌||◌, List, [], ◌∷◌, ◌++◌, Option, none, some, if◌then◌else◌,
  Bytes, ascii, Error, Result, ok, err,
}
use nixos_fleet.Base.Float.{Float64, of_uint}
use nixos_fleet.Dns.{Answer, Fetch, DnsLookup, HttpPath, lookup_of, fetch_https, system_resolver}
use nixos_fleet.Measure.Disk.{Statfs}
use nixos_fleet.Nfs.Mounts.{FsType, named, unknown_magic, MountInfo, parse_proc_mounts}
use nixos_fleet.Text.Cut.{equal, has_prefix, cut_prefix, cut, split, join}
use nixos_fleet.Text.Words.{trim_space}

pub record WriteProbe : Type 0 where
  pub user : Bytes
  pub path : Bytes
  pub good : Bool
  pub owner : Bytes
  pub error : Bytes

pub record SystemdUnit : Type 0 where
  pub name : Bytes
  pub load_state : Bytes
  pub active_state : Bytes
  pub idle_timeout : Bytes
  pub what : Bytes
  pub requires_mounts : Bytes
  pub error : Bytes

-- The texts of `Notes`.
pub data Note {ℓ} (F : Type ℓ) : Type ℓ where
  no_cache_mount : Error → FsType → Note F
  tailscale_name : (address : Bytes) → Note F
  tailscale_mount disk_stub no_write no_automount : Note F
  idle_unmount : (timeout : Bytes) → Note F
  other_cache_path : (path : Bytes) → Note F
  free_space : (mib : F) → Note F

pub record ProbeReport {ℓ} (F : Type ℓ) : Type ℓ where
  pub cache_path_xml : Bytes
  pub cache_mount : MountInfo F
  pub truenas : DnsLookup F
  pub jellyfin_active : Bytes
  pub jellyfin_http : HttpPath F
  pub writes : List WriteProbe
  pub units : List SystemdUnit
  pub notes : List (Note F)

-- What a command gave: its output, and the text of its error.
pub record Command : Type 0 where
  pub output : Bytes
  pub error : Option Bytes

-- The group of the regular expression, if it matches at the head.
abbrev close_tag : Option (Bytes × Bytes) → Option Bytes
close_tag none = none
close_tag (some (v, rest)) = if has_prefix rest (ascii "/CachePath>") then some v else none

abbrev tag_at : Option Bytes → Option Bytes
tag_at none = none
tag_at (some rest) = close_tag (cut b'<' rest)

abbrev or_else : Option Bytes → Bytes → Bytes
or_else none v = v
or_else (some v) _ = v

-- The group of the leftmost match, and empty where there is none.
unfoldable pub cache_path : Bytes → Bytes
cache_path [] = []
cache_path (c ∷ s) = or_else (tag_at (cut_prefix (c ∷ s) (ascii "<CachePath>"))) (cache_path s)

unfoldable pub read_cache_path_xml : Result Bytes → Bytes
read_cache_path_xml (err e) = []
read_cache_path_xml (ok text) = cache_path text

-- `res[key]` behind the loop over the lines; `seen` is what was stored before.
unfoldable pub property : Bytes → Bytes → List Bytes → Bytes
property key seen [] = seen
property key seen (line ∷ ls) = elim (cut b'=' line) [
  | none ↦ property key seen ls
  | some (k, v) ↦ property key (if equal k key then v else seen) ls
]

-- The arguments of systemctl.
unfoldable pub systemctl_args : Bytes → List Bytes → List Bytes
systemctl_args unit props =
    ascii "show" ∷ unit ∷ ascii "--no-pager" ∷ (ascii "--property=" ++ join b',' props) ∷ []

-- `systemctlShow`: the map, as a function of the key, and the text of the error.
unfoldable pub systemctl_show : Command → (Bytes → Bytes) × Option Bytes
systemctl_show c =
    let props : Bytes → Bytes = λ key. property key [] (split b'\n' c.output) in
    elim c.error [
      | none ↦ (props, none)
      | some e ↦ (props, some (e ++ (ascii ": " ++ trim_space c.output)))
    ]

abbrev write_script : Bytes
write_script = ascii "echo ok > \"$1\" && stat -c 'uid=%u gid=%g' \"$1\""

-- The command that tries the write, for this user.
unfoldable pub write_args : Bytes → Bytes → List Bytes
write_args path user =
    let shell = ascii "sh" ∷ ascii "-c" ∷ write_script ∷ ascii "sh" ∷ path ∷ [] in
    if equal user (ascii "root") || equal user []
    then shell
    else ascii "runuser" ∷ ascii "-u" ∷ user ∷ ascii "--" ∷ shell

abbrev failed_write : Bytes → Bytes → Bytes → Bytes → WriteProbe
failed_write user path e text = record {
  user = user;
  path = path;
  good = false;
  owner = [];
  error = if equal text [] then e else text;
}

abbrev write_result : Bytes → Bytes → Command → WriteProbe
write_result path user c =
    let text = trim_space c.output in
    elim c.error [
      | some e ↦ failed_write user path e text
      | none ↦ record { user = user; path = path; good = true; owner = text; error = [] }
    ]

-- `in_dir` is filepath.Join with the directory, and `run` what a command does.
unfoldable pub probe_write_info : (Bytes → Bytes) → (List Bytes → Command) → Bytes → WriteProbe
probe_write_info in_dir run user =
    let path = in_dir (ascii ".io-bench-write-" ++ user) in
    write_result path user (run (write_args path user))

abbrev pub jellyfin : Bytes
jellyfin = ascii "jellyfin"

abbrev pub cache_automount : Bytes
cache_automount = ascii "mnt-nfs-jellyfin-cache.automount"

abbrev pub unit_names : List Bytes
unit_names = ascii "mnt-nfs-jellyfin-cache.mount" ∷ cache_automount ∷ ascii "jellyfin.service" ∷ []

abbrev pub unit_props : List Bytes
unit_props =
    ascii "LoadState"
    ∷ ascii "ActiveState"
    ∷ ascii "TimeoutIdleUSec"
    ∷ ascii "What"
    ∷ ascii "RequiresMountsFor"
    ∷ ascii "FragmentPath"
    ∷ []

abbrev pub unit_of : Bytes → (Bytes → Bytes) × Option Bytes → SystemdUnit
unit_of name (props, some e) = record {
  name = name;
  load_state = props (ascii "LoadState");
  active_state = [];
  idle_timeout = [];
  what = [];
  requires_mounts = [];
  error = e;
}
unit_of name (props, none) = record {
  name = name;
  load_state = props (ascii "LoadState");
  active_state = props (ascii "ActiveState");
  idle_timeout = props (ascii "TimeoutIdleUSec");
  what = props (ascii "What");
  requires_mounts = props (ascii "RequiresMountsFor");
  error = [];
}
