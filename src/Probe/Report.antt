-- ===== src/Probe/Report.antt =====
-- probe.go: `runProbe`.
pub mod Noted
use nixos_fleet.Base.{
  ℕ, Bool, true, false, not, ◌&&◌, ◌||◌, List, [], ◌∷◌, ◌++◌, Option, none, some, if◌then◌else◌,
  Bytes, ascii, map, Error, Result,
}
use nixos_fleet.Base.Float.{Float64, of_uint}
use nixos_fleet.Dns.{Answer, Fetch, DnsLookup, HttpPath, lookup_of, fetch_https, system_resolver}
use nixos_fleet.Measure.Disk.{Statfs}
use nixos_fleet.Nfs.Mounts.{FsType, named, unknown_magic, MountInfo, parse_proc_mounts}
use nixos_fleet.Probe.{
  WriteProbe, SystemdUnit, Note, no_cache_mount, tailscale_name, tailscale_mount, disk_stub,
  no_write, no_automount, idle_unmount, other_cache_path, free_space, ProbeReport, Command,
  read_cache_path_xml, systemctl_show, probe_write_info, jellyfin, cache_automount, unit_names,
  unit_props, systemctl_args, unit_of,
}
use nixos_fleet.Text.Cut.{equal, has_prefix}
use nixos_fleet.Text.Words.{trim_space}

-- What the probe meets. `in_dir` is filepath.Join.
pub record ProbeEnv : Type 0 where
  pub xml : Result Bytes
  pub statfs : Bytes → Result Statfs
  pub mounts : Result Bytes
  pub truenas : Answer
  pub is_active : Command
  pub fetch : Bytes → Fetch
  pub in_dir : Bytes → Bytes → Bytes
  pub write : List Bytes → Command
  pub systemctl : List Bytes → Command

abbrev pub is_type : Bytes → FsType → Bool
is_type t (named kind) = equal kind t
is_type t (unknown_magic n) = false

abbrev is_nil : Bytes → Bool
is_nil s = equal s []

abbrev is_none : Option Bytes → Bool
is_none none = true
is_none (some e) = false

-- The state of jellyfin, where the command says anything.
unfoldable pub active_state : Command → Bytes
active_state c = if is_none c.error || not (is_nil c.output) then trim_space c.output else []

abbrev pub probe_writes : ProbeEnv → Bytes → List WriteProbe
probe_writes env dir =
    probe_write_info (env.in_dir dir) env.write (ascii "root")
    ∷ probe_write_info (env.in_dir dir) env.write jellyfin
    ∷ []

-- The run of systemctl for a unit.
abbrev pub show_unit : ProbeEnv → Bytes → Command
show_unit env unit = env.systemctl (systemctl_args unit unit_props)

module _ {ℓ} {F : Type ℓ} where
  abbrev pub mount_notes : MountInfo F → Option Error → List (Note F)
  mount_notes mnt none = []
  mount_notes mnt (some e) = no_cache_mount e mnt.fs_type ∷ []

  -- The first address that is of Tailscale.
  abbrev pub address_notes : List Bytes → List (Note F)
  address_notes [] = []
  address_notes (a ∷ addrs) =
      let rest = address_notes addrs in
      if has_prefix a (ascii "100.") then tailscale_name a ∷ [] else rest

  abbrev pub kind_notes : MountInfo F → List (Note F)
  kind_notes mnt =
      (if mnt.tailscale then tailscale_mount ∷ [] else [])
      ++ (if is_type (ascii "ext4") mnt.fs_type || is_type (ascii "xfs") mnt.fs_type
          then disk_stub ∷ []
          else [])

  abbrev pub write_notes : List WriteProbe → List (Note F)
  write_notes [] = []
  write_notes (w ∷ ws) =
      let rest = write_notes ws in
      if equal w.user jellyfin && not w.good then no_write ∷ rest else rest

  abbrev pub unit_notes : Bytes → (Bytes → Bytes) → List (Note F)
  unit_notes name props =
      let state = props (ascii "LoadState") in
      let idle = props (ascii "TimeoutIdleUSec") in
      let automount = equal name cache_automount in
      (if automount && equal state (ascii "not-found") then no_automount ∷ [] else [])
      ++ (if automount
            && (equal state (ascii "loaded")
                && (not (is_nil idle)
                    && (not (equal idle (ascii "infinity")) && not (equal idle (ascii "0")))))
          then idle_unmount idle ∷ []
          else [])

  abbrev pub units_notes : (Bytes → Command) → List Bytes → List (Note F)
  units_notes show [] = []
  units_notes show (name ∷ names) =
      unit_notes name (systemctl_show (show name)).0 ++ units_notes show names

  abbrev pub path_notes : Bytes → Bytes → List (Note F)
  path_notes path cache_dir =
      if not (is_nil path)
        && (not (equal path (ascii "/var/cache/jellyfin")) && not (equal path cache_dir))
      then other_cache_path path ∷ []
      else []

module _ {ℓ} {F : Type ℓ} ⦃f : Float64 F⦄ where
  abbrev pub space_notes : MountInfo F → List (Note F)
  space_notes mnt =
      if is_type (ascii "nfs") mnt.fs_type && f.lt (of_uint 0) mnt.avail_mib
      then free_space mnt.avail_mib ∷ []
      else []

  unfoldable pub report_on : ProbeEnv → Bytes → Bytes → MountInfo F × Option Error → ProbeReport F
  report_on env cache_dir health_url (mnt, e) =
      let path = read_cache_path_xml env.xml in
      let truenas = lookup_of system_resolver (ascii "truenas-scale") env.truenas in
      let writes = probe_writes env cache_dir in
      record {
        cache_path_xml = path;
        cache_mount = mnt;
        truenas = truenas;
        jellyfin_active = active_state env.is_active;
        jellyfin_http = fetch_https health_url (env.fetch health_url);
        writes = writes;
        units = map (λ name. unit_of name (systemctl_show (show_unit env name))) unit_names;
        notes =
            mount_notes mnt e
            ++ (address_notes truenas.addrs
                ++ (kind_notes mnt
                    ++ (write_notes writes
                        ++ (units_notes (show_unit env) unit_names
                            ++ (path_notes path cache_dir ++ space_notes mnt)))));
      }

  unfoldable pub run_probe : ProbeEnv → Bytes → Bytes → ProbeReport F
  run_probe env cache_dir health_url =
      report_on env cache_dir health_url (parse_proc_mounts env.statfs cache_dir env.mounts)
