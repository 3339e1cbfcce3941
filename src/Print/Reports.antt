-- ===== src/Print/Reports.antt =====
-- main.go: what `main` prints of the DNS report, and `printProbe`.
use nixos_fleet.Base.{not, [], ◌∷◌, ◌++◌, map, if◌then◌else◌, Bytes, ascii}
use nixos_fleet.Dns.{DnsLookup, HttpPath, DnsReport}
use nixos_fleet.Nfs.Mounts.{MountInfo}
use nixos_fleet.Print.{fs_text}
use nixos_fleet.Print.Notes.{dns_note, probe_note}
use nixos_fleet.Probe.{WriteProbe, SystemdUnit, ProbeReport}
use nixos_fleet.Text.Cut.{equal}
use nixos_fleet.Text.Format.{Verbs, concat, decimal, bool_text, list_text, left}

abbrev pub newline : Bytes
newline = ascii "\n"

-- A piece that is printed where the value is not empty.
abbrev pub unless_empty : Bytes → Bytes → Bytes
unless_empty value piece = if not (equal value []) then piece else []

abbrev pub note_line : Bytes → Bytes
note_line n = concat (ascii "  note: " ∷ n ∷ newline ∷ [])

unfoldable pub write_text : WriteProbe → Bytes
write_text w =
    if w.good
    then concat (ascii "  write " ∷ w.user ∷ ascii " ok owner=" ∷ w.owner ∷ newline ∷ [])
    else concat (ascii "  write " ∷ w.user ∷ ascii " FAIL " ∷ w.error ∷ newline ∷ [])

unfoldable pub unit_line : SystemdUnit → Bytes
unit_line u = concat (
    ascii "  unit "
    ∷ u.name
    ∷ ascii " load="
    ∷ u.load_state
    ∷ ascii " active="
    ∷ u.active_state
    ∷ ascii " idle="
    ∷ u.idle_timeout
    ∷ ascii " what="
    ∷ u.what
    ∷ newline
    ∷ [])

module _ {ℓ} {F : Type ℓ} (v : Verbs F) where
  unfoldable pub lookup_text : DnsLookup F → Bytes
  lookup_text l = concat (
      ascii "  "
      ∷ left 18 l.resolver
      ∷ ascii " "
      ∷ list_text l.addrs
      ∷ unless_empty l.error (ascii " err=" ++ l.error)
      ∷ ascii " ("
      ∷ v.fixed 1 l.millis_taken
      ∷ ascii "ms)\n"
      ∷ [])

  unfoldable pub https_text : HttpPath F → Bytes
  https_text h = concat (
      ascii "  https "
      ∷ h.url
      ∷ ascii " status="
      ∷ decimal h.status
      ∷ ascii " remote="
      ∷ h.remote
      ∷ ascii " via="
      ∷ v.quoted h.via
      ∷ ascii " ("
      ∷ v.fixed 1 h.millis_taken
      ∷ ascii "ms)\n"
      ∷ unless_empty h.error (concat (ascii "  https error: " ∷ h.error ∷ newline ∷ []))
      ∷ [])

  unfoldable pub dns_text : Bytes → DnsReport F → Bytes
  dns_text hostname d = concat (
      concat (ascii "== dns on " ∷ hostname ∷ ascii " ==\n" ∷ [])
      ∷ concat (map lookup_text d.lookups)
      ∷ https_text d.https
      ∷ concat (ascii "  hairpin=" ∷ bool_text d.hairpin ∷ newline ∷ [])
      ∷ concat (map (λ n. note_line (dns_note n)) d.notes)
      ∷ [])

  unfoldable pub mount_text : MountInfo F → Bytes
  mount_text m = concat (
      ascii "  mount "
      ∷ m.target
      ∷ ascii " source="
      ∷ m.source
      ∷ ascii " fstype="
      ∷ fs_text m.fs_type
      ∷ ascii " addr="
      ∷ m.server_addr
      ∷ ascii " tailscale="
      ∷ bool_text m.tailscale
      ∷ ascii " size="
      ∷ v.fixed 0 m.size_mib
      ∷ ascii " MiB avail="
      ∷ v.fixed 0 m.avail_mib
      ∷ ascii " MiB\n"
      ∷ [])

  unfoldable pub truenas_text : DnsLookup F → Bytes
  truenas_text l = concat (
      ascii "  truenas-scale "
      ∷ list_text l.addrs
      ∷ ascii " ("
      ∷ v.fixed 1 l.millis_taken
      ∷ ascii "ms) err="
      ∷ l.error
      ∷ newline
      ∷ [])

  unfoldable pub jellyfin_text : Bytes → HttpPath F → Bytes
  jellyfin_text active h = concat (
      ascii "  jellyfin "
      ∷ active
      ∷ ascii "  HTTP "
      ∷ h.url
      ∷ ascii " status="
      ∷ decimal h.status
      ∷ ascii " ("
      ∷ v.fixed 1 h.millis_taken
      ∷ ascii "ms) err="
      ∷ h.error
      ∷ newline
      ∷ [])

  unfoldable pub print_probe : ProbeReport F → Bytes
  print_probe p = concat (
      ascii "== probe ==\n"
      ∷ concat (ascii "  CachePath xml=" ∷ v.quoted p.cache_path_xml ∷ newline ∷ [])
      ∷ mount_text p.cache_mount
      ∷ truenas_text p.truenas
      ∷ jellyfin_text p.jellyfin_active p.jellyfin_http
      ∷ concat (map write_text p.writes)
      ∷ concat (map unit_line p.units)
      ∷ concat (map (λ n. note_line (probe_note v n)) p.notes)
      ∷ [])
