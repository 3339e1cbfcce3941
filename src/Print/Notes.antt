-- ===== src/Print/Notes.antt =====
-- The texts of the notes of dns.go, probe.go and directplay.go.
use nixos_fleet.Base.{[], ◌∷◌, ◌++◌, Bytes, ascii}
use nixos_fleet.Direct.Report as Direct
use nixos_fleet.Dns
use nixos_fleet.Print.{fs_text}
use nixos_fleet.Probe
use nixos_fleet.Text.Format.{Verbs, concat}

unfoldable pub dns_note : Dns.Note → Bytes
dns_note Dns.no_split_horizon =
    ascii
      "LAN DNS (192.168.3.1) and public DNS both return the xcloud-caddy edge. There is no split-horizon; a 192.168.3.0/24 client using the public hostname hairpins through the cloud VM."

module _ {ℓ} {F : Type ℓ} (v : Verbs F) where
  unfoldable pub probe_note : Probe.Note F → Bytes
  probe_note (Probe.no_cache_mount e kind) =
      concat (ascii "cache mount: " ∷ v.error e ∷ ascii "; fstype=" ∷ fs_text kind ∷ [])
  probe_note (Probe.tailscale_name a) = concat (
      ascii "truenas-scale resolves to Tailscale "
      ∷ a
      ∷ ascii " (NFSv4 follows MagicDNS; this is not the LAN SSD path)."
      ∷ [])
  probe_note Probe.tailscale_mount =
      ascii
        "NFS clientaddr/addr is Tailscale. Guest iowait on this mount includes userspace tailscaled and MTU 1280, not just ZFS SSD latency."
  probe_note Probe.disk_stub =
      ascii
        "cache path is the VM disk stub, not NFS. Mount truenas-scale:/mnt/ssd/jellyfin/cache before measuring the original architecture."
  probe_note Probe.no_write =
      ascii
        "jellyfin uid cannot write the NFS cache (leftover uid 3000 from the old containers user). BindPaths would not make transcodes work until the dataset is chowned."
  probe_note Probe.no_automount =
      ascii
        "systemd automount for the cache is not in the running generation (ad-hoc mount only). Next deploy of apps-1 installs it."
  probe_note (Probe.idle_unmount t) = concat (
      ascii "cache automount idle-timeout="
      ∷ t
      ∷ ascii
          ". A quiet cache unmounts; the next transcode remounts. RequiresMountsFor means a remount failure takes Jellyfin down."
      ∷ [])
  probe_note (Probe.other_cache_path p) = concat (
      ascii "system.xml CachePath="
      ∷ p
      ∷ ascii
          " does not match the bind dest /var/cache/jellyfin. Jellyfin will ignore --cachedir and may fail to start."
      ∷ [])
  probe_note (Probe.free_space m) = concat (
      ascii "SSD cache dataset has "
      ∷ v.fixed 0 m
      ∷ ascii " MiB free (not the 6.5 GiB VM root)."
      ∷ [])

  unfoldable pub direct_note : Direct.Note F → Bytes
  direct_note (Direct.not_nfs mount kind) =
      concat (ascii "media mount " ∷ mount ∷ ascii " is " ∷ fs_text kind ∷ ascii ", not nfs" ∷ [])
  direct_note (Direct.drop_failed why e) =
      concat (ascii "drop_caches (" ∷ why ∷ ascii "): " ∷ v.error e ∷ [])
  direct_note (Direct.dropped why) = ascii "dropped page cache before " ++ why
  direct_note (Direct.drains mbps buffer avg) = concat (
      ascii "player drains at "
      ∷ v.fixed 0 mbps
      ∷ ascii " Mbps (UHD BD max) with a "
      ∷ v.fixed 0 buffer
      ∷ ascii "s buffer; file average is "
      ∷ v.fixed 1 avg
      ∷ ascii " Mbps."
      ∷ [])
  direct_note Direct.about_reads =
      ascii
        "nfs_sequential_max is an uncapped cold-ish read. player_buffer only reads when the virtual client has room, so a multi-second NFS hang underruns."
  -- The sign behind the 1 is U+00D7.
  direct_note Direct.about_copies =
      ascii "ffmpeg_copy is 1"
      ++ (0xC3
          ∷ 0x97
          ∷ ascii
              " media seconds demuxed as fast as the NFS+demux path allows. ffmpeg_copy_re is timestamp-paced (Direct Play analogue); speed < 0.90 for 1.5s is a stall.")
