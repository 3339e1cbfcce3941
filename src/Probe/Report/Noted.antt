-- ===== src/Probe/Report/Noted.antt =====
-- Which notes `runProbe` makes.
use nixos_fleet.Base.{
  Bool, true, false, ◌&&◌, ◌||◌, List, [], ◌∷◌, ◌++◌, ◌≡◌, refl, ◌∙◌, Error, Option, none, some,
  any, Bytes, ascii, arith,
}
use nixos_fleet.Base.Float.{Float64, of_uint}
use nixos_fleet.Nfs.Mounts.{named, MountInfo, parse_proc_mounts}
use nixos_fleet.Probe.{WriteProbe, Note, free_space, Command, unit_names, systemctl_show}
use nixos_fleet.Probe.Report.{
  ProbeEnv, is_type, mount_notes, address_notes, kind_notes, write_notes, unit_notes, units_notes,
  path_notes, space_notes, probe_writes, show_unit, report_on, run_probe,
}
use nixos_fleet.Text.Cut.{equal}

any-append {ℓ} :
    {A : Type ℓ} (p : A → Bool) (xs ys : List A) → any p (xs ++ ys) ≡ any p xs || any p ys
any-append p [] ys = refl
any-append p (x ∷ xs) ys = ground (arith, any-append p xs ys)

module _ {ℓ} {F : Type ℓ} where
  abbrev pub tells_space : Note F → Bool
  tells_space (free_space mib) = true
  tells_space _ = false

  mount_notes-space :
      (mnt : MountInfo F) (e : Option Error) → any tells_space (mount_notes mnt e) ≡ false
  mount_notes-space mnt none = refl
  mount_notes-space mnt (some e) = refl

module _ {ℓ} (F : Type ℓ) where
  address_notes-space : (addrs : List Bytes) → any tells_space (address_notes {F = F} addrs) ≡ false
  address_notes-space [] = refl
  address_notes-space (a ∷ addrs) = ground (arith, address_notes-space addrs)

  kind_notes-space : (mnt : MountInfo F) → any tells_space (kind_notes mnt) ≡ false
  kind_notes-space mnt = ground arith

  write_notes-space : (ws : List WriteProbe) → any tells_space (write_notes {F = F} ws) ≡ false
  write_notes-space [] = refl
  write_notes-space (w ∷ ws) = ground (arith, write_notes-space ws)

  unit_notes-space :
      (name : Bytes) (props : Bytes → Bytes)
      → any tells_space (unit_notes {F = F} name props) ≡ false
  unit_notes-space name props = ground arith

  units_notes-space :
      (show : Bytes → Command) (names : List Bytes)
      → any tells_space (units_notes {F = F} show names) ≡ false
  units_notes-space show [] = refl
  units_notes-space show (name ∷ names) =
      rw
        (
          any-append tells_space (unit_notes {F = F} name (systemctl_show (show name)).0)
              (units_notes show names),
          unit_notes-space name (systemctl_show (show name)).0,
        )
        (units_notes-space show names)

  path_notes-space : (path dir : Bytes) → any tells_space (path_notes {F = F} path dir) ≡ false
  path_notes-space path dir = ground arith

module _ {ℓ} (F : Type ℓ) ⦃f : Float64 F⦄ where
  space_notes-space :
      (mnt : MountInfo F)
      → any tells_space (space_notes mnt)
        ≡ is_type (ascii "nfs") mnt.fs_type && f.lt (of_uint 0) mnt.avail_mib
  space_notes-space mnt = ground arith

  notes-space :
      (mnt : MountInfo F) (e : Option Error) (addrs : List Bytes) (ws : List WriteProbe)
      (show : Bytes → Command) (names : List Bytes) (path dir : Bytes)
      → any tells_space (
          mount_notes mnt e
          ++ (address_notes addrs
              ++ (kind_notes mnt
                  ++ (write_notes ws
                      ++ (units_notes show names ++ (path_notes path dir ++ space_notes mnt))))))
        ≡ is_type (ascii "nfs") mnt.fs_type && f.lt (of_uint 0) mnt.avail_mib
  notes-space mnt e addrs ws show names path dir =
      rw
        (
          any-append tells_space (mount_notes mnt e),
          mount_notes-space mnt e,
          any-append tells_space (address_notes {F = F} addrs),
          address_notes-space F addrs,
          any-append tells_space (kind_notes mnt),
          kind_notes-space F mnt,
          any-append tells_space (write_notes {F = F} ws),
          write_notes-space F ws,
          any-append tells_space (units_notes {F = F} show names),
          units_notes-space F show names,
          any-append tells_space (path_notes {F = F} path dir),
          path_notes-space F path dir,
        )
        (space_notes-space mnt)

  report_on-space :
      (env : ProbeEnv) (cache_dir health_url : Bytes) (p : MountInfo F × Option Error)
      → any tells_space (report_on {F = F} env cache_dir health_url p).notes
        ≡ is_type (ascii "nfs") p.0.fs_type && f.lt (of_uint 0) p.0.avail_mib
  unfolding report_on
  report_on-space env cache_dir health_url (mnt, e) =
      notes-space mnt e _ (probe_writes env cache_dir) (show_unit env) unit_names _ cache_dir

  -- The report tells the free space exactly where the mount table gives the cache's type as the
  -- text nfs and the space is not 0: not where the type is nfs4.
  pub run_probe-space :
      (env : ProbeEnv) (cache_dir health_url : Bytes)
      → let mnt = (parse_proc_mounts {F = F} env.statfs cache_dir env.mounts).0 in
        (any tells_space (run_probe {F = F} env cache_dir health_url).notes
          ≡ is_type (ascii "nfs") mnt.fs_type && f.lt (of_uint 0) mnt.avail_mib)
        × (mnt.fs_type ≡ named (ascii "nfs4")
            → any tells_space (run_probe {F = F} env cache_dir health_url).notes ≡ false)
  unfolding run_probe
  run_probe-space env cache_dir health_url =
      let said =
        report_on-space env cache_dir health_url
          (parse_proc_mounts env.statfs cache_dir env.mounts) in
      (said, λ e. said ∙ rw e (unfold equal in refl))
