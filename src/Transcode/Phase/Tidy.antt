-- ===== src/Transcode/Phase/Tidy.antt =====
-- What `runPhase` does behind its mount.
use nixos_fleet.Base.{
  ℕ, Bool, true, false, not, List, [], ◌∷◌, ◌≡◌, ◌≢◌, refl, Option, none, some, if◌then◌else◌, All,
  Error, Result, ok, err,
}
use nixos_fleet.Base.Float.{Float64}
use nixos_fleet.Measure.Cpu.{CpuTicks, read_cpu}
use nixos_fleet.Measure.Disk.{DiskTicks, read_disk, root_avail}
use nixos_fleet.Transcode.Ffmpeg.{other_user}
use nixos_fleet.Transcode.Phase.{
  PhaseResult, PhaseOpts, PhaseEnv, Effect, emptied, chowned, transcoded, Ran, ran, with_avail,
  with_disk, with_cpu, with_samples, transcode, after, with_owner, in_directory,
}

abbrev pub IsInside : Effect → Type 0
IsInside (emptied e) = Unit
IsInside chowned = Unit
IsInside transcoded = Unit
IsInside _ = ⊥

-- A directory that could not be emptied may hold what it held.
abbrev pub keeps_dirt : Option Error → Bool → Bool
keeps_dirt none d = false
keeps_dirt (some e) d = d

abbrev pub stays_dirty : Bool → List Effect → Bool
stays_dirty d [] = d
stays_dirty d (emptied e ∷ es) = stays_dirty (keeps_dirt e d) es
stays_dirty d (transcoded ∷ es) = stays_dirty true es
stays_dirty d (_ ∷ es) = stays_dirty d es

some-ne-none : {e : Error} → some e ≢ none
some-ne-none h = cc

module _ {ℓ} {F : Type ℓ} ⦃f : Float64 F⦄ (o : PhaseOpts) (env : PhaseEnv F) where
  -- What is done behind the mount: nothing but changes of the directory, and with no error it is
  -- emptied last, where that succeeds.
  pub record IsTidy (r : Ran F) : Type 0 where
    pub inside : All IsInside r.effects
    pub clean :
        (d : Bool) → r.error ≡ none → env.empty_last ≡ none → stays_dirty d r.effects ≡ false

  failed-IsTidy :
      (res : PhaseResult F) (e : Error) (es : List Effect)
      → All IsInside es
      → IsTidy (ran res (some e) es)
  failed-IsTidy res e es h = record { inside = h; clean = λ d x y. absurd (some-ne-none x) }

  with_avail-IsTidy :
      (res : PhaseResult F) (n : ℕ) (cpu : CpuTicks) (disk : DiskTicks) (r : Result ℕ)
      → IsTidy (with_avail o env res n cpu disk r)
  with_avail-IsTidy res n cpu disk (err e) = failed-IsTidy res e (transcoded ∷ []) (tt, tt)
  with_avail-IsTidy res n cpu disk (ok m) = record {
    inside = (tt, (tt, tt));
    clean = λ d x y. rw y refl;
  }

  with_disk-IsTidy :
      (res : PhaseResult F) (n : ℕ) (cpu : CpuTicks) (r : Result DiskTicks)
      → IsTidy (with_disk o env res n cpu r)
  with_disk-IsTidy res n cpu (err e) = failed-IsTidy res e (transcoded ∷ []) (tt, tt)
  with_disk-IsTidy res n cpu (ok disk) = with_avail-IsTidy res n cpu disk (root_avail env.statfs_1)

  with_cpu-IsTidy :
      (res : PhaseResult F) (n : ℕ) (r : Result CpuTicks) → IsTidy (with_cpu o env res n r)
  with_cpu-IsTidy res n (err e) = failed-IsTidy res e (transcoded ∷ []) (tt, tt)
  with_cpu-IsTidy res n (ok cpu) = with_disk-IsTidy res n cpu (read_disk o.disk_dev env.disk_1)

  with_samples-IsTidy :
      (res : PhaseResult F) (n : ℕ) (e : Option Error) → IsTidy (with_samples o env res n e)
  with_samples-IsTidy res n (some e) = failed-IsTidy res e (transcoded ∷ []) (tt, tt)
  with_samples-IsTidy res n none = with_cpu-IsTidy res n (read_cpu env.stat_1)

  transcode-IsTidy : (res : PhaseResult F) (r : Result ℕ) → IsTidy (transcode o env res r)
  unfolding transcode
  transcode-IsTidy res (err e) = failed-IsTidy res e [] tt
  transcode-IsTidy res (ok n) = with_samples-IsTidy _ n env.sampled.error

  chowned-IsTidy : (r : Ran F) → IsTidy r → IsTidy (after (chowned ∷ []) r)
  chowned-IsTidy r h = record { inside = (tt, h.inside); clean = h.clean }

  emptied-IsTidy : (r : Ran F) → IsTidy r → IsTidy (after (emptied none ∷ []) r)
  emptied-IsTidy r h = record { inside = (tt, h.inside); clean = λ d x y. h.clean false x y }

  if-IsTidy : (test : Bool) (x y : Ran F) → IsTidy x → IsTidy y → IsTidy (if test then x else y)
  if-IsTidy true x y hx hy = hx
  if-IsTidy false x y hx hy = hy

  with_owner-IsTidy : (res : PhaseResult F) (e : Option Error) → IsTidy (with_owner o env res e)
  unfolding with_owner
  with_owner-IsTidy res none = chowned-IsTidy _ (transcode-IsTidy res (root_avail env.statfs_0))
  with_owner-IsTidy res (some e) =
      if-IsTidy (not o.tmpfs) _ _ (failed-IsTidy res e (chowned ∷ []) (tt, tt))
        (chowned-IsTidy _ (transcode-IsTidy res (root_avail env.statfs_0)))

  pub in_directory-IsTidy :
      (res : PhaseResult F) (e : Option Error) → IsTidy (in_directory o env res e)
  unfolding in_directory
  in_directory-IsTidy res (some e) = failed-IsTidy res e (emptied (some e) ∷ []) (tt, tt)
  in_directory-IsTidy res none = emptied-IsTidy _ (
      if-IsTidy (other_user o.as_user) _ _ (with_owner-IsTidy res env.chown)
        (transcode-IsTidy res (root_avail env.statfs_0)))
