-- ===== src/Transcode/Phase/Mounted.antt =====
-- What `runPhase` does to its destination, in every way that it can end.
use nixos_fleet.Base.{
  Bool, true, false, not, ◌&&◌, List, [], ◌∷◌, ◌≡◌, Option, none, some, if◌then◌else◌, Error,
}
use nixos_fleet.Base.Float.{Float64}
use nixos_fleet.Transcode.Phase.{
  PhaseOpts, PhaseEnv, Effect, made, mounted, emptied, chowned, transcoded, unmounted, Ran,
}
use nixos_fleet.Transcode.Phase.Tidy.{keeps_dirt}

-- The destination: whether the tmpfs lies over it, and whether it may hold segments of ffmpeg.
pub record Place : Type 0 where
  pub mounted : Bool
  pub dirty : Bool

abbrev same_bool : Bool → Bool → Bool
same_bool true b = b
same_bool false b = not b

-- The segments on a tmpfs go with it; an umount that failed changes nothing.
abbrev pub without_mount : Option Error → Place → Place
without_mount none p = record { mounted = false; dirty = false }
without_mount (some e) p = p

-- An effect in its place: nothing is written where the tmpfs is asked for and does not lie over the
-- destination, and it is mounted and unmounted in turn.
abbrev pub takes_place : Bool → Effect → Place → Option Place
takes_place tmpfs made p = if p.mounted then none else some p
takes_place tmpfs mounted p =
    if tmpfs && not p.mounted then some (record { mounted = true; dirty = false }) else none
takes_place tmpfs (unmounted e) p = if p.mounted then some (without_mount e p) else none
takes_place tmpfs (emptied e) p =
    if same_bool tmpfs p.mounted then some (record p { dirty = keeps_dirt e p.dirty }) else none
takes_place tmpfs chowned p = if same_bool tmpfs p.mounted then some p else none
takes_place tmpfs transcoded p =
    if same_bool tmpfs p.mounted then some (record p { dirty = true }) else none

abbrev and_on : (Place → Option Place) → Option Place → Option Place
and_on next none = none
and_on next (some p) = next p

-- All effects in order; `none` where one is out of place.
abbrev pub replay : Bool → List Effect → Place → Option Place
replay tmpfs [] p = some p
replay tmpfs (e ∷ es) p = and_on (replay tmpfs es) (takes_place tmpfs e p)

abbrev clean_place : Place
clean_place = record { mounted = false; dirty = false }

module _ {ℓ} {F : Type ℓ} ⦃f : Float64 F⦄ (o : PhaseOpts) (env : PhaseEnv F) where
  -- Every effect is in its place. A tmpfs is left only where umount failed; where the phase has no
  -- error, segments are left only where the directory could not be emptied at the end, or umount
  -- failed behind that; and on a tmpfs that was unmounted none are left whatever the error.
  abbrev pub IsRestored : Bool → Ran F → Type 0
  IsRestored tmpfs r =
      (p : Place) × (replay tmpfs r.effects (record { mounted = false; dirty = false }) ≡ some p)
      × (env.umount ≡ none → p.mounted ≡ false)
      × (tmpfs ≡ false → p.mounted ≡ false)
      × (r.error ≡ none → env.empty_last ≡ none → p.dirty ≡ false)
      × (tmpfs ≡ true → env.umount ≡ none → p.dirty ≡ false)
