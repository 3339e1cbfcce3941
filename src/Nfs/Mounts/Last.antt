-- ===== src/Nfs/Mounts/Last.antt =====
-- `parseProcMounts` takes the last line of the target, and of its options the last address.
use nixos_fleet.Base.{
  ◌<◌, ◌⊎◌, false, List, [], ◌∷◌, ◌++◌, ◌≡◌, ◌≢◌, ◌∙◌, refl, ap, Option, none, some, All, length,
  get_elem?, arith, Bytes, ascii, not_in_proc_mounts, Result, ok, Bool-cases, inl, inr,
}
use nixos_fleet.Base.Float.{Float64}
use nixos_fleet.Measure.Disk.{Statfs}
use nixos_fleet.Nfs.Mounts.{
  named, MountInfo, mount_info, take_addr, mount_options, mount_entry, newer, last_mount, with_size,
  dest_size, findmnt_fs_type, parse_proc_mounts,
}
use nixos_fleet.Text.Cut.{
  equal, equal_iff, has_prefix, cut_prefix, split, cut, value_at, value_at-cut,
}
use nixos_fleet.Text.Lines.{scan_lines}
use nixos_fleet.Text.Render.{Spells, fields-Spells}
use nixos_fleet.Text.Words.{fields}

abbrev pub tailscale_prefix : Bytes
tailscale_prefix = ascii "100."

has_prefix-nil : has_prefix [] tailscale_prefix ≡ false
unfolding has_prefix
has_prefix-nil = refl

not_equal : (a b : Bytes) → a ≢ b → equal a b ≡ false
not_equal a b h = ground (arith, equal_iff a b)

abbrev addr_or : Bytes → Option Bytes → Bytes
addr_or seen none = seen
addr_or seen (some v) = v

-- What follows addr= in the last option that begins so, and `seen` where none does.
abbrev pub last_addr : Bytes → List Bytes → Bytes
last_addr seen [] = seen
last_addr seen (opt ∷ opts) = last_addr (addr_or seen (cut_prefix opt (ascii "addr="))) opts

-- The line is too short, or its second field is not the target.
abbrev pub IsElse : Bytes → Bytes → Type 0
IsElse target line = (length (fields line) < 4) ⊎ (get_elem? (fields line) 1 ≢ some target)

module _ {ℓ} {F : Type ℓ} where
  -- With this address of the server.
  abbrev pub at_addr : MountInfo F → Bytes → MountInfo F
  at_addr info a = record info { server_addr = a; tailscale = has_prefix a tailscale_prefix }

  abbrev set_addr : MountInfo F → Option Bytes → MountInfo F
  set_addr info none = info
  set_addr info (some v) = at_addr info v

  take_addr-value :
      (info : MountInfo F) (p : Option (Bytes × Bytes))
      → take_addr info p ≡ set_addr info (value_at (ascii "addr") p)
  take_addr-value info none = refl
  take_addr-value info (some (k, v)) = elim (Bool-cases (equal k (ascii "addr"))) [
    | inl same ↦ rw same
    | inr other ↦ rw other
  ]

  take_addr-at_addr :
      (info : MountInfo F) (a opt : Bytes)
      → take_addr (at_addr info a) (cut b'=' opt)
        ≡ at_addr info (addr_or a (cut_prefix opt (ascii "addr=")))
  take_addr-at_addr info a opt =
      take_addr-value (at_addr info a) (cut b'=' opt)
      ∙ rw (value_at-cut b'=' (ascii "addr") opt refl) (go (cut_prefix opt (ascii "addr=")))
    where
      go : (o : Option Bytes) → set_addr (at_addr info a) o ≡ at_addr info (addr_or a o)
      go none = refl
      go (some v) = refl

  mount_options-last_addr :
      (info : MountInfo F) (a : Bytes) (opts : List Bytes)
      → mount_options (at_addr info a) opts ≡ at_addr info (last_addr a opts)
  unfolding mount_options
  mount_options-last_addr info a [] = refl
  mount_options-last_addr info a (opt ∷ opts) =
      rw (take_addr-at_addr info a opt)
        (mount_options-last_addr info (addr_or a (cut_prefix opt (ascii "addr="))) opts)

module _ {ℓ} {F : Type ℓ} ⦃f : Float64 F⦄ where
  mount_entry-target :
      (target source kind options : Bytes) (more : List Bytes)
      → mount_entry {F = F} target (source ∷ target ∷ kind ∷ options ∷ more)
        ≡ some (
            at_addr
              (mount_info target source (named kind) options)
              (last_addr [] (split b',' options)))
  unfolding mount_entry
  mount_entry-target target source kind options more =
      let info : MountInfo F = mount_info target source (named kind) options in
      rw ((equal_iff target target).1 refl) (
        ap some (
          ap (λ (i : MountInfo F). mount_options i (split b',' options)) (untouched info refl refl)
          ∙ mount_options-last_addr info [] (split b',' options)))
    where
      untouched :
          (info : MountInfo F)
          → info.server_addr ≡ []
          → info.tailscale ≡ false
          → info ≡ at_addr info []
      untouched info a t = ground (arith, has_prefix-nil)

  mount_entry-none :
      (target : Bytes) (fs : List Bytes)
      → (length fs < 4) ⊎ (get_elem? fs 1 ≢ some target)
      → mount_entry {F = F} target fs ≡ none
  unfolding mount_entry
  mount_entry-none target [] h = refl
  mount_entry-none target (a ∷ []) h = refl
  mount_entry-none target (a ∷ b ∷ []) h = refl
  mount_entry-none target (a ∷ b ∷ c ∷ []) h = refl
  mount_entry-none target (a ∷ b ∷ c ∷ d ∷ fs) (inl short) = absurd (omega arith)
  mount_entry-none target (a ∷ b ∷ c ∷ d ∷ fs) (inr other) =
      rw (not_equal b target (λ e. other (ap some e)))

  mount_entry-IsElse :
      (target line : Bytes) → IsElse target line → mount_entry {F = F} target (fields line) ≡ none
  mount_entry-IsElse target line h = mount_entry-none target (fields line) h

  last_mount-IsElse :
      (target : Bytes) (last : Option (MountInfo F)) (ls : List Bytes)
      → All (IsElse target) ls
      → last_mount target last ls ≡ last
  unfolding last_mount
  last_mount-IsElse target last [] h = refl
  last_mount-IsElse target last (line ∷ ls) (e, h) =
      rw (mount_entry-IsElse target line e) (last_mount-IsElse target last ls h)

  last_mount-append :
      (target : Bytes) (last : Option (MountInfo F)) (before : List Bytes) (line : Bytes)
      (after : List Bytes) {info : MountInfo F}
      → mount_entry target (fields line) ≡ some info
      → All (IsElse target) after
      → last_mount target last (before ++ (line ∷ after)) ≡ some info
  unfolding last_mount
  last_mount-append target last [] line after {info} e h =
      rw (e, last_mount) (last_mount-IsElse target (some info) after h)
  last_mount-append target last (b ∷ bs) line after e h =
      last_mount-append target (newer (mount_entry target (fields b)) last) bs line after e h

  parse_proc_mounts-some :
      (statfs : Bytes → Result Statfs) (target text : Bytes) {info : MountInfo F}
      → last_mount target none (scan_lines text) ≡ some info
      → parse_proc_mounts statfs target (ok text) ≡ (with_size info (dest_size statfs target), none)
  parse_proc_mounts-some statfs target text e =
      unfold parse_proc_mounts in rw (e, parse_proc_mounts)

  parse_proc_mounts-none :
      (statfs : Bytes → Result Statfs) (target text : Bytes)
      → last_mount {F = F} target none (scan_lines text) ≡ none
      → parse_proc_mounts {F = F} statfs target (ok text)
        ≡ (mount_info target [] (findmnt_fs_type statfs target) [], some not_in_proc_mounts)
  parse_proc_mounts-none statfs target text e =
      unfold parse_proc_mounts in rw (e, parse_proc_mounts)

  -- Where the last line of the mount table whose second field is the target has the fields source,
  -- target, type and options, the result carries these four, the server's address that the last
  -- option addr= gives (none where there is no such option), marked as Tailscale exactly when that
  -- address begins with 100., and the sizes that statfs gives; there is no error. Earlier lines of
  -- the target do not count.
  pub parse_proc_mounts-last :
      (statfs : Bytes → Result Statfs) (target text : Bytes) (before : List Bytes) (line : Bytes)
      (after : List Bytes) {source kind options : Bytes} {more : List Bytes}
      → scan_lines text ≡ before ++ (line ∷ after)
      → Spells line (source ∷ target ∷ kind ∷ options ∷ more)
      → All (IsElse target) after
      → let info = mount_info {F = F} target source (named kind) options in
        let found = at_addr info (last_addr [] (split b',' options)) in
        parse_proc_mounts statfs target (ok text)
        ≡ (with_size found (dest_size statfs target), none)
  parse_proc_mounts-last statfs target text before line after {source} {kind} {options} {more} e s
        h =
      let found =
        last_mount-append target none before line after
          (rw (fields-Spells s) (mount_entry-target target source kind options more)) h in
      parse_proc_mounts-some statfs target text (rw e found)

  -- Where no line has the target for its second field and at least four fields, the result is the
  -- error that it is not in the table, beside the target and the type that statfs tells.
  pub parse_proc_mounts-absent :
      (statfs : Bytes → Result Statfs) (target text : Bytes)
      → All (IsElse target) (scan_lines text)
      → parse_proc_mounts {F = F} statfs target (ok text)
        ≡ (mount_info target [] (findmnt_fs_type statfs target) [], some not_in_proc_mounts)
  parse_proc_mounts-absent statfs target text h =
      parse_proc_mounts-none statfs target text (last_mount-IsElse target none (scan_lines text) h)
