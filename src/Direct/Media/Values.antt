-- ===== src/Direct/Media/Values.antt =====
-- What `probeMedia` takes from ffprobe's output.
use nixos_fleet.Base.{
  ℕ, true, false, List, [], ◌∷◌, ◌++◌, ◌≡◌, ◌≢◌, refl, sym, subst, ◌∙◌, ap, Option, none, some,
  Bytes, ascii, Result, ok, Bool-cases, inl, inr,
}
use nixos_fleet.Base.Float.{Float64}
use nixos_fleet.Direct.Media.{
  Media, keep_size, media_value, media_line, media_lines, of_size, probe_media,
}
use nixos_fleet.Text.Cut.{equal, equal_iff, cut, cut_prefix, split, value_at, value_at-cut}
use nixos_fleet.Text.Number.{parse_uint}

abbrev value_or {ℓ} : {A : Type ℓ} → (A → Bytes → A) → A → Option Bytes → A
value_or read a none = a
value_or read a (some v) = read a v

-- What follows `key=` in the lines that begin so, in order, each read by `read`, which is given
-- what was read before.
abbrev pub read_all {ℓ} : {A : Type ℓ} → Bytes → (A → Bytes → A) → A → List Bytes → A
read_all key read a [] = a
read_all key read a (line ∷ ls) =
    read_all key read (value_or read a (cut_prefix line (key ++ (b'=' ∷ [])))) ls

-- A number that is read counts where it is one and is not 0.
abbrev pub read_size : ℕ → Bytes → ℕ
read_size n v = keep_size n (parse_uint v)

abbrev pub read_rate : ℕ → Bytes → ℕ
read_rate n v = (parse_uint v).0

-- A key is no other.
other_key : (k a b : Bytes) → equal a b ≡ false → equal k a ≡ true → equal k b ≡ false
other_key k a b h e = subst (λ x. equal x b ≡ false) (sym ((equal_iff k a).0 e)) h

module _ {ℓ} {F : Type ℓ} ⦃f : Float64 F⦄ where
  abbrev pub read_duration : F → Bytes → F
  read_duration d v = f.parse v

  abbrev values_of : Media F → Option (Bytes × Bytes) → Media F
  values_of m p = record {
    duration = value_or read_duration m.duration (value_at (ascii "duration") p);
    bit_rate = value_or read_rate m.bit_rate (value_at (ascii "bit_rate") p);
    size = value_or read_size m.size (value_at (ascii "size") p);
  }

  media_line-values_of : (m : Media F) (p : Option (Bytes × Bytes)) → media_line m p ≡ values_of m p
  media_line-values_of m none = refl
  media_line-values_of m (some (k, v)) =
      unfold media_value in
      elim (Bool-cases (equal k (ascii "duration"))) [
        | inl d ↦ rw (
          d,
          other_key k (ascii "duration") (ascii "bit_rate") (unfold equal in refl) d,
          other_key k (ascii "duration") (ascii "size") (unfold equal in refl) d,
        )
        | inr no_d ↦ rw no_d (elim (Bool-cases (equal k (ascii "bit_rate"))) [
          | inl b ↦ rw (b, other_key k (ascii "bit_rate") (ascii "size") (unfold equal in refl) b)
          | inr no_b ↦
              rw no_b
                (elim (Bool-cases (equal k (ascii "size"))) [ inl s ↦ rw s | inr no_s ↦ rw no_s ])
        ])
      ]

  -- The three results over the lines.
  abbrev pub media_of : Media F → List Bytes → Media F
  media_of m ls = record {
    duration = read_all (ascii "duration") read_duration m.duration ls;
    bit_rate = read_all (ascii "bit_rate") read_rate m.bit_rate ls;
    size = read_all (ascii "size") read_size m.size ls;
  }

  media_lines-media_of : (m : Media F) (ls : List Bytes) → media_lines m ls ≡ media_of m ls
  unfolding media_lines
  media_lines-media_of m [] = refl
  media_lines-media_of m (line ∷ ls) =
      ap (λ (n : Media F). media_lines n ls) (media_line-values_of m (cut b'=' line))
      ∙ media_lines-media_of (values_of m (cut b'=' line)) ls
      ∙ rw (
        value_at-cut b'=' (ascii "duration") line refl,
        value_at-cut b'=' (ascii "bit_rate") line refl,
        value_at-cut b'=' (ascii "size") line refl,
      )

module _ {ℓ} (F : Type ℓ) ⦃f : Float64 F⦄ where
  -- Where the file is there, an ffprobe was found and it prints `out`, the duration and the bit
  -- rate are what follows `duration=` and `bit_rate=` in the last line that begins so, and 0 where
  -- none does; the size is what follows `size=` in the last such line where it is a uint64 that
  -- is not 0, and else the file's; there is no error.
  pub probe_media-media_of :
      (n : ℕ) (output : Bytes → Result Bytes) (ffprobe : Bytes) {out : Bytes}
      → ffprobe ≢ []
      → output ffprobe ≡ ok out
      → probe_media {F = F} (ok n) output ffprobe ≡ (media_of (of_size n) (split b'\n' out), none)
  unfolding probe_media
  probe_media-media_of n output ffprobe {out} found e = elim (Bool-cases (equal ffprobe [])) [
    | inl empty ↦ absurd (found ((equal_iff ffprobe []).0 empty))
    | inr other ↦
        rw (other, e)
          (ap (λ (m : Media F). (m, none)) (media_lines-media_of (of_size n) (split b'\n' out)))
  ]
