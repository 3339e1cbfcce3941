-- ===== src/Transcode/Tail.antt =====
-- transcode.go: `lastLines`.
use mathlib.Core.List.{append_assoc}
use nixos_fleet.Base.{
  ℕ, zero, suc, ◌-◌, ◌≤◌, ◌<◌, leb, List, [], ◌∷◌, ◌++◌, ◌≡◌, ◌∙◌, refl, sym, ap, if◌then◌else◌,
  length, drop, length-drop, leb-false→lt, arith, Bytes, Bool-cases, inl, inr,
}
use nixos_fleet.Text.Cut.{split, join, join-split}

unfoldable pub last_lines : Bytes → ℕ → Bytes
last_lines s n =
    let lines = split b'\n' s in
    if leb (length lines) n then s else join b'\n' (drop (length lines - n) lines)

join-cons :
    (sep : ℕ) (w v : Bytes) (ws : List Bytes)
    → join sep (w ∷ v ∷ ws) ≡ w ++ (sep ∷ join sep (v ∷ ws))
unfolding join
join-cons sep w v ws = refl

-- What is dropped of the pieces is dropped in front.
join-drop :
    (sep k : ℕ) (ws : List Bytes)
    → k < length ws
    → (front : Bytes) × (join sep ws ≡ front ++ join sep (drop k ws))
join-drop sep zero ws h = ([], refl)
join-drop sep (suc k) [] h = elim h [ ]
join-drop sep (suc k) (w ∷ []) h = absurd (omega arith)
join-drop sep (suc k) (w ∷ v ∷ ws) h =
    let (front, e) = join-drop sep k (v ∷ ws) (omega arith) in
    (
      w ++ (sep ∷ front),
      join-cons sep w v ws
          ∙ ap (λ (t : Bytes). w ++ (sep ∷ t)) e
          ∙ sym (append_assoc w (sep ∷ front) (join sep (drop k (v ∷ ws)))),
    )

-- With `n` at least 1 the result is a suffix of the text; it is the whole text where that has at
-- most `n` lines, and else the last `n` of its lines joined again.
pub last_lines-suffix :
    (s : Bytes) (n : ℕ)
    → 1 ≤ n
    → let lines = split b'\n' s in
      ((front : Bytes) × (s ≡ front ++ last_lines s n))
      × (length lines ≤ n → last_lines s n ≡ s)
      × (n < length lines
          → (last_lines s n ≡ join b'\n' (drop (length lines - n) lines))
            × (length (drop (length lines - n) lines) ≡ n))
unfolding last_lines
last_lines-suffix s n h = elim (Bool-cases (leb (length (split b'\n' s)) n)) [
  | inl short ↦ rw short (([], refl), (λ _. refl), λ long. absurd (ground arith))
  | inr long ↦
      let lines = split b'\n' s in
      let k = length lines - n in
      let more : n < length lines = leb-false→lt (length lines) n long in
      let (front, e) = join-drop b'\n' k lines (omega arith) in
      rw long (
        (front, sym (join-split b'\n' s) ∙ e),
        (λ short. absurd (omega arith)),
        λ _. (refl, omega (arith, length-drop k lines)),
      )
]
