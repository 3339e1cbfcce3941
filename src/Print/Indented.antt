-- ===== src/Print/Indented.antt =====
-- The lines of an indented text.
use nixos_fleet.Base.{
  ℕ, ◌==◌, true, List, [], ◌∷◌, ◌++◌, ◌≡◌, refl, ap, ◌∙◌, map, All, arith, Bytes, Bool-cases, inl,
  inr,
}
use nixos_fleet.Print.{indent}
use nixos_fleet.Text.Cut.{without, split, join, split-word, split-append, split-cons}
use nixos_fleet.Text.Format.{trim_newlines}

abbrev AllWithout : ℕ → List Bytes → Type 0
AllWithout sep = All λ w. without sep w ≡ true

without-append :
    (sep : ℕ) (v w : Bytes)
    → without sep v ≡ true
    → without sep w ≡ true
    → without sep (v ++ w) ≡ true
without-append sep [] w h g = g
without-append sep (c ∷ v) w h g = ground (arith, without-append sep v w)

-- The pieces of a split hold no separator.
split-AllWithout : (sep : ℕ) (s : Bytes) → AllWithout sep (split sep s)
unfolding split
split-AllWithout sep [] = (refl, tt)
split-AllWithout sep (c ∷ cs) =
    let (w, ws, e) = split-cons sep cs in
    let ih : AllWithout sep (w ∷ ws) = rw e at (split-AllWithout sep cs) in
    elim (Bool-cases (c == sep)) [
      | inl same ↦ rw (same, e) (refl, ih)
      | inr other ↦ rw (other, e) (ground (arith, ih.0), ih.1)
    ]

-- Pieces that hold no separator are found again behind a join.
split-join :
    (sep : ℕ) (w : Bytes) (ws : List Bytes)
    → AllWithout sep (w ∷ ws)
    → split sep (join sep (w ∷ ws)) ≡ w ∷ ws
unfolding join
split-join sep w [] (h, _) = split-word sep w h
split-join sep w (v ∷ ws) (h, hs) =
    split-append sep w (join sep (v ∷ ws)) h ∙ ap (◌∷◌ w) (split-join sep v ws hs)

map-AllWithout :
    (sep : ℕ) (prefix : Bytes) (ws : List Bytes)
    → without sep prefix ≡ true
    → AllWithout sep ws
    → AllWithout sep (map (λ l. prefix ++ l) ws)
map-AllWithout sep prefix [] h hs = tt
map-AllWithout sep prefix (w ∷ ws) h (g, gs) =
    (without-append sep prefix w h g, map-AllWithout sep prefix ws h gs)

-- The lines of an indented text are those of the text without the newlines at its end, each behind
-- the prefix, where this has no newline itself.
pub split-indent :
    (s prefix : Bytes)
    → without b'\n' prefix ≡ true
    → split b'\n' (indent s prefix) ≡ map (λ l. prefix ++ l) (split b'\n' (trim_newlines s))
unfolding indent
split-indent s prefix h =
    let text = trim_newlines s in
    let (w, ws, e) = split-cons b'\n' text in
    let held : AllWithout b'\n' (w ∷ ws) = rw e at (split-AllWithout b'\n' text) in
    rw e (
      split-join b'\n' (prefix ++ w) (map (λ l. prefix ++ l) ws)
        (map-AllWithout b'\n' prefix (w ∷ ws) h held))
