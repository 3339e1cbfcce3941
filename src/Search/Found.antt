-- ===== src/Search/Found.antt =====
-- What `findFFmpeg` finds.
use nixos_fleet.Base.{
  Bool, true, false, not, ◌&&◌, List, [], ◌∷◌, ◌++◌, ◌≡◌, ◌≢◌, ◌⊎◌, refl, sym, subst, Option, none,
  some, Bytes, Result, ok, err, Bool-cases, &&_iff, arith, inl, inr,
}
use nixos_fleet.Search.{
  Process, ffmpeg_from_jellyfin, system_ffmpeg, last_of, last_match, exists, is_plain, find_ffmpeg,
}
use nixos_fleet.Text.Cut.{equal, equal_iff}

-- The last match.
abbrev pub IsLast : Result (List Bytes) → Bytes → Type 0
IsLast (err e) p = ⊥
IsLast (ok ms) p = (before : List Bytes) × (ms ≡ before ++ p ∷ [])

same_path : {p q : Bytes} → ok p ≡ ok q → p ≡ q
same_path e = cc

last_of-append :
    (ms : List Bytes) {p : Bytes}
    → last_of ms ≡ ok p
    → (before : List Bytes) × (ms ≡ before ++ p ∷ [])
last_of-append [] e = absurd (cc)
last_of-append (m ∷ []) e = ([], ground (arith, same_path e))
last_of-append (m ∷ n ∷ ms) e =
    let (before, same) = last_of-append (n ∷ ms) e in (m ∷ before, rw same refl)

last_match-IsLast :
    (matches : Result (List Bytes)) {p : Bytes} → last_match matches ≡ ok p → IsLast matches p
last_match-IsLast (err e) h = absurd (cc)
last_match-IsLast (ok ms) h = last_of-append ms h

exists-ne-none : (o : Option Bool) → exists o ≡ true → o ≢ none
exists-ne-none o h = ground arith

is_plain-eq : (o : Option Bool) → is_plain o ≡ true → o ≡ some false
is_plain-eq o h = ground arith

given-found :
    (stat : Bytes → Option Bool) (given : Bytes) {p : Bytes}
    → (not (equal given []) && exists (stat given)) ≡ true
    → ok given ≡ ok p
    → (p ≡ given) × (p ≢ []) × (stat p ≢ none)
given-found stat given {p} h e =
    let (named, there) = (&&_iff (not (equal given [])) (exists (stat given))).0 h in
    let ne : given ≢ [] = λ x. not_true ((equal_iff given []).1 x) named in
    subst (λ q. (q ≡ given) × (q ≢ []) × (stat q ≢ none)) (same_path e)
      (refl, ne, exists-ne-none (stat given) there)
  where
    not_true : {b : Bool} → b ≡ true → not b ≡ true → ⊥
    not_true x y = ground arith

not_plain : (o : Option Bool) → is_plain o ≡ false → o ≢ some false
not_plain o h = ground arith

-- There is no path that a running Jellyfin was given, or it does not exist.
abbrev pub NotGiven : Result (List Process) → (Bytes → Option Bool) → Type 0
NotGiven proc stat = (ffmpeg_from_jellyfin proc ≡ []) ⊎ (stat (ffmpeg_from_jellyfin proc) ≡ none)

not_given :
    (stat : Bytes → Option Bool) (given : Bytes)
    → (not (equal given []) && exists (stat given)) ≡ false
    → (given ≡ []) ⊎ (stat given ≡ none)
not_given stat given h = ground (arith, equal_iff given [])

-- A path that is found is the one that a running Jellyfin was given, where that exists. Where there
-- is none, or it does not exist, it is the system's, where that is there and no directory; and
-- where that is not so either, it is the last match in the Nix store.
pub find_ffmpeg-found :
    (proc : Result (List Process)) (stat : Bytes → Option Bool) (matches : Result (List Bytes))
    {p : Bytes}
    → find_ffmpeg proc stat matches ≡ ok p
    → ((p ≡ ffmpeg_from_jellyfin proc) × (p ≢ []) × (stat p ≢ none))
      ⊎ (NotGiven proc stat × (p ≡ system_ffmpeg) × (stat system_ffmpeg ≡ some false))
      ⊎ (NotGiven proc stat × (stat system_ffmpeg ≢ some false) × IsLast matches p)
unfolding find_ffmpeg
find_ffmpeg-found proc stat matches {p} e =
    let given = ffmpeg_from_jellyfin proc in
    elim (Bool-cases (not (equal given []) && exists (stat given))) [
      | inl first ↦ inl (given-found stat given first (rw first at e))
      | inr not_first ↦
          let absent = not_given stat given not_first in
          elim (Bool-cases (is_plain (stat system_ffmpeg))) [
            | inl second ↦ inr (
                inl (
                  absent,
                  sym (same_path (rw (not_first, second) at e)),
                  is_plain-eq (stat system_ffmpeg) second,
                ))
            | inr third ↦ inr (
                inr (
                  absent,
                  not_plain (stat system_ffmpeg) third,
                  last_match-IsLast matches (rw (not_first, third) at e),
                ))
          ]
    ]
