-- ===== src/Transcode/Directory/Removal.antt =====
-- What `emptyDir` removes.
use nixos_fleet.Base.{
  List, [], ◌∷◌, ◌≡◌, ◌↔◌, refl, map, All, Option, none, some, Bytes, Error, arith,
}
use nixos_fleet.Transcode.Directory.{entries, removed, remove_entries, empty_dir}

-- The first names, up to the first that cannot be removed, and its error.
abbrev pub tried : (Bytes → Option Error) → List Bytes → List Bytes
tried remove [] = []
tried remove (name ∷ names) = elim (remove name) [
  | none ↦ name ∷ tried remove names
  | some e ↦ name ∷ []
]

remove_entries-tried :
    (remove : Bytes → Option Error) (names : List Bytes)
    → (remove_entries remove names).0 ≡ map removed (tried remove names)
unfolding remove_entries
remove_entries-tried remove [] = refl
remove_entries-tried remove (name ∷ names) = ground (arith, remove_entries-tried remove names)

remove_entries-none :
    (remove : Bytes → Option Error) (names : List Bytes)
    → ((remove_entries remove names).1 ≡ none) ↔ All (λ n. remove n ≡ none) names
unfolding remove_entries
remove_entries-none remove [] = ground arith
remove_entries-none remove (name ∷ names) = ground (arith, remove_entries-none remove names)

tried_complete :
    (remove : Bytes → Option Error) (names : List Bytes)
    → All (λ n. remove n ≡ none) names
    → tried remove names ≡ names
tried_complete remove [] h = refl
tried_complete remove (name ∷ names) h = ground (arith, tried_complete remove names)

-- Of a directory that can be listed the entries are removed in order, up to the first that cannot
-- be; there is no error exactly when each can be removed, and then all of them were.
pub empty_dir-tried :
    (mkdir : Option Error) (remove : Bytes → Option Error) (names : List Bytes)
    → let r = empty_dir mkdir remove (entries names) in
      (r.0 ≡ map removed (tried remove names))
      × ((r.1 ≡ none) ↔ All (λ n. remove n ≡ none) names)
      × (r.1 ≡ none → r.0 ≡ map removed names)
unfolding empty_dir
empty_dir-tried mkdir remove names = (
  remove_entries-tried remove names,
  remove_entries-none remove names,
  λ e. rw (
    remove_entries-tried remove names,
    tried_complete remove names ((remove_entries-none remove names).0 e),
  ),
)
