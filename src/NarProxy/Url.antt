-- ===== src/NarProxy/Url.antt =====
-- What services/attic-nar-proxy/main.go uses of net/url: the fields of a URL that has been parsed,
-- and EscapedPath, which says how its path is written.
use nixos_fleet.Base.{
  ℕ, ◌+◌, ◌-◌, ◌*◌, ◌/◌, ◌%◌, leb, ltb, ◌==◌, Bool, true, false, not, ◌&&◌, ◌||◌, [], ◌∷◌, Option,
  none, some, if◌then◌else◌, Bytes, ascii,
}
use nixos_fleet.Text.Cut.{equal}

pub record Url : Type 0 where
  pub scheme : Bytes
  pub host : Bytes
  pub path : Bytes
  pub raw_path : Bytes
  pub raw_query : Bytes

abbrev pub between : ℕ → ℕ → ℕ → Bool
between lo hi c = leb lo c && leb c hi

abbrev pub is_alnum : ℕ → Bool
is_alnum c = between b'a' b'z' c || between b'A' b'Z' c || between b'0' b'9' c

unfoldable pub occurs : Bytes → ℕ → Bool
occurs [] c = false
occurs (d ∷ ds) c = d == c || occurs ds c

-- shouldEscape in a path.
unfoldable should_escape : ℕ → Bool
unfolding occurs
should_escape c = not (is_alnum c || occurs (ascii "-_.~$&+,/:;=@") c)

abbrev upper_hex : ℕ → ℕ
upper_hex n = if ltb n 10 then b'0' + n else b'A' + (n - 10)

unfoldable pub escape : Bytes → Bytes
unfolding should_escape
escape [] = []
escape (c ∷ cs) =
    let rest = escape cs in
    if should_escape c then b'%' ∷ upper_hex (c / 16) ∷ upper_hex (c % 16) ∷ rest else c ∷ rest

abbrev un_hex : ℕ → Option ℕ
un_hex c =
    if between b'0' b'9' c
    then some (c - b'0')
    else if between b'a' b'f' c
    then some (c - b'a' + 10)
    else if between b'A' b'F' c
    then some (c - b'A' + 10)
    else none

abbrev un_pair : Option ℕ → Option ℕ → Option ℕ
un_pair (some a) (some b) = some (a * 16 + b)
un_pair _ _ = none

abbrev put : Option ℕ → Option Bytes → Option Bytes
put (some c) (some s) = some (c ∷ s)
put _ _ = none

-- unescape in a path: `none` is an error.
unfoldable pub unescape : Bytes → Option Bytes
unescape [] = some []
unescape (c ∷ []) = if c == b'%' then none else some (c ∷ [])
unescape (c ∷ d ∷ []) =
    let rest = unescape (d ∷ []) in if c == b'%' then none else put (some c) rest
unescape (c ∷ d ∷ e ∷ cs) =
    let escaped = put (un_pair (un_hex d) (un_hex e)) (unescape cs) in
    let plain = put (some c) (unescape (d ∷ e ∷ cs)) in if c == b'%' then escaped else plain

unfoldable valid_encoded : Bytes → Bool
unfolding occurs should_escape
valid_encoded [] = true
valid_encoded (c ∷ cs) =
    (occurs (ascii "!$&'()*+,;=:@[]%") c || not (should_escape c)) && valid_encoded cs

abbrev unescapes_to : Option Bytes → Bytes → Bool
unescapes_to none path = false
unescapes_to (some s) path = equal s path

unfoldable pub escaped_path : Url → Bytes
unfolding valid_encoded unescape escape
escaped_path u =
    if not (equal u.raw_path [])
      && (valid_encoded u.raw_path && unescapes_to (unescape u.raw_path) u.path)
    then u.raw_path
    else if equal u.path (ascii "*")
    then ascii "*"
    else escape u.path
