-- ===== src/Text/Path.antt =====
-- Go's path/filepath on Unix: Clean and Join, on bytes.
use mathlib.Core.List.{reverse}
use nixos_fleet.Base.{Bool, ◌||◌, List, [], ◌∷◌, ◌++◌, if◌then◌else◌, Bytes, ascii}
use nixos_fleet.Text.Cut.{equal, has_prefix, split, join}

abbrev dots : Bytes
dots = ascii ".."

-- The elements before a `..`, the last one first.
abbrev go_up : Bool → List Bytes → List Bytes
go_up rooted [] = if rooted then [] else dots ∷ []
go_up rooted (p ∷ back) = if equal p dots then dots ∷ p ∷ back else back

abbrev go_on : Bool → List Bytes → Bytes → List Bytes
go_on rooted back p =
    if equal p [] || equal p (ascii ".")
    then back
    else if equal p dots
    then go_up rooted back
    else p ∷ back

unfoldable pub clean_parts : Bool → List Bytes → List Bytes → List Bytes
clean_parts rooted back [] = reverse back
clean_parts rooted back (p ∷ ps) = clean_parts rooted (go_on rooted back p) ps

-- filepath.Clean
unfoldable pub clean_path : Bytes → Bytes
clean_path p =
    let rooted = has_prefix p (ascii "/") in
    let parts = join b'/' (clean_parts rooted [] (split b'/' p)) in
    if rooted then b'/' ∷ parts else if equal parts [] then ascii "." else parts

-- filepath.Join of two elements, the second of them not empty.
unfoldable pub join_path : Bytes → Bytes → Bytes
join_path dir name = if equal dir [] then clean_path name else clean_path (dir ++ (b'/' ∷ name))
