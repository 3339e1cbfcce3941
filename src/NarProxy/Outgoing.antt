-- ===== src/NarProxy/Outgoing.antt =====
-- What ReverseProxy of net/http/httputil does to the requests and responses that pass through it
-- besides the hooks of services/attic-nar-proxy/main.go, on headers with canonical keys.
use mathlib.Core.List.{reverse}
use nixos_fleet.Base.{
  ℕ, ◌+◌, ◌-◌, ltb, ◌==◌, Bool, true, false, not, ◌&&◌, ◌||◌, List, [], ◌∷◌, ◌++◌, any,
  if◌then◌else◌, Bytes, ascii,
}
use nixos_fleet.NarProxy.{Header, get_header}
use nixos_fleet.NarProxy.Url.{is_alnum, between, occurs}
use nixos_fleet.Text.Cut.{equal, split}

unfoldable pub values : Bytes → Header → List Bytes
values key [] = []
values key ((k, vs) ∷ h) = if equal k key then vs else values key h

unfoldable pub del_header : Bytes → Header → Header
del_header key [] = []
del_header key ((k, vs) ∷ h) =
    let rest = del_header key h in if equal k key then rest else (k, vs) ∷ rest

abbrev pub set_header : Bytes → Bytes → Header → Header
set_header key v h = (key, v ∷ []) ∷ del_header key h

unfoldable pub has_key : Bytes → Header → Bool
has_key key [] = false
has_key key ((k, vs) ∷ h) = equal k key || has_key key h

unfoldable del_all : List Bytes → Header → Header
unfolding del_header
del_all [] h = h
del_all (k ∷ ks) h = del_all ks (del_header k h)

abbrev lower : ℕ → ℕ
lower c = if between b'A' b'Z' c then c + 32 else c

abbrev upper : ℕ → ℕ
upper c = if between b'a' b'z' c then c - 32 else c

unfoldable drop_in : Bytes → Bytes → Bytes
unfolding occurs
drop_in cut [] = []
drop_in cut (c ∷ cs) = let rest = drop_in cut cs in if occurs cut c then rest else c ∷ cs

unfoldable trim : Bytes → Bytes → Bytes
unfolding drop_in
trim cut s = reverse (drop_in cut (reverse (drop_in cut s)))

abbrev blanks : Bytes
blanks = b' ' ∷ b'\t' ∷ []

-- CanonicalMIMEHeaderKey: a key with another byte than those of a token is left as it is.
unfoldable is_token : Bytes → Bool
unfolding occurs
is_token [] = true
is_token (c ∷ cs) = (is_alnum c || occurs (ascii "!#$%&'*+-.^_`|~") c) && is_token cs

unfoldable capitals : Bool → Bytes → Bytes
capitals first [] = []
capitals first (c ∷ cs) = (if first then upper c else lower c) ∷ capitals (c == b'-') cs

unfoldable canonical : Bytes → Bytes
unfolding is_token capitals
canonical key = if is_token key then capitals true key else key

-- httpguts.HeaderValuesContainsToken: elements between commas, up to blanks and to case.
unfoldable same_token : Bytes → Bytes → Bool
same_token [] [] = true
same_token (a ∷ as') (b ∷ bs) = ltb a 128 && (lower a == lower b) && same_token as' bs
same_token _ _ = false

abbrev element_is : Bytes → Bytes → Bool
element_is token e = same_token (trim blanks e) token

unfoldable pub contains_token : List Bytes → Bytes → Bool
unfolding same_token trim
contains_token vs token = any (λ v. any (element_is token) (split b',' v)) vs

-- upgradeType
unfoldable pub upgrade_type : Header → Bytes
unfolding values
upgrade_type h =
    if contains_token (values (ascii "Connection") h) (ascii "Upgrade")
    then get_header (ascii "Upgrade") h
    else []

-- ascii.IsPrint
unfoldable pub is_print : Bytes → Bool
is_print [] = true
is_print (c ∷ cs) = between b' ' b'~' c && is_print cs

abbrev hop_headers : List Bytes
hop_headers =
    ascii "Connection"
    ∷ ascii "Proxy-Connection"
    ∷ ascii "Keep-Alive"
    ∷ ascii "Proxy-Authenticate"
    ∷ ascii "Proxy-Authorization"
    ∷ ascii "Te"
    ∷ ascii "Trailer"
    ∷ ascii "Transfer-Encoding"
    ∷ ascii "Upgrade"
    ∷ []

-- The header without the elements of one value of Connection.
unfoldable del_listed : List Bytes → Header → Header
unfolding trim canonical
del_listed [] h = h
del_listed (e ∷ es) h =
    let name = trim (blanks ++ ascii "\n\r") e in
    del_listed es (if equal name [] then h else del_header (canonical name) h)

unfoldable del_connection : List Bytes → Header → Header
unfolding del_listed
del_connection [] h = h
del_connection (v ∷ vs) h = del_connection vs (del_listed (split b',' v) h)

-- removeHopByHopHeaders
unfoldable pub del_hop_by_hop : Header → Header
unfolding values del_connection del_all
del_hop_by_hop h = del_all hop_headers (del_connection (values (ascii "Connection") h) h)

abbrev with_trailers : Header → Header → Header
with_trailers received h =
    if contains_token (values (ascii "Te") received) (ascii "trailers")
    then set_header (ascii "Te") (ascii "trailers") h
    else h

abbrev with_upgrade : Bytes → Header → Header
with_upgrade protocol h =
    if not (equal protocol [])
    then set_header (ascii "Upgrade") protocol (set_header (ascii "Connection") (ascii "Upgrade") h)
    else h

abbrev del_forwarding : Header → Header
del_forwarding h = del_header (ascii "X-Forwarded-Proto") (
    del_header (ascii "X-Forwarded-Host")
      (del_header (ascii "X-Forwarded-For") (del_header (ascii "Forwarded") h)))

-- The header that the hook Rewrite meets.
unfoldable pub cleaned_header : Header → Header
cleaned_header h =
    del_forwarding (with_upgrade (upgrade_type h) (with_trailers h (del_hop_by_hop h)))

-- Behind the hook: an absent User-Agent is sent as an empty one, which net/http leaves out.
abbrev pub with_agent : Header → Header
with_agent h = if has_key (ascii "User-Agent") h then h else (ascii "User-Agent", [] ∷ []) ∷ h

abbrev is_hex : ℕ → Bool
is_hex c = between b'0' b'9' c || between b'a' b'f' c || between b'A' b'F' c

-- Whether cleanQueryParams leaves the query as it is.
unfoldable pub reads_whole : Bytes → Bool
reads_whole [] = true
reads_whole (c ∷ []) = not (c == b';') && not (c == b'%')
reads_whole (c ∷ d ∷ []) = not (c == b';') && (not (c == b'%') && reads_whole (d ∷ []))
reads_whole (c ∷ d ∷ e ∷ cs) =
    let escaped = is_hex d && (is_hex e && reads_whole cs) in
    let plain = reads_whole (d ∷ e ∷ cs) in
    not (c == b';') && (if c == b'%' then escaped else plain)

-- cleanQueryParams; `reencode` is Encode of what ParseQuery of net/url reads.
unfoldable pub clean_query : (Bytes → Bytes) → Bytes → Bytes
clean_query reencode q = if reads_whole q then q else reencode q
