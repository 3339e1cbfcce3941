-- ===== src/NarProxy/Server/Forwarded.antt =====
-- The headers of the request that is sent on.
use nixos_fleet.Base.{false, [], ◌∷◌, ◌≡◌, ◌∙◌, refl, some, Bytes, ascii, arith}
use nixos_fleet.NarProxy.{Header, get_header}
use nixos_fleet.NarProxy.Outgoing.{values, del_header, cleaned_header, with_agent}
use nixos_fleet.NarProxy.Server.{HttpRequest, set_x_forwarded}
use nixos_fleet.Text.Cut.{equal, equal_iff}

values-del_header : (key : Bytes) (h : Header) → values key (del_header key h) ≡ []
unfolding values del_header
values-del_header key [] = refl
values-del_header key ((k, vs) ∷ h) = ground (arith, values-del_header key h)

values-other :
    (key key' : Bytes) (h : Header)
    → equal key' key ≡ false
    → values key (del_header key' h) ≡ values key h
unfolding values del_header
values-other key key' [] e = refl
values-other key key' ((k, vs) ∷ h) e =
    ground (arith, values-other key key' h e, equal_iff k key, equal_iff k key', equal_iff key' key)

-- None of the client's own addresses is left for the hook.
cleaned_header-unforwarded : (h : Header) → values (ascii "X-Forwarded-For") (cleaned_header h) ≡ []
unfolding cleaned_header equal
cleaned_header-unforwarded h =
    values-other key (ascii "X-Forwarded-Proto") _ refl
    ∙ (values-other key (ascii "X-Forwarded-Host") _ refl ∙ values-del_header key _)
  where
    key : Bytes
    key = ascii "X-Forwarded-For"

get_header-with_agent :
    (key : Bytes) (h : Header)
    → equal (ascii "User-Agent") key ≡ false
    → get_header key (with_agent h) ≡ get_header key h
unfolding get_header
get_header-with_agent key h e = ground (arith, e)

-- The hook overwrites the forwarding headers by what it knows of the client itself.
pub set_x_forwarded-host :
    (r : HttpRequest) (h : Header)
    → get_header (ascii "X-Forwarded-Host") (with_agent (set_x_forwarded r h)) ≡ r.host
unfolding get_header set_x_forwarded equal del_header
set_x_forwarded-host r h =
    get_header-with_agent (ascii "X-Forwarded-Host") (set_x_forwarded r h) refl

pub set_x_forwarded-client :
    (r : HttpRequest) (h : Header) (ip : Bytes)
    → r.client_ip ≡ some ip
    → get_header (ascii "X-Forwarded-For") (with_agent (set_x_forwarded r (cleaned_header h))) ≡ ip
unfolding get_header set_x_forwarded equal del_header
set_x_forwarded-client r h ip e =
    get_header-with_agent (ascii "X-Forwarded-For") (set_x_forwarded r (cleaned_header h)) refl
    ∙ rw (e, cleaned_header-unforwarded h) refl
