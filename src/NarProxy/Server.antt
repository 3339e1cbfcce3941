-- ===== src/NarProxy/Server.antt =====
-- services/attic-nar-proxy/main.go: `main`, its reverse proxy and the request that it sends on. Of
-- net/http/httputil, SetXForwarded, SetURL and ServeHTTP, which calls the hooks.
pub mod Forwarded
pub mod Spared
use nixos_fleet.Base.{
  ℕ, ◌==◌, Bool, true, false, not, ◌&&◌, ◌||◌, List, [], ◌∷◌, ◌++◌, Option, none, some,
  if◌then◌else◌, Bytes, ascii, Error, system, Result, ok, err,
}
use nixos_fleet.NarProxy.{
  Header, Request, Response, Outcome, Effect, closed, upstream, follow_s3_redirect,
}
use nixos_fleet.NarProxy.Outgoing.{
  values, del_header, set_header, upgrade_type, is_print, del_hop_by_hop, cleaned_header,
  with_agent, clean_query,
}
use nixos_fleet.NarProxy.Url.{Url, escaped_path}
use nixos_fleet.Text.Cut.{equal, has_prefix, has_suffix}
use nixos_fleet.Text.Flag.{Kind, valued, Parsed, parsed, help, bad, find_flag, parse_flags}

-- A request; `client_ip` is the host of its RemoteAddr, where net.SplitHostPort finds one.
pub record HttpRequest : Type 0 where
  pub method : Bytes
  pub url : Url
  pub host : Bytes
  pub header : Header
  pub client_ip : Option Bytes
  pub tls : Bool

-- httputil.ProxyRequest: the request of the client, and the one that is sent on.
pub record ProxyRequest : Type 0 where
  pub received : HttpRequest
  pub out : HttpRequest

-- strings.Join at ", ", and the address behind it.
abbrev listed : List Bytes → Bytes → Bytes
listed [] ip = ip
listed (v ∷ vs) ip = v ++ (ascii ", " ++ listed vs ip)

abbrev forwarded_for : Option Bytes → Header → Header
forwarded_for none h = del_header (ascii "X-Forwarded-For") h
forwarded_for (some ip) h =
    set_header (ascii "X-Forwarded-For") (listed (values (ascii "X-Forwarded-For") h) ip) h

unfoldable pub set_x_forwarded : HttpRequest → Header → Header
set_x_forwarded received h =
    set_header (ascii "X-Forwarded-Proto") (if received.tls then ascii "https" else ascii "http")
      (set_header (ascii "X-Forwarded-Host") received.host (forwarded_for received.client_ip h))

abbrev pub slash : Bytes
slash = ascii "/"

abbrev tail : Bytes → Bytes
tail [] = []
tail (c ∷ cs) = cs

-- The paths `a` and `b` joined by one slash, where `x` and `y` say where there are slashes.
abbrev pub joined : Bytes → Bytes → Bytes → Bytes → Bytes
joined x y a b =
    if has_suffix x slash && has_prefix y slash
    then a ++ tail b
    else if not (has_suffix x slash) && not (has_prefix y slash)
    then a ++ (slash ++ b)
    else a ++ b

abbrev pub joined_query : Bytes → Bytes → Bytes
joined_query a b = if equal a [] || equal b [] then a ++ b else a ++ (ascii "&" ++ b)

-- SetURL on the URL of the request that is sent on.
unfoldable pub target_url : Url → Url → Url
target_url u b =
    let plain = equal u.raw_path [] && equal b.raw_path [] in
    record {
      scheme = u.scheme;
      host = u.host;
      path =
          if plain
          then joined u.path b.path u.path b.path
          else joined (escaped_path u) (escaped_path b) u.path b.path;
      raw_path =
          if plain
          then []
          else joined (escaped_path u) (escaped_path b) (escaped_path u) (escaped_path b);
      raw_query = joined_query u.raw_query b.raw_query;
    }

-- The closure Rewrite.
unfoldable pub rewrite : Url → ProxyRequest → ProxyRequest
rewrite u pr = record pr {
  out = record pr.out {
    header = set_x_forwarded pr.received pr.out.header;
    url = target_url u pr.out.url;
    host = pr.received.host;
  };
}

-- What the client gets, and what is done for it. An error is answered with 502; a connection that
-- switches protocols is handed to both sides.
pub data Served : Type 0 where
  bad_gateway : Error → List Effect → Served
  relayed switched : Response → List Effect → Served

-- The response that the hook ModifyResponse meets, without the headers of its connection.
abbrev pub for_client : Response → Response
for_client resp = record resp { header = del_hop_by_hop resp.header }

-- The client's request as the hook Rewrite meets it; `reencode` is what net/url makes of a query
-- that it cannot read whole.
abbrev pub prepared : (Bytes → Bytes) → HttpRequest → HttpRequest
prepared reencode r = record r {
  header = cleaned_header r.header;
  url = record r.url { raw_query = clean_query reencode r.url.raw_query };
}

-- The request that is sent on.
unfoldable pub sent_on : (Bytes → Bytes) → Url → HttpRequest → HttpRequest
sent_on reencode u r =
    let out = (rewrite u (record { received = r; out = prepared reencode r })).out in
    record out { header = with_agent out.header }

module _ (reencode : Bytes → Bytes) (new_request : Bytes → Bytes → Result Request)
    (client : Request → Result Response) (transport : HttpRequest → Result Response) where
  abbrev modified : (Response → List Effect → Served) → Outcome → Option Error → Served
  modified answer o none = answer o.resp o.effects
  modified answer o (some e) = bad_gateway e (o.effects ++ closed o.resp.body ∷ [])

  -- The hook ModifyResponse.
  abbrev hooked : (Response → List Effect → Served) → Response → Served
  hooked answer resp =
      let o = follow_s3_redirect new_request client resp in modified answer o o.error

  -- On a response that switches protocols the headers of the connection are left.
  abbrev transported : Result Response → Served
  transported (err e) = bad_gateway e []
  transported (ok resp) =
      if resp.status_code == 101 then hooked switched resp else hooked relayed (for_client resp)

  -- A request through the proxy. The text of the error on the protocol leaves its quoting out.
  unfoldable pub serve : Url → HttpRequest → Served
  serve u r =
      let protocol = upgrade_type r.header in
      if not (is_print protocol)
      then bad_gateway (system (ascii "client tried to switch to invalid protocol " ++ protocol)) []
      else transported (transport (sent_on reencode u r))

-- The flags of `main`.
pub record Options : Type 0 where
  pub listen : Bytes
  pub upstream_url : Bytes

abbrev pub defaults : Options
defaults = record { listen = ascii ":8080"; upstream_url = ascii "http://127.0.0.1:8081" }

abbrev pub formals : List (Bytes × Kind Options)
formals =
    (ascii "listen", valued λ v o. ok (record o { listen = v }))
    ∷ (ascii "upstream", valued λ v o. ok (record o { upstream_url = v }))
    ∷ []

-- An exit, or the server at an address with its upstream; it ends by log.Fatal only.
pub data Started : Type 0 where
  exited : ℕ → Started
  listening : (addr : Bytes) (target : Url) → Started

abbrev with_target : Bytes → Result Url → Started
with_target addr (err e) = exited 1
with_target addr (ok u) = listening addr u

abbrev started : (Bytes → Result Url) → Parsed Options → Started
started parse_url help = exited 0
started parse_url bad = exited 2
started parse_url (parsed o args) = with_target o.listen (parse_url o.upstream_url)

unfoldable pub main : (Bytes → Result Url) → List Bytes → Started
main parse_url args = started parse_url (parse_flags (find_flag formals) args defaults)
