-- ===== src/Tests/Server.antt =====
-- The proxy of services/attic-nar-proxy/main.go at small inputs.
use nixos_fleet.Base.{ℕ, true, false, [], ◌∷◌, ◌≡◌, refl, some, Bytes, ascii, Result, ok, inl, inr}
use nixos_fleet.Base.Int.{pos}
use nixos_fleet.NarProxy.{
  Body, upstream, object, no_body, Request, Response, sent, drained, closed, get, head, get_header,
  is_redirect, overwritten,
}
use nixos_fleet.NarProxy.Follow.{location}
use nixos_fleet.NarProxy.Server.{
  HttpRequest, for_client, sent_on, rewrite, serve, relayed, exited, listening, main, target_url,
}
use nixos_fleet.NarProxy.Server.Spared.{
  IsBare, plain, CarriesRequest, Redirects, IsAsked, serve-spared,
}
use nixos_fleet.NarProxy.Outgoing.{
  values, del_header, contains_token, upgrade_type, is_print, del_hop_by_hop, reads_whole,
}
use nixos_fleet.NarProxy.Url.{Url, escape}
use nixos_fleet.Text.Cut.{equal, has_prefix, has_suffix, cut_prefix, split}
use nixos_fleet.Text.Flag.{parse_flags, parse_one, find_flag, shape}

abbrev atticd : Url
atticd = record {
  scheme = ascii "http";
  host = ascii "127.0.0.1:8081";
  path = [];
  raw_path = [];
  raw_query = [];
}

atticd-IsBare : IsBare atticd
atticd-IsBare = record { root = inl refl; unescaped = refl; no_query = refl }

abbrev nar : Url
nar = record {
  scheme = [];
  host = [];
  path = ascii "/c/nar/a.nar";
  raw_path = [];
  raw_query = ascii "h=1";
}

abbrev incoming : HttpRequest
incoming = record {
  method = head;
  url = nar;
  host = ascii "cache.lan";
  header = [];
  client_ip = some (ascii "10.0.0.2");
  tls = false;
}

incoming-clean : reads_whole incoming.url.raw_query ≡ true
unfolding reads_whole
incoming-clean = refl

incoming-printable : is_print (upgrade_type incoming.header) ≡ true
unfolding is_print upgrade_type values contains_token
incoming-printable = refl

abbrev answer : Body → ℕ → Response
answer body code = record {
  status = [];
  status_code = code;
  proto = ascii "HTTP/1.1";
  proto_major = 1;
  proto_minor = 1;
  header = (ascii "Location", ascii "http://s3/a" ∷ []) ∷ [];
  content_length = pos 0;
  trailer = [];
  transfer_encoding = [];
  uncompressed = false;
  body = body;
  request = some (record { method = head; url = ascii "http://127.0.0.1:8081/c/nar/a.nar?h=1" });
}

abbrev moved : Response
moved = answer upstream 307

abbrev stored : Response
stored = answer object 200

abbrev to_s3 : Request
to_s3 = record { method = get; url = ascii "http://s3/a" }

-- The upstream answers every request by the redirect.
abbrev atticd_answers : HttpRequest → Result Response
atticd_answers q = ok (record moved { request = some (record { method = q.method; url = [] }) })

atticd_answers-CarriesRequest : CarriesRequest atticd_answers
atticd_answers-CarriesRequest q resp e =
    let same = ok_injective e in (record { method = q.method; url = [] }, rw⁻¹ same refl, refl)
  where
    ok_injective : {a b : Response} → ok a ≡ ok b → a ≡ b
    ok_injective e = cc

abbrev moved_for : Response
moved_for = record moved { request = some (record { method = head; url = [] }) }

abbrev no_reencode : Bytes → Bytes
no_reencode q = q

incoming-answered : atticd_answers (sent_on no_reencode atticd incoming) ≡ ok moved_for
unfolding sent_on rewrite
incoming-answered = refl

-- The redirect's Location is no header of the connection.
moved_to : location (for_client moved_for) ≡ ascii "http://s3/a"
unfolding get_header equal del_hop_by_hop values del_header
moved_to = refl

moved_for-Redirects : Redirects (for_client moved_for)
unfolding is_redirect
moved_for-Redirects = record { code = refl; somewhere = rw moved_to λ e. cc }

serve-spared_example :
    let spared = overwritten (for_client moved_for) stored in
    IsAsked atticd incoming (sent_on no_reencode atticd incoming)
    × (head ≡ get
        → serve no_reencode (λ m l. ok to_s3) (λ r. ok stored) atticd_answers atticd incoming
          ≡ relayed (record spared { body = object }) (sent to_s3 ∷ closed upstream ∷ []))
    × (head ≡ head
        → serve no_reencode (λ m l. ok to_s3) (λ r. ok stored) atticd_answers atticd incoming
          ≡ relayed
              (record spared { body = no_body })
              (sent to_s3 ∷ closed upstream ∷ drained object ∷ closed object ∷ []))
serve-spared_example =
    serve-spared no_reencode (λ m l. ok to_s3) (λ r. ok stored) atticd_answers atticd incoming
      moved_for stored to_s3 atticd-IsBare (plain (ascii "c/nar/a.nar") refl refl) incoming-clean
      incoming-printable atticd_answers-CarriesRequest (inr refl) incoming-answered
      moved_for-Redirects refl refl

-- The URL of the upstream keeps its path before the client's.
target_url-path :
    (target_url (record atticd { path = ascii "/p/" }) nar).path ≡ ascii "/p/c/nar/a.nar"
unfolding target_url equal has_prefix has_suffix cut_prefix
target_url-path = refl

-- A path is escaped byte by byte.
escape-space : escape (ascii "/a b?") ≡ ascii "/a%20b%3F"
unfolding escape
escape-space = refl

main-listens :
    main
      (λ s. ok (record atticd { host = s }))
      (ascii "-upstream" ∷ ascii "h" ∷ ascii "--listen=:1" ∷ [])
    ≡ listening (ascii ":1") (record atticd { host = ascii "h" })
unfolding main parse_flags parse_one find_flag shape equal
main-listens = refl

main-unknown_flag : main (λ s. ok atticd) (ascii "-port" ∷ []) ≡ exited 2
unfolding main parse_flags parse_one find_flag shape equal
main-unknown_flag = refl

-- A header that Connection names goes no further, whatever its letters' case.
del_hop_by_hop-listed :
    del_hop_by_hop (
      (ascii "Connection", ascii "close, x-secret" ∷ [])
      ∷ (ascii "X-Secret", ascii "1" ∷ [])
      ∷ (ascii "Accept", ascii "b" ∷ [])
      ∷ [])
    ≡ (ascii "Accept", ascii "b" ∷ []) ∷ []
unfolding del_hop_by_hop values del_header equal split
del_hop_by_hop-listed = refl

reads_whole-broken : reads_whole (ascii "a=%2") ≡ false
unfolding reads_whole
reads_whole-broken = refl
