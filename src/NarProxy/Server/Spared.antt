-- ===== src/NarProxy/Server/Spared.antt =====
-- How a client is spared a redirect, through the whole proxy.
use nixos_fleet.Base.{
  ℕ, ◌==◌, true, false, [], ◌∷◌, ◌≡◌, ◌≢◌, ◌⊎◌, inl, inr, refl, ap, ◌∙◌, some, arith, Bytes, ascii,
  Result, ok,
}
use nixos_fleet.NarProxy.{
  upstream, object, no_body, Request, Response, sent, drained, closed, get, head, get_header,
  is_redirect, overwritten,
}
use nixos_fleet.NarProxy.Follow.{location, IsFollowed, follow_s3_redirect-followed}
use nixos_fleet.NarProxy.Outgoing.{upgrade_type, is_print, cleaned_header, reads_whole, clean_query}
use nixos_fleet.NarProxy.Server.{
  HttpRequest, target_url, rewrite, prepared, sent_on, for_client, relayed, serve, joined,
  joined_query,
}
use nixos_fleet.NarProxy.Server.Forwarded.{set_x_forwarded-host, set_x_forwarded-client}
use nixos_fleet.NarProxy.Url.{Url, escaped_path}
use nixos_fleet.Text.Cut.{equal, has_prefix, has_suffix, cut_prefix}

-- An upstream that is a scheme and a host, with a slash behind it or without.
pub record IsBare (u : Url) : Type 0 where
  pub root : (u.path ≡ []) ⊎ (u.path ≡ ascii "/")
  pub unescaped : u.raw_path ≡ []
  pub no_query : u.raw_query ≡ []

-- A path from the root; where it was not written as net/url writes it, `raw_path` is how it was.
pub data IsRooted (b : Url) : Type 0 where
  plain : (p : Bytes) → b.path ≡ b'/' ∷ p → b.raw_path ≡ [] → IsRooted b
  raw :
      (p r : Bytes)
      → b.path ≡ b'/' ∷ p
      → b.raw_path ≡ b'/' ∷ r
      → escaped_path b ≡ b.raw_path
      → IsRooted b

joined-root :
    (a y b : Bytes) {p q : Bytes}
    → (a ≡ []) ⊎ (a ≡ ascii "/")
    → y ≡ b'/' ∷ p
    → b ≡ b'/' ∷ q
    → joined a y a b ≡ b
unfolding has_prefix has_suffix cut_prefix equal
joined-root a y b (inl e) f g = rw (e, f, g) refl
joined-root a y b (inr e) f g = rw (e, f, g) refl

joined_query-nil : (a b : Bytes) → a ≡ [] → joined_query a b ≡ b
unfolding equal
joined_query-nil a b e = rw e refl

escaped_path-IsBare : (u : Url) → IsBare u → escaped_path u ≡ u.path
unfolding escaped_path equal
escaped_path-IsBare u h = elim h.root [
  | inl e ↦ ground (arith, h.unescaped, e)
  | inr e ↦ rw (h.unescaped, e) refl
]

target_url-IsBare :
    (u b : Url)
    → IsBare u
    → IsRooted b
    → target_url u b ≡ record b { scheme = u.scheme; host = u.host }
unfolding target_url equal
target_url-IsBare u b h (plain p e r) = ground (
  arith,
  joined-root u.path b.path b.path h.root e e,
  joined_query-nil u.raw_query b.raw_query h.no_query,
)
target_url-IsBare u b h (raw p r e f g) = ground (
  arith,
  joined-root u.path b.raw_path b.path h.root f e,
  joined-root u.path b.raw_path b.raw_path h.root f f,
  joined_query-nil u.raw_query b.raw_query h.no_query,
  escaped_path-IsBare u h,
)

-- A response carries the request that it answers, as net/http's Transport sees to.
abbrev pub CarriesRequest : (HttpRequest → Result Response) → Type 0
CarriesRequest transport =
    (q : HttpRequest) (resp : Response)
    → transport q ≡ ok resp
    → (req : Request) × (resp.request ≡ some req) × (req.method ≡ q.method)

-- What a redirect to a GET or HEAD has to have to be followed; the rest of `IsFollowed` is that of
-- the request.
pub record Redirects (resp : Response) : Type 0 where
  pub code : is_redirect resp.status_code ≡ true
  pub somewhere : location resp ≢ []

redirect-no_switch : (code : ℕ) → is_redirect code ≡ true → (code == 101) ≡ false
unfolding is_redirect
redirect-no_switch code h = ground arith

-- What is asked of the upstream.
pub record IsAsked (u : Url) (r q : HttpRequest) : Type 0 where
  pub method : q.method ≡ r.method
  pub url : q.url ≡ record r.url { scheme = u.scheme; host = u.host }
  pub host : q.host ≡ r.host
  pub forwarded_host : get_header (ascii "X-Forwarded-Host") q.header ≡ r.host
  pub forwarded_for :
      (ip : Bytes) → r.client_ip ≡ some ip → get_header (ascii "X-Forwarded-For") q.header ≡ ip

module _ (reencode : Bytes → Bytes) where
  prepared-clean :
      (r : HttpRequest) → reads_whole r.url.raw_query ≡ true → (prepared reencode r).url ≡ r.url
  unfolding clean_query
  prepared-clean r h = rw h refl

  prepared-IsRooted : (r : HttpRequest) → IsRooted r.url → IsRooted (prepared reencode r).url
  unfolding escaped_path
  prepared-IsRooted r (plain p e f) = plain p e f
  prepared-IsRooted r (raw p q e f g) = raw p q e f g

  sent_on-IsAsked :
      (u : Url) (r : HttpRequest)
      → IsBare u
      → IsRooted r.url
      → reads_whole r.url.raw_query ≡ true
      → IsAsked u r (sent_on reencode u r)
  unfolding sent_on rewrite
  sent_on-IsAsked u r h rooted clean = record {
    method = refl;
    url =
        target_url-IsBare u _ h (prepared-IsRooted r rooted)
        ∙ ap (λ (b : Url). record b { scheme = u.scheme; host = u.host }) (prepared-clean r clean);
    host = refl;
    forwarded_host = set_x_forwarded-host r (cleaned_header r.header);
    forwarded_for = λ ip e. set_x_forwarded-client r r.header ip e;
  }

module _ (reencode : Bytes → Bytes) (new_request : Bytes → Bytes → Result Request)
    (client : Request → Result Response) (transport : HttpRequest → Result Response) where
  -- For an upstream that is a scheme and a host with no path but a slash, a transport whose
  -- responses carry the request that they answer, and a client's GET or HEAD of a path from the
  -- root, whose query has no semicolon and no broken escape and which asks for no protocol with
  -- unprintable bytes: where the upstream answers by a redirect with a Location, from which a
  -- request can be made that the object store answers, the client gets the object store's response,
  -- with no body to a HEAD. The upstream was asked by the client's method for the client's path and
  -- query under the Host that the client sent, which X-Forwarded-Host has too; and where the
  -- client's address is known X-Forwarded-For has it alone, whatever the client sent there.
  pub serve-spared :
      (u : Url) (r : HttpRequest) (resp s3 : Response) (s3_req : Request)
      → IsBare u
      → IsRooted r.url
      → reads_whole r.url.raw_query ≡ true
      → is_print (upgrade_type r.header) ≡ true
      → CarriesRequest transport
      → (r.method ≡ get) ⊎ (r.method ≡ head)
      → transport (sent_on reencode u r) ≡ ok resp
      → Redirects (for_client resp)
      → new_request get (location (for_client resp)) ≡ ok s3_req
      → client s3_req ≡ ok s3
      → let spared = overwritten (for_client resp) s3 in
        IsAsked u r (sent_on reencode u r)
        × ((r.method ≡ get)
            → serve reencode new_request client transport u r
              ≡ relayed (record spared { body = s3.body }) (sent s3_req ∷ closed upstream ∷ []))
        × ((r.method ≡ head)
            → serve reencode new_request client transport u r
              ≡ relayed
                  (record spared { body = no_body })
                  (sent s3_req ∷ closed upstream ∷ drained object ∷ closed object ∷ []))
  unfolding serve
  serve-spared u r resp s3 s3_req bare rooted clean printable carries reads answered redirects made
        got =
      let asked = sent_on-IsAsked reencode u r bare rooted clean in
      let (req, has, by) = carries _ resp answered in
      let same : req.method ≡ r.method = by ∙ asked.method in
      let follows : IsFollowed (for_client resp) req = record {
        redirects = redirects.code;
        asked = has;
        reads = rw same reads;
        somewhere = redirects.somewhere;
      } in
      let (no_error, by_get, by_head) =
        follow_s3_redirect-followed new_request client (for_client resp) s3 req s3_req follows made
          got in
      let stays = redirect-no_switch resp.status_code redirects.code in
      (
        asked,
        λ m. let (e, f) = by_get (same ∙ m) in rw (printable, answered, stays, no_error, e, f),
        λ m. let (e, f) = by_head (same ∙ m) in rw (printable, answered, stays, no_error, e, f),
      )
