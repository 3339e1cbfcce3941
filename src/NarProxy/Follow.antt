-- ===== src/NarProxy/Follow.antt =====
-- When `followS3Redirect` replaces a response, by what, and what becomes of the streams.
use nixos_fleet.Base.{
  true, false, [], ◌∷◌, ◌≡◌, ◌≢◌, ◌⊎◌, ◌∙◌, refl, sym, ap, Bool-cases, Option, none, some, arith,
  Bytes, ascii, Result, ok, inl, inr,
}
use nixos_fleet.NarProxy.{
  upstream, object, no_body, Request, Response, sent, drained, closed, get, head, get_header,
  is_redirect, unchanged, overwritten, replace, follow_request, follow_s3_redirect,
}
use nixos_fleet.Text.Cut.{equal, equal_iff}

get-ne-head : get ≢ head
get-ne-head e = cc

true-ne-false : true ≢ false
true-ne-false e = cc

abbrev pub location : Response → Bytes
location resp = get_header (ascii "Location") resp.header

-- A redirect that a client can be spared: one of the four codes, to a GET or a HEAD, with a place
-- to go to.
pub record IsFollowed (resp : Response) (req : Request) : Type 0 where
  pub redirects : is_redirect resp.status_code ≡ true
  pub asked : resp.request ≡ some req
  pub reads : (req.method ≡ get) ⊎ (req.method ≡ head)
  pub somewhere : location resp ≢ []

replace-ok :
    (resp s3 : Response) (method : Bytes) (s3_req : Request)
    → let out = replace resp method s3_req (ok s3) in
      let spared = overwritten resp s3 in
      (out.error ≡ none)
      × (method ≡ get
          → (out.resp ≡ record spared { body = s3.body })
            × (out.effects ≡ sent s3_req ∷ closed upstream ∷ []))
      × (method ≡ head
          → (out.resp ≡ record spared { body = no_body })
            × (out.effects ≡ sent s3_req ∷ closed upstream ∷ drained object ∷ closed object ∷ []))
unfolding replace
replace-ok resp s3 method s3_req = elim (Bool-cases (equal method head)) [
  | inl is_head ↦ rw is_head (
    refl,
    (λ e. absurd (get-ne-head (sym e ∙ (equal_iff method head).0 is_head))),
    λ e. (refl, refl),
  )
  | inr other ↦ rw other (
    refl,
    (λ e. (refl, refl)),
    λ e. absurd (true-ne-false (sym ((equal_iff method head).1 e) ∙ other)),
  )
]

module _ (new_request : Bytes → Bytes → Result Request) (client : Request → Result Response) where
  follow_request-unchanged :
      (resp : Response) (asked : Option Request)
      → ((req : Request)
          → asked ≡ some req
          → (req.method ≡ get) ⊎ (req.method ≡ head)
          → location resp ≢ []
          → ⊥)
      → follow_request new_request client resp asked ≡ unchanged resp
  unfolding follow_request
  follow_request-unchanged resp none h = refl
  follow_request-unchanged resp (some req) h = ground (
    arith,
    h req refl,
    equal_iff req.method get,
    equal_iff req.method head,
    equal_iff (location resp) [],
  )

  follow_request-replace :
      (resp : Response) (req s3_req : Request)
      → (req.method ≡ get) ⊎ (req.method ≡ head)
      → location resp ≢ []
      → new_request get (location resp) ≡ ok s3_req
      → follow_request new_request client resp (some req)
        ≡ replace resp req.method s3_req (client s3_req)
  unfolding follow_request
  follow_request-replace resp req s3_req reads somewhere made = ground (
    arith,
    made,
    equal_iff req.method get,
    equal_iff req.method head,
    equal_iff (location resp) [],
  )

  follow_s3_redirect-replace :
      (resp : Response) (req s3_req : Request)
      → IsFollowed resp req
      → new_request get (location resp) ≡ ok s3_req
      → follow_s3_redirect new_request client resp ≡ replace resp req.method s3_req (client s3_req)
  follow_s3_redirect-replace resp req s3_req h made =
      enters
      ∙ ap (follow_request new_request client resp) h.asked
      ∙ follow_request-replace resp req s3_req h.reads h.somewhere made
    where
      enters :
          follow_s3_redirect new_request client resp
          ≡ follow_request new_request client resp resp.request
      enters = unfold follow_s3_redirect in rw h.redirects

  -- A response that is no such redirect is handed on as it is, with no request and no effect.
  pub follow_s3_redirect-unchanged :
      (resp : Response)
      → ((req : Request) → ¬ (IsFollowed resp req))
      → follow_s3_redirect new_request client resp ≡ unchanged resp
  unfolding follow_s3_redirect
  follow_s3_redirect-unchanged resp h = elim (Bool-cases (is_redirect resp.status_code)) [
    | inl redirects ↦ rw redirects (
        follow_request-unchanged resp resp.request λ req asked reads somewhere.
          h req
            (record { redirects = redirects; asked = asked; reads = reads; somewhere = somewhere }))
    | inr other ↦ rw other
  ]

  -- Such a redirect is answered from its location, asked for by GET also where the client sent
  -- HEAD. A GET gets the object's response with its stream, a HEAD the same response with no body,
  -- the object's stream read to its end and closed.
  pub follow_s3_redirect-followed :
      (resp s3 : Response) (req s3_req : Request)
      → IsFollowed resp req
      → new_request get (location resp) ≡ ok s3_req
      → client s3_req ≡ ok s3
      → let out = follow_s3_redirect new_request client resp in
        let spared = overwritten resp s3 in
        (out.error ≡ none)
        × ((req.method ≡ get)
            → (out.resp ≡ record spared { body = s3.body })
              × (out.effects ≡ sent s3_req ∷ closed upstream ∷ []))
        × ((req.method ≡ head)
            → (out.resp ≡ record spared { body = no_body })
              × (out.effects ≡ sent s3_req ∷ closed upstream ∷ drained object ∷ closed object ∷ []))
  follow_s3_redirect-followed resp s3 req s3_req h made got =
      rw (follow_s3_redirect-replace resp req s3_req h made, got)
        (replace-ok resp s3 req.method s3_req)
