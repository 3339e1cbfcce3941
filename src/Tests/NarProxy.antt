-- ===== src/Tests/NarProxy.antt =====
-- services/attic-nar-proxy/main.go at small inputs.
use nixos_fleet.Base.{
  ℕ, true, false, [], ◌∷◌, ◌≡◌, ◌≢◌, refl, sym, ◌∙◌, none, some, Bytes, ascii, Result, ok, inr,
}
use nixos_fleet.Base.Int.{pos}
use nixos_fleet.NarProxy.{
  Body, upstream, object, no_body, Request, Response, sent, drained, closed, get, head, get_header,
  is_redirect, unchanged, overwritten, follow_s3_redirect,
}
use nixos_fleet.NarProxy.Follow.{
  location, IsFollowed, follow_s3_redirect-unchanged, follow_s3_redirect-followed,
}
use nixos_fleet.NarProxy.Streams.{IsAccounted, follow_s3_redirect-IsAccounted}
use nixos_fleet.Text.Cut.{equal}

abbrev plain : Body → ℕ → Response
plain body code = record {
  status = [];
  status_code = code;
  proto = ascii "HTTP/1.1";
  proto_major = 1;
  proto_minor = 1;
  header = [];
  content_length = pos 0;
  trailer = [];
  transfer_encoding = [];
  uncompressed = false;
  body = body;
  request = none;
}

abbrev asked : Request
asked = record { method = head; url = ascii "/nar/a" }

abbrev moved : Response
moved = record (plain upstream 307) {
  header = (ascii "Location", ascii "http://s3/a" ∷ []) ∷ [];
  request = some asked;
}

abbrev stored : Response
stored = plain object 200

abbrev s3_asked : Request
s3_asked = record { method = get; url = ascii "http://s3/a" }

abbrev new_request : Bytes → Bytes → Result Request
new_request method url = ok (record { method = method; url = url })

abbrev client : Request → Result Response
client r = ok stored

client-object : (r : Request) (o : Response) → client r ≡ ok o → o.body ≡ object
client-object r o e = cc

location-moved : location moved ≡ ascii "http://s3/a"
unfolding get_header equal
location-moved = refl

location-ne-nil : location moved ≢ []
location-ne-nil e = absurd (cons-ne-nil (sym location-moved ∙ e))
  where
    cons-ne-nil : ascii "http://s3/a" ≢ []
    cons-ne-nil h = cc

moved-IsFollowed : IsFollowed moved asked
unfolding is_redirect
moved-IsFollowed = record {
  redirects = refl;
  asked = refl;
  reads = inr refl;
  somewhere = location-ne-nil;
}

made : new_request get (location moved) ≡ ok s3_asked
made = rw location-moved

follow_s3_redirect-followed_example :
    let out = follow_s3_redirect new_request client moved in
    let spared = overwritten moved stored in
    (out.error ≡ none)
    × ((head ≡ get)
        → (out.resp ≡ record spared { body = object })
          × (out.effects ≡ sent s3_asked ∷ closed upstream ∷ []))
    × ((head ≡ head)
        → (out.resp ≡ record spared { body = no_body })
          × (out.effects ≡ sent s3_asked ∷ closed upstream ∷ drained object ∷ closed object ∷ []))
follow_s3_redirect-followed_example =
    follow_s3_redirect-followed new_request client moved stored asked s3_asked moved-IsFollowed made
      refl

follow_s3_redirect-IsAccounted_example :
    IsAccounted client (follow_s3_redirect new_request client moved)
follow_s3_redirect-IsAccounted_example =
    follow_s3_redirect-IsAccounted client new_request moved refl client-object

abbrev gone : Response
gone = plain upstream 404

gone-not-IsFollowed : (req : Request) → ¬ (IsFollowed gone req)
unfolding is_redirect
gone-not-IsFollowed req h = absurd (false-ne-true h.redirects)
  where
    false-ne-true : false ≢ true
    false-ne-true e = cc

follow_s3_redirect-unchanged_example : follow_s3_redirect new_request client gone ≡ unchanged gone
follow_s3_redirect-unchanged_example =
    follow_s3_redirect-unchanged new_request client gone gone-not-IsFollowed
