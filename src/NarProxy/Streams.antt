-- ===== src/NarProxy/Streams.antt =====
-- `followS3Redirect` loses no stream: what it opens or replaces is handed on or closed.
use nixos_fleet.Base.{
  ℕ, ◌+◌, ◌≤◌, Bool, true, false, List, [], ◌∷◌, ◌≡◌, refl, Option, none, some, if◌then◌else◌,
  arith, Bytes, Error, Result, ok, err, inl, inr, Bool-cases,
}
use nixos_fleet.NarProxy.{
  Body, upstream, object, no_body, Request, Response, Effect, sent, drained, closed, Outcome, get,
  head, is_redirect, unchanged, issue, replace, follow_request, follow_s3_redirect,
}
use nixos_fleet.NarProxy.Follow.{location}
use nixos_fleet.Text.Cut.{equal}

abbrev pub same_stream : Body → Body → Bool
same_stream upstream upstream = true
same_stream object object = true
same_stream no_body no_body = true
same_stream _ _ = false

-- How often the stream is closed, and how many requests are sent.
abbrev pub closes : Body → List Effect → ℕ
closes b [] = 0
closes b (sent r ∷ es) = closes b es
closes b (drained c ∷ es) = closes b es
closes b (closed c ∷ es) = (if same_stream c b then 1 else 0) + closes b es

abbrev pub sends : List Effect → ℕ
sends [] = 0
sends (sent r ∷ es) = 1 + sends es
sends (drained c ∷ es) = sends es
sends (closed c ∷ es) = sends es

abbrev pub holds : Body → Response → ℕ
holds b resp = if same_stream resp.body b then 1 else 0

abbrev answered : Result Response → ℕ
answered (ok s3) = 1
answered (err e) = 0

module _ (client : Request → Result Response) where
  -- How many requests of these effects the object store answered, each with a stream.
  abbrev pub opens : List Effect → ℕ
  opens [] = 0
  opens (sent r ∷ es) = answered (client r) + opens es
  opens (drained c ∷ es) = opens es
  opens (closed c ∷ es) = opens es

  -- With no error each stream is handed on or closed, once; with an error no object's stream was
  -- opened, and the upstream's is closed at most once, and only after a request was sent.
  pub record IsAccounted (out : Outcome) : Type 0 where
    pub upstream_once : out.error ≡ none → closes upstream out.effects + holds upstream out.resp ≡ 1
    pub object_once :
        out.error ≡ none → closes object out.effects + holds object out.resp ≡ sends out.effects
    pub object_opened : closes object out.effects + holds object out.resp ≡ opens out.effects
    pub failed :
        (e : Error)
        → out.error ≡ some e
        → (opens out.effects ≡ 0)
          × (closes object out.effects ≡ 0)
          × (closes upstream out.effects ≡ sends out.effects)
          × (sends out.effects ≤ 1)

  unchanged-IsAccounted : (resp : Response) → resp.body ≡ upstream → IsAccounted (unchanged resp)
  unchanged-IsAccounted resp h = record {
    upstream_once = λ _. rw h;
    object_once = λ _. rw h;
    object_opened = rw h;
    failed = λ e x. absurd (none-ne-some x);
  }
    where
      none-ne-some : {e : Error} → none ≡ some e → ⊥
      none-ne-some x = cc

  if-IsAccounted :
      (test : Bool) {x y : Outcome}
      → IsAccounted x
      → IsAccounted y
      → IsAccounted (if test then x else y)
  if-IsAccounted true hx hy = hx
  if-IsAccounted false hx hy = hy

  replace-IsAccounted :
      (resp : Response) (method : Bytes) (r : Request) (answer : Result Response)
      → resp.body ≡ upstream
      → client r ≡ answer
      → ((o : Response) → answer ≡ ok o → o.body ≡ object)
      → IsAccounted (replace resp method r answer)
  unfolding replace
  replace-IsAccounted resp method r (err e) h asked opened = record {
    upstream_once = λ x. absurd (cc);
    object_once = λ x. absurd (cc);
    object_opened = rw (h, asked) refl;
    failed = λ _ _. (rw asked refl, refl, refl, omega arith);
  }
  replace-IsAccounted resp method r (ok o) h asked opened = elim (Bool-cases (equal method head)) [
    | inl is_head ↦ rw is_head (record {
      upstream_once = λ _. refl;
      object_once = λ _. refl;
      object_opened = rw asked refl;
      failed = λ e x. absurd (cc);
    })
    | inr other ↦
        rw (other, opened o refl)
          (record {
            upstream_once = λ _. refl;
            object_once = λ _. refl;
            object_opened = rw asked refl;
            failed = λ e x. absurd (cc);
          })
  ]

  module _ (new_request : Bytes → Bytes → Result Request) where
    issue-IsAccounted :
        (resp : Response) (method : Bytes) (made : Result Request)
        → resp.body ≡ upstream
        → ((r : Request) (o : Response) → client r ≡ ok o → o.body ≡ object)
        → IsAccounted (issue new_request client resp method made)
    issue-IsAccounted resp method (err e) h opened = record {
      upstream_once = λ x. absurd (cc);
      object_once = λ x. absurd (cc);
      object_opened = rw h refl;
      failed = λ _ _. (refl, refl, refl, omega arith);
    }
    issue-IsAccounted resp method (ok r) h opened =
        replace-IsAccounted resp method r (client r) h refl (opened r)

    follow_request-IsAccounted :
        (resp : Response) (asked : Option Request)
        → resp.body ≡ upstream
        → ((r : Request) (o : Response) → client r ≡ ok o → o.body ≡ object)
        → IsAccounted (follow_request new_request client resp asked)
    unfolding follow_request
    follow_request-IsAccounted resp none h opened = unchanged-IsAccounted resp h
    follow_request-IsAccounted resp (some req) h opened =
        let kept = unchanged-IsAccounted resp h in
        if-IsAccounted _ kept (
          if-IsAccounted _ kept
            (issue-IsAccounted resp req.method (new_request get (location resp)) h opened))

    -- Where the client's responses carry the object's stream, the handler of a response that carries
    -- the upstream's accounts for both: with no error the upstream's is handed on or closed, once,
    -- and for each request that was sent the object's is handed on or closed, once; with an error no
    -- request was answered, so that no object's stream was opened, and the upstream's was closed
    -- once if a request was sent and is else left to the caller.
    pub follow_s3_redirect-IsAccounted :
        (resp : Response)
        → resp.body ≡ upstream
        → ((r : Request) (o : Response) → client r ≡ ok o → o.body ≡ object)
        → IsAccounted (follow_s3_redirect new_request client resp)
    follow_s3_redirect-IsAccounted resp h opened =
        elim (Bool-cases (is_redirect resp.status_code)) [
          | inl redirects ↦
              unfold follow_s3_redirect in
              rw redirects (follow_request-IsAccounted resp resp.request h opened)
          | inr other ↦ unfold follow_s3_redirect in rw other (unchanged-IsAccounted resp h)
        ]
