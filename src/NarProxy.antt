-- ===== src/NarProxy.antt =====
-- services/attic-nar-proxy/main.go: `followS3Redirect`. The HTTP client and the parser of URLs of
-- net/http are parameters.
pub mod Follow
pub mod Streams
pub mod Outgoing
pub mod Url
pub mod Server
use nixos_fleet.Base.{
  ℕ, ◌==◌, Bool, true, false, not, ◌&&◌, ◌||◌, List, [], ◌∷◌, ◌++◌, Option, none, some,
  if◌then◌else◌, Bytes, ascii, Error, Result, ok, err,
}
use nixos_fleet.Base.Int.{ℤ}
use nixos_fleet.Text.Cut.{equal}

-- http.Header: the values of each canonical key.
abbrev pub Header : Type 0
Header = List (Bytes × List Bytes)

abbrev first_value : List Bytes → Bytes
first_value [] = []
first_value (v ∷ _) = v

-- http.Header.Get at a canonical key.
unfoldable pub get_header : Bytes → Header → Bytes
get_header key [] = []
get_header key ((k, vs) ∷ h) = if equal k key then first_value vs else get_header key h

-- The streams that a response may carry: the one of the upstream, the one of the object store, and
-- http.NoBody.
pub data Body : Type 0 where
  upstream object no_body : Body

pub record Request : Type 0 where
  pub method : Bytes
  pub url : Bytes

pub record Response : Type 0 where
  pub status : Bytes
  pub status_code : ℕ
  pub proto : Bytes
  pub proto_major : ℕ
  pub proto_minor : ℕ
  pub header : Header
  pub content_length : ℤ
  pub trailer : Header
  pub transfer_encoding : List Bytes
  pub uncompressed : Bool
  pub body : Body
  pub request : Option Request

-- What the handler does besides its result.
pub data Effect : Type 0 where
  sent : Request → Effect
  drained closed : Body → Effect

pub record Outcome : Type 0 where
  pub resp : Response
  pub error : Option Error
  pub effects : List Effect

abbrev pub get : Bytes
get = ascii "GET"

abbrev pub head : Bytes
head = ascii "HEAD"

unfoldable pub is_redirect : ℕ → Bool
is_redirect code = code == 301 || code == 302 || code == 307 || code == 308

abbrev pub unchanged : Response → Outcome
unchanged resp = record { resp = resp; error = none; effects = [] }

-- The fields that are overwritten; `request` is left.
abbrev pub overwritten : Response → Response → Response
overwritten resp s3 = record resp {
  status = s3.status;
  status_code = s3.status_code;
  proto = s3.proto;
  proto_major = s3.proto_major;
  proto_minor = s3.proto_minor;
  header = s3.header;
  content_length = s3.content_length;
  trailer = s3.trailer;
  transfer_encoding = s3.transfer_encoding;
  uncompressed = s3.uncompressed;
}

-- Behind `s3.Do`, for a client that sent `method`.
unfoldable pub replace : Response → Bytes → Request → Result Response → Outcome
replace resp method s3_req (err e) = record {
  resp = resp;
  error = some e;
  effects = sent s3_req ∷ closed upstream ∷ [];
}
replace resp method s3_req (ok s3) =
    let new = overwritten resp s3 in
    let done = sent s3_req ∷ closed upstream ∷ [] in
    if equal method head
    then record {
      resp = record new { body = no_body };
      error = none;
      effects = done ++ (drained object ∷ closed object ∷ []);
    }
    else record { resp = record new { body = s3.body }; error = none; effects = done }

-- `new_request` is http.NewRequestWithContext, and `client` the method Do of the S3 client.
module _ (new_request : Bytes → Bytes → Result Request) (client : Request → Result Response) where
  abbrev issue : Response → Bytes → Result Request → Outcome
  issue resp method (err e) = record { resp = resp; error = some e; effects = [] }
  issue resp method (ok s3_req) = replace resp method s3_req (client s3_req)

  unfoldable pub follow_request : Response → Option Request → Outcome
  follow_request resp none = unchanged resp
  follow_request resp (some req) =
      let location = get_header (ascii "Location") resp.header in
      if not (equal req.method get) && not (equal req.method head)
      then unchanged resp
      else if equal location []
      then unchanged resp
      else issue resp req.method (new_request get location)

  unfoldable pub follow_s3_redirect : Response → Outcome
  follow_s3_redirect resp =
      if is_redirect resp.status_code then follow_request resp resp.request else unchanged resp
