-- ===== src/Dns.antt =====
-- scripts/jellyfin-io-bench/dns.go: the lookups, the fetch and `runDNS`, over the answers of the
-- resolvers and of the HTTP client.
pub mod Hairpin
use nixos_fleet.Base.{
  ℕ, Bool, true, false, ◌||◌, List, [], ◌∷◌, ◌++◌, Option, none, some, if◌then◌else◌, Bytes, ascii,
}
use nixos_fleet.Base.Float.{Float64, of_uint, millis}
use nixos_fleet.Text.Cut.{equal, has_prefix}

pub record DnsLookup {ℓ} (F : Type ℓ) : Type ℓ where
  pub resolver : Bytes
  pub name : Bytes
  pub addrs : List Bytes
  pub error : Bytes
  pub millis_taken : F

pub record HttpPath {ℓ} (F : Type ℓ) : Type ℓ where
  pub url : Bytes
  pub status : ℕ
  pub remote : Bytes
  pub via : Bytes
  pub millis_taken : F
  pub error : Bytes

-- The texts of `Notes`.
pub data Note : Type 0 where
  no_split_horizon : Note

pub record DnsReport {ℓ} (F : Type ℓ) : Type ℓ where
  pub hostname : Bytes
  pub lookups : List (DnsLookup F)
  pub https : HttpPath F
  pub hairpin : Bool
  pub notes : List Note

-- What LookupHost of a resolver gave, with the text of its error and the time that it took.
pub record Answer : Type 0 where
  pub addrs : List Bytes
  pub error : Option Bytes
  pub elapsed : ℕ

-- What the HTTP client gave: the request is refused, the exchange fails, or there is a response.
-- `remote` is the address that the dialer noted last.
pub data Fetch : Type 0 where
  bad_request : Bytes → Fetch
  failed : (error remote : Bytes) → ℕ → Fetch
  answered : (status : ℕ) → (via remote : Bytes) → ℕ → Fetch

abbrev text_or_empty : Option Bytes → Bytes
text_or_empty none = []
text_or_empty (some e) = e

abbrev pub edge : Bytes
edge = ascii "154.65.111.172"

abbrev pub lan_resolver : Bytes
lan_resolver = ascii "192.168.3.1:53"

abbrev pub public_resolver : Bytes
public_resolver = ascii "1.1.1.1:53"

abbrev pub system_resolver : Bytes
system_resolver = ascii "system"

-- The test on an address of a lookup.
unfoldable pub is_edge : Bytes → Bool
is_edge a = equal a edge || has_prefix a (edge ++ ascii ":")

-- The loop over the addresses of a lookup; `seen` is the variable `public`.
unfoldable pub scan_addrs : Bool → List Bytes → Bool
scan_addrs seen [] = seen
scan_addrs seen (a ∷ addrs) = scan_addrs (if is_edge a then true else seen) addrs

unfoldable pub scan_lookups {ℓ} : {F : Type ℓ} → Bool → List (DnsLookup F) → Bool
scan_lookups seen [] = seen
scan_lookups seen (l ∷ ls) = scan_lookups (scan_addrs seen l.addrs) ls

module _ {ℓ} {F : Type ℓ} ⦃f : Float64 F⦄ where
  -- `lookupVia` at a resolver, and `lookupSystem` at the name system.
  unfoldable pub lookup_of : Bytes → Bytes → Answer → DnsLookup F
  lookup_of resolver name answer = record {
    resolver = resolver;
    name = name;
    addrs = answer.addrs;
    error = text_or_empty answer.error;
    millis_taken = millis answer.elapsed;
  }

  unfoldable pub fetch_https : Bytes → Fetch → HttpPath F
  fetch_https url (bad_request e) = record {
    url = url;
    status = 0;
    remote = [];
    via = [];
    millis_taken = of_uint 0;
    error = e;
  }
  fetch_https url (failed e remote elapsed) = record {
    url = url;
    status = 0;
    remote = remote;
    via = [];
    millis_taken = millis elapsed;
    error = e;
  }
  fetch_https url (answered status via remote elapsed) = record {
    url = url;
    status = status;
    remote = remote;
    via = via;
    millis_taken = millis elapsed;
    error = [];
  }

  -- `resolve` answers for each resolver, and `fetch` for each URL.
  unfoldable pub run_dns : Bytes → (Bytes → Answer) → (Bytes → Fetch) → Bytes → DnsReport F
  run_dns hostname resolve fetch name =
      let lookup : Bytes → DnsLookup F = λ resolver. lookup_of resolver name (resolve resolver) in
      let lookups = lookup lan_resolver ∷ lookup public_resolver ∷ lookup system_resolver ∷ [] in
      let url = ascii "https://" ++ (name ++ ascii "/web/") in
      let https : HttpPath F = fetch_https url (fetch url) in
      let found = scan_lookups false lookups in
      let public = if has_prefix https.remote edge then true else found in
      record {
        hostname = hostname;
        lookups = lookups;
        https = https;
        hairpin = public;
        notes = if public then no_split_horizon ∷ [] else [];
      }
