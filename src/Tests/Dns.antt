-- ===== src/Tests/Dns.antt =====
-- dns.go at small inputs.
use nixos_fleet.Base.{true, ◌||◌, [], ◌∷◌, ◌≡◌, refl, none, Bytes, ascii, if◌then◌else◌}
use nixos_fleet.Base.Float.{Micros, micros_float}
use nixos_fleet.Dns.{
  Answer, Fetch, answered, edge, lan_resolver, public_resolver, system_resolver, DnsReport, run_dns,
  no_split_horizon, is_edge, fetch_https, scan_lookups, scan_addrs, lookup_of,
}
use nixos_fleet.Dns.Hairpin.{answers_edge, run_dns-hairpin}
use nixos_fleet.Text.Cut.{has_prefix, cut_prefix, equal}

abbrev pub host : Bytes
host = ascii "jelly.example"

-- The LAN's resolver gives the LAN's address, and the public one the edge's.
abbrev pub resolve : Bytes → Answer
resolve resolver =
    if equal resolver public_resolver
    then record { addrs = edge ∷ []; error = none; elapsed = 5 }
    else record { addrs = ascii "192.168.3.9" ∷ []; error = none; elapsed = 1 }

abbrev pub fetch : Bytes → Fetch
fetch url = answered 200 (ascii "caddy") (ascii "192.168.3.9:443") 7

run_dns-hairpin_example :
    let rep : DnsReport Micros = run_dns host resolve fetch host in
    (rep.hairpin ≡ (
      has_prefix rep.https.remote edge
      || (answers_edge resolve lan_resolver
          || (answers_edge resolve public_resolver || answers_edge resolve system_resolver))))
    × (rep.notes ≡ (if rep.hairpin then no_split_horizon ∷ [] else []))
run_dns-hairpin_example = run_dns-hairpin Micros host host resolve fetch

-- With split-horizon DNS in place the report still says hairpin.
run_dns-split_horizon : (run_dns {F = Micros} host resolve fetch host).hairpin ≡ true
unfolding run_dns scan_lookups scan_addrs lookup_of fetch_https is_edge has_prefix cut_prefix equal
run_dns-split_horizon = refl
