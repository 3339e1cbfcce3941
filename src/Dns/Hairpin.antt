-- ===== src/Dns/Hairpin.antt =====
-- When `runDNS` reports that a LAN client goes through the public edge.
use nixos_fleet.Base.{
  Bool, true, false, ◌||◌, List, [], ◌∷◌, ◌≡◌, refl, if◌then◌else◌, any, arith, Bytes,
}
use nixos_fleet.Base.Float.{Float64}
use nixos_fleet.Dns.{
  Answer, Fetch, edge, lan_resolver, public_resolver, system_resolver, is_edge, scan_addrs,
  scan_lookups, DnsReport, lookup_of, run_dns, no_split_horizon,
}
use nixos_fleet.Text.Cut.{has_prefix}

scan_addrs-any :
    (addrs : List Bytes) (seen : Bool) → scan_addrs seen addrs ≡ seen || any is_edge addrs
unfolding scan_addrs
scan_addrs-any [] seen = ground arith
scan_addrs-any (a ∷ addrs) seen =
    ground (arith, scan_addrs-any addrs (if is_edge a then true else seen))

-- The resolver's answer holds the edge's address.
abbrev pub answers_edge : (Bytes → Answer) → Bytes → Bool
answers_edge resolve resolver = any is_edge (resolve resolver).addrs

or_regroup :
    (remote a b c : Bool)
    → (if remote then true else (((false || a) || b) || c)) ≡ remote || (a || (b || c))
or_regroup remote a b c = ground arith

module _ {ℓ} (F : Type ℓ) ⦃f : Float64 F⦄ where
  -- The report says hairpin exactly when one of the three resolvers, whichever it is, answers with
  -- the edge's address, or the fetch went to it; it carries the note on split-horizon DNS exactly
  -- then.
  pub run_dns-hairpin :
      (hostname name : Bytes) (resolve : Bytes → Answer) (fetch : Bytes → Fetch)
      → let rep : DnsReport F = run_dns hostname resolve fetch name in
        (rep.hairpin ≡ (
          has_prefix rep.https.remote edge
          || (answers_edge resolve lan_resolver
              || (answers_edge resolve public_resolver || answers_edge resolve system_resolver))))
        × (rep.notes ≡ (if rep.hairpin then no_split_horizon ∷ [] else []))
  unfolding run_dns scan_lookups lookup_of
  run_dns-hairpin hostname name resolve fetch =
      rw
        (
          scan_addrs-any (resolve lan_resolver).addrs false,
          scan_addrs-any (resolve public_resolver).addrs
              (false || answers_edge resolve lan_resolver),
          scan_addrs-any (resolve system_resolver).addrs (
              (false || answers_edge resolve lan_resolver) || answers_edge resolve public_resolver),
        )
        (
          or_regroup (has_prefix (run_dns {F = F} hostname resolve fetch name).https.remote edge)
              (answers_edge resolve lan_resolver) (answers_edge resolve public_resolver)
              (answers_edge resolve system_resolver),
          refl,
        )
