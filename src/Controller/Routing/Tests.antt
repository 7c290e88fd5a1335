-- ===== src/Controller/Routing/Tests.antt =====
-- The records of one service.
use edgecdnx_controller.Common.{
  ◌≤◌, ◌≡◌, refl, Bool, true, false, none, some, List, [], ◌∷◌, ◌++◌, Text, text_eq, codes, any,
  all, length, arith, ◌⊎◌,
}
use edgecdnx_controller.Strings.{has_suffix, to_lower, trim_suffix}
use edgecdnx_controller.Controller.Routing.Records.{
  Service, Zone, Endpoint, dns_names, owner_failed, take_bytes, trim_right,
  service_dns_endpoint_name, choose_zone,
}
use edgecdnx_controller.Controller.Routing.{
  Calls, reconcile_record, reconcile_records, reconcile_names, delete_stale, reconcile,
}
use edgecdnx_controller.Controller.Routing.Names.{length-service_dns_endpoint_name}
use edgecdnx_controller.Controller.Routing.Choice.{is_choice, is_longest, choose_zone-is_longest}
use edgecdnx_controller.Controller.Routing.Stale.{is_wanted}
use edgecdnx_controller.Controller.Routing.Rest.{is_name_settled}
use edgecdnx_controller.Controller.Routing.Repeat.{read_only, reconcile-rests}

abbrev service : Service
service = record {
  name = codes "s";
  namespace = codes "n";
  uid = codes "u";
  project = some (codes "p");
  domain = codes "s.a.b";
  host_aliases = [];
  route_selector = none;
}

abbrev zone : Text → Text → Zone
zone name z = record { name = name; namespace = codes "n"; project = some (codes "p"); zone = z }

abbrev zones : List Zone
zones = zone (codes "short") (codes "b") ∷ zone (codes "long") (codes "a.b") ∷ []

abbrev ends_in : Text → Text → Bool
ends_in parent child = has_suffix child parent

abbrev calls : Calls
calls = record {
  is_sub_domain = ends_in;
  fqdn = λ n. n;
  digest = λ n. codes "0";
  hash = λ name namespace spec. some (spec.dns_name ++ spec.record_type);
  set_controller = λ uid controller. some uid;
  get_fails = λ n. false;
  write_fails = λ w. false;
}

-- The longer zone is chosen.
chosen : (choose_zone ends_in (λ n. n) service (codes "s.a.b") zones [] 0).0 ≡ codes "long"
unfolding choose_zone has_suffix text_eq
chosen = refl

length-service_dns_endpoint_name_example :
    length (service_dns_endpoint_name calls.digest (codes "s") (codes "s.a.b") (codes "AAAA")) ≤ 253
unfolding to_lower
length-service_dns_endpoint_name_example =
    length-service_dns_endpoint_name calls.digest (codes "s") (codes "s.a.b") (codes "AAAA")
      (omega arith)

choose_zone-is_longest_example :
    (is_longest ends_in
        (λ n. n)
        service
        (codes "s.a.b")
        zones
        (choose_zone ends_in (λ n. n) service (codes "s.a.b") zones [] 0).1
      ≡ true)
    × (any
            (is_choice ends_in
              (λ n. n)
              service
              (codes "s.a.b")
              (choose_zone ends_in (λ n. n) service (codes "s.a.b") zones [] 0))
            zones
          ≡ true
        ⊎ ((choose_zone ends_in (λ n. n) service (codes "s.a.b") zones [] 0).0 ≡ [])
          × (is_longest ends_in (λ n. n) service (codes "s.a.b") zones 0 ≡ true))
choose_zone-is_longest_example =
    choose_zone-is_longest ends_in (λ n. n) service (codes "s.a.b") zones

abbrev settled : List Endpoint
settled = (reconcile calls service (some zones) true []).0

reconcile-rests_example :
    (all (is_name_settled calls service zones settled) (dns_names service) ≡ true)
    × (all (is_wanted calls service) settled ≡ true)
    × (reconcile (read_only calls) service (some zones) true settled ≡ (settled, none))
unfolding reconcile reconcile_names reconcile_records reconcile_record delete_stale choose_zone
    service_dns_endpoint_name take_bytes trim_right to_lower trim_suffix has_suffix text_eq
reconcile-rests_example = reconcile-rests calls service zones refl (λ o v e. cc) refl [] refl

-- A name of the service that differs from its domain in case alone: both have one endpoint, which is
-- written again for each.
abbrev twice : Service
twice = record service { host_aliases = codes "S.a.b" ∷ [] }

restless :
    (reconcile
      (read_only calls)
      twice
      (some zones)
      true
      (reconcile calls twice (some zones) true []).0).1
    ≡ some owner_failed
unfolding reconcile reconcile_names reconcile_records reconcile_record delete_stale choose_zone
    service_dns_endpoint_name take_bytes trim_right to_lower trim_suffix has_suffix text_eq
restless = refl
