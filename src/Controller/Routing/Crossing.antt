-- ===== src/Controller/Routing/Crossing.antt =====
-- The webhooks and the routing controller at one service.
use edgecdnx_controller.Common.{
  ◌≡◌, refl, Bool, true, false, ◌&&◌, ◌||◌, some, List, [], ◌∷◌, map, Text, text_eq, codes, All,
  length, ltb, arith,
}
use mathlib.Core.List.{reverse}
use edgecdnx_controller.Strings.{has_prefix, has_suffix, trim_suffix, split}
use edgecdnx_controller.Webhook.Admission.{is_none, Step, Reach}
use edgecdnx_controller.Webhook.Zone.{dotted, validate_zone_overlaps, overlapping_zones}
use edgecdnx_controller.Webhook.Zone.Laws.{ZoneStore}
use edgecdnx_controller.Webhook.DnsEndpoint.{
  Dns, found, unlisted, validate_spec, valid_dns_name, wildcards_valid,
}
use edgecdnx_controller.Controller.Routing.Records.{Service, Zone, covers, choose_zone}
use edgecdnx_controller.Controller.Routing.Only.{stored, choose_zone-only}
use edgecdnx_controller.Controller.Routing.Admission.{written, is_none-validate_spec_built}

-- Of two prefixes of a text one is a prefix of the other.
prefixes :
    (a b n : Text)
    → has_prefix n a ≡ true
    → has_prefix n b ≡ true
    → (has_prefix b a || has_prefix a b) ≡ true
unfolding has_prefix
prefixes [] [] n h k = refl
prefixes [] (y ∷ b) n h k = refl
prefixes (x ∷ a) [] n h k = ground arith
prefixes (x ∷ a) (y ∷ b) [] h k = ground (arith, h)
prefixes (x ∷ a) (y ∷ b) (z ∷ n) h k =
    ground (arith, prefixes a b n (ground (arith, h)) (ground (arith, k)))

abbrev above : Text → Text → Bool
above parent child = has_suffix child parent

nested : (a b n : Text) → above a n ≡ true → above b n ≡ true → (above a b || above b a) ≡ true
unfolding has_suffix
nested a b n h k = prefixes (reverse a) (reverse b) (reverse n) h k

abbrev zone : Text → Zone
zone z = record { name = z; namespace = codes "n"; project = some (codes "p"); zone = z }

abbrev zones : List Zone
zones = zone (codes "c") ∷ zone (codes "a.b") ∷ []

abbrev service : Service
service = record {
  name = codes "s";
  namespace = codes "n";
  uid = codes "u";
  project = some (codes "p");
  domain = codes "s.a.b";
  host_aliases = [];
  route_selector = some (codes "x");
}

store : ZoneStore above (map stored zones)
unfolding validate_zone_overlaps overlapping_zones text_eq has_suffix
store =
    Reach.next (Reach.next Reach.empty (Step.admit (stored (zone (codes "a.b"))) refl))
      (Step.admit (stored (zone (codes "c"))) refl)

choose_zone-only_example :
    All
      (λ z.
        (covers above dotted service (codes "s.a.b") z && ltb 0 (length z.zone)) ≡ true
        → choose_zone above dotted service (codes "s.a.b") zones [] 0 ≡ (z.name, length z.zone))
      zones
choose_zone-only_example =
    choose_zone-only above dotted nested service (codes "s.a.b") zones store (refl, (refl, tt))

abbrev dns : Dns
dns = record {
  fqdn = dotted;
  is_domain_name = λ n. true;
  is_sub_domain = above;
  is_known_type = λ t. true;
  new_rr = λ owner ttl type target. some unlisted;
  is_ip = λ t. false;
}

is_none-validate_spec_built_example :
    is_none (
      validate_spec dns found
        (some [])
        (written dns service (codes "e") (codes "s.a.b") (codes "AAAA") (codes "a.b")))
    ≡ true
unfolding choose_zone text_eq has_suffix valid_dns_name wildcards_valid trim_suffix split
is_none-validate_spec_built_example =
    is_none-validate_spec_built dns service (codes "e") (codes "s.a.b") (codes "AAAA") refl zones
      found [] ((λ h. (refl, refl)), ((λ h. (refl, refl)), tt)) refl refl refl
