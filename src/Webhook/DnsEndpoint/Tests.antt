-- ===== src/Webhook/DnsEndpoint/Tests.antt =====
-- The checks on records at concrete records.
use edgecdnx_controller.Common.{
  ◌≤◌, ◌⊎◌, ◌≡◌, refl, true, false, not, ◌||◌, some, [], ◌∷◌, ◌++◌, Text, text_eq, codes, All,
  length, ℤ,
}
use edgecdnx_controller.Strings.{has_suffix, to_upper, to_lower, equal_fold, trim_suffix, split}
use edgecdnx_controller.Webhook.Admission.{is_none, IsPeaceful, Step, Reach}
use edgecdnx_controller.Webhook.DnsEndpoint.{
  DnsEndpoint, Dns, Fetched, found, unlisted, cname, canonical_dns_name, valid_dns_name,
  wildcards_valid, supported_dns_record_type, is_address_record_type, is_simple_routing,
  needs_selector, lower_policy, validate_target, validate_targets, validate_dns_record_targets,
  validate_dns_record_conflicts, validate_in_zone, validate_spec,
}
use edgecdnx_controller.Webhook.DnsEndpoint.Store.{clash, RecordStore, RecordStore-IsPeaceful}
use edgecdnx_controller.Webhook.DnsEndpoint.Record.{
  IsInZone, IsTarget, validate_spec-IsInZone, validate_dns_record_targets_sound,
}

abbrev dns : Dns
dns = record {
  fqdn = λ n. n ++ codes ".";
  is_domain_name = λ n. true;
  is_sub_domain = λ parent child. has_suffix child parent;
  is_known_type = λ t. true;
  new_rr = λ owner ttl type target. some unlisted;
  is_ip = λ t. false;
}

abbrev web : DnsEndpoint
web = record {
  meta = record { name = codes "web"; namespace = codes "n" };
  dns_name = codes "w.a";
  routing_policy = [];
  record_ttl = ℤ.pos 60;
  record_type = codes "A";
  targets = codes "x" ∷ [];
  route_selector = false;
  zone = some (codes "z");
}

abbrev zone_of : Text → Fetched
zone_of n = found (codes "a")

run : Unit {0}
unfolding validate_spec validate_in_zone validate_dns_record_targets validate_targets
    validate_target validate_dns_record_conflicts valid_dns_name wildcards_valid
    supported_dns_record_type is_address_record_type is_simple_routing needs_selector lower_policy
    equal_fold to_upper to_lower trim_suffix split has_suffix text_eq
run = tt

admitted : is_none (validate_spec dns zone_of (some []) web) ≡ true
unfolding run
admitted = refl

validate_spec-IsInZone_test :
    (zone_name : Text) × (zone : Text) × (web.zone ≡ some zone_name)
    × (zone_of zone_name ≡ found zone)
    × IsInZone dns web zone
    × ((not (needs_selector web.routing_policy) || web.route_selector) ≡ true)
validate_spec-IsInZone_test = validate_spec-IsInZone dns zone_of (some []) web admitted

-- A CNAME for another name, where each text is read as a CNAME of it.
abbrev named : Dns
named = record dns { new_rr = λ owner ttl type target. some (cname target) }

abbrev also : DnsEndpoint
also = record web { record_type = codes "cname" }

validate_dns_record_targets_sound_example :
    (1 ≤ length also.targets)
    × All (IsTarget named also) also.targets
    × ((equal_fold also.record_type (codes "CNAME") ≡ false) ⊎ (length also.targets ≡ 1))
unfolding run canonical_dns_name
validate_dns_record_targets_sound_example = validate_dns_record_targets_sound named also refl refl

stored : RecordStore dns (λ n. zone_of) (web ∷ [])
unfolding run
stored = Reach.next Reach.empty (Step.admit web refl)

RecordStore-IsPeaceful_example : IsPeaceful (clash dns) (web ∷ [])
RecordStore-IsPeaceful_example = RecordStore-IsPeaceful dns (λ n. zone_of) (web ∷ []) stored
