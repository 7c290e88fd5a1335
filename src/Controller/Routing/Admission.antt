-- ===== src/Controller/Routing/Admission.antt =====
-- internal/controller/service_routing_controller.go with internal/webhook/v1alpha1/dnsendpoint_webhook.go:
-- what the webhook makes of the DNSEndpoints that the routing controller writes.
use edgecdnx_controller.Common.{
  ◌≡◌, refl, sym, ap, subst, ◌∙◌, Bool, true, false, not, ◌&&◌, ◌||◌, none, some, List, [], ◌∷◌,
  Text, text_eq, text_refl, text_iff, if◌then◌else◌, arith, Bool-cases, inl, inr, any, all, All,
  any-of_All, codes, ℤ,
}
use edgecdnx_controller.Strings.{to_upper, equal_fold, to_lower}
use edgecdnx_controller.Webhook.Admission.{is_none, same_key}
use edgecdnx_controller.Webhook.DnsEndpoint.{
  DnsEndpoint, Dns, Fetched, Error, found, reject_if, record_exists, cname_coexists,
  target_is_cname, mx_or_ns_targets, valid_dns_name, canonical_dns_name, supported_dns_record_type,
  is_address_record_type, is_simple_routing, needs_selector, lower_policy,
  validate_dns_record_targets, validate_conflict, validate_dns_record_conflicts, validate_in_zone,
  validate_spec,
}
use edgecdnx_controller.Controller.Routing.Records.{
  Service, Zone, Spec, same_project, choose_zone, record_types,
}
use edgecdnx_controller.Controller.Routing.Choice.{is_choice, choose_zone-is_longest}
use edgecdnx_controller.Controller.Routing.{built_spec}

-- A DNSEndpoint as the webhook reads it.
abbrev pub request : (name namespace : Text) → Spec → DnsEndpoint
request name namespace spec = record {
  meta = record { name = name; namespace = namespace };
  dns_name = spec.dns_name;
  routing_policy = spec.routing_policy;
  record_ttl = ℤ.pos spec.record_ttl;
  record_type = spec.record_type;
  targets = spec.targets;
  route_selector = not (is_none spec.route_selector);
  zone = spec.zone;
}

selector_needed : needs_selector (codes "Geolocation") ≡ true
unfolding needs_selector text_eq
selector_needed = refl

not_simple : is_simple_routing (codes "Geolocation") ≡ false
unfolding is_simple_routing equal_fold to_lower text_eq
not_simple = refl

lower_other : text_eq (lower_policy (codes "Geolocation")) (codes "simple") ≡ false
unfolding lower_policy to_lower text_eq
lower_other = refl

-- A record type in upper case that the webhook takes with any policy, and no CNAME.
abbrev IsFit : Text → Type 0
IsFit t =
    (to_upper t ≡ t)
    × (supported_dns_record_type t ≡ true)
    × (is_address_record_type t ≡ true)
    × (text_eq t (codes "CNAME") ≡ false)

a_fits : IsFit (codes "A")
unfolding to_upper supported_dns_record_type is_address_record_type equal_fold to_lower text_eq
a_fits = (refl, refl, refl, refl)

aaaa_fits : IsFit (codes "AAAA")
unfolding to_upper supported_dns_record_type is_address_record_type equal_fold to_lower text_eq
aaaa_fits = (refl, refl, refl, refl)

typed : (t : Text) → any (text_eq t) record_types ≡ true → IsFit t
typed t h = elim (Bool-cases (text_eq t (codes "A"))) [
  | inl e ↦ subst IsFit (sym ((text_iff t (codes "A")).0 e)) a_fits
  | inr e ↦ subst IsFit (sym ((text_iff t (codes "AAAA")).0 (ground (arith, e, h)))) aaaa_fits
]

-- The checks on a stored record that are left for a record that is no CNAME.
only_cases :
    (own owner zone type type_there cname cname_there simple mail named : Bool) (e : Error)
    → cname ≡ false
    → type ≡ type_there
    → is_none (
        if own
        then none
        else reject_if (owner && zone && type) record_exists (
            reject_if
              (owner && (cname || cname_there))
              cname_coexists
              (reject_if (cname && simple && mail && named) e none)))
      ≡ (own || not (owner && ((zone && type_there) || cname_there)))
only_cases own owner zone type type_there cname cname_there simple mail named e h k =
    ground (arith, h, k)

module _ (d : Dns) (s : Service) (name n t : Text) where
  -- The request for the endpoint of a name and a record type.
  abbrev pub written : (zone_name : Text) → DnsEndpoint
  written zone_name = request name s.namespace (built_spec s n t (some zone_name))

  -- Whether a stored record is the endpoint itself, or no record of its owner name with its type and
  -- zone and no CNAME of that name.
  abbrev pub is_compatible : (zone_name : Text) → DnsEndpoint → Bool
  is_compatible zone_name other =
      let of_zone : Bool = elim other.zone [ none ↦ false | some z ↦ text_eq z zone_name ] in
      same_key other.meta (written zone_name).meta
      || not (
          text_eq (canonical_dns_name d n) (canonical_dns_name d other.dns_name)
          && ((of_zone && text_eq t (to_upper other.record_type))
              || text_eq (to_upper other.record_type) (codes "CNAME")))

  module _ (fits : any (text_eq t) record_types ≡ true) where
    conflict-is_compatible :
        (zone_name : Text) (other : DnsEndpoint)
        → is_none (validate_conflict d (written zone_name) zone_name other)
          ≡ is_compatible zone_name other
    unfolding validate_conflict
    conflict-is_compatible zone_name other =
        let (upper, supported, address, no_cname) = typed t fits in
        let same_owner = text_eq (canonical_dns_name d n) (canonical_dns_name d other.dns_name) in
        let of_zone : Bool = elim other.zone [ none ↦ false | some z ↦ text_eq z zone_name ] in
        let cname = ap (λ x. text_eq x (codes "CNAME")) upper ∙ no_cname in
        let there = to_upper other.record_type in
        let types = ap (λ x. text_eq x (to_upper other.record_type)) upper in
        only_cases (same_key other.meta (written zone_name).meta) same_owner of_zone _ _ _
          (text_eq there (codes "CNAME")) (is_simple_routing other.routing_policy)
          (text_eq there (codes "MX") || text_eq there (codes "NS"))
          (any (λ x. text_eq (canonical_dns_name d x) (canonical_dns_name d n))
            (mx_or_ns_targets d other))
          (target_is_cname there n) cname types

    conflicts-are_compatible :
        (zone_name : Text) (items : List DnsEndpoint)
        → is_none (validate_dns_record_conflicts d (written zone_name) zone_name items)
          ≡ all (is_compatible zone_name) items
    unfolding validate_dns_record_conflicts
    conflicts-are_compatible zone_name [] = refl
    conflicts-are_compatible zone_name (o ∷ items) =
        ground (arith, conflict-is_compatible zone_name o, conflicts-are_compatible zone_name items)

    -- No target is asked for, since the policy is not simple.
    no_targets_checked :
        (zone_name : Text) → validate_dns_record_targets d (written zone_name) ≡ none
    unfolding validate_dns_record_targets
    no_targets_checked zone_name = ground (arith, lower_other)

    -- In a zone that covers the name, the checks that are left are those on the stored records.
    in_zone-are_compatible :
        (zone_name zone : Text) (items : List DnsEndpoint)
        → valid_dns_name d zone false ≡ true
        → valid_dns_name d n true ≡ true
        → d.is_sub_domain (d.fqdn zone) (d.fqdn n) ≡ true
        → d.is_known_type t ≡ true
        → is_none (validate_in_zone d (written zone_name) zone_name zone (some items))
          ≡ all (is_compatible zone_name) items
    unfolding validate_in_zone
    in_zone-are_compatible zone_name zone items zone_valid name_valid below known =
        let (upper, supported, address, no_cname) = typed t fits in
        let of_type = ap d.is_known_type upper ∙ known in
        ground (
          arith,
          zone_valid,
          name_valid,
          below,
          of_type,
          supported,
          address,
          not_simple,
          no_targets_checked zone_name,
          conflicts-are_compatible zone_name items,
        )

    -- The webhook admits an endpoint that the routing controller writes for a name of a service exactly
    -- if the service has a route selector and no stored record but the endpoint itself has its owner
    -- name and is a CNAME or has its zone and type. The controller has chosen a zone for the name; the
    -- zones that it read have valid names and are those that the webhook gets; the name is valid and
    -- the type is known to the DNS library.
    pub is_none-validate_spec_built :
        (zones : List Zone) (get_zone : Text → Fetched) (items : List DnsEndpoint)
        → All
            (λ z.
              same_project s.namespace z.namespace s.project z.project ≡ true
              → (get_zone z.name ≡ found z.zone) × (valid_dns_name d z.zone false ≡ true))
            zones
        → valid_dns_name d n true ≡ true
        → d.is_known_type t ≡ true
        → text_eq (choose_zone d.is_sub_domain d.fqdn s n zones [] 0).0 [] ≡ false
        → is_none (
            validate_spec d get_zone
              (some items)
              (written (choose_zone d.is_sub_domain d.fqdn s n zones [] 0).0))
          ≡ (not (is_none s.route_selector)
              && all (is_compatible (choose_zone d.is_sub_domain d.fqdn s n zones [] 0).0) items)
    unfolding validate_spec
    is_none-validate_spec_built zones get_zone items read name_valid known chosen =
        let choice = choose_zone d.is_sub_domain d.fqdn s n zones [] 0 in
        elim (choose_zone-is_longest d.is_sub_domain d.fqdn s n zones).1 [
          | inr (empty, longest) ↦ ground (arith, empty, chosen, text_refl [])
          | inl any_choice ↦
              let (z, zone_read, picked) =
                any-of_All _ (is_choice d.is_sub_domain d.fqdn s n choice) zones read any_choice in
              let (got, zone_valid) = zone_read (ground (arith, picked)) in
              let named : z.name ≡ choice.0 =
                (text_iff z.name choice.0).0 (ground (arith, picked)) in
              let fetched : get_zone choice.0 ≡ found z.zone = ap get_zone (sym named) ∙ got in
              let rest =
                in_zone-are_compatible choice.0 z.zone items zone_valid name_valid
                  (ground (arith, picked)) known in
              ground (arith, selector_needed, chosen, fetched, rest)
        ]
