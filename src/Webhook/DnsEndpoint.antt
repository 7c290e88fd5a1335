-- ===== src/Webhook/DnsEndpoint.antt =====
-- internal/webhook/v1alpha1/dnsendpoint_webhook.go: the checks on a DNSEndpoint. The package
-- github.com/miekg/dns, net.ParseIP and the cluster's answers are parameters; the texts of messages
-- are constructors.
pub mod Store
pub mod Record
mod Tests
use edgecdnx_controller.Common.{
  ℕ, ◌+◌, ◌-◌, ◌^◌, Bool, true, false, not, ◌&&◌, ◌||◌, Option, none, some, List, [], ◌∷◌, ◌++◌,
  Text, text_eq, codes, any, all, length, if◌then◌else◌, ◌==◌, ℤ, is_negative, exceeds,
}
use edgecdnx_controller.Strings.{to_lower, to_upper, equal_fold, trim_suffix, split}
use edgecdnx_controller.Webhook.Admission.{ObjectMeta, same_key}

-- DNSEndpointSpec; of the route selector only its presence is read here.
pub record DnsEndpoint : Type 0 where
  pub meta : ObjectMeta
  pub dns_name : Text
  pub routing_policy : Text
  pub record_ttl : ℤ
  pub record_type : Text
  pub targets : List Text
  pub route_selector : Bool
  -- spec.zone.name
  pub zone : Option Text

-- What dns.NewRR returns, as far as its type is asked for.
pub data Rr : Type 0 where
  mx ns cname : (target : Text) → Rr
  unlisted : Rr

-- github.com/miekg/dns and net.ParseIP. `new_rr owner ttl type target` is NewRR at the line
-- "owner ttl IN type target".
pub record Dns : Type 0 where
  pub fqdn : Text → Text
  pub is_domain_name : Text → Bool
  pub is_sub_domain : Text → Text → Bool
  pub is_known_type : Text → Bool
  pub new_rr : Text → ℤ → Text → Text → Option Rr
  pub is_ip : Text → Bool

-- What Client.Get answers for the zone: the field spec.zone.
pub data Fetched : Type 0 where
  found : (zone : Text) → Fetched
  not_found failed : Fetched

pub data Error : Type 0 where
  selector_required zone_required zone_missing zone_failed zone_invalid : Error
  name_invalid outside_zone ttl_out_of_range type_unsupported type_needs_simple : Error
  no_targets cname_targets list_failed not_a_cname : Error
  cname_is_ip invalid_target : (target : Text) → Error
  cname_of_itself : Error
  record_exists cname_coexists : Error
  target_is_cname : (record_type target : Text) → Error

-- `if test { return err }` before the rest.
abbrev pub reject_if : Bool → Error → Option Error → Option Error
reject_if true e rest = some e
reject_if false e rest = rest

-- `if err := …; err != nil { return err }` before the rest.
abbrev pub first_error : Option Error → Option Error → Option Error
first_error (some e) rest = some e
first_error none rest = rest

abbrev pub max_dns_record_ttl : ℕ
max_dns_record_ttl = 2 ^ 31 - 1

unfoldable pub supported_dns_record_type : Text → Bool
unfolding to_upper text_eq
supported_dns_record_type t = any (text_eq (to_upper t)) (
    codes "A"
    ∷ codes "AAAA"
    ∷ codes "CNAME"
    ∷ codes "TXT"
    ∷ codes "MX"
    ∷ codes "SRV"
    ∷ codes "NS"
    ∷ [])

unfoldable pub is_address_record_type : Text → Bool
unfolding equal_fold
is_address_record_type t = equal_fold t (codes "A") || equal_fold t (codes "AAAA")

unfoldable pub is_simple_routing : Text → Bool
unfolding equal_fold text_eq
is_simple_routing p = text_eq p [] || equal_fold p (codes "Simple")

-- The loop over the labels, from the index `index`: strings.Contains(label, "*") and its exceptions.
unfoldable pub wildcards_valid : Bool → ℕ → List Text → Bool
unfolding text_eq
wildcards_valid allow index [] = true
wildcards_valid allow index (label ∷ labels) =
    let rest = wildcards_valid allow (index + 1) labels in
    if any (λ c. c == b'*') label
      && (not allow || not (index == 0) || not (text_eq label (codes "*")))
    then false
    else rest

-- The policies that need a route selector.
unfoldable pub needs_selector : Text → Bool
unfolding text_eq
needs_selector p =
    text_eq p (codes "Weighted")
    || text_eq p (codes "Geolocation")
    || text_eq p (codes "RoundRobin")

-- The variable `policy` of validateDNSRecordTargets.
unfoldable pub lower_policy : Text → Text
lower_policy p = let lower = to_lower p in if text_eq lower [] then codes "simple" else lower

module _ (d : Dns) where
  unfoldable pub valid_dns_name : Text → Bool → Bool
  unfolding trim_suffix split wildcards_valid text_eq
  valid_dns_name name allow_wildcard =
      let trimmed = trim_suffix b'.' name in
      if text_eq trimmed [] || text_eq trimmed (codes ".")
      then false
      else if wildcards_valid allow_wildcard 0 (split b'.' trimmed)
      then d.is_domain_name (d.fqdn trimmed)
      else false

  unfoldable pub canonical_dns_name : Text → Text
  unfolding to_lower trim_suffix
  canonical_dns_name name = to_lower (d.fqdn (trim_suffix b'.' name))

  -- One round of the loop over the targets.
  unfoldable pub validate_target : DnsEndpoint → Text → Option Error
  validate_target e target =
      let is_cname = equal_fold e.record_type (codes "CNAME") in
      reject_if (is_cname && d.is_ip (trim_suffix b'.' target)) (cname_is_ip target)
        (elim (d.new_rr (d.fqdn e.dns_name) e.record_ttl (to_upper e.record_type) target) [
          | none ↦ some (invalid_target target)
          | some (cname t) ↦
              reject_if (is_cname && text_eq (canonical_dns_name t) (canonical_dns_name e.dns_name))
                cname_of_itself none
          | some r ↦ reject_if is_cname not_a_cname none
        ])

  unfoldable pub validate_targets : DnsEndpoint → List Text → Option Error
  validate_targets e [] = none
  validate_targets e (target ∷ targets) =
      first_error (validate_target e target) (validate_targets e targets)

  unfoldable pub validate_dns_record_targets : DnsEndpoint → Option Error
  validate_dns_record_targets e =
      if not (text_eq (lower_policy e.routing_policy) (codes "simple"))
      then none
      else reject_if (length e.targets == 0) no_targets (
          reject_if (equal_fold e.record_type (codes "CNAME") && not (length e.targets == 1))
            cname_targets (validate_targets e e.targets))

  -- The loop that collects the names of MX and NS targets; what does not parse is skipped.
  unfoldable pub collect_targets : DnsEndpoint → List Text → List Text
  unfolding to_upper
  collect_targets e [] = []
  collect_targets e (target ∷ targets) =
      let rest = collect_targets e targets in
      elim (d.new_rr (d.fqdn e.dns_name) e.record_ttl (to_upper e.record_type) target) [
        | some (mx t) ↦ t ∷ rest
        | some (ns t) ↦ t ∷ rest
        | _ ↦ rest
      ]

  unfoldable pub mx_or_ns_targets : DnsEndpoint → List Text
  unfolding collect_targets is_simple_routing
  mx_or_ns_targets e =
      if not (is_simple_routing e.routing_policy) then [] else collect_targets e e.targets

  unfoldable pub target_name_from_target : Text → Text → Text
  target_name_from_target record_type target =
      elim (d.new_rr (codes "target.invalid.") (ℤ.pos 0) record_type target) [
        | some (mx t) ↦ t
        | some (ns t) ↦ t
        | _ ↦ []
      ]

  -- One round of the loop over the stored records of the namespace.
  unfoldable pub validate_conflict : DnsEndpoint → (zone_name : Text) → DnsEndpoint → Option Error
  unfolding canonical_dns_name mx_or_ns_targets target_name_from_target is_simple_routing to_upper
      text_eq
  validate_conflict e zone_name other =
      let owner = canonical_dns_name e.dns_name in
      let record_type = to_upper e.record_type in
      let other_owner = canonical_dns_name other.dns_name in
      let other_type = to_upper other.record_type in
      let same_owner = text_eq owner other_owner in
      let same_zone : Bool = elim other.zone [ none ↦ false | some z ↦ text_eq z zone_name ] in
      let is_mail = λ (t : Text). text_eq t (codes "MX") || text_eq t (codes "NS") in
      if same_key other.meta e.meta
      then none
      else reject_if (same_owner && same_zone && text_eq record_type other_type) record_exists (
          reject_if
            (same_owner
              && (text_eq record_type (codes "CNAME") || text_eq other_type (codes "CNAME")))
            cname_coexists
            (reject_if
              (text_eq record_type (codes "CNAME")
                && is_simple_routing other.routing_policy
                && is_mail other_type
                && any (λ t. text_eq (canonical_dns_name t) owner) (mx_or_ns_targets other))
              (target_is_cname other_type e.dns_name)
              (reject_if
                (is_simple_routing e.routing_policy
                  && is_mail record_type
                  && any
                      (λ t.
                        text_eq other_type (codes "CNAME")
                        && text_eq (canonical_dns_name (target_name_from_target record_type t))
                            other_owner)
                      e.targets)
                (target_is_cname record_type other.dns_name) none)))

  unfoldable pub validate_dns_record_conflicts :
      DnsEndpoint → Text → List DnsEndpoint → Option Error
  validate_dns_record_conflicts e zone_name [] = none
  validate_dns_record_conflicts e zone_name (o ∷ existing) =
      first_error (validate_conflict e zone_name o)
        (validate_dns_record_conflicts e zone_name existing)

  -- The checks that follow once the zone is fetched.
  unfoldable pub validate_in_zone :
      DnsEndpoint → (zone_name zone : Text) → Option (List DnsEndpoint) → Option Error
  validate_in_zone e zone_name zone listed =
      reject_if (not (valid_dns_name zone false)) zone_invalid (
        reject_if (not (valid_dns_name e.dns_name true)) name_invalid (
          reject_if (not (d.is_sub_domain (d.fqdn zone) (d.fqdn e.dns_name))) outside_zone (
            reject_if (is_negative e.record_ttl || exceeds max_dns_record_ttl e.record_ttl)
              ttl_out_of_range
              (reject_if
                (not (d.is_known_type (to_upper e.record_type))
                  || not (supported_dns_record_type e.record_type))
                type_unsupported
                (reject_if
                  (not (is_simple_routing e.routing_policy)
                    && not (is_address_record_type e.record_type))
                  type_needs_simple
                  (first_error (validate_dns_record_targets e) (elim listed [
                    | none ↦ some list_failed
                    | some items ↦ validate_dns_record_conflicts e zone_name items
                  ])))))))

  -- `get_zone` is Client.Get in the namespace of the record, `listed` what Client.List returns.
  unfoldable pub validate_spec :
      (get_zone : Text → Fetched) → Option (List DnsEndpoint) → DnsEndpoint → Option Error
  validate_spec get_zone listed e =
      reject_if (needs_selector e.routing_policy && not e.route_selector) selector_required
        (elim e.zone [
          | none ↦ some zone_required
          | some zone_name ↦
              reject_if (text_eq zone_name []) zone_required (elim (get_zone zone_name) [
                | not_found ↦ some zone_missing
                | failed ↦ some zone_failed
                | found zone ↦ validate_in_zone e zone_name zone listed
              ])
        ])
