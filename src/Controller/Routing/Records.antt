-- ===== src/Controller/Routing/Records.antt =====
-- internal/controller/service_routing_controller.go: the objects that are read and written, the name of
-- an endpoint, and the zone of a DNS name.
use edgecdnx_controller.Common.{
  ℕ, zero, suc, ◌-◌, Bool, false, ◌&&◌, ◌||◌, Option, none, some, List, [], ◌∷◌, ◌++◌, map, length,
  ltb, ◌==◌, Text, codes, text_eq, if◌then◌else◌,
}
use edgecdnx_controller.Strings.{to_lower, trim_suffix}

pub record Service : Type 0 where
  pub name : Text
  pub namespace : Text
  pub uid : Text
  pub project : Option Text
  pub domain : Text
  pub host_aliases : List Text
  -- spec.routeSelector, in a form that can be compared.
  pub route_selector : Option Text

pub record Zone : Type 0 where
  pub name : Text
  pub namespace : Text
  pub project : Option Text
  pub zone : Text

-- DNSEndpointSpec
pub record Spec : Type 0 where
  pub project : Option Text
  pub dns_name : Text
  pub routing_policy : Text
  pub record_ttl : ℕ
  pub record_type : Text
  pub targets : List Text
  pub route_selector : Option Text
  pub zone : Option Text

-- A DNSEndpoint: the annotation ValuesHashAnnotation, and the UID of the owner that controls it.
pub record Endpoint : Type 0 where
  pub name : Text
  pub namespace : Text
  pub hash : Option Text
  pub controller : Option Text
  pub spec : Spec

pub data Error : Type 0 where
  list_failed get_failed write_failed build_failed owner_failed : Error
  uncovered : (dns_name : Text) → Error
  foreign : (name : Text) → Error

pub data Write : Type 0 where
  create update delete : (name : Text) → Write

-- The endpoints of the namespace after the calls made so far, and an error.
abbrev pub Outcome : Type 0
Outcome = List Endpoint × Option Error

abbrev pub and_then : Outcome → (List Endpoint → Outcome) → Outcome
and_then (stored, some e) next = (stored, some e)
and_then (stored, none) next = next stored

abbrev pub same_option : Option Text → Option Text → Bool
same_option none q = false
same_option (some p) none = false
same_option (some p) (some q) = text_eq p q

-- tenancy.SameProject
abbrev pub same_project : (namespace other : Text) → (project of_other : Option Text) → Bool
same_project n m p q = text_eq n m && same_option p q

abbrev pub find_endpoint : Text → List Endpoint → Option Endpoint
find_endpoint name [] = none
find_endpoint name (e ∷ es) = if text_eq e.name name then some e else find_endpoint name es

-- An update puts the new object in the place of the old one.
abbrev pub replace_endpoint : Endpoint → List Endpoint → List Endpoint
replace_endpoint e es = map (λ o. if text_eq o.name e.name then e else o) es

-- The last byte that is neither '-' nor '.' ends the text: strings.TrimRight(s, "-.").
unfoldable pub trim_right : Text → Text
trim_right [] = []
trim_right (c ∷ s) =
    let rest = trim_right s in
    elim rest [ [] ↦ if (c == b'-') || (c == b'.') then [] else c ∷ [] | d ∷ t ↦ c ∷ d ∷ t ]

-- `s[:n]`
unfoldable pub take_bytes : ℕ → Text → Text
take_bytes n [] = []
take_bytes zero (c ∷ s) = []
take_bytes (suc n) (c ∷ s) = c ∷ take_bytes n s

-- serviceDNSEndpointName; `digest` is the hexadecimal form of the first six bytes of the MD5 sum.
-- DNS1123SubdomainMaxLength is 253; a suffix longer than that would make the limit negative, 0 here.
module _ (digest : Text → Text) where
  abbrev pub name_suffix : (dns_name record_type : Text) → Text
  name_suffix dns_name record_type =
      (b'-' ∷ [])
      ++ digest (to_lower (trim_suffix b'.' dns_name))
      ++ (b'-' ∷ [])
      ++ to_lower record_type

  unfoldable pub service_dns_endpoint_name : (service_name dns_name record_type : Text) → Text
  service_dns_endpoint_name service_name dns_name record_type =
      let suffix = name_suffix dns_name record_type in
      let limit = 253 - length suffix in
      let short = trim_right (take_bytes limit service_name) in
      (if ltb limit (length service_name) then short else service_name) ++ suffix

abbrev pub dns_names : Service → List Text
dns_names s = s.domain ∷ s.host_aliases

abbrev pub record_types : List Text
record_types = codes "A" ∷ codes "AAAA" ∷ []

module _ (is_sub_domain : Text → Text → Bool) (fqdn : Text → Text) where
  -- Whether a zone is in the service's project and covers the name.
  abbrev pub covers : Service → (dns_name : Text) → Zone → Bool
  covers s dns_name z =
      same_project s.namespace z.namespace s.project z.project
      && is_sub_domain (fqdn z.zone) (fqdn dns_name)

  -- The loop over the zones, with its variables zoneName and zoneLength.
  unfoldable pub choose_zone :
      Service → (dns_name : Text) → List Zone → (zone_name : Text) → (zone_length : ℕ) → Text × ℕ
  choose_zone s dns_name [] zone_name zone_length = (zone_name, zone_length)
  choose_zone s dns_name (z ∷ zs) zone_name zone_length =
      let taken = choose_zone s dns_name zs z.name (length z.zone) in
      let kept = choose_zone s dns_name zs zone_name zone_length in
      if covers s dns_name z && ltb zone_length (length z.zone) then taken else kept
