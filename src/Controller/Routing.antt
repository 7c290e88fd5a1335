-- ===== src/Controller/Routing.antt =====
-- internal/controller/service_routing_controller.go, with internal/builder/dnsendpoint_builder.go:
-- the DNSEndpoints of a Service. The DNS library, md5, the hash of a built endpoint and
-- SetControllerReference are parameters; a call to the API server may fail before it acts.
pub mod Records
pub mod Names
pub mod Choice
pub mod Stale
pub mod Settled
pub mod Rest
pub mod Repeat
pub mod Admission
pub mod Only
mod Tests
mod Crossing
use edgecdnx_controller.Common.{
  ◌≡◌, ℕ, zero, suc, ◌-◌, Bool, true, false, not, ◌&&◌, ◌||◌, Option, none, some, List, [], ◌∷◌,
  ◌++◌, map, filter, any, length, ltb, ◌==◌, Text, codes, text_eq, if◌then◌else◌,
}
use edgecdnx_controller.Strings.{to_lower, trim_suffix}
use edgecdnx_controller.Controller.Routing.Records.{
  Service, Zone, Spec, Endpoint, Error, Write, Outcome, and_then, same_option, same_project,
  find_endpoint, replace_endpoint, trim_right, take_bytes, dns_names, record_types, name_suffix,
  service_dns_endpoint_name, covers, choose_zone, list_failed, get_failed, write_failed,
  build_failed, owner_failed, uncovered, foreign, create, update, delete,
}

-- The calls of the reconciler that this model takes as given.
pub record Calls : Type 0 where
  pub is_sub_domain : Text → Text → Bool
  pub fqdn : Text → Text
  pub digest : Text → Text
  -- The MD5 sum of the built endpoint as JSON; `none` when it cannot be marshalled.
  pub hash : (name namespace : Text) → Spec → Option Text
  -- SetControllerReference on the owner that controls an object: `none` is an error.
  pub set_controller : (uid : Text) → Option Text → Option Text
  pub get_fails : (name : Text) → Bool
  pub write_fails : Write → Bool

-- DNSEndpointBuilderFactory and WithService: what is built for a name and a record type.
abbrev pub built_spec : Service → (dns_name record_type : Text) → (zone : Option Text) → Spec
built_spec s dns_name record_type zone = record {
  project = s.project;
  dns_name = dns_name;
  routing_policy = codes "Geolocation";
  record_ttl = 10;
  record_type = record_type;
  targets = [];
  route_selector = s.route_selector;
  zone = zone;
}

module _ (c : Calls) (s : Service) where
  abbrev pub endpoint_name : (dns_name record_type : Text) → Text
  endpoint_name dns_name record_type =
      service_dns_endpoint_name c.digest s.name dns_name record_type

  abbrev pub is_controlled : Endpoint → Bool
  is_controlled e = same_option e.controller (some s.uid)

  abbrev pub is_current : Endpoint → (hash zone_name : Text) → Bool
  is_current e hash zone_name =
      same_option e.hash (some hash)
      && (is_controlled e && same_option e.spec.zone (some zone_name))

  -- The write of an endpoint that the service comes to control.
  abbrev pub write_endpoint :
      Write → (controller : Option Text) → (apply : Text → List Endpoint) → List Endpoint → Outcome
  write_endpoint w controller apply stored = elim (c.set_controller s.uid controller) [
    | none ↦ (stored, some owner_failed)
    | some uid ↦ if c.write_fails w then (stored, some write_failed) else (apply uid, none)
  ]

  abbrev pub create_endpoint : (name hash : Text) → Spec → List Endpoint → Outcome
  create_endpoint name hash spec stored =
      write_endpoint (create name) none
        (λ uid.
          record {
            name = name;
            namespace = s.namespace;
            hash = some hash;
            controller = some uid;
            spec = spec;
          }
          ∷ stored)
        stored

  abbrev pub update_endpoint : Endpoint → (hash : Text) → Spec → List Endpoint → Outcome
  update_endpoint e hash spec stored =
      write_endpoint (update e.name) e.controller
        (λ uid.
          replace_endpoint
            (record {
              name = e.name;
              namespace = e.namespace;
              hash = some hash;
              controller = some uid;
              spec = spec;
            })
            stored)
        stored

  abbrev pub put_built : (name hash zone_name : Text) → Spec → List Endpoint → Outcome
  put_built name hash zone_name spec stored =
      if c.get_fails name then (stored, some get_failed) else elim (find_endpoint name stored) [
        | none ↦ create_endpoint name hash spec stored
        | some e ↦
            if not (same_project s.namespace e.namespace s.project e.spec.project)
            then (stored, some (foreign name))
            else if is_current e hash zone_name
            then (stored, none)
            else update_endpoint e hash spec stored
      ]

  -- The body of the loop over the record types. The hash is taken before the zone is set.
  unfoldable pub reconcile_record :
      (zone_name dns_name record_type : Text) → List Endpoint → Outcome
  reconcile_record zone_name dns_name record_type stored =
      let name = endpoint_name dns_name record_type in
      elim (c.hash name s.namespace (built_spec s dns_name record_type none)) [
        | none ↦ (stored, some build_failed)
        | some hash ↦
            put_built name hash zone_name (built_spec s dns_name record_type (some zone_name))
              stored
      ]

  unfoldable pub reconcile_records :
      (zone_name dns_name : Text) → (types : List Text) → List Endpoint → Outcome
  reconcile_records zone_name dns_name [] stored = (stored, none)
  reconcile_records zone_name dns_name (t ∷ types) stored =
      and_then (reconcile_record zone_name dns_name t stored)
        (reconcile_records zone_name dns_name types)

  -- The loop over the names.
  unfoldable pub reconcile_names : List Zone → (names : List Text) → List Endpoint → Outcome
  reconcile_names zones [] stored = (stored, none)
  reconcile_names zones (n ∷ names) stored =
      let (zone_name, zone_length) = choose_zone c.is_sub_domain c.fqdn s n zones [] 0 in
      if text_eq zone_name []
      then (stored, some (uncovered n))
      else and_then (reconcile_records zone_name n record_types stored)
          (reconcile_names zones names)

  -- Whether a name is among desiredNames, once the loops are through.
  abbrev pub is_desired : Text → Bool
  is_desired name =
      any (λ n. any (λ t. text_eq (endpoint_name n t) name) record_types) (dns_names s)

  -- The loop that deletes stale endpoints, over `items`, the list as it was read.
  unfoldable pub delete_stale : (items stored : List Endpoint) → Outcome
  delete_stale [] stored = (stored, none)
  delete_stale (e ∷ items) stored =
      let kept = delete_stale items stored in
      let deleted = delete_stale items (filter (λ o. not (text_eq o.name e.name)) stored) in
      if not (is_controlled e)
      then kept
      else if is_desired e.name
      then kept
      else if c.write_fails (delete e.name)
      then (stored, some write_failed)
      else deleted

  -- Reconcile of a service that was found; `zones` and `listed` say what the two lists return,
  -- `none` and `false` that they fail.
  unfoldable pub reconcile :
      (zones : Option (List Zone)) → (listed : Bool) → List Endpoint → Outcome
  reconcile none listed stored = (stored, some list_failed)
  reconcile (some zones) listed stored =
      and_then (reconcile_names zones (dns_names s) stored)
        (λ after. if listed then delete_stale after after else (after, some list_failed))
