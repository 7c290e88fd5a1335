-- ===== src/Controller/Routing/Repeat.antt =====
-- A reconciliation without error brings a service's DNSEndpoints to rest.
use edgecdnx_controller.Common.{
  ◌≡◌, refl, sym, ap, subst, ◌∙◌, Bool, true, false, not, ◌&&◌, ◌||◌, Option, none, some, List, [],
  ◌∷◌, Text, text_eq, text_refl, text_iff, arith, Bool-cases, Option-cases, inl, inr, any, all,
  All-mono, All-found, All-and, codes, all-of_All,
}
use edgecdnx_controller.Webhook.Admission.{is_none}
use edgecdnx_controller.Controller.Routing.Records.{
  Endpoint, Service, Zone, and_then, same_option, find_endpoint, dns_names, record_types,
}
use edgecdnx_controller.Controller.Routing.{
  Calls, built_spec, endpoint_name, is_desired, delete_stale, reconcile_record, reconcile_records,
  reconcile_names, reconcile,
}
use edgecdnx_controller.Controller.Routing.Stale.{
  is_stale, without, is_wanted, delete_stale_lem, reconcile-is_wanted,
}
use edgecdnx_controller.Controller.Routing.Settled.{holds, find-filter}
use edgecdnx_controller.Controller.Routing.Rest.{
  and_then-next, zone_of, settles, is_name_settled, are_apart, names-settle,
}

-- The same calls, with none that writes.
abbrev pub read_only : Calls → Calls
read_only c = record c { set_controller = λ uid o. none; write_fails = λ w. true }

first_found : (a b : Bool) → a ≡ true → (a || (b || false)) ≡ true
first_found a b h = ground (arith, h)

last_found : (a b : Bool) → b ≡ true → (a || (b || false)) ≡ true
last_found a b h = ground (arith, h)

three : (a b d : Bool) → (a && (b && (d && true))) ≡ true → (a ≡ true) × (b ≡ true) × (d ≡ true)
three a b d h = (ground (arith, h), ground (arith, h), ground (arith, h))

all_three : (a b d : Bool) → a ≡ true → b ≡ true → d ≡ true → (a && (b && (d && true))) ≡ true
all_three a b d h k l = ground (arith, h, k, l)

module _ (c : Calls) (s : Service) (zones : List Zone) where
  record-rests :
      (n t : Text) (stored : List Endpoint)
      → settles c s zones stored n t ≡ true
      → reconcile_record (read_only c) s (zone_of c s zones n) n t stored ≡ (stored, none)
  unfolding reconcile_record
  record-rests n t stored h =
      elim (Option-cases (c.hash (endpoint_name c s n t) s.namespace (built_spec s n t none))) [
        | inl e ↦ ground (arith, e, h)
        | inr (hash, e) ↦ elim (Option-cases (find_endpoint (endpoint_name c s n t) stored)) [
          | inl f ↦ ground (arith, e, f, h)
          | inr (o, f) ↦ ground (arith, e, f, h)
        ]
      ]

  records-rest :
      (n : Text) (types : List Text) (stored : List Endpoint)
      → all (settles c s zones stored n) types ≡ true
      → reconcile_records (read_only c) s (zone_of c s zones n) n types stored ≡ (stored, none)
  unfolding reconcile_records
  records-rest n [] stored h = refl
  records-rest n (t ∷ types) stored h =
      ap (λ o. and_then o (reconcile_records (read_only c) s (zone_of c s zones n) n types))
        (record-rests n t stored (ground (arith, h)))
      ∙ records-rest n types stored (ground (arith, h))

  names-rest :
      (names : List Text) (stored : List Endpoint)
      → all (is_name_settled c s zones stored) names ≡ true
      → reconcile_names (read_only c) s zones names stored ≡ (stored, none)
  unfolding reconcile_names
  names-rest [] stored h = refl
  names-rest (n ∷ names) stored h =
      let done = records-rest n record_types stored (ground (arith, h)) in
      let others = names-rest names stored (ground (arith, h)) in
      let whole =
        ap (λ o. and_then o (reconcile_names (read_only c) s zones names)) done ∙ others in
      ground (arith, h, whole)

  delete_stale-rests :
      (items stored : List Endpoint)
      → all (is_wanted c s) items ≡ true
      → delete_stale (read_only c) s items stored ≡ (stored, none)
  unfolding delete_stale
  delete_stale-rests [] stored h = refl
  delete_stale-rests (e ∷ items) stored h =
      ground (arith, h, delete_stale-rests items stored (ground (arith, h)))

  -- An endpoint that the service asks for is not stale, and stays.
  is_stale-desired :
      (name : Text) (items : List Endpoint)
      → is_desired c s name ≡ true
      → is_stale c s name items ≡ false
  is_stale-desired name [] h = refl
  is_stale-desired name (e ∷ items) h = elim (Bool-cases (text_eq name e.name)) [
    | inl same ↦
        let wanted = ap (is_desired c s) (sym ((text_iff name e.name).0 same)) ∙ h in
        ground (arith, same, wanted, is_stale-desired name items h)
    | inr other ↦ ground (arith, other, is_stale-desired name items h)
  ]

  without-settles :
      (n t : Text) (items stored : List Endpoint)
      → is_desired c s (endpoint_name c s n t) ≡ true
      → settles c s zones stored n t ≡ true
      → settles c s zones (without c s items stored) n t ≡ true
  without-settles n t items stored h k =
      let name = endpoint_name c s n t in
      let stays : (e : Endpoint)
          → text_eq e.name name ≡ true
          → not (is_stale c s e.name items) ≡ true =
        λ e same. ap not (
          ap (λ x. is_stale c s x items) ((text_iff e.name name).0 same)
          ∙ is_stale-desired name items h) in
      let found = find-filter name (λ e. not (is_stale c s e.name items)) stored stays in
      ap
        (λ f. elim (c.hash name s.namespace (built_spec s n t none)) [
          | none ↦ false
          | some hash ↦ not (c.get_fails name) && holds c s f hash (zone_of c s zones n)
        ])
        found
      ∙ k

  first_named :
      (n : Text)
      → any (λ t. text_eq (endpoint_name c s n t) (endpoint_name c s n (codes "A"))) record_types
        ≡ true
  first_named n =
      first_found (text_eq (endpoint_name c s n (codes "A")) (endpoint_name c s n (codes "A"))) _
        (text_refl (endpoint_name c s n (codes "A")))

  last_named :
      (n : Text)
      → any (λ t. text_eq (endpoint_name c s n t) (endpoint_name c s n (codes "AAAA"))) record_types
        ≡ true
  last_named n =
      last_found _
        (text_eq (endpoint_name c s n (codes "AAAA")) (endpoint_name c s n (codes "AAAA")))
        (text_refl (endpoint_name c s n (codes "AAAA")))

  -- The deletion of stale endpoints leaves every name settled.
  without-settled :
      (items stored : List Endpoint)
      → all (is_name_settled c s zones stored) (dns_names s) ≡ true
      → all (is_name_settled c s zones (without c s items stored)) (dns_names s) ≡ true
  without-settled items stored h = all-of_All _ (dns_names s) (
      All-mono (dns_names s) each
        (All-and (is_name_settled c s zones stored) _ (dns_names s) h (All-found (dns_names s))))
    where
      each :
          (n : Text)
          → (is_name_settled c s zones stored n ≡ true)
            × ((q : Text → Bool) → q n ≡ true → any q (dns_names s) ≡ true)
          → is_name_settled c s zones (without c s items stored) n ≡ true
      each n (settled, found) =
          let (zoned, first, last) = three (not (text_eq (zone_of c s zones n) [])) _ _ settled in
          all_three _ _ _ zoned
            (without-settles n (codes "A") items stored
              (found
                (λ m.
                  any (λ t. text_eq (endpoint_name c s m t) (endpoint_name c s n (codes "A")))
                    record_types)
                (first_named n))
              first)
            (without-settles n (codes "AAAA") items stored
              (found
                (λ m.
                  any (λ t. text_eq (endpoint_name c s m t) (endpoint_name c s n (codes "AAAA")))
                    record_types)
                (last_named n))
              last)

  -- After a reconciliation without error, every name of the service has a zone, its two DNSEndpoints
  -- are there, are controlled by the service and have the present hash and zone; the service controls
  -- no other; and a further reconciliation succeeds even if every write would fail. The service has a
  -- project, its names have different endpoints, and SetControllerReference makes it the controller.
  pub reconcile-rests :
      (project : same_option s.project s.project ≡ true)
      (owns : (o : Option Text) (v : Text) → c.set_controller s.uid o ≡ some v → v ≡ s.uid)
      (apart : are_apart c s (dns_names s) ≡ true) (stored : List Endpoint)
      → is_none (reconcile c s (some zones) true stored).1 ≡ true
      → (all (is_name_settled c s zones (reconcile c s (some zones) true stored).0) (dns_names s)
          ≡ true)
        × (all (is_wanted c s) (reconcile c s (some zones) true stored).0 ≡ true)
        × (reconcile (read_only c) s (some zones) true (reconcile c s (some zones) true stored).0
            ≡ ((reconcile c s (some zones) true stored).0, none))
  unfolding reconcile
  reconcile-rests project owns apart stored done =
      let made = reconcile_names c s zones (dns_names s) stored in
      let (first, rest) = and_then-next made (λ after. delete_stale c s after after) done in
      let left = delete_stale_lem c s made.0 made.0 (subst (λ o. is_none o.1 ≡ true) rest done) in
      let settled =
        without-settled made.0 made.0
          (names-settle c s zones project owns (dns_names s) stored apart first) in
      let now =
        subst (λ x. all (is_name_settled c s zones x) (dns_names s) ≡ true)
          (sym (ap (λ o. o.0) rest ∙ left)) settled in
      let wanted = reconcile-is_wanted c s (some zones) true stored done in
      let after = (reconcile c s (some zones) true stored).0 in
      (
        now,
        wanted,
        ap (λ o. and_then o (λ x. delete_stale (read_only c) s x x))
              (names-rest (dns_names s) after now)
            ∙ delete_stale-rests after after wanted,
      )
