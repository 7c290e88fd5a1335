-- ===== src/Webhook/DnsEndpoint/Store.antt =====
-- Which records can stand side by side in a namespace.
use edgecdnx_controller.Common.{
  ◌≡◌, refl, sym, ◌∙◌, Bool, true, false, not, ◌&&◌, ◌||◌, Option, none, some, List, [], ◌∷◌, Text,
  text_eq, codes, all, All, All-of_all, All-mono, arith, Bool-cases, Option-cases, inl, inr, filter,
}
use edgecdnx_controller.Strings.{to_upper}
use edgecdnx_controller.Webhook.Admission.{is_none, same_key, IsPeaceful, Reach, Reach-IsPeaceful}
use edgecdnx_controller.Webhook.DnsEndpoint.{
  DnsEndpoint, Dns, Fetched, found, not_found, failed, canonical_dns_name, validate_conflict,
  validate_dns_record_conflicts, validate_in_zone, validate_spec,
}

abbrev pub is_cname : DnsEndpoint → Bool
is_cname e = text_eq (to_upper e.record_type) (codes "CNAME")

abbrev pub same_zone : DnsEndpoint → DnsEndpoint → Bool
same_zone e o = elim e.zone [
  | none ↦ false
  | some z ↦ elim o.zone [ none ↦ false | some y ↦ text_eq y z ]
]

right_of : (a b : Bool) → a ≡ true → (not a || b) ≡ true → b ≡ true
right_of a b h k = ground arith

module _ (d : Dns) where
  -- Two records of a namespace with one owner name, of one type in one zone or one of them a CNAME.
  abbrev pub clash : DnsEndpoint → DnsEndpoint → Bool
  clash e o =
      text_eq o.meta.namespace e.meta.namespace
      && (text_eq (canonical_dns_name d e.dns_name) (canonical_dns_name d o.dns_name)
          && ((same_zone e o && text_eq (to_upper e.record_type) (to_upper o.record_type))
              || (is_cname e || is_cname o)))

  conflict-clash :
      (e o : DnsEndpoint) (zone_name : Text)
      → e.zone ≡ some zone_name
      → is_none (validate_conflict d e zone_name o) ≡ true
      → not (same_key o.meta e.meta) ≡ true
      → clash e o ≡ false
  unfolding validate_conflict
  conflict-clash e o zone_name z h k = ground arith

  conflicts-all :
      (e : DnsEndpoint) (zone_name : Text) (os : List DnsEndpoint)
      → is_none (validate_dns_record_conflicts d e zone_name os)
        ≡ all (λ o. is_none (validate_conflict d e zone_name o)) os
  unfolding validate_dns_record_conflicts
  conflicts-all e zone_name [] = refl
  conflicts-all e zone_name (o ∷ os) = ground (arith, conflicts-all e zone_name os)

  in_zone-conflicts :
      (e : DnsEndpoint) (zone_name zone : Text) (os : List DnsEndpoint)
      → is_none (validate_in_zone d e zone_name zone (some os)) ≡ true
      → is_none (validate_dns_record_conflicts d e zone_name os) ≡ true
  unfolding validate_in_zone
  in_zone-conflicts e zone_name zone os h = ground arith

  -- A record that is admitted names its zone, which exists, and passes the checks in it.
  pub validate_spec-zone :
      (get_zone : Text → Fetched) (listed : Option (List DnsEndpoint)) (e : DnsEndpoint)
      → is_none (validate_spec d get_zone listed e) ≡ true
      → (zone_name : Text) × (zone : Text) × (e.zone ≡ some zone_name)
        × (get_zone zone_name ≡ found zone)
        × (is_none (validate_in_zone d e zone_name zone listed) ≡ true)
  unfolding validate_spec
  validate_spec-zone get_zone listed e h = elim (Option-cases e.zone) [
    | inl z ↦ absurd (no_zone z)
    | inr (zone_name, z) ↦
        let (zone, f) = fetched (get_zone zone_name) (tested zone_name z) in
        (zone_name, zone, z, f, ground arith)
  ]
    where
      no_zone : e.zone ≡ none → ⊥
      no_zone z = ground arith

      is_found : Fetched → Bool
      is_found = elim [ found zone ↦ true | not_found ↦ false | failed ↦ false ]

      tested : (zone_name : Text) → e.zone ≡ some zone_name → is_found (get_zone zone_name) ≡ true
      tested zone_name z = ground arith

      fetched : (g : Fetched) → is_found g ≡ true → (zone : Text) × (g ≡ found zone)
      fetched (found zone) t = (zone, refl)
      fetched not_found t = cc
      fetched failed t = cc

  -- The records of the namespace, as Client.List returns them.
  abbrev pub in_namespace : DnsEndpoint → List DnsEndpoint → List DnsEndpoint
  in_namespace e = filter (λ o. text_eq o.meta.namespace e.meta.namespace)

  all-in_namespace :
      (p : DnsEndpoint → Bool) (e : DnsEndpoint) (os : List DnsEndpoint)
      → all p (in_namespace e os)
        ≡ all (λ o. not (text_eq o.meta.namespace e.meta.namespace) || p o) os
  all-in_namespace p e [] = refl
  all-in_namespace p e (o ∷ os) = ground (arith, all-in_namespace p e os)

  module _ (get_zone : (namespace name : Text) → Fetched) where
    abbrev pub admits : DnsEndpoint → List DnsEndpoint → Bool
    admits e os = is_none (validate_spec d (get_zone e.meta.namespace) (some (in_namespace e os)) e)

    -- The records of a cluster in which they are admitted one at a time, and removed at will.
    abbrev pub RecordStore : List DnsEndpoint → Type 0
    RecordStore = Reach (λ o e. same_key o.meta e.meta) clash admits

    admits_apart :
        (e : DnsEndpoint) (os : List DnsEndpoint)
        → admits e os ≡ true
        → All (λ o. (not (same_key o.meta e.meta) ≡ true) → clash e o ≡ false) os
    admits_apart e os h =
        let (zone_name, zone, z, f, passed) =
          validate_spec-zone (get_zone e.meta.namespace) (some (in_namespace e os)) e h in
        let checked : all (λ o. is_none (validate_conflict d e zone_name o)) (in_namespace e os)
            ≡ true =
          sym (conflicts-all e zone_name (in_namespace e os))
          ∙ in_zone-conflicts e zone_name zone (in_namespace e os) passed in
        All-mono os (λ o k n. apart o zone_name z k n)
          (All-of_all
            (λ o.
              not (text_eq o.meta.namespace e.meta.namespace)
              || is_none (validate_conflict d e zone_name o))
            os
            (sym (all-in_namespace (λ o. is_none (validate_conflict d e zone_name o)) e os)
              ∙ checked))
      where
        apart :
            (o : DnsEndpoint) (zone_name : Text)
            → e.zone ≡ some zone_name
            → (not (text_eq o.meta.namespace e.meta.namespace)
                || is_none (validate_conflict d e zone_name o))
              ≡ true
            → not (same_key o.meta e.meta) ≡ true
            → clash e o ≡ false
        apart o zone_name z k n = elim (Bool-cases (text_eq o.meta.namespace e.meta.namespace)) [
          | inl same ↦ conflict-clash e o zone_name z (right_of _ _ same k) n
          | inr other ↦ rw other refl
        ]

    -- Whatever records are admitted one at a time, no two records of a namespace have one owner name
    -- and also one zone and one type, and none stands beside a CNAME of its owner name.
    pub RecordStore-IsPeaceful : (os : List DnsEndpoint) → RecordStore os → IsPeaceful clash os
    RecordStore-IsPeaceful os r =
        Reach-IsPeaceful (λ o e. same_key o.meta e.meta) clash admits admits_apart r
