-- ===== src/Webhook/DnsEndpoint/Record.antt =====
-- What is known of a record that is admitted.
use edgecdnx_controller.Common.{
  ℕ, ◌≤◌, ◌≡◌, ◌≢◌, refl, sym, ◌∙◌, ap, true, false, not, ◌||◌, Option, none, some, List, [], ◌∷◌,
  Text, text_eq, text_refl, codes, all, All, All-of_all, All-mono, arith, Bool-cases, ◌⊎◌, inl, inr,
  length, ℤ, IsBetween, is_negative, exceeds,
}
use edgecdnx_controller.Strings.{to_upper, to_lower, equal_fold, trim_suffix}
use edgecdnx_controller.Webhook.Admission.{is_none}
use edgecdnx_controller.Webhook.DnsEndpoint.{
  DnsEndpoint, Dns, Rr, cname, mx, ns, unlisted, canonical_dns_name, Fetched, found, valid_dns_name,
  supported_dns_record_type, is_address_record_type, is_simple_routing, needs_selector,
  lower_policy, validate_target, validate_targets, validate_dns_record_targets, validate_in_zone,
  validate_spec, max_dns_record_ttl,
}
use edgecdnx_controller.Webhook.DnsEndpoint.Store.{validate_spec-zone}

lower-nil : (p : Text) → text_eq (to_lower p) [] ≡ text_eq p []
unfolding to_lower text_eq
lower-nil [] = refl
lower-nil (c ∷ p) = refl

lower_simple : (p : Text) → equal_fold p (codes "Simple") ≡ text_eq (to_lower p) (codes "simple")
unfolding equal_fold
lower_simple p = refl

simple_lower :
    (p : Text) → is_simple_routing p ≡ (text_eq p [] || text_eq (to_lower p) (codes "simple"))
unfolding is_simple_routing
simple_lower p = ap (λ b. text_eq p [] || b) (lower_simple p)

-- Both readings of the policy agree on what simple routing is.
pub lower_policy-simple :
    (p : Text) → text_eq (lower_policy p) (codes "simple") ≡ is_simple_routing p
unfolding lower_policy
lower_policy-simple p = elim (Bool-cases (text_eq (to_lower p) [])) [
  | inl e ↦ rw e (text_refl (codes "simple") ∙ sym (simple_lower p ∙ ground (arith, lower-nil p)))
  | inr e ↦ rw e (sym (simple_lower p ∙ ground (arith, lower-nil p)))
]

module _ (d : Dns) where
  -- A record that fits the zone with this DNS name.
  pub record IsInZone (e : DnsEndpoint) (zone : Text) : Type 0 where
    pub zone_valid : valid_dns_name d zone false ≡ true
    pub name_valid : valid_dns_name d e.dns_name true ≡ true
    pub below : d.is_sub_domain (d.fqdn zone) (d.fqdn e.dns_name) ≡ true
    pub ttl : IsBetween max_dns_record_ttl e.record_ttl
    pub supported : supported_dns_record_type e.record_type ≡ true
    pub address :
        (is_simple_routing e.routing_policy || is_address_record_type e.record_type) ≡ true
    pub targets : is_none (validate_dns_record_targets d e) ≡ true

  ttl-IsBetween :
      (bound : ℕ) (i : ℤ) → (is_negative i || exceeds bound i) ≡ false → IsBetween bound i
  ttl-IsBetween bound (ℤ.pos n) h = ground arith
  ttl-IsBetween bound (ℤ.negsuc n) h = cc

  validate_in_zone-IsInZone :
      (e : DnsEndpoint) (zone_name zone : Text) (listed : Option (List DnsEndpoint))
      → is_none (validate_in_zone d e zone_name zone listed) ≡ true
      → IsInZone e zone
  unfolding validate_in_zone
  validate_in_zone-IsInZone e zone_name zone listed h = record {
    zone_valid = ground arith;
    name_valid = ground arith;
    below = ground arith;
    ttl = ttl-IsBetween max_dns_record_ttl e.record_ttl (ground arith);
    supported = ground arith;
    address = ground arith;
    targets = ground arith;
  }

  -- An admitted record names a zone that exists, lies in it, has a TTL from 0 to 2^31 - 1 and a
  -- supported type, which is A or AAAA unless routing is simple, passes the check of its targets, and
  -- carries a route selector if its policy is Weighted, Geolocation or RoundRobin.
  pub validate_spec-IsInZone :
      (get_zone : Text → Fetched) (listed : Option (List DnsEndpoint)) (e : DnsEndpoint)
      → is_none (validate_spec d get_zone listed e) ≡ true
      → (zone_name : Text) × (zone : Text) × (e.zone ≡ some zone_name)
        × (get_zone zone_name ≡ found zone)
        × IsInZone e zone
        × ((not (needs_selector e.routing_policy) || e.route_selector) ≡ true)
  unfolding validate_spec
  validate_spec-IsInZone get_zone listed e h =
      let (zone_name, zone, z, f, passed) = validate_spec-zone d get_zone listed e h in
      (
        zone_name,
        zone,
        z,
        f,
        validate_in_zone-IsInZone e zone_name zone listed passed,
        ground arith,
      )

  targets-all :
      (e : DnsEndpoint) (ts : List Text)
      → is_none (validate_targets d e ts) ≡ all (λ t. is_none (validate_target d e t)) ts
  unfolding validate_targets
  targets-all e [] = refl
  targets-all e (t ∷ ts) = ground (arith, targets-all e ts)

  -- A target of a CNAME: no IP address but a name, other than the record's own.
  pub record IsAlias (e : DnsEndpoint) (t : Text) : Type 0 where
    pub name : Text
    pub read :
        d.new_rr (d.fqdn e.dns_name) e.record_ttl (to_upper e.record_type) t ≡ some (cname name)
    pub no_ip : d.is_ip (trim_suffix b'.' t) ≡ false
    pub other : canonical_dns_name d name ≢ canonical_dns_name d e.dns_name

  -- What a target of an admitted record with simple routing must be: a parsable one, and that of a
  -- CNAME, if the record is one.
  pub record IsTarget (e : DnsEndpoint) (t : Text) : Type 0 where
    pub parses : d.new_rr (d.fqdn e.dns_name) e.record_ttl (to_upper e.record_type) t ≢ none
    pub kind : (equal_fold e.record_type (codes "CNAME") ≡ false) ⊎ IsAlias e t

  validate_target-IsTarget :
      (e : DnsEndpoint) (t : Text) → is_none (validate_target d e t) ≡ true → IsTarget e t
  unfolding validate_target
  validate_target-IsTarget e t h = record {
    parses = λ n. ground arith;
    kind = elim (Bool-cases (equal_fold e.record_type (codes "CNAME"))) [
      | inr c ↦ inl c
      | inl c ↦
          inr (of_rr (d.new_rr (d.fqdn e.dns_name) e.record_ttl (to_upper e.record_type) t) refl c)
    ];
  }
    where
      of_rr :
          (r : Option Rr)
          → d.new_rr (d.fqdn e.dns_name) e.record_ttl (to_upper e.record_type) t ≡ r
          → equal_fold e.record_type (codes "CNAME") ≡ true
          → IsAlias e t
      of_rr none g c = ground (arith, h, g, c)
      of_rr (some (cname name)) g c = record {
        name = name;
        read = g;
        no_ip = ground arith;
        other = λ same.
            let own : text_eq (canonical_dns_name d name) (canonical_dns_name d e.dns_name) ≡ true =
              ap (text_eq (canonical_dns_name d name)) (sym same)
              ∙ text_refl (canonical_dns_name d name) in
            ground (arith, h, g, c, own);
      }
      of_rr (some (mx name)) g c = ground (arith, h, g, c)
      of_rr (some (ns name)) g c = ground (arith, h, g, c)
      of_rr (some unlisted) g c = ground (arith, h, g, c)

  -- A record whose targets pass has, if its routing is simple, at least one target, each of which
  -- parses, and if it is a CNAME, exactly one, which is no IP address and is read as a name other than
  -- the record's own, letter case and a dot at the end apart.
  pub validate_dns_record_targets_sound :
      (e : DnsEndpoint)
      → is_none (validate_dns_record_targets d e) ≡ true
      → is_simple_routing e.routing_policy ≡ true
      → (1 ≤ length e.targets)
        × All (IsTarget e) e.targets
        × ((equal_fold e.record_type (codes "CNAME") ≡ false) ⊎ (length e.targets ≡ 1))
  unfolding validate_dns_record_targets
  validate_dns_record_targets_sound e h simple =
      let same = lower_policy-simple e.routing_policy in
      let passed : is_none (validate_targets d e e.targets) ≡ true = ground arith in
      (
        ground arith,
        All-mono e.targets (validate_target-IsTarget e)
            (All-of_all _ e.targets (sym (targets-all e e.targets) ∙ passed)),
        elim (Bool-cases (equal_fold e.record_type (codes "CNAME"))) [
          | inr c ↦ inl c
          | inl c ↦ inr (ground arith)
        ],
      )
