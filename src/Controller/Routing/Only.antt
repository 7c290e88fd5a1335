-- ===== src/Controller/Routing/Only.antt =====
-- internal/webhook/v1alpha1/zone_webhook.go with internal/controller/service_routing_controller.go:
-- among zones that the webhook admitted, the zone of a name does not hang on the order of the list.
use edgecdnx_controller.Common.{
  ◌≡◌, refl, sym, ap, ◌∙◌, ℕ, Bool, true, false, ◌&&◌, ◌||◌, List, [], ◌∷◌, map, Text, length, ltb,
  arith, Bool-cases, inl, inr, All, All-mono,
}
use edgecdnx_controller.Webhook.Admission.{IsPeaceful}
use edgecdnx_controller.Webhook.Zone.{dotted, overlap}
use edgecdnx_controller.Webhook.Zone.Laws.{ZoneStore, ZoneStore-IsPeaceful}
use edgecdnx_controller.Controller.Routing.Records.{Service, Zone, covers, choose_zone}

-- A zone as the webhook reads it.
abbrev pub stored : Zone → edgecdnx_controller.Webhook.Zone.Zone
stored z = record { meta = record { name = z.name; namespace = z.namespace }; zone = z.zone }

module _ (is_sub_domain : Text → Text → Bool) (fqdn : Text → Text)
    (nested : (a b n : Text)
      → is_sub_domain a n ≡ true
      → is_sub_domain b n ≡ true
      → (is_sub_domain a b || is_sub_domain b a) ≡ true)
    (s : Service) (n : Text) where
  -- Where no zone covers the name, the choice stays.
  none_covers :
      (zs : List Zone) (name : Text) (size : ℕ)
      → All (λ z. covers is_sub_domain fqdn s n z ≡ false) zs
      → choose_zone is_sub_domain fqdn s n zs name size ≡ (name, size)
  unfolding choose_zone
  none_covers [] name size h = refl
  none_covers (z ∷ zs) name size (h, hs) = ground (arith, h, none_covers zs name size hs)

  -- Of two zones that do not overlap, one at most covers the name.
  one_covers :
      (z y : Zone)
      → fqdn z.zone ≡ dotted z.zone
      → fqdn y.zone ≡ dotted y.zone
      → overlap is_sub_domain (stored z) (stored y) ≡ false
      → covers is_sub_domain fqdn s n z ≡ true
      → covers is_sub_domain fqdn s n y ≡ false
  one_covers z y e f apart h = elim (Bool-cases (covers is_sub_domain fqdn s n y)) [
    | inr k ↦ k
    | inl k ↦
        let a : is_sub_domain (dotted z.zone) (fqdn n) ≡ true =
          sym (ap (λ x. is_sub_domain x (fqdn n)) e) ∙ ground (arith, h) in
        let b : is_sub_domain (dotted y.zone) (fqdn n) ≡ true =
          sym (ap (λ x. is_sub_domain x (fqdn n)) f) ∙ ground (arith, k) in
        ground (arith, apart, nested (dotted z.zone) (dotted y.zone) (fqdn n) a b)
  ]

  others_uncovered :
      (z : Zone) (zs : List Zone)
      → fqdn z.zone ≡ dotted z.zone
      → All (λ y. fqdn y.zone ≡ dotted y.zone) zs
      → All (λ y. overlap is_sub_domain (stored z) y ≡ false) (map stored zs)
      → covers is_sub_domain fqdn s n z ≡ true
      → All (λ y. covers is_sub_domain fqdn s n y ≡ false) zs
  others_uncovered z [] e f apart h = tt
  others_uncovered z (y ∷ zs) e (f, fs) (apart, aparts) h =
      (one_covers z y e f apart h, others_uncovered z zs e fs aparts h)

  only_covering :
      (zs : List Zone)
      → All (λ z. fqdn z.zone ≡ dotted z.zone) zs
      → IsPeaceful (overlap is_sub_domain) (map stored zs)
      → All
          (λ z.
            (covers is_sub_domain fqdn s n z && ltb 0 (length z.zone)) ≡ true
            → choose_zone is_sub_domain fqdn s n zs [] 0 ≡ (z.name, length z.zone))
          zs
  unfolding choose_zone
  only_covering [] f p = tt
  only_covering (z ∷ zs) (f, fs) (apart, apart_each) =
      elim (Bool-cases (covers is_sub_domain fqdn s n z)) [
        | inl h ↦
            let others = others_uncovered z zs f fs apart h in
            let chosen = none_covers zs z.name (length z.zone) others in
            (
              λ k. ground (arith, k, chosen),
              All-mono zs (λ y none k. ground (arith, none, k)) others,
            )
        | inr h ↦ (
          λ k. ground (arith, h, k),
          All-mono zs (λ y rest k. ground (arith, h, rest k)) (only_covering zs fs apart_each),
        )
      ]

  -- Where the zones are those of a store in which zones are admitted one at a time, the zone of a name
  -- is the zone of the service's project that covers it, wherever in the list it stands, unless its
  -- DNS name is empty. No name of a zone ends in a dot, and of two names above a third one is above the
  -- other.
  pub choose_zone-only :
      (zs : List Zone)
      → ZoneStore is_sub_domain (map stored zs)
      → All (λ z. fqdn z.zone ≡ dotted z.zone) zs
      → All
          (λ z.
            (covers is_sub_domain fqdn s n z && ltb 0 (length z.zone)) ≡ true
            → choose_zone is_sub_domain fqdn s n zs [] 0 ≡ (z.name, length z.zone))
          zs
  choose_zone-only zs store names =
      only_covering zs names (ZoneStore-IsPeaceful is_sub_domain (map stored zs) store)
