-- ===== src/Webhook/Zone/Laws.antt =====
-- When a zone is admitted and when it may be deleted, and what that means for the stored zones.
use edgecdnx_controller.Common.{
  ◌≡◌, refl, sym, ◌∙◌, Bool, true, false, not, ◌||◌, none, some, List, [], ◌∷◌, Text, any, all,
  All-of_all, All-mono, arith,
}
use edgecdnx_controller.Webhook.Admission.{
  is_allowed, same_key, IsPeaceful, Reach, Reach-IsPeaceful,
}
use edgecdnx_controller.Webhook.Zone.{
  Zone, ServiceNames, dotted, overlap, overlapping_zones, validate_zone_overlaps, report_overlaps,
  report_services, services_using_zone, validate_delete,
}

module _ (is_sub_domain : Text → Text → Bool) where
  abbrev is_empty : List Text → Bool
  is_empty [] = true
  is_empty (n ∷ ns) = false

  no_overlapping_zones :
      (z : Zone) (zs : List Zone)
      → is_empty (overlapping_zones is_sub_domain z zs)
        ≡ all (λ e. same_key e.meta z.meta || not (overlap is_sub_domain z e)) zs
  unfolding overlapping_zones
  no_overlapping_zones z [] = refl
  no_overlapping_zones z (e ∷ zs) = ground (arith, no_overlapping_zones z zs)

  -- A zone is admitted exactly when the zones could be listed and each of them has its key or
  -- neither of the two names is below the other.
  pub is_allowed-validate_zone_overlaps :
      (z : Zone) (zs : List Zone)
      → (is_allowed (validate_zone_overlaps is_sub_domain z none) ≡ false)
        × (is_allowed (validate_zone_overlaps is_sub_domain z (some zs))
            ≡ all (λ e. same_key e.meta z.meta || not (overlap is_sub_domain z e)) zs)
  unfolding validate_zone_overlaps
  is_allowed-validate_zone_overlaps z zs =
      (refl, pick (overlapping_zones is_sub_domain z zs) ∙ no_overlapping_zones z zs)
    where
      pick : (names : List Text) → is_allowed (report_overlaps z names) ≡ is_empty names
      pick [] = refl
      pick (n ∷ ns) = refl

  -- The zones of a store in which zones are admitted one at a time, and removed at will.
  abbrev pub ZoneStore : List Zone → Type 0
  ZoneStore =
      Reach (λ e z. same_key e.meta z.meta) (overlap is_sub_domain)
        (λ z zs. is_allowed (validate_zone_overlaps is_sub_domain z (some zs)))

  -- Whatever zones are admitted one at a time, neither of two stored zones is below the other.
  pub ZoneStore-IsPeaceful : (zs : List Zone) → ZoneStore zs → IsPeaceful (overlap is_sub_domain) zs
  ZoneStore-IsPeaceful zs r =
      Reach-IsPeaceful _ (overlap is_sub_domain) _
        (λ z es h.
          All-mono es (λ e k n. ground arith)
            (All-of_all _ es (sym (is_allowed-validate_zone_overlaps z es).1 ∙ h)))
        r

  no_services_using :
      (z : Zone) (ss : List ServiceNames)
      → is_empty (services_using_zone is_sub_domain z ss)
        ≡ all
            (λ s. not (
              is_sub_domain (dotted z.zone) (dotted s.domain)
              || any (λ a. is_sub_domain (dotted z.zone) (dotted a)) s.host_aliases))
            ss
  unfolding services_using_zone
  no_services_using z [] = refl
  no_services_using z (s ∷ ss) = ground (arith, no_services_using z ss)

  -- A zone may be deleted exactly when the services could be listed and neither the domain nor a
  -- host alias of any of them lies in the zone.
  pub is_allowed-validate_delete :
      (z : Zone) (ss : List ServiceNames)
      → (is_allowed (validate_delete is_sub_domain z none) ≡ false)
        × (is_allowed (validate_delete is_sub_domain z (some ss))
            ≡ all
                (λ s. not (
                  is_sub_domain (dotted z.zone) (dotted s.domain)
                  || any (λ a. is_sub_domain (dotted z.zone) (dotted a)) s.host_aliases))
                ss)
  unfolding validate_delete
  is_allowed-validate_delete z ss =
      (refl, pick (services_using_zone is_sub_domain z ss) ∙ no_services_using z ss)
    where
      pick : (names : List Text) → is_allowed (report_services z names) ≡ is_empty names
      pick [] = refl
      pick (n ∷ ns) = refl
