-- ===== src/Webhook/Zone.antt =====
-- internal/webhook/v1alpha1/zone_webhook.go: a zone overlaps no other, and is not deleted in use.
-- dns.IsSubDomain (github.com/miekg/dns) is the parameter `is_sub_domain`.
pub mod Laws
mod Tests
use edgecdnx_controller.Common.{
  ◌≡◌, Bool, true, false, ◌||◌, Option, none, some, List, [], ◌∷◌, ◌++◌, map, Text, any,
  if◌then◌else◌,
}
use edgecdnx_controller.Webhook.Admission.{Response, allowed, denied, ObjectMeta, same_key}

pub record Zone : Type 0 where
  pub meta : ObjectMeta
  -- spec.zone
  pub zone : Text

-- The part of a Service that is read: spec.domain and the names of spec.hostAliases.
pub record ServiceNames : Type 0 where
  pub name : Text
  pub domain : Text
  pub host_aliases : List Text

pub data Error : Type 0 where
  list_zones_failed list_services_failed : Error
  overlaps_with : (zone : Text) (existing : List Text) → Error
  in_use_by : (zone : Text) (services : List Text) → Error

pub data Warning : Type 0 where
  overlaps : (zone existing : Text) → Warning
  in_use : (zone service : Text) → Warning

-- `fmt.Sprintf("%s.", name)`
abbrev pub dotted : Text → Text
dotted name = name ++ b'.' ∷ []

-- `if len(overlappingZones) > 0`
abbrev pub report_overlaps : Zone → List Text → Response Warning Error
report_overlaps zone [] = allowed
report_overlaps zone (n ∷ ns) = record {
  warnings = map (overlaps zone.zone) (n ∷ ns);
  error = some (overlaps_with zone.zone (n ∷ ns));
}

-- `if len(servicesUsingZone) > 0`
abbrev pub report_services : Zone → List Text → Response Warning Error
report_services obj [] = allowed
report_services obj (n ∷ ns) = record {
  warnings = map (in_use obj.zone) (n ∷ ns);
  error = some (in_use_by obj.zone (n ∷ ns));
}

module _ (is_sub_domain : Text → Text → Bool) where
  abbrev pub overlap : Zone → Zone → Bool
  overlap zone existing =
      is_sub_domain (dotted zone.zone) (dotted existing.zone)
      || is_sub_domain (dotted existing.zone) (dotted zone.zone)

  unfoldable pub overlapping_zones : Zone → List Zone → List Text
  overlapping_zones zone [] = []
  overlapping_zones zone (existing ∷ items) =
      let rest = overlapping_zones zone items in
      if same_key existing.meta zone.meta
      then rest
      else if overlap zone existing
      then existing.meta.name ∷ rest
      else rest

  -- `listed` is what Client.List returns, `none` an error of it.
  unfoldable pub validate_zone_overlaps : Zone → Option (List Zone) → Response Warning Error
  unfolding overlapping_zones
  validate_zone_overlaps zone none = denied list_zones_failed
  validate_zone_overlaps zone (some items) = report_overlaps zone (overlapping_zones zone items)

  unfoldable pub services_using_zone : Zone → List ServiceNames → List Text
  services_using_zone obj [] = []
  services_using_zone obj (service ∷ items) =
      let rest = services_using_zone obj items in
      let aliased =
        (if any (λ alias. is_sub_domain (dotted obj.zone) (dotted alias)) service.host_aliases
          then service.name ∷ rest
          else rest) in
      if is_sub_domain (dotted obj.zone) (dotted service.domain)
      then service.name ∷ aliased
      else aliased

  unfoldable pub validate_delete : Zone → Option (List ServiceNames) → Response Warning Error
  unfolding services_using_zone
  validate_delete obj none = denied list_services_failed
  validate_delete obj (some items) = report_services obj (services_using_zone obj items)
