-- ===== src/Webhook/Zone/Tests.antt =====
-- The checks on zones at concrete zones.
use edgecdnx_controller.Common.{refl, Bool, [], ◌∷◌, Text, text_eq, codes}
use edgecdnx_controller.Strings.{has_suffix}
use edgecdnx_controller.Webhook.Admission.{IsPeaceful, Step, Reach}
use edgecdnx_controller.Webhook.Zone.{
  Zone, ServiceNames, overlap, overlapping_zones, validate_zone_overlaps,
}
use edgecdnx_controller.Webhook.Zone.Laws.{ZoneStore, ZoneStore-IsPeaceful}

abbrev ends_in : Text → Text → Bool
ends_in parent child = has_suffix child parent

abbrev org : Zone
org = record { meta = record { name = codes "org"; namespace = codes "n" }; zone = codes "a.org" }

abbrev net : Zone
net = record { meta = record { name = codes "net"; namespace = codes "n" }; zone = codes "b.net" }

abbrev shop : ServiceNames
shop = record { name = codes "shop"; domain = codes "shop.b.net"; host_aliases = [] }

stored : ZoneStore ends_in (net ∷ org ∷ [])
unfolding validate_zone_overlaps overlapping_zones text_eq has_suffix
stored = Reach.next (Reach.next Reach.empty (Step.admit org refl)) (Step.admit net refl)

ZoneStore-IsPeaceful_example : IsPeaceful (overlap ends_in) (net ∷ org ∷ [])
ZoneStore-IsPeaceful_example = ZoneStore-IsPeaceful ends_in (net ∷ org ∷ []) stored
