-- ===== src/Webhook/Requests.antt =====
-- internal/webhook/v1alpha1: ValidateCreate, ValidateUpdate and ValidateDelete of zones, services and
-- DNS endpoints, by the operation of the request. An update is validated by its new object alone.
use edgecdnx_controller.Common.{Bool, Option, none, List, Text}
use edgecdnx_controller.Webhook.Admission.{Response, allowed}
use edgecdnx_controller.Webhook.Zone as Zones
use edgecdnx_controller.Webhook.Service as Services
use edgecdnx_controller.Webhook.DnsEndpoint as DnsEndpoints

pub data Request {ℓ} (A : Type ℓ) : Type ℓ where
  create delete : A → Request A
  update : (old new : A) → Request A

-- `zones` and `services` are what Client.List returns.
abbrev pub admit_zone :
    (is_sub_domain : Text → Text → Bool)
    → (zones : Option (List Zones.Zone)) → (services : Option (List Zones.ServiceNames))
    → Request Zones.Zone
    → Response Zones.Warning Zones.Error
admit_zone is_sub_domain zones services (create obj) =
    Zones.validate_zone_overlaps is_sub_domain obj zones
admit_zone is_sub_domain zones services (update old new) =
    Zones.validate_zone_overlaps is_sub_domain new zones
admit_zone is_sub_domain zones services (delete obj) =
    Zones.validate_delete is_sub_domain obj services

abbrev pub admit_service :
    (parse_ip : Text → Option Services.Ip)
    → (blocked_tlds : List Text) → (caching_reconciler_enabled : Bool)
    → (listed : Option (List Services.Service)) → Request Services.Service
    → Response Services.Error Services.Error
admit_service parse_ip blocked_tlds enabled listed (create obj) =
    Services.validate_service parse_ip blocked_tlds enabled obj listed
admit_service parse_ip blocked_tlds enabled listed (update old new) =
    Services.validate_service parse_ip blocked_tlds enabled new listed
admit_service parse_ip blocked_tlds enabled listed (delete obj) = allowed

abbrev pub admit_dns_endpoint :
    (dns : DnsEndpoints.Dns)
    → (get_zone : Text → DnsEndpoints.Fetched) → (listed : Option (List DnsEndpoints.DnsEndpoint))
    → Request DnsEndpoints.DnsEndpoint
    → Option DnsEndpoints.Error
admit_dns_endpoint dns get_zone listed (create obj) =
    DnsEndpoints.validate_spec dns get_zone listed obj
admit_dns_endpoint dns get_zone listed (update old new) =
    DnsEndpoints.validate_spec dns get_zone listed new
admit_dns_endpoint dns get_zone listed (delete obj) = none
