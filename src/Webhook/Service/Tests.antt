-- ===== src/Webhook/Service/Tests.antt =====
-- The checks on Services at concrete Services.
use edgecdnx_controller.Common.{
  ◌*◌, ◌^◌, ◌≡◌, refl, true, false, Option, none, some, List, [], ◌∷◌, Text, text_eq, codes, All,
  ◌≤◌, length, if◌then◌else◌,
}
use edgecdnx_controller.Strings.{has_suffix, trim_space, trim_suffix, to_lower, split}
use edgecdnx_controller.Strings.Laws.{join}
use edgecdnx_controller.Webhook.Admission.{is_allowed, is_none, IsPeaceful, Step, Reach}
use edgecdnx_controller.Webhook.Service.{
  Service, Ip, v4, is_fqdn, is_label, validate_upstream_configuration, check_duplicates,
  validate_service,
}
use edgecdnx_controller.Webhook.Service.Fqdn.{IsLabel, is_fqdn_sound}
use edgecdnx_controller.Webhook.Service.Upstream.{
  is_none-validate_upstream_configuration, validate_upstream_configuration-allows_loopback,
}
use edgecdnx_controller.Webhook.Service.Names.{
  clash, origins_valid, ServiceStore, ServiceStore-IsPeaceful, is_allowed-validate_service,
  validate_service-allows_alias_as_domain,
}

-- The one address that is read.
abbrev localhost : Text
localhost = codes "127.0.0.1"

abbrev read_ip : Text → Option Ip
read_ip t = if text_eq t localhost then some (v4 (127 * 2 ^ 24)) else none

abbrev blocked : List Text
blocked = codes "local" ∷ []

abbrev origin : Text
origin = codes "a.example"

abbrev shop : Service
shop = record {
  meta = record { name = codes "shop"; namespace = codes "n" };
  domain = codes "shop.example";
  host_aliases = [];
  origin_type = codes "static";
  static_origins = record { upstream = origin; host_header = [] } ∷ [];
}

abbrev blog : Service
blog = record {
  meta = record { name = codes "blog"; namespace = codes "n" };
  domain = codes "blog.example";
  host_aliases = codes "shop.example" ∷ [];
  origin_type = codes "s3";
  static_origins = [];
}

is_fqdn_sound_example :
    (labels : List Text) × (join b'.' labels ≡ trim_suffix b'.' origin)
    × (2 ≤ length labels)
    × (length (trim_suffix b'.' origin) ≤ 253)
    × All IsLabel labels
unfolding is_fqdn is_label split trim_suffix
is_fqdn_sound_example = is_fqdn_sound origin refl

is_none-validate_upstream_configuration_test :
    is_none (validate_upstream_configuration read_ip blocked origin) ≡ true
unfolding text_eq trim_space trim_suffix to_lower has_suffix is_fqdn is_label split
is_none-validate_upstream_configuration_test =
    is_none-validate_upstream_configuration read_ip blocked origin

validate_upstream_configuration-allows_loopback_test :
    validate_upstream_configuration read_ip blocked localhost ≡ none
unfolding text_eq trim_space
validate_upstream_configuration-allows_loopback_test =
    validate_upstream_configuration-allows_loopback read_ip blocked localhost (127 * 2 ^ 24) filled
      refl refl
  where
    filled : trim_space localhost ≡ [] → ⊥
    filled e = unfold trim_space in cc

valid : origins_valid read_ip blocked shop ≡ true
unfolding origins_valid validate_upstream_configuration text_eq trim_space trim_suffix to_lower
    has_suffix is_fqdn is_label split
valid = refl

is_allowed-validate_service_example :
    (is_allowed (validate_service read_ip blocked true shop none) ≡ false)
    × (is_allowed (validate_service read_ip blocked true shop (some (blog ∷ [])))
        ≡ origins_valid read_ip blocked shop)
unfolding text_eq
is_allowed-validate_service_example =
    is_allowed-validate_service read_ip blocked true shop (blog ∷ [])

stored : ServiceStore read_ip blocked true (blog ∷ [])
unfolding validate_service check_duplicates text_eq
stored = Reach.next Reach.empty (Step.admit blog refl)

ServiceStore-IsPeaceful_example : IsPeaceful clash (blog ∷ [])
ServiceStore-IsPeaceful_example = ServiceStore-IsPeaceful read_ip blocked true (blog ∷ []) stored

validate_service-allows_alias_as_domain_test :
    is_allowed (validate_service read_ip blocked true shop (some (blog ∷ []))) ≡ true
unfolding text_eq
validate_service-allows_alias_as_domain_test =
    validate_service-allows_alias_as_domain read_ip blocked shop blog refl valid refl refl
