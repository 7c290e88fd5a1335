-- ===== src/Webhook/Service.antt =====
-- internal/webhook/v1alpha1/service_webhook.go: the checks on a Service. net.ParseIP is the
-- parameter `parse_ip`; the texts of messages are constructors.
pub mod Fqdn
pub mod Upstream
pub mod Names
mod Tests
use edgecdnx_controller.Common.{
  ℕ, ◌+◌, ◌-◌, ◌*◌, ◌/◌, ◌^◌, ◌≡◌, Bool, true, false, not, ◌&&◌, ◌||◌, Option, none, some, List, [],
  ◌∷◌, ◌++◌, map, Text, text_eq, codes, any, all, length, if◌then◌else◌, ◌==◌, leb, ltb,
}
use edgecdnx_controller.Strings.{to_lower, trim_space, trim_prefix, trim_suffix, has_suffix, split}
use edgecdnx_controller.Webhook.Admission.{Response, allowed, denied, ObjectMeta, same_key}

-- StaticOriginSpec, as far as it is validated.
pub record StaticOrigin : Type 0 where
  pub upstream : Text
  pub host_header : Text

-- HostAliasSpec is its name here.
pub record Service : Type 0 where
  pub meta : ObjectMeta
  pub domain : Text
  pub host_aliases : List Text
  pub origin_type : Text
  pub static_origins : List StaticOrigin

pub data Error : Type 0 where
  gate_disabled list_failed no_static_origins empty_upstream : Error
  domain_used alias_used : (name namespace service : Text) → Error
  not_public_or_fqdn private_address : (upstream : Text) → Error
  blocked_tld : (upstream tld : Text) → Error
  invalid_host_header : (header : Text) → Error → Error

-- What net.ParseIP returns: an address for which To4 is not nil, or another one.
pub data Ip : Type 0 where
  v4 : ℕ → Ip
  v6 : ℕ → Ip

-- IP.IsPrivate at an IPv4 address: 10/8, 172.16/12 and 192.168/16.
unfoldable pub is_private : ℕ → Bool
is_private a = a / 2 ^ 24 == 10 || a / 2 ^ 20 == 172 * 16 + 1 || a / 2 ^ 16 == 192 * 256 + 168

unfoldable pub normalise_upstream_tlds : List Text → List Text
unfolding to_lower trim_space trim_prefix
normalise_upstream_tlds [] = []
normalise_upstream_tlds (tld ∷ tlds) =
    let rest = normalise_upstream_tlds tlds in
    let normalized = trim_prefix b'.' (trim_space (to_lower tld)) in
    if text_eq normalized [] then rest else normalized ∷ rest

-- The characters of a label.
unfoldable pub is_label_byte : ℕ → Bool
is_label_byte c =
    leb b'a' c && leb c b'z' || leb b'A' c && leb c b'Z' || leb b'0' c && leb c b'9' || c == b'-'

abbrev pub last_is : ℕ → Text → Bool
last_is d [] = false
last_is d (c ∷ []) = c == d
last_is d (c ∷ e ∷ s) = last_is d (e ∷ s)

abbrev pub first_is : ℕ → Text → Bool
first_is d [] = false
first_is d (c ∷ s) = c == d

-- One round of the loop over the labels.
unfoldable pub is_label : Text → Bool
unfolding is_label_byte
is_label label =
    if length label == 0 || ltb 63 (length label)
    then false
    else if first_is b'-' label || last_is b'-' label
    then false
    else all is_label_byte label

unfoldable pub is_fqdn : Text → Bool
unfolding trim_suffix split is_label
is_fqdn host =
    let normalized = trim_suffix b'.' host in
    if length normalized == 0 || ltb 253 (length normalized)
    then false
    else let labels = split b'.' normalized in
      if ltb (length labels) 2 then false else all is_label labels

-- The loop over the blocked domains.
unfoldable pub check_tlds : (upstream host : Text) → List Text → Option Error
unfolding has_suffix
check_tlds upstream host [] = none
check_tlds upstream host (tld ∷ tlds) =
    let rest = check_tlds upstream host tlds in
    if has_suffix host (b'.' ∷ tld) then some (blocked_tld upstream tld) else rest

module _ (parse_ip : Text → Option Ip) (blocked_tlds : List Text) where
  -- An `error` of Go: `none` is nil.
  unfoldable pub validate_upstream_configuration : Text → Option Error
  unfolding trim_space is_private is_fqdn check_tlds to_lower trim_suffix
  validate_upstream_configuration upstream =
      let trimmed = trim_space upstream in
      let named =
        (if not (is_fqdn trimmed)
          then some (not_public_or_fqdn upstream)
          else check_tlds upstream (trim_suffix b'.' (to_lower trimmed)) blocked_tlds) in
      if text_eq trimmed [] then some empty_upstream else elim (parse_ip trimmed) [
        | some (v6 a) ↦ some (not_public_or_fqdn upstream)
        | some (v4 a) ↦ if is_private a then some (private_address upstream) else none
        | none ↦ named
      ]

  -- The loop over the static origins.
  unfoldable pub check_origins : List StaticOrigin → Option Error
  unfolding validate_upstream_configuration
  check_origins [] = none
  check_origins (o ∷ os) =
      let rest = check_origins os in
      let header =
        (if text_eq o.host_header []
          then rest
          else elim (validate_upstream_configuration o.host_header) [
            | some e ↦ some (invalid_host_header o.host_header e)
            | none ↦ rest
          ]) in
      if text_eq o.upstream []
      then some empty_upstream
      else elim (validate_upstream_configuration o.upstream) [ some e ↦ some e | none ↦ header ]

-- The inner loop over the host aliases of a listed service.
unfoldable pub check_aliases : Service → Service → List Text → Option Error
check_aliases service svc [] = none
check_aliases service svc (host_alias ∷ aliases) =
    let rest = check_aliases service svc aliases in
    if any (λ ha. if same_key svc.meta service.meta then false else text_eq ha host_alias)
      service.host_aliases
    then some (alias_used host_alias svc.meta.namespace svc.meta.name)
    else rest

-- The loop over the listed services.
unfoldable pub check_duplicates : Service → List Service → Option Error
unfolding check_aliases
check_duplicates service [] = none
check_duplicates service (svc ∷ items) =
    let rest = check_duplicates service items in
    if text_eq svc.domain service.domain
      && (not (text_eq svc.meta.name service.meta.name)
          || not (text_eq svc.meta.namespace service.meta.namespace))
    then some (domain_used service.domain svc.meta.namespace svc.meta.name)
    else elim (check_aliases service svc svc.host_aliases) [ some e ↦ some e | none ↦ rest ]

-- A name that is used twice is reported as a warning too.
abbrev pub report : Option Error → Response Error Error
report none = allowed
report (some e) = denied e

module _ (parse_ip : Text → Option Ip) (blocked_tlds : List Text)
    (caching_reconciler_enabled : Bool) where
  -- `listed` is what Client.List returns, `none` an error of it.
  unfoldable pub validate_service : Service → Option (List Service) → Response Error Error
  unfolding check_duplicates check_origins
  validate_service service listed =
      let origins : Response Error Error =
        (if text_eq service.origin_type (codes "static")
          then elim service.static_origins [
            | [] ↦ denied no_static_origins
            | o ∷ os ↦ report (check_origins parse_ip blocked_tlds (o ∷ os))
          ]
          else allowed) in
      if not caching_reconciler_enabled then denied gate_disabled else elim listed [
        | none ↦ denied list_failed
        | some items ↦ elim (check_duplicates service items) [
          | some e ↦ record { warnings = e ∷ []; error = some e }
          | none ↦ origins
        ]
      ]
