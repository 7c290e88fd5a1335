-- ===== src/Webhook/Service/Names.antt =====
-- Domains and host aliases across the stored Services.
use edgecdnx_controller.Common.{
  ◌≡◌, refl, ◌∙◌, Bool, true, false, not, ◌&&◌, ◌||◌, Option, none, some, List, [], ◌∷◌, Text,
  text_eq, codes, any, all, All-of_all, All-mono, arith, if◌then◌else◌,
}
use edgecdnx_controller.Webhook.Admission.{
  is_allowed, is_none, same_key, IsPeaceful, Reach, Reach-IsPeaceful,
}
use edgecdnx_controller.Webhook.Service.{
  Service, Ip, check_aliases, check_duplicates, validate_service, StaticOrigin,
  validate_upstream_configuration,
}
use edgecdnx_controller.Webhook.Service.Upstream.{is_none-check_origins}

-- Whether two Services have a host alias in common.
abbrev pub shares_alias : Service → Service → Bool
shares_alias s t = any (λ a. any (λ b. text_eq b a) s.host_aliases) t.host_aliases

-- Two Services that may not stand side by side.
abbrev pub clash : Service → Service → Bool
clash s t = text_eq t.domain s.domain || shares_alias s t

any_other :
    (b : Bool) (a : Text) (xs : List Text)
    → any (λ x. if b then false else text_eq x a) xs ≡ (not b && any (λ x. text_eq x a) xs)
any_other b a [] = ground arith
any_other b a (x ∷ xs) = ground (arith, any_other b a xs)

no_aliases_used :
    (s t : Service) (aliases : List Text)
    → is_none (check_aliases s t aliases)
      ≡ (same_key t.meta s.meta || not (any (λ a. any (λ b. text_eq b a) s.host_aliases) aliases))
unfolding check_aliases
no_aliases_used s t [] = ground arith
no_aliases_used s t (a ∷ aliases) =
    ground (arith, any_other (same_key t.meta s.meta) a s.host_aliases, no_aliases_used s t aliases)

no_duplicates :
    (s : Service) (ts : List Service)
    → is_none (check_duplicates s ts) ≡ all (λ t. same_key t.meta s.meta || not (clash s t)) ts
unfolding check_duplicates
no_duplicates s [] = refl
no_duplicates s (t ∷ ts) = ground (arith, no_aliases_used s t t.host_aliases, no_duplicates s ts)

apart_of : (a b : Bool) → (a || not b) ≡ true → not a ≡ true → b ≡ false
apart_of a b h k = ground arith

module _ (parse_ip : Text → Option Ip) (blocked_tlds : List Text) where
  -- What is asked of an origin: an upstream that passes, and a host header that does, if any.
  abbrev pub origin_valid : StaticOrigin → Bool
  origin_valid o =
      not (text_eq o.upstream [])
      && (is_none (validate_upstream_configuration parse_ip blocked_tlds o.upstream)
          && (text_eq o.host_header []
              || is_none (validate_upstream_configuration parse_ip blocked_tlds o.host_header)))

  -- What is asked of the origins.
  unfoldable pub origins_valid : Service → Bool
  origins_valid s =
      not (text_eq s.origin_type (codes "static"))
      || (elim s.static_origins [ [] ↦ false | o ∷ os ↦ true ] && all origin_valid s.static_origins)

  -- A Service is admitted exactly when the caching reconciler is enabled, the services could be
  -- listed, each listed Service of another key differs from it in the domain and in all host
  -- aliases, and a static Service has origins, each with an upstream that is not empty and passes
  -- the check of upstreams, and with a host header that is empty or passes it too.
  pub is_allowed-validate_service :
      (enabled : Bool) (s : Service) (ts : List Service)
      → (is_allowed (validate_service parse_ip blocked_tlds enabled s none) ≡ false)
        × (is_allowed (validate_service parse_ip blocked_tlds enabled s (some ts)) ≡ (
            enabled && all (λ t. same_key t.meta s.meta || not (clash s t)) ts && origins_valid s))
  unfolding validate_service origins_valid
  is_allowed-validate_service enabled s ts = (
    ground arith,
    ground
        (arith, no_duplicates s ts, is_none-check_origins parse_ip blocked_tlds s.static_origins),
  )

  -- The Services of a store in which Services are admitted one at a time, and removed at will.
  abbrev pub ServiceStore : Bool → List Service → Type 0
  ServiceStore enabled =
      Reach (λ e s. same_key e.meta s.meta) clash
        (λ s ts. is_allowed (validate_service parse_ip blocked_tlds enabled s (some ts)))

  -- Whatever Services are admitted one at a time, no two stored ones have the same domain, and no
  -- two have a host alias in common.
  pub ServiceStore-IsPeaceful :
      (enabled : Bool) (ts : List Service) → ServiceStore enabled ts → IsPeaceful clash ts
  ServiceStore-IsPeaceful enabled ts r =
      Reach-IsPeaceful _ clash _
        (λ s es h.
          let apart : all (λ t. same_key t.meta s.meta || not (clash s t)) es ≡ true =
            ground (arith, (is_allowed-validate_service enabled s es).1) in
          All-mono es (λ e k n. apart_of _ _ k n)
            (All-of_all (λ t. same_key t.meta s.meta || not (clash s t)) es apart))
        r

  -- A domain is not compared with host aliases: a Service with origins in order and no host alias is
  -- admitted beside a Service that has its domain as a host alias, if the domains differ.
  pub validate_service-allows_alias_as_domain :
      (s t : Service)
      → s.host_aliases ≡ []
      → origins_valid s ≡ true
      → text_eq t.domain s.domain ≡ false
      → t.host_aliases ≡ s.domain ∷ []
      → is_allowed (validate_service parse_ip blocked_tlds true s (some (t ∷ []))) ≡ true
  validate_service-allows_alias_as_domain s t none_own valid differ aliased =
      (is_allowed-validate_service true s (t ∷ [])).1 ∙ ground arith
