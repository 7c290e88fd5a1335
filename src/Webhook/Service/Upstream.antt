-- ===== src/Webhook/Service/Upstream.antt =====
-- Which upstreams are let through.
use edgecdnx_controller.Common.{
  ℕ, ◌/◌, ◌^◌, ◌≡◌, ◌≢◌, refl, false, not, ◌&&◌, ◌||◌, Option, none, some, List, [], ◌∷◌, Text,
  text_eq, text_iff, all, arith,
}
use edgecdnx_controller.Strings.{trim_space, trim_suffix, to_lower, has_suffix}
use edgecdnx_controller.Webhook.Admission.{is_none}
use edgecdnx_controller.Webhook.Service.{
  Ip, v4, v6, is_private, is_fqdn, check_tlds, validate_upstream_configuration, StaticOrigin,
  check_origins,
}

no_blocked :
    (upstream host : Text) (tlds : List Text)
    → is_none (check_tlds upstream host tlds) ≡ all (λ t. not (has_suffix host (b'.' ∷ t))) tlds
unfolding check_tlds
no_blocked upstream host [] = refl
no_blocked upstream host (t ∷ tlds) = ground (arith, no_blocked upstream host tlds)

module _ (parse_ip : Text → Option Ip) (blocked_tlds : List Text) where
  -- An upstream passes exactly when it is not blank and, without the space around it, reads as an
  -- IPv4 address outside 10/8, 172.16/12 and 192.168/16, or reads as no address and is a host name
  -- that ends in no blocked domain, letter case and one dot at the end apart.
  pub is_none-validate_upstream_configuration :
      (upstream : Text)
      → is_none (validate_upstream_configuration parse_ip blocked_tlds upstream) ≡ (
          not (text_eq (trim_space upstream) []) && elim (parse_ip (trim_space upstream)) [
            | some (v4 a) ↦ not (is_private a)
            | some (v6 a) ↦ false
            | none ↦
                is_fqdn (trim_space upstream)
                && all
                    (λ t.
                      not
                        (has_suffix (trim_suffix b'.' (to_lower (trim_space upstream))) (b'.' ∷ t)))
                    blocked_tlds
          ])
  unfolding validate_upstream_configuration
  is_none-validate_upstream_configuration upstream =
      ground (
        arith,
        no_blocked upstream (trim_suffix b'.' (to_lower (trim_space upstream))) blocked_tlds,
      )

  -- The loopback network 127/8 is not private in this sense: each address of it is let through.
  pub validate_upstream_configuration-allows_loopback :
      (upstream : Text) (a : ℕ)
      → trim_space upstream ≢ []
      → parse_ip (trim_space upstream) ≡ some (v4 a)
      → a / 2 ^ 24 ≡ 127
      → validate_upstream_configuration parse_ip blocked_tlds upstream ≡ none
  unfolding validate_upstream_configuration is_private
  validate_upstream_configuration-allows_loopback upstream a filled parsed loopback =
      ground (arith, text_iff (trim_space upstream) [])

  -- The origins of a Service pass exactly when every upstream passes, and every host header that is
  -- not empty.
  pub is_none-check_origins :
      (os : List StaticOrigin)
      → is_none (check_origins parse_ip blocked_tlds os)
        ≡ all
            (λ o.
              not (text_eq o.upstream [])
              && (is_none (validate_upstream_configuration parse_ip blocked_tlds o.upstream)
                  && (text_eq o.host_header []
                      || is_none
                          (validate_upstream_configuration parse_ip blocked_tlds o.host_header))))
            os
  unfolding check_origins
  is_none-check_origins [] = refl
  is_none-check_origins (o ∷ os) = ground (arith, is_none-check_origins os)
