-- ===== src/Builder/Tests.antt =====
-- The Ingress of a Service with an alias and a certificate.
use edgecdnx_controller.Common.{◌≡◌, refl, [], map, codes, text_eq, if◌then◌else◌}
use edgecdnx_controller.Api.Samples.{shop}
use edgecdnx_controller.Builder.Ingress.{with_service, new_cache_ingress, tls_of}
use edgecdnx_controller.Builder.Ingress.Routes.{
  rules-with_service, rule_of, paths_of, hosts_of, has_certificate,
}

rules-with_service_example :
    ((with_service (codes "e") shop (new_cache_ingress (codes "shop") (codes "n"))).rules
      ≡ map (rule_of (paths_of shop)) (hosts_of shop))
    × ((with_service (codes "e") shop (new_cache_ingress (codes "shop") (codes "n"))).tls
        ≡ (if has_certificate shop then map (tls_of shop) (hosts_of shop) else []))
unfolding text_eq
rules-with_service_example = rules-with_service (codes "e") shop (codes "shop") (codes "n") refl
