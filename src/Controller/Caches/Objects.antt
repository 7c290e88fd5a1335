-- ===== src/Controller/Caches/Objects.antt =====
-- internal/controller/service_cache_controller.go: the objects that Reconcile has built for a Service.
pub mod Fit
pub mod Gateway
mod Tests
use edgecdnx_controller.Common.{
  ◌≡◌, refl, sym, ap, ◌∙◌, ℤ, int32, Bool, true, false, not, ◌&&◌, ◌||◌, Option, none, some, List,
  [], ◌∷◌, ◌++◌, map, all, Text, codes, text_eq, text_iff, text_refl, selects, map_of,
  if◌then◌else◌, arith, Bool-cases, Option-cases, inl, inr,
}
use edgecdnx_controller.Strings.{replace_all}
use edgecdnx_controller.Api.{
  Service, StaticOriginSpec, S3OriginSpec, origin_type_static, origin_type_s3,
}
use edgecdnx_controller.Builder.Backends.{
  Backend, core_v1_service_builder_factory, new_backend, with_upstream, with_s3_gateway,
  gateway_selector,
}
use edgecdnx_controller.Builder.Gateways.{
  Deployment, deployment_builder_factory, with_service, with_ports, with_readiness_probe,
  with_liveness_probe, with_container_image, with_replicas, new_deployment_builder, health_probe,
  with_s3_gateway_domain_name, with_s3_gateway_credentials, with_container_name,
}
use edgecdnx_controller.Builder.Secrets.{Secret, new_secret_builder, with_data_entry}
use edgecdnx_controller.Builder.Ingress as Ingresses
use edgecdnx_controller.Builder.Ingress.{
  Ingress, IngressRule, IngressTls, IngressPath, new_cache_ingress, static_paths, path_of, tls_of,
  service_name_of,
}
use edgecdnx_controller.Builder.Ingress.Routes.{
  is_servable, has_certificate, rules-with_service, rule_of, paths_of, hosts_of,
}

-- serviceName
abbrev pub backend_name : Service → Text
backend_name s = replace_all b'.' b'-' s.name

-- What the origin's type makes of a new builder: `none` is a panic, that of a static Service without
-- an origin.
abbrev pub backend_from : Service → Backend → Option Backend
backend_from s b =
    if text_eq s.origin_type origin_type_static
    then (elim s.static_origins [ [] ↦ none | o ∷ os ↦ some (with_upstream o.upstream b) ])
    else some (if text_eq s.origin_type origin_type_s3 then with_s3_gateway s.domain b else b)

-- The Service of the upstream.
unfoldable pub desired_backend : Service → Option Backend
desired_backend s =
    elim (core_v1_service_builder_factory (codes "default") (backend_name s) s.namespace) [
      | none ↦ none
      | some b ↦ backend_from s b
    ]

-- The Deployment of the S3 gateway.
unfoldable pub desired_deployment : (decimal : ℤ → Text) → Service → Option Deployment
desired_deployment decimal s =
    elim (deployment_builder_factory (codes "s3-gateway") (backend_name s ++ codes "-s3gateway")
      s.namespace) [ none ↦ none | some d ↦ some (with_service decimal s d) ]

-- The Secret, for a certificate that is decoded.
unfoldable pub desired_secret : Service → (crt key : Text) → Secret
desired_secret s crt key = with_data_entry (codes "tls.key") key (
    with_data_entry (codes "tls.crt") crt (new_secret_builder (s.name ++ codes "-tls") s.namespace))

unfoldable pub desired_ingress : (secure_urls_endpoint : Text) → Service → Ingress
desired_ingress secure_urls_endpoint s =
    Ingresses.with_service secure_urls_endpoint s (new_cache_ingress s.name s.namespace)

pub desired_backend_lem :
    (s : Service) → desired_backend s ≡ backend_from s (new_backend (backend_name s) s.namespace)
unfolding desired_backend text_eq
desired_backend_lem s = refl
