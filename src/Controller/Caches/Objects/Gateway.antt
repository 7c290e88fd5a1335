-- ===== src/Controller/Caches/Objects/Gateway.antt =====
-- The Deployment and the Service of an S3 gateway.
use edgecdnx_controller.Common.{
  ◌≡◌, refl, ap, ◌∙◌, ℤ, true, false, some, List, [], ◌∷◌, ◌++◌, Text, codes, text_eq, text_iff,
  text_refl, selects, map_of, arith,
}
use edgecdnx_controller.Api.{Service, S3OriginSpec, origin_type_static, origin_type_s3}
use edgecdnx_controller.Builder.Backends.{Backend, new_backend, with_s3_gateway, gateway_selector}
use edgecdnx_controller.Builder.Gateways.{
  Deployment, with_service, with_ports, with_readiness_probe, with_liveness_probe,
  with_container_image, with_replicas, new_deployment_builder, health_probe,
  with_s3_gateway_domain_name, with_s3_gateway_credentials, with_container_name,
}
use edgecdnx_controller.Controller.Caches.Objects.{
  backend_name, desired_backend, desired_backend_lem, desired_deployment,
}

-- Whether a selector matches the labels of pods.
gateway_selects :
    (domain : Text) (app : Text)
    → selects (gateway_selector domain) (map_of ((codes "app", app) ∷ gateway_selector domain))
      ≡ true
unfolding text_eq
gateway_selects domain app = ground (arith, text_refl domain)

-- The deployment that the factory gives for a gateway.
abbrev gateway : Service → Deployment
gateway s = with_ports (record { name = codes "http"; container_port = 80 } ∷ []) (
    with_readiness_probe health_probe (
      with_liveness_probe health_probe (
        with_container_image (codes "fr6nco/nginx-s3-gateway:latest") (
          with_replicas 1
            (new_deployment_builder (backend_name s ++ codes "-s3gateway") s.namespace)))))

desired_deployment_lem :
    (decimal : ℤ → Text) (s : Service)
    → desired_deployment decimal s ≡ some (with_service decimal s (gateway s))
unfolding desired_deployment text_eq
desired_deployment_lem decimal s = refl

unselected :
    (domain app : Text)
    → selects (gateway_selector domain) (map_of ((codes "app", app) ∷ [])) ≡ false
unfolding text_eq
unselected domain app = ground arith

-- The deployment with what WithService does for an origin.
abbrev served : (decimal : ℤ → Text) → Service → S3OriginSpec → Deployment
served decimal s o =
    with_container_name (codes "s3gateway")
      (with_s3_gateway_domain_name s.domain (with_s3_gateway_credentials decimal o (gateway s)))

own_selects :
    (name : Text) → selects ((codes "app", name) ∷ []) (map_of ((codes "app", name) ∷ [])) ≡ true
unfolding text_eq
own_selects name = ground (arith, text_refl name)

static_or_s3 : (t : Text) → text_eq t origin_type_s3 ≡ true → text_eq t origin_type_static ≡ false
static_or_s3 t h = rw ((text_iff t origin_type_s3).0 h) differ
  where
    differ : text_eq origin_type_s3 origin_type_static ≡ false
    differ = unfold text_eq in refl

-- For a Service of S3, the gateway's Service and its Deployment are built. Where the spec has an S3
-- origin, the pods of the Deployment are those that its own selector and the Service select; where it
-- has none, the Service does not select them.
pub desired_gateway-selects :
    (decimal : ℤ → Text) (s : Service)
    → text_eq s.origin_type origin_type_s3 ≡ true
    → (b : Backend) × (d : Deployment) × (desired_backend s ≡ some b)
      × (desired_deployment decimal s ≡ some d)
      × (selects b.spec.selector d.template_labels
          ≡ (elim s.s3_origin_spec [ [] ↦ false | o ∷ os ↦ true ]))
      × (selects d.match_labels d.template_labels ≡ true)
desired_gateway-selects decimal s h =
    let apart : text_eq s.origin_type origin_type_static ≡ false = static_or_s3 s.origin_type h in
    (
      with_s3_gateway s.domain (new_backend (backend_name s) s.namespace),
      with_service decimal s (gateway s),
      ground (arith, apart, h, desired_backend_lem s),
      desired_deployment_lem decimal s,
      chosen s.s3_origin_spec refl,
      own s.s3_origin_spec refl,
    )
  where
    without : s.s3_origin_spec ≡ [] → with_service decimal s (gateway s) ≡ gateway s
    without q = ground (arith, q)

    with_origin :
        (o : S3OriginSpec) (os : List S3OriginSpec)
        → s.s3_origin_spec ≡ o ∷ os
        → with_service decimal s (gateway s) ≡ served decimal s o
    with_origin o os q = ground (arith, q, h)

    chosen :
        (os : List S3OriginSpec)
        → s.s3_origin_spec ≡ os
        → selects (gateway_selector s.domain) (with_service decimal s (gateway s)).template_labels
          ≡ (elim s.s3_origin_spec [ [] ↦ false | o ∷ os ↦ true ])
    chosen [] q =
        ap (λ d. selects (gateway_selector s.domain) d.template_labels) (without q)
        ∙ unselected s.domain (gateway s).name
        ∙ ground (arith, q)
    chosen (o ∷ os) q =
        ap (λ d. selects (gateway_selector s.domain) d.template_labels) (with_origin o os q)
        ∙ gateway_selects s.domain (gateway s).name
        ∙ ground (arith, q)

    own :
        (os : List S3OriginSpec)
        → s.s3_origin_spec ≡ os
        → selects
            (with_service decimal s (gateway s)).match_labels
            (with_service decimal s (gateway s)).template_labels
          ≡ true
    own [] q =
        ap (λ d. selects d.match_labels d.template_labels) (without q)
        ∙ own_selects (gateway s).name
    own (o ∷ os) q =
        ap (λ d. selects d.match_labels d.template_labels) (with_origin o os q)
        ∙ gateway_selects s.domain (gateway s).name
