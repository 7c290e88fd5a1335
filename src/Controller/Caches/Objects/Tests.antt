-- ===== src/Controller/Caches/Objects/Tests.antt =====
-- The objects of a static and of an S3 Service.
use edgecdnx_controller.Common.{
  ◌≡◌, refl, true, false, some, [], ◌∷◌, codes, text_eq, pos, selects, ℤ, Text,
}
use edgecdnx_controller.Api.Samples.{shop}
use edgecdnx_controller.Api.{Service, S3OriginSpec}
use edgecdnx_controller.Builder.Backends.{Backend}
use edgecdnx_controller.Builder.Gateways.{Deployment}
use edgecdnx_controller.Controller.Caches.Objects.{
  desired_backend, desired_secret, desired_ingress, desired_deployment,
}
use edgecdnx_controller.Controller.Caches.Objects.Fit.{desired_objects-fit, leads_to, uses_secret}
use edgecdnx_controller.Controller.Caches.Objects.Gateway.{desired_gateway-selects}

abbrev dotted : Service
dotted = record shop { name = codes "shop.example" }

abbrev bucket : S3OriginSpec
bucket = record {
  aws_sigs_version = pos 4;
  s3_access_key_id = codes "i";
  s3_secret_key = codes "s";
  s3_bucket_name = codes "b";
  s3_region = codes "r";
  s3_server = codes "s3.example";
  s3_server_proto = codes "https";
  s3_server_port = pos 443;
  s3_style = codes "path";
}

abbrev stored : Service
stored = record dotted {
  origin_type = codes "s3";
  static_origins = [];
  s3_origin_spec = bucket ∷ [];
}

abbrev one_digit : ℤ → Text
one_digit n = codes "4"

desired_objects-fit_example :
    (b : Backend) × (desired_backend dotted ≡ some b)
    × (leads_to b.name (desired_ingress (codes "e") dotted) ≡ true)
    × (uses_secret
          (desired_secret dotted (codes "x") (codes "y")).name
          (desired_ingress (codes "e") dotted)
        ≡ true)
unfolding text_eq
desired_objects-fit_example = desired_objects-fit (codes "e") dotted (codes "x") (codes "y") refl

desired_gateway-selects_example :
    (b : Backend) × (d : Deployment) × (desired_backend stored ≡ some b)
    × (desired_deployment one_digit stored ≡ some d)
    × (selects b.spec.selector d.template_labels
        ≡ (elim stored.s3_origin_spec [ [] ↦ false | o ∷ os ↦ true ]))
    × (selects d.match_labels d.template_labels ≡ true)
unfolding text_eq
desired_gateway-selects_example = desired_gateway-selects one_digit stored refl
