-- ===== src/Builder/Gateways.antt =====
-- internal/builder/deployment_builder.go: the Deployment of an S3 gateway. How fmt prints a number is
-- the parameter `decimal`.
use edgecdnx_controller.Common.{
  ℕ, ℤ, Option, none, some, List, [], ◌∷◌, ◌++◌, Text, codes, text_eq, Map, no_entries, write_all,
  map_of, if◌then◌else◌,
}
use edgecdnx_controller.Strings.{to_lower}
use edgecdnx_controller.Api.{Service, S3OriginSpec, origin_type_s3}
use edgecdnx_controller.Builder.{values_hash_annotation, built}

-- A probe by HTTP.
pub record Probe : Type 0 where
  pub initial_delay_seconds : ℕ
  pub path : Text
  pub port : ℕ

pub record ContainerPort : Type 0 where
  pub name : Text
  pub container_port : ℕ

pub record Container : Type 0 where
  pub name : Text
  pub image : Text
  pub env : List (Text × Text)
  pub liveness_probe : Option Probe
  pub readiness_probe : Option Probe
  pub ports : List ContainerPort

-- A Deployment, with the entries of its selector and the labels of its pods.
pub record Deployment : Type 0 where
  pub name : Text
  pub namespace : Text
  pub labels : Map
  pub annotations : Map
  pub replicas : Option ℕ
  pub match_labels : List (Text × Text)
  pub template_labels : Map
  pub containers : List Container

abbrev pub no_container : Container
no_container = record {
  name = [];
  image = [];
  env = [];
  liveness_probe = none;
  readiness_probe = none;
  ports = [];
}

abbrev pub new_deployment_builder : (name namespace : Text) → Deployment
new_deployment_builder name namespace = record {
  name = name;
  namespace = namespace;
  labels = no_entries;
  annotations = no_entries;
  replicas = none;
  match_labels = (codes "app", name) ∷ [];
  template_labels = map_of ((codes "app", name) ∷ []);
  containers = record no_container { name = name } ∷ [];
}

abbrev pub with_annotations : Map → Deployment → Deployment
with_annotations annotations d = record d { annotations = annotations }

abbrev pub with_labels : Map → Deployment → Deployment
with_labels labels d = record d { labels = labels }

abbrev pub with_template_labels : List (Text × Text) → Deployment → Deployment
with_template_labels labels d = record d { template_labels = write_all d.template_labels labels }

abbrev pub with_selector_labels : List (Text × Text) → Deployment → Deployment
with_selector_labels labels d = record d { match_labels = labels }

abbrev pub with_replicas : ℕ → Deployment → Deployment
with_replicas replicas d = record d { replicas = some replicas }

-- `containers[0]` changed; without a container nothing is.
abbrev pub on_first : (Container → Container) → List Container → List Container
on_first f [] = []
on_first f (c ∷ cs) = f c ∷ cs

-- `containers[0]` changed, which is added where there is none.
abbrev pub on_some : (Container → Container) → List Container → List Container
on_some f [] = f no_container ∷ []
on_some f (c ∷ cs) = f c ∷ cs

abbrev pub with_container_image : Text → Deployment → Deployment
with_container_image image d = record d {
  containers = on_some (λ c. record c { image = image }) d.containers;
}

-- The entries in the order in which Go visits the map.
abbrev pub with_env_vars : List (Text × Text) → Deployment → Deployment
with_env_vars vars d = record d {
  containers = on_some (λ c. record c { env = c.env ++ vars }) d.containers;
}

abbrev pub with_liveness_probe : Probe → Deployment → Deployment
with_liveness_probe probe d = record d {
  containers = on_first (λ c. record c { liveness_probe = some probe }) d.containers;
}

abbrev pub with_readiness_probe : Probe → Deployment → Deployment
with_readiness_probe probe d = record d {
  containers = on_first (λ c. record c { readiness_probe = some probe }) d.containers;
}

abbrev pub with_ports : List ContainerPort → Deployment → Deployment
with_ports ports d = record d {
  containers = on_first (λ c. record c { ports = ports }) d.containers;
}

abbrev pub with_container_name : Text → Deployment → Deployment
with_container_name name d = record d {
  containers = on_first (λ c. record c { name = name }) d.containers;
}

abbrev pub with_s3_gateway_domain_name : (domain : Text) → Deployment → Deployment
with_s3_gateway_domain_name domain d =
    let labels = (codes "app", codes "s3gateway") ∷ (codes "domain", domain) ∷ [] in
    with_selector_labels labels (with_template_labels labels d)

module _ (decimal : ℤ → Text) where
  -- The variables that withS3GatewayCredentials sets.
  abbrev pub gateway_env : S3OriginSpec → List (Text × Text)
  gateway_env o =
      (codes "AWS_ACCESS_KEY_ID", o.s3_access_key_id)
      ∷ (codes "AWS_SECRET_ACCESS_KEY", o.s3_secret_key)
      ∷ (codes "S3_BUCKET_NAME", o.s3_bucket_name)
      ∷ (codes "S3_REGION", o.s3_region)
      ∷ (codes "S3_SERVER", o.s3_server)
      ∷ (codes "S3_SERVER_PROTO", to_lower o.s3_server_proto)
      ∷ (codes "S3_SERVER_PORT", decimal o.s3_server_port)
      ∷ (codes "S3_STYLE", o.s3_style)
      ∷ (codes "AWS_SIGS_VERSION", decimal o.aws_sigs_version)
      ∷ (codes "ALLOW_DIRECTORY_LIST", codes "false")
      ∷ []

  abbrev pub with_s3_gateway_credentials : S3OriginSpec → Deployment → Deployment
  with_s3_gateway_credentials o d = record d {
    containers = on_first (λ c. record c { env = gateway_env o }) d.containers;
  }

  -- WithService
  abbrev pub with_service : Service → Deployment → Deployment
  with_service s d = elim s.s3_origin_spec [
    | [] ↦ d
    | o ∷ os ↦
        if text_eq s.origin_type origin_type_s3
        then with_container_name (codes "s3gateway")
            (with_s3_gateway_domain_name s.domain (with_s3_gateway_credentials o d))
        else d
  ]

abbrev pub build : (hash : Deployment → Option Text) → Deployment → Option (Deployment × Text)
build hash = built hash (λ h d. with_annotations (map_of ((values_hash_annotation, h) ∷ [])) d)

-- The probes that the factory sets.
abbrev pub health_probe : Probe
health_probe = record { initial_delay_seconds = 3; path = codes "/health"; port = 80 }

-- DeploymentBuilderFactory
abbrev pub deployment_builder_factory : (builder_type name namespace : Text) → Option Deployment
deployment_builder_factory builder_type name namespace =
    let b = new_deployment_builder name namespace in
    if text_eq builder_type (codes "default")
    then some b
    else if text_eq builder_type (codes "s3-gateway")
    then some (
        with_ports (record { name = codes "http"; container_port = 80 } ∷ []) (
          with_readiness_probe health_probe (
            with_liveness_probe health_probe
              (with_container_image (codes "fr6nco/nginx-s3-gateway:latest") (with_replicas 1 b)))))
    else none
