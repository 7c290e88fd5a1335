-- ===== src/Builder/Backends.antt =====
-- internal/builder/corev1_service_builder.go: the Service that stands for a cache's upstream.
use edgecdnx_controller.Common.{
  ℕ, Option, none, some, List, [], ◌∷◌, Text, codes, text_eq, Map, no_entries, map_of,
  if◌then◌else◌,
}
use edgecdnx_controller.Builder.{values_hash_annotation, built}

pub record ServicePort : Type 0 where
  pub name : Text
  pub port : ℕ
  pub target_port : ℕ

-- ServiceSpec, with the entries of its selector.
pub record BackendSpec : Type 0 where
  pub external_name : Text
  pub kind : Text
  pub cluster_ip : Text
  pub ports : List ServicePort
  pub selector : List (Text × Text)

-- A Service of the core API.
pub record Backend : Type 0 where
  pub name : Text
  pub namespace : Text
  pub annotations : Map
  pub spec : BackendSpec

abbrev pub no_spec : BackendSpec
no_spec = record { external_name = []; kind = []; cluster_ip = []; ports = []; selector = [] }

-- NewDefaultCoreV1ServiceBuilder
abbrev pub new_backend : (name namespace : Text) → Backend
new_backend name namespace = record {
  name = name;
  namespace = namespace;
  annotations = no_entries;
  spec = no_spec;
}

abbrev pub with_annotations : Map → Backend → Backend
with_annotations annotations b = record b { annotations = annotations }

abbrev pub with_upstream : (upstream : Text) → Backend → Backend
with_upstream upstream b = record b {
  spec = record no_spec { external_name = upstream; kind = codes "ExternalName" };
}

-- The entries that WithS3Gateway selects by.
abbrev pub gateway_selector : (domain : Text) → List (Text × Text)
gateway_selector domain = (codes "app", codes "s3gateway") ∷ (codes "domain", domain) ∷ []

abbrev pub with_s3_gateway : (domain : Text) → Backend → Backend
with_s3_gateway domain b = record b {
  spec = record no_spec {
    cluster_ip = codes "None";
    ports = record { name = codes "http"; port = 80; target_port = 80 } ∷ [];
    selector = gateway_selector domain;
  };
}

abbrev pub build : (hash : Backend → Option Text) → Backend → Option (Backend × Text)
build hash = built hash (λ h b. with_annotations (map_of ((values_hash_annotation, h) ∷ [])) b)

-- CoreV1ServiceBuilderFactory
abbrev pub core_v1_service_builder_factory : (builder_type name namespace : Text) → Option Backend
core_v1_service_builder_factory builder_type name namespace =
    if text_eq builder_type (codes "default") then some (new_backend name namespace) else none
