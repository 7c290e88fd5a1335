-- ===== src/Api.antt =====
-- api/v1alpha1/service_types.go: the parts of a Service that the builders read.
pub mod Probes
pub mod Samples
mod Tests
use edgecdnx_controller.Common.{Bool, List, Text, codes, ℤ}

pub record StaticOriginSpec : Type 0 where
  pub upstream : Text
  pub port : ℤ
  pub host_header : Text
  pub scheme : Text

pub record S3OriginSpec : Type 0 where
  pub aws_sigs_version : ℤ
  pub s3_access_key_id : Text
  pub s3_secret_key : Text
  pub s3_bucket_name : Text
  pub s3_region : Text
  pub s3_server : Text
  pub s3_server_proto : Text
  pub s3_server_port : ℤ
  pub s3_style : Text

pub record CertificateSpec : Type 0 where
  pub crt : Text
  pub key : Text

pub record CorsSpec : Type 0 where
  pub allow_methods : Text
  pub allow_origin : Text
  pub allow_credentials : Bool

pub record MirrorSpec : Type 0 where
  pub url : Text
  pub host_header : Text

pub record PathSpec : Type 0 where
  pub paths : List Text
  pub rewrite : Text

-- A Service with its spec. A host alias and a secure key are their names, the query parameters those
-- of the cache key, and `waf` is waf.enabled.
pub record Service : Type 0 where
  pub name : Text
  pub namespace : Text
  pub domain : Text
  pub certificate : CertificateSpec
  pub origin_type : Text
  pub static_origins : List StaticOriginSpec
  pub s3_origin_spec : List S3OriginSpec
  pub secure_keys : List Text
  pub cache : Text
  pub query_params : List Text
  pub mirror : MirrorSpec
  pub host_aliases : List Text
  pub waf : Bool
  pub cors : CorsSpec
  pub path : PathSpec

abbrev pub origin_type_static : Text
origin_type_static = codes "static"

abbrev pub origin_type_s3 : Text
origin_type_s3 = codes "s3"
