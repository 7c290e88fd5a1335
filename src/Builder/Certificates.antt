-- ===== src/Builder/Certificates.antt =====
-- internal/builder/cert_builder.go: the Certificate of a Service.
use edgecdnx_controller.Common.{
  ℕ, Option, none, some, List, [], ◌∷◌, ◌++◌, Text, codes, text_eq, Map, no_entries, map_of,
  if◌then◌else◌,
}
use edgecdnx_controller.Builder.{values_hash_annotation, built}

pub record IssuerRef : Type 0 where
  pub name : Text
  pub kind : Text
  pub group : Text

-- A Certificate; the time is in hours.
pub record Certificate : Type 0 where
  pub name : Text
  pub namespace : Text
  pub annotations : Map
  pub issuer_ref : IssuerRef
  pub secret_name : Text
  pub dns_names : List Text
  pub renew_before : ℕ

-- NewDefaultCertBuilder
abbrev pub new_certificate : (name namespace service_name : Text) → Certificate
new_certificate name namespace service_name = record {
  name = name;
  namespace = namespace;
  annotations = no_entries;
  issuer_ref = record { name = []; kind = []; group = [] };
  secret_name = service_name ++ codes "-tls";
  dns_names = service_name ∷ [];
  renew_before = 240;
}

abbrev pub with_secret_name : Text → Certificate → Certificate
with_secret_name secret_name c = record c { secret_name = secret_name }

abbrev pub with_dns_names : List Text → Certificate → Certificate
with_dns_names dns_names c = record c { dns_names = dns_names }

abbrev pub with_issuer_ref : IssuerRef → Certificate → Certificate
with_issuer_ref issuer_ref c = record c { issuer_ref = issuer_ref }

abbrev pub with_renew_before : ℕ → Certificate → Certificate
with_renew_before hours c = record c { renew_before = hours }

abbrev pub build : (hash : Certificate → Option Text) → Certificate → Option (Certificate × Text)
build hash =
    built hash (λ h c. record c { annotations = map_of ((values_hash_annotation, h) ∷ []) })

-- CertBuilderFactory
abbrev pub cert_builder_factory :
    (builder_type name namespace service_name : Text) → IssuerRef → Option Certificate
cert_builder_factory builder_type name namespace service_name issuer_ref =
    if text_eq builder_type (codes "Service")
    then some (with_issuer_ref issuer_ref (new_certificate name namespace service_name))
    else none
