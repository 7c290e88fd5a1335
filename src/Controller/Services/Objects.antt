-- ===== src/Controller/Services/Objects.antt =====
-- internal/controller/service_controller.go: the objects that Reconcile has built for a Service. How
-- base64 encodes and how the resource is written as JSON are parameters.
use edgecdnx_controller.Common.{Option, none, some, [], ◌∷◌, Text, codes}
use edgecdnx_controller.Api.{Service}
use edgecdnx_controller.Builder.{ThrowerOptions}
use edgecdnx_controller.Builder.Certificates.{
  Certificate, IssuerRef, cert_builder_factory, with_dns_names,
}
use edgecdnx_controller.Builder.Appsets.{Appset, appset_builder_factory, with_helm_values}
use edgecdnx_controller.Controller.Services.{Secret}

abbrev pub issuer_of : (cluster_issuer_name : Text) → IssuerRef
issuer_of cluster_issuer_name = record {
  name = cluster_issuer_name;
  kind = codes "ClusterIssuer";
  group = codes "cert-manager.io";
}

-- The DNS names of the host aliases, if there are any.
abbrev pub with_aliases : Service → Certificate → Certificate
with_aliases s c = elim s.host_aliases [ [] ↦ c | n ∷ ns ↦ with_dns_names (s.domain ∷ n ∷ ns) c ]

unfoldable pub desired_certificate : (cluster_issuer_name : Text) → Service → Option Certificate
desired_certificate cluster_issuer_name s =
    elim (cert_builder_factory (codes "Service") s.name s.namespace s.domain
      (issuer_of cluster_issuer_name)) [ none ↦ none | some c ↦ some (with_aliases s c) ]

-- serviceRawResource: it has no namespace.
abbrev pub raw_resource : Service → Service
raw_resource s = record s { namespace = [] }

-- The certificate of the Secret is passed down.
abbrev pub with_certificate : (encode : Text → Text) → Secret → Service → Service
with_certificate encode secret s = record s {
  certificate = record { crt = encode secret.crt; key = encode secret.key };
}

-- serviceRawResource behind the loop: `passed` is the last Secret that was read.
unfoldable pub passed_resource :
    (encode : Text → Text) → (passed : Option Secret) → Service → Service
passed_resource encode none s = raw_resource s
passed_resource encode (some secret) s = with_certificate encode secret (raw_resource s)

-- The ApplicationSet, with the resource as its only value.
unfoldable pub desired_appset :
    (encode : Text → Text)
    → (json : Service → Text) → ThrowerOptions
    → (passed : Option Secret) → Service
    → Option Appset
desired_appset encode json options passed s =
    elim (appset_builder_factory (codes "Service") s.name s.namespace options) [
      | none ↦ none
      | some a ↦ some (with_helm_values (json (passed_resource encode passed s)) a)
    ]
