-- ===== src/Builder.antt =====
-- internal/builder: the Kubernetes objects that the controllers create. A builder is the object that
-- it has built so far. The JSON form and its digest are the parameter `hash`, which is `none` where
-- json.Marshal has an error.
pub mod Secrets
pub mod Backends
pub mod Gateways
pub mod Ingress
pub mod Appsets
pub mod Apps
pub mod Certificates
mod Tests
use edgecdnx_controller.Common.{Option, none, some, Text, codes}

-- ValuesHashAnnotation
abbrev pub values_hash_annotation : Text
values_hash_annotation = codes "edgedcnx.com/values-hash"

pub record ThrowerOptions : Type 0 where
  pub thrower_chart_name : Text
  pub thrower_chart_version : Text
  pub thrower_chart_repository : Text
  pub target_namespace : Text
  pub application_set_project : Text

pub record ChartParams : Type 0 where
  pub chart_repository : Text
  pub chart_name : Text
  pub chart_version : Text
  pub release_name : Text

-- What Build returns: the object, annotated with the hash of what it was before.
abbrev pub built {ℓ} :
    {A : Type ℓ} → (hash : A → Option Text) → (annotate : Text → A → A) → A → Option (A × Text)
built hash annotate o = elim (hash o) [ none ↦ none | some h ↦ some (annotate h o, h) ]
