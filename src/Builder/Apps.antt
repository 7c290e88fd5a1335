-- ===== src/Builder/Apps.antt =====
-- internal/builder/app_builder.go: an Application for one cluster. The JSON form of the Helm values is
-- a text here.
use edgecdnx_controller.Common.{
  ◌||◌, Option, none, some, List, [], ◌∷◌, Text, codes, text_eq, Map, no_entries, map_of,
  if◌then◌else◌,
}
use edgecdnx_controller.Builder.{values_hash_annotation, built, ThrowerOptions, ChartParams}
use edgecdnx_controller.Builder.Appsets.{Source, source_of}

-- An Application, by what varies of it; `source` is `none` as long as its Helm part is nil.
pub record App : Type 0 where
  pub name : Text
  pub namespace : Text
  pub finalizers : List Text
  pub annotations : Map
  pub project : Text
  pub destination_server : Text
  pub destination_namespace : Text
  pub source : Option Source

-- NewThrowableAppBuilder, which does not read its argument.
abbrev pub new_app : (name : Text) → App
new_app name = record {
  name = [];
  namespace = [];
  finalizers = [];
  annotations = no_entries;
  project = codes "default";
  destination_server = [];
  destination_namespace = [];
  source = none;
}

-- The Helm part is a new one: values that were set before are lost.
abbrev pub with_helm_chart_params : ChartParams → App → App
with_helm_chart_params p a = record a { source = some (source_of p none) }

-- `none` is a panic: the Helm part is nil until the chart's parameters are set.
abbrev pub with_helm_values : (values : Text) → App → Option App
with_helm_values values a = elim a.source [
  | none ↦ none
  | some s ↦ some (record a { source = some (record s { values_object = some values }) })
]

abbrev pub with_project : Text → App → App
with_project project a = record a { project = project }

abbrev pub with_app_meta : (name namespace : Text) → App → App
with_app_meta name namespace a = record a {
  name = name;
  namespace = namespace;
  finalizers = codes "resources-finalizer.argocd.argoproj.io" ∷ [];
}

abbrev pub with_destination : (destination namespace : Text) → App → App
with_destination destination namespace a = record a {
  destination_server = destination;
  destination_namespace = namespace;
}

abbrev pub build : (hash : App → Option Text) → App → Option (App × Text)
build hash =
    built hash (λ h a. record a { annotations = map_of ((values_hash_annotation, h) ∷ []) })

-- AppBuilderFactory: its three types are built alike.
abbrev pub app_builder_factory :
    (builder_type name namespace destination : Text) → ThrowerOptions → Option App
app_builder_factory builder_type name namespace destination o =
    if text_eq builder_type (codes "monitoring-tls")
      || (text_eq builder_type (codes "analytics-tls")
          || text_eq builder_type (codes "healthchecker-tls"))
    then some (
        with_app_meta name namespace (
          with_destination destination o.target_namespace (
            with_helm_chart_params
              (record {
                chart_repository = o.thrower_chart_repository;
                chart_name = o.thrower_chart_name;
                chart_version = o.thrower_chart_version;
                release_name = name;
              })
              (with_project o.application_set_project (new_app name)))))
    else none
