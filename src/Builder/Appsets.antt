-- ===== src/Builder/Appsets.antt =====
-- internal/builder/appset_builder.go: the ApplicationSet that carries resources to the clusters. The
-- JSON form of the Helm values is a text here.
use edgecdnx_controller.Common.{
  Option, none, some, List, [], ◌∷◌, ◌++◌, Text, codes, text_eq, Map, no_entries, map_of,
  if◌then◌else◌,
}
use edgecdnx_controller.Builder.{values_hash_annotation, built, ThrowerOptions, ChartParams}

-- ApplicationSource, with its Helm part.
pub record Source : Type 0 where
  pub chart : Text
  pub repo_url : Text
  pub target_revision : Text
  pub release_name : Text
  pub values_object : Option Text

-- LabelSelectorRequirement; the operator is always In.
pub record Requirement : Type 0 where
  pub key : Text
  pub values : List Text

-- An ApplicationSet, by what varies of it: the sync policy is the same in all of them.
pub record Appset : Type 0 where
  pub name : Text
  pub namespace : Text
  pub annotations : Map
  -- The label selectors of the cluster generators.
  pub generators : List (List Requirement)
  pub template_name : Text
  pub template_namespace : Text
  pub destination_namespace : Text
  pub destination_server : Text
  pub project : Text
  pub sources : List Source

abbrev pub new_appset : (name : Text) → Appset
new_appset name = record {
  name = name;
  namespace = [];
  annotations = no_entries;
  generators = [];
  template_name = [];
  template_namespace = [];
  destination_namespace = [];
  destination_server = [];
  project = codes "default";
  sources = [];
}

abbrev pub source_of : ChartParams → (values_object : Option Text) → Source
source_of p values_object = record {
  chart = p.chart_name;
  repo_url = p.chart_repository;
  target_revision = p.chart_version;
  release_name = p.release_name;
  values_object = values_object;
}

abbrev pub put_params : ChartParams → List Source → List Source
put_params p [] = source_of p none ∷ []
put_params p (s ∷ sources) = source_of p s.values_object ∷ sources

abbrev pub with_helm_chart_params : ChartParams → Appset → Appset
with_helm_chart_params p a = record a { sources = put_params p a.sources }

abbrev pub put_values : Text → List Source → List Source
put_values values [] =
    record {
      chart = [];
      repo_url = [];
      target_revision = [];
      release_name = [];
      values_object = some values;
    }
    ∷ []
put_values values (s ∷ sources) = record s { values_object = some values } ∷ sources

-- WithHelmValues
abbrev pub with_helm_values : (values : Text) → Appset → Appset
with_helm_values values a = record a { sources = put_values values a.sources }

abbrev pub with_target_app_meta :
    (templated_name namespace target_namespace : Text) → Appset → Appset
with_target_app_meta templated_name namespace target_namespace a = record a {
  template_name = templated_name;
  template_namespace = namespace;
  destination_namespace = target_namespace;
  destination_server = codes "{{ server }}";
}

abbrev pub with_project : Text → Appset → Appset
with_project project a = record a { project = project }

abbrev pub with_label_matchers : List (List Requirement) → Appset → Appset
with_label_matchers matchers a = record a { generators = matchers }

abbrev pub with_appset_meta : (name namespace : Text) → Appset → Appset
with_appset_meta name namespace a = record a { name = name; namespace = namespace }

abbrev pub build : (hash : Appset → Option Text) → Appset → Option (Appset × Text)
build hash =
    built hash (λ h a. record a { annotations = map_of ((values_hash_annotation, h) ∷ []) })

-- The kinds of AppsetBuilderFactory.
pub data AppsetKind : Type 0 where
  location zone challenge prefix_list service health_check_profile dns_endpoint : AppsetKind

-- The type by its text.
abbrev pub type_text : AppsetKind → Text
type_text location = codes "Location"
type_text zone = codes "Zone"
type_text challenge = codes "Challenge"
type_text prefix_list = codes "PrefixList"
type_text service = codes "Service"
type_text health_check_profile = codes "HealthCheckProfile"
type_text dns_endpoint = codes "DNSEndpoint"

-- The word that the names of a type start with.
abbrev pub word_of : AppsetKind → Text
word_of location = codes "location"
word_of zone = codes "zone"
word_of challenge = codes "challenge"
word_of prefix_list = codes "prefixlist"
word_of service = codes "service"
word_of health_check_profile = codes "healthcheckprofile"
word_of dns_endpoint = codes "dnsendpoint"

abbrev pub is_labelled : (key : Text) → List Requirement
is_labelled key = record { key = key; values = codes "true" ∷ codes "yes" ∷ [] } ∷ []

-- The clusters that a type goes to.
abbrev pub matchers_of : AppsetKind → List (List Requirement)
matchers_of challenge = is_labelled (codes "edgecdnx.com/caching") ∷ []
matchers_of service =
    is_labelled (codes "edgecdnx.com/routing") ∷ is_labelled (codes "edgecdnx.com/caching") ∷ []
matchers_of kind = is_labelled (codes "edgecdnx.com/routing") ∷ []

-- The branch of one type.
unfoldable pub appset_of : AppsetKind → (name namespace : Text) → ThrowerOptions → Appset
appset_of kind name namespace o = with_label_matchers (matchers_of kind) (
    with_appset_meta name namespace (
      with_project o.application_set_project (
        with_target_app_meta (word_of kind ++ codes "-" ++ name ++ codes "-at-{{ name }}") namespace
          o.target_namespace
          (with_helm_chart_params
            (record {
              chart_repository = o.thrower_chart_repository;
              chart_name = o.thrower_chart_name;
              chart_version = o.thrower_chart_version;
              release_name = word_of kind ++ codes "-{{ name }}";
            })
            (new_appset name)))))

abbrev find_kind : Text → List AppsetKind → Option AppsetKind
find_kind text [] = none
find_kind text (k ∷ kinds) = if text_eq text (type_text k) then some k else find_kind text kinds

-- AppsetBuilderFactory: the switch over the builder's type.
unfoldable pub appset_builder_factory :
    (builder_type name namespace : Text) → ThrowerOptions → Option Appset
unfolding appset_of
appset_builder_factory builder_type name namespace o =
    elim (find_kind builder_type (
      location ∷ zone ∷ challenge ∷ prefix_list ∷ service ∷ health_check_profile ∷ dns_endpoint
      ∷ [])) [ none ↦ none | some kind ↦ some (appset_of kind name namespace o) ]
