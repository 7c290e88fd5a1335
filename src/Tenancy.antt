-- ===== src/Tenancy.antt =====
-- internal/tenancy: scope.go and validation.go, and the admission handler of
-- internal/webhook/v1alpha1/tenancy_webhook.go and project_webhook.go that calls them. The API
-- server's answers and IsDNS1123Label of Kubernetes are parameters.
pub mod References
pub mod Isolation
mod Tests
use edgecdnx_controller.Common.{
  ◌≡◌, Bool, true, false, not, ◌&&◌, ◌||◌, Option, none, some, List, [], ◌∷◌, ◌++◌, Text, text_eq,
  any, all, map, if◌then◌else◌,
}

pub record Scope : Type 0 where
  pub namespaced : Bool
  pub target_namespace : Text

pub data Kind : Type 0 where
  project api_key dns_endpoint health_check_profile location prefix_list service zone : Kind

-- Of a node, the name of spec.healthCheck; of a node group, that and its nodes.
pub record NodeGroup : Type 0 where
  pub health_check : Option Text
  pub nodes : List (Option Text)

pub record LocationSpec : Type 0 where
  pub fallback_locations : List Text
  pub parent : Text
  pub nodes : List (Option Text)
  pub node_groups : List NodeGroup

-- What validation reads of a spec, besides spec.project.
pub data Body : Type 0 where
  plain : Kind → Body
  dns_endpoint : (zone : Option Text) → Body
  prefix_list : (destination : Text) → Body
  location : LocationSpec → Body

pub record Object : Type 0 where
  pub name : Text
  pub namespace : Text
  -- Whether metadata.deletionTimestamp is set.
  pub deleting : Bool
  -- spec.project: the name in it, `none` for nil.
  pub project : Option Text
  pub body : Body

pub data Error : Type 0 where
  invalid_target_namespace wrong_namespace wrong_project_name project_required : Error
  project_immutable project_unresolved project_deleting : Error
  reference_required self_reference : Error
  reference_unresolved foreign_reference : (name : Text) → Error

-- The kinds of CacheObjects.
abbrev pub cached_kinds : List Kind
cached_kinds =
    project ∷ api_key ∷ dns_endpoint ∷ health_check_profile ∷ location ∷ prefix_list ∷ service
    ∷ zone ∷ []

-- Scope.CacheObjects of internal/tenancy/cache.go: each kind with the namespaces that are cached.
unfoldable pub cache_objects : Scope → List (Kind × List Text)
cache_objects s = if s.namespaced then [] else map (λ k. (k, s.target_namespace ∷ [])) cached_kinds

abbrev pub reject_if : Bool → Error → Option Error → Option Error
reject_if true e rest = some e
reject_if false e rest = rest

abbrev pub first_error : Option Error → Option Error → Option Error
first_error (some e) rest = some e
first_error none rest = rest

-- Scope.Validate
unfoldable pub validate : (is_dns1123_label : Text → Bool) → Scope → Option Error
validate is_dns1123_label s =
    if not s.namespaced
    then reject_if (not (is_dns1123_label s.target_namespace)) invalid_target_namespace none
    else none

-- Scope.ValidateNamespace
unfoldable pub validate_namespace : Scope → Text → Option Error
validate_namespace s namespace =
    reject_if (not s.namespaced && not (text_eq namespace s.target_namespace)) wrong_namespace none

-- Scope.ValidateProject
unfoldable pub validate_project : Scope → (namespace name : Text) → Option Error
unfolding validate_namespace
validate_project s namespace name =
    first_error (validate_namespace s namespace)
      (reject_if (s.namespaced && not (text_eq name namespace)) wrong_project_name none)

-- ProjectReference: an object of any other kind, such as a Project, has none.
unfoldable pub project_reference : Object → Option Text
project_reference o = elim o.body [ plain Kind.project ↦ none | _ ↦ o.project ]

unfoldable pub same_reference : Option Text → Option Text → Bool
same_reference none q = false
same_reference (some p) none = false
same_reference (some p) (some q) = text_eq p q

-- SameProject
unfoldable pub same_project : Object → Object → Bool
unfolding project_reference same_reference
same_project first second =
    text_eq first.namespace second.namespace
    && same_reference (project_reference first) (project_reference second)

-- client.Reader.Get by kind, namespace and name: `none` is an error, such as NotFound.
abbrev pub Reader : Type 0
Reader = Kind → (namespace name : Text) → Option Object

module _ (get : Reader) (object : Object) where
  -- The closure `validateReference`.
  unfoldable pub validate_reference : Text → Kind → Option Error
  validate_reference name target =
      reject_if (text_eq name []) reference_required (elim (get target object.namespace name) [
        | none ↦ some (reference_unresolved name)
        | some t ↦ reject_if (not (same_project object t)) (foreign_reference name) none
      ])

  -- The closure `validateHealthCheck`.
  unfoldable pub validate_health_check : Option Text → Option Error
  validate_health_check none = none
  validate_health_check (some name) = validate_reference name Kind.health_check_profile

  unfoldable pub validate_locations : List Text → Option Error
  validate_locations [] = none
  validate_locations (name ∷ names) =
      reject_if (text_eq name object.name) self_reference
        (first_error (validate_reference name Kind.location) (validate_locations names))

  unfoldable pub validate_nodes : List (Option Text) → Option Error
  validate_nodes [] = none
  validate_nodes (node ∷ nodes) = first_error (validate_health_check node) (validate_nodes nodes)

  -- The loop over the groups, which collects their nodes behind those of the spec, and the loop over
  -- the nodes after it.
  unfoldable pub validate_groups : List NodeGroup → (nodes : List (Option Text)) → Option Error
  validate_groups [] nodes = validate_nodes nodes
  validate_groups (group ∷ groups) nodes =
      first_error (validate_health_check group.health_check)
        (validate_groups groups (nodes ++ group.nodes))

  unfoldable pub validate_location : LocationSpec → Option Error
  validate_location l =
      let locations =
        (if not (text_eq l.parent [])
          then l.fallback_locations ++ l.parent ∷ []
          else l.fallback_locations) in
      first_error (validate_locations locations) (validate_groups l.node_groups l.nodes)

  -- The switch at the end of ValidateResource.
  unfoldable pub validate_body : Body → Option Error
  validate_body (plain kind) = none
  validate_body (dns_endpoint none) = none
  validate_body (dns_endpoint (some name)) = validate_reference name Kind.zone
  validate_body (prefix_list destination) = validate_reference destination Kind.location
  validate_body (location l) = validate_location l

  -- The check of `oldObject`, and what follows once the reference is known.
  unfoldable pub validate_referenced :
      Scope → (old : Option Object) → (reference : Text) → Option Error
  validate_referenced s old reference =
      let resolved : Option Error = elim (get Kind.project object.namespace reference) [
        | none ↦ some project_unresolved
        | some p ↦ reject_if p.deleting project_deleting (validate_body object.body)
      ] in
      first_error (validate_project s object.namespace reference) (elim old [
        | none ↦ resolved
        | some o ↦
            reject_if (not (same_reference (project_reference o) (some reference)))
              project_immutable resolved
      ])

  -- Scope.ValidateResource, for an object other than a Project.
  unfoldable pub validate_member : Scope → (old : Option Object) → Option Error
  validate_member s old =
      first_error (validate_namespace s object.namespace) (elim (project_reference object) [
        | none ↦ some project_required
        | some reference ↦
            reject_if (text_eq reference []) project_required (validate_referenced s old reference)
      ])

-- Scope.ValidateResource
unfoldable pub validate_resource : Scope → Reader → Object → (old : Option Object) → Option Error
validate_resource s get object old = elim object.body [
  | plain Kind.project ↦ validate_project s object.namespace object.name
  | _ ↦ validate_member get object s old
]

-- tenancyHandler.Handle
pub data Operation : Type 0 where
  create update delete connect : Operation

-- What the decoder makes of a raw object.
pub data Decoded : Type 0 where
  undecodable no_object : Decoded
  decoded : Object → Decoded

pub data Answer : Type 0 where
  allowed bad_request : Answer
  not_an_object not_an_old_object : Answer
  denied : Error → Answer

abbrev pub answer : Option Error → Answer
answer none = allowed
answer (some e) = denied e

module _ (s : Scope) (get : Reader) where
  abbrev decode_old : Object → Decoded → Answer
  decode_old object undecodable = bad_request
  decode_old object no_object = not_an_old_object
  decode_old object (decoded old) = answer (validate_resource s get object (some old))

  abbrev decode_new : (is_update : Bool) → Decoded → (old : Decoded) → Answer
  decode_new is_update undecodable old = bad_request
  decode_new is_update no_object old = not_an_object
  decode_new true (decoded object) old = decode_old object old
  decode_new false (decoded object) old = answer (validate_resource s get object none)

  unfoldable pub handle : Operation → (raw old_raw : Decoded) → Answer
  handle create raw old_raw = decode_new false raw old_raw
  handle update raw old_raw = decode_new true raw old_raw
  handle delete raw old_raw = allowed
  handle connect raw old_raw = allowed
