-- ===== src/Tenancy/References.antt =====
-- The references of an object as one list, and the loops of validation against it.
use edgecdnx_controller.Common.{
  ◌≡◌, refl, ap, Bool, false, not, ◌&&◌, Option, none, some, List, [], ◌∷◌, ◌++◌, Text, text_eq,
  any, all, all-append, if◌then◌else◌, arith,
}
use edgecdnx_controller.Webhook.Admission.{is_none}
use edgecdnx_controller.Tenancy.{
  Kind, NodeGroup, LocationSpec, Body, plain, Object, Reader, same_project, validate_reference,
  validate_health_check, validate_locations, validate_nodes, validate_groups, validate_location,
  validate_body,
}

-- A kind and a name.
abbrev pub Reference : Type 0
Reference = Kind × Text

abbrev pub profiles : List (Option Text) → List Reference
profiles [] = []
profiles (none ∷ nodes) = profiles nodes
profiles (some name ∷ nodes) = (Kind.health_check_profile, name) ∷ profiles nodes

abbrev pub group_profiles : List NodeGroup → List Reference
group_profiles [] = []
group_profiles (g ∷ gs) = profiles (g.health_check ∷ []) ++ (profiles g.nodes ++ group_profiles gs)

abbrev pub locations : List Text → List Reference
locations [] = []
locations (name ∷ names) = (Kind.location, name) ∷ locations names

-- The locations that a location names: its fallbacks and its parent, if it has one.
abbrev pub location_names : LocationSpec → List Text
location_names l =
    if not (text_eq l.parent [])
    then l.fallback_locations ++ l.parent ∷ []
    else l.fallback_locations

-- Every object that a body names, besides the project.
unfoldable pub references : Body → List Reference
references (plain kind) = []
references (Body.dns_endpoint none) = []
references (Body.dns_endpoint (some name)) = (Kind.zone, name) ∷ []
references (Body.prefix_list destination) = (Kind.location, destination) ∷ []
references (Body.location l) =
    locations (location_names l) ++ (profiles l.nodes ++ group_profiles l.node_groups)

-- Whether a location names itself.
unfoldable pub names_itself : Text → Body → Bool
names_itself name (plain kind) = false
names_itself name (Body.dns_endpoint _) = false
names_itself name (Body.prefix_list destination) = false
names_itself name (Body.location l) = any (λ n. text_eq n name) (location_names l)

module _ (get : Reader) (object : Object) where
  -- Whether a reference names an object of the namespace and the project.
  unfoldable pub resolves : Reference → Bool
  resolves (kind, name) =
      not (text_eq name [])
      && elim (get kind object.namespace name) [ none ↦ false | some t ↦ same_project object t ]

  reference_resolves :
      (name : Text) (kind : Kind)
      → is_none (validate_reference get object name kind) ≡ resolves (kind, name)
  unfolding validate_reference resolves
  reference_resolves name kind = ground arith

  nodes_resolve :
      (nodes : List (Option Text))
      → is_none (validate_nodes get object nodes) ≡ all resolves (profiles nodes)
  unfolding validate_nodes validate_health_check
  nodes_resolve [] = refl
  nodes_resolve (none ∷ nodes) = nodes_resolve nodes
  nodes_resolve (some name ∷ nodes) =
      ground (arith, reference_resolves name Kind.health_check_profile, nodes_resolve nodes)

  health_check_resolves :
      (h : Option Text)
      → is_none (validate_health_check get object h) ≡ all resolves (profiles (h ∷ []))
  unfolding validate_health_check
  health_check_resolves none = refl
  health_check_resolves (some name) =
      ground (arith, reference_resolves name Kind.health_check_profile)

  profiles-append : (xs ys : List (Option Text)) → profiles (xs ++ ys) ≡ profiles xs ++ profiles ys
  profiles-append [] ys = refl
  profiles-append (none ∷ xs) ys = profiles-append xs ys
  profiles-append (some name ∷ xs) ys =
      ap (◌∷◌ (Kind.health_check_profile, name)) (profiles-append xs ys)

  groups_resolve :
      (groups : List NodeGroup) (nodes : List (Option Text))
      → is_none (validate_groups get object groups nodes)
        ≡ (all resolves (profiles nodes) && all resolves (group_profiles groups))
  unfolding validate_groups
  groups_resolve [] nodes = ground (arith, nodes_resolve nodes)
  groups_resolve (g ∷ groups) nodes = ground (
    arith,
    health_check_resolves g.health_check,
    groups_resolve groups (nodes ++ g.nodes),
    ap (all resolves) (profiles-append nodes g.nodes),
    all-append resolves (profiles nodes) (profiles g.nodes),
    all-append resolves (profiles (g.health_check ∷ []))
        (profiles g.nodes ++ group_profiles groups),
    all-append resolves (profiles g.nodes) (group_profiles groups),
  )

  locations_resolve :
      (names : List Text)
      → is_none (validate_locations get object names)
        ≡ (not (any (λ n. text_eq n object.name) names) && all resolves (locations names))
  unfolding validate_locations
  locations_resolve [] = refl
  locations_resolve (name ∷ names) =
      ground (arith, reference_resolves name Kind.location, locations_resolve names)

  -- The switch passes exactly when no location names itself and every reference resolves.
  pub body_resolves :
      (body : Body)
      → is_none (validate_body get object body)
        ≡ (not (names_itself object.name body) && all resolves (references body))
  unfolding validate_body validate_location references names_itself
  body_resolves (plain kind) = refl
  body_resolves (Body.dns_endpoint none) = refl
  body_resolves (Body.dns_endpoint (some name)) = ground (arith, reference_resolves name Kind.zone)
  body_resolves (Body.prefix_list name) = ground (arith, reference_resolves name Kind.location)
  body_resolves (Body.location l) = ground (
    arith,
    locations_resolve (location_names l),
    groups_resolve l.node_groups l.nodes,
    all-append resolves (locations (location_names l))
        (profiles l.nodes ++ group_profiles l.node_groups),
    all-append resolves (profiles l.nodes) (group_profiles l.node_groups),
  )
