-- ===== src/Controller/Downstream.antt =====
-- internal/controller/downstream_controller.go: the mirror of an upstream cluster in the local one.
-- The API server (what it makes of an object that is created, updated or deleted) and
-- reflect.DeepEqual are parameters; calls to it may fail before they act.
pub mod Reconcile
pub mod Queue
pub mod Keys
pub mod Foreign
pub mod Mirror
pub mod Worker
pub mod Agreement
pub mod Frame
pub mod Convergence
pub mod Drain
pub mod Start
pub mod Pool
mod Tests
use edgecdnx_controller.Common.{
  ◌≡◌, ℕ, Bool, true, false, not, ◌&&◌, ◌||◌, Option, none, some, List, [], ◌∷◌, Text, codes,
  text_eq, if◌then◌else◌,
}

-- The types of the resources that are mirrored, and any other.
pub data Kind : Type 0 where
  location health_check_profile zone prefix_list dns_endpoint service other : Kind

-- DownstreamTarget
pub data Target : Type 0 where
  router cache : Target

-- What the API server keeps with an object. A time is a number.
pub record ServerMeta : Type 0 where
  pub uid : Text
  pub resource_version : Text
  pub generation : ℕ
  pub creation_timestamp : ℕ
  pub deletion_timestamp : Option ℕ
  pub deletion_grace_period_seconds : Option ℕ
  pub managed_fields : List Text
  pub owner_references : List Text
  pub finalizers : List Text

-- A resource. A map is a function.
pub record Object (Spec Status : Type 0) : Type 0 where
  pub kind : Kind
  pub name : Text
  pub namespace : Text
  pub labels : Text → Option Text
  pub annotations : Text → Option Text
  pub meta : ServerMeta
  pub spec : Spec
  pub status : Status

-- downstreamQueueKey
pub record Key : Type 0 where
  pub kind : Text
  pub namespace : Text
  pub name : Text

abbrev pub same_key : Key → Key → Bool
same_key a b = text_eq a.kind b.kind && (text_eq a.namespace b.namespace && text_eq a.name b.name)

-- An API error.
pub data Failure : Type 0 where
  not_found already_exists refused : Failure

pub data Error : Type 0 where
  empty_namespace not_managed unknown_kind : Error
  failed : Failure → Error

-- A call that fails, by what it is.
pub record Faults : Type 0 where
  pub get_upstream : Option Failure
  pub get_namespace : Option Failure
  pub create_namespace : Option Failure
  pub get : Option Failure
  pub create : Option Failure
  pub update : Option Failure
  pub delete : Option Failure

-- The fields of DownstreamReconciler that reconcileKey reads: `kinds` holds each name with its type.
pub record Reconciler : Type 0 where
  pub target_namespace : Text
  pub source_id : Text
  pub kinds : List (Text × Kind)

abbrev pub find_kind : Text → List (Text × Kind) → Option Kind
find_kind name [] = none
find_kind name ((n, k) ∷ kinds) = if text_eq n name then some k else find_kind name kinds

-- DownstreamManagedLabel
abbrev pub managed_label : Text
managed_label = codes "downstream.edgecdnx.com/source-id"

-- downstreamResourceKinds, for the two targets that are valid.
abbrev pub resource_kinds : (target : Target) → List (Text × Kind)
resource_kinds router =
    (codes "Location", location)
    ∷ (codes "HealthCheckProfile", health_check_profile)
    ∷ (codes "Zone", zone)
    ∷ (codes "PrefixList", prefix_list)
    ∷ (codes "DNSEndpoint", dns_endpoint)
    ∷ []
resource_kinds cache = (codes "Service", service) ∷ []

-- What clearRemoteMetadata leaves.
abbrev pub cleared : ServerMeta
cleared = record {
  uid = [];
  resource_version = [];
  generation = 0;
  creation_timestamp = 0;
  deletion_timestamp = none;
  deletion_grace_period_seconds = none;
  managed_fields = [];
  owner_references = [];
  finalizers = [];
}

-- The setters of `upsert` that take the metadata of `current`; the rest stays cleared.
abbrev pub adopted : (current : ServerMeta) → ServerMeta
adopted current = record {
  uid = current.uid;
  resource_version = current.resource_version;
  generation = current.generation;
  creation_timestamp = current.creation_timestamp;
  deletion_timestamp = none;
  deletion_grace_period_seconds = none;
  managed_fields = [];
  owner_references = current.owner_references;
  finalizers = current.finalizers;
}

module _ {Spec Status : Type 0} where
  abbrev pub with_meta : ServerMeta → Object Spec Status → Object Spec Status
  with_meta m o = record {
    kind = o.kind;
    name = o.name;
    namespace = o.namespace;
    labels = o.labels;
    annotations = o.annotations;
    meta = m;
    spec = o.spec;
    status = o.status;
  }

  abbrev pub with_status : Status → Object Spec Status → Object Spec Status
  with_status st o = record {
    kind = o.kind;
    name = o.name;
    namespace = o.namespace;
    labels = o.labels;
    annotations = o.annotations;
    meta = o.meta;
    spec = o.spec;
    status = st;
  }

  abbrev pub with_labels : (Text → Option Text) → Object Spec Status → Object Spec Status
  with_labels ls o = record {
    kind = o.kind;
    name = o.name;
    namespace = o.namespace;
    labels = ls;
    annotations = o.annotations;
    meta = o.meta;
    spec = o.spec;
    status = o.status;
  }

  -- clearRemoteMetadata
  abbrev pub clear_remote_metadata : Object Spec Status → Object Spec Status
  clear_remote_metadata o = with_meta cleared o

  -- setEmptyStatus: an object of another type is left as it is.
  abbrev pub set_empty_status : (empty : Status) → Object Spec Status → Object Spec Status
  set_empty_status empty o = elim o.kind [ other ↦ o | _ ↦ with_status empty o ]

  -- copyLocalStatus
  abbrev pub copy_local_status : (destination current : Object Spec Status) → Object Spec Status
  copy_local_status destination current = elim destination.kind [
    | other ↦ destination
    | _ ↦ with_status current.status destination
  ]
