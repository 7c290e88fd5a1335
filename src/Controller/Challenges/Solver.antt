-- ===== src/Controller/Challenges/Solver.antt =====
-- internal/controller/challenge_controller.go: getChallengeResources, the pod that answers an ACME
-- challenge with its Service and its Ingress, and the ApplicationSet that carries them. The MD5 of the
-- challenge's spec and the JSON form of the resources are parameters.
mod Tests
use edgecdnx_controller.Common.{
  ℕ, ℤ, pos, negsuc, Bool, false, ◌&&◌, Option, none, some, List, [], ◌∷◌, ◌++◌, Text, codes,
  text_eq, ◌==◌, ◌+◌, ◌*◌, ◌-◌, if◌then◌else◌, any, all, Map, map_of, no_entries, selects,
}
use edgecdnx_controller.Strings.{replace_all}
use edgecdnx_controller.Api.{Service}
use edgecdnx_controller.Builder.{ThrowerOptions}
use edgecdnx_controller.Builder.Backends.{ServicePort}
use edgecdnx_controller.Builder.Gateways.{ContainerPort}
use edgecdnx_controller.Builder.Ingress.{Ingress, IngressRule, IngressPath}
use edgecdnx_controller.Builder.Appsets.{
  Appset, Requirement, appset_builder_factory, with_helm_values,
}

-- A Challenge, as far as it is read here.
pub record Challenge : Type 0 where
  pub name : Text
  pub dns_name : Text
  pub token : Text
  pub key : Text

-- The pod, with the one container that it has.
pub record Pod : Type 0 where
  pub name : Text
  pub namespace : Text
  pub labels : List (Text × Text)
  pub image : Text
  pub args : List Text
  pub ports : List ContainerPort

pub record PodService : Type 0 where
  pub name : Text
  pub namespace : Text
  pub labels : List (Text × Text)
  pub selector : List (Text × Text)
  pub ports : List ServicePort

pub record Resources : Type 0 where
  pub pod : Pod
  pub service : PodService
  pub ingress : Ingress

abbrev pub solver_labels : Challenge → (hash : Text) → List (Text × Text)
solver_labels c hash = (codes "app", c.name) ∷ (codes "hash", hash) ∷ []

abbrev pub solver_pod : ThrowerOptions → Challenge → (hash : Text) → Pod
solver_pod o c hash = record {
  name = c.name;
  namespace = o.target_namespace;
  labels = solver_labels c hash;
  image = codes "quay.io/jetstack/cert-manager-acmesolver:v1.17.2";
  args =
      codes "--listen-port=8089"
      ∷ (codes "--domain=" ++ c.dns_name)
      ∷ (codes "--token=" ++ c.token)
      ∷ (codes "--key=" ++ c.key)
      ∷ [];
  ports = record { name = codes "http"; container_port = 8089 } ∷ [];
}

abbrev pub solver_service : ThrowerOptions → Challenge → (hash : Text) → PodService
solver_service o c hash = record {
  name = replace_all b'.' b'-' c.name;
  namespace = o.target_namespace;
  labels = solver_labels c hash;
  selector = solver_labels c hash;
  ports = record { name = codes "http"; port = 8089; target_port = 8089 } ∷ [];
}

abbrev pub challenge_path : Challenge → Text
challenge_path c = codes "/.well-known/acme-challenge/" ++ c.token

abbrev pub solver_ingress : ThrowerOptions → Challenge → Service → (hash : Text) → Ingress
solver_ingress o c owner hash = record {
  name = c.name;
  namespace = o.target_namespace;
  labels = map_of (solver_labels c hash);
  annotations =
      map_of
        ((codes "nginx.ingress.kubernetes.io/whitelist-source-range", codes "0.0.0.0/0,::/0") ∷ []);
  ingress_class = some owner.cache;
  rules =
      record {
        host = c.dns_name;
        paths =
            record {
              path = challenge_path c;
              service_name = replace_all b'.' b'-' c.name;
              port = pos 8089;
            }
            ∷ [];
      }
      ∷ [];
  tls = [];
}

abbrev pub resources_of : ThrowerOptions → Challenge → (owner : Service) → (hash : Text) → Resources
resources_of o c owner hash = record {
  pod = solver_pod o c hash;
  service = solver_service o c hash;
  ingress = solver_ingress o c owner hash;
}

-- getChallengeResources: `md5` is the digest of the spec's JSON form, or an error of json.Marshal.
unfoldable pub get_challenge_resources :
    (md5 : Challenge → Option Text)
    → ThrowerOptions
    → Challenge
    → (owner : Service) → Option Resources
get_challenge_resources md5 o c owner = elim (md5 c) [
  | none ↦ none
  | some hash ↦ some (resources_of o c owner hash)
]

-- The ApplicationSet of Reconcile.
unfoldable pub solver_appset :
    (json : Resources → Text)
    → ThrowerOptions
    → Challenge
    → (namespace : Text) → Resources
    → Option Appset
solver_appset json o c namespace resources =
    elim (appset_builder_factory (codes "Challenge") c.name namespace o) [
      | none ↦ none
      | some a ↦ some (with_helm_values (json resources) a)
    ]

abbrev is_port : ℕ → ℤ → Bool
is_port n (pos m) = n == m
is_port n (negsuc m) = false

-- What follows a prefix.
unfoldable pub after_prefix : Text → Text → Option Text
after_prefix s [] = some s
after_prefix [] (d ∷ t) = none
after_prefix (c ∷ s) (d ∷ t) = let rest = after_prefix s t in if c == d then rest else none

-- The value of an option among the arguments of a program: `--option=value`.
unfoldable pub value_of : Text → List Text → Option Text
value_of option [] = none
value_of option (a ∷ args) =
    let rest = value_of option args in
    elim (after_prefix a option) [ none ↦ rest | some value ↦ some value ]

-- The number that decimal digits write.
unfoldable pub number_of : ℕ → Text → ℕ
number_of n [] = n
number_of n (c ∷ digits) = number_of (10 * n + (c - 48)) digits

-- Whether the program of the pod listens on a port, which is what the pod exposes.
unfoldable pub listens : Pod → ℕ → Bool
listens pod port =
    any (λ c. c.container_port == port) pod.ports
    && elim (value_of (codes "--listen-port=") pod.args) [
      | none ↦ false
      | some digits ↦ number_of 0 digits == port
    ]

-- Whether a port of the Service, asked for by a path of the Ingress, leads to the program of the pod.
abbrev leads : Resources → IngressPath → ServicePort → Bool
leads x p q =
    text_eq x.service.name p.service_name && (is_port q.port p.port && listens x.pod q.target_port)

-- Whether a request for a host and a path comes to the pod: by a rule of the Ingress, to a Service of
-- the same namespace that selects the pod.
abbrev pub reaches : Resources → (host path : Text) → Bool
reaches x host path =
    any
      (λ r.
        text_eq r.host host
        && any (λ p. text_eq p.path path && any (leads x p) x.service.ports) r.paths)
      x.ingress.rules
    && (selects x.service.selector (map_of x.pod.labels)
        && (text_eq x.ingress.namespace x.service.namespace
            && text_eq x.service.namespace x.pod.namespace))
