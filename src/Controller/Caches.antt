-- ===== src/Controller/Caches.antt =====
-- internal/controller/service_cache_controller.go: the objects that serve a Service from a cache. The
-- hashes of what the builders make, base64 and SetControllerReference are parameters.
pub mod Health
pub mod Objects
mod Tests
use edgecdnx_controller.Common.{
  ◌≡◌, Bool, true, false, not, ◌&&◌, ◌||◌, Option, none, some, List, [], ◌∷◌, Text, codes, text_eq,
  if◌then◌else◌,
}

pub record Service : Type 0 where
  pub deleting : Bool
  -- status.status; the status is empty when it is.
  pub status : Text
  pub origin_type : Text
  -- The upstreams of spec.staticOrigins.
  pub static_origins : List Text
  pub domain : Text
  pub crt : Text
  pub key : Text

pub data Part : Type 0 where
  service deployment secret ingress : Part

-- What `r.Get` returns; of an object, the annotation ValuesHashAnnotation.
pub data Fetched {ℓ} (A : Type ℓ) : Type ℓ where
  not_found get_failed : Fetched A
  found : A → Fetched A

pub data Write : Type 0 where
  create update : Part → (hash : Text) → Write
  delete_deployment : Write
  set_status : Text → Write

-- How a reconciliation ends; it panics at the first of no static origins.
pub data Ending : Type 0 where
  done failed panicked : Ending

abbrev pub Outcome : Type 0
Outcome = List Write × Ending

abbrev pub stop : Ending → Outcome
stop ending = ([], ending)

-- What a service of its own gets: the upstream of an ExternalName service, or an S3 gateway's domain.
pub data Backend : Type 0 where
  plain_backend : Backend
  upstream s3_gateway : Text → Backend

-- What a reconciliation reads, and what the libraries make of it; `none` is an error.
pub record Reads : Type 0 where
  pub current : Part → Fetched (Option Text)
  pub service_hash : Backend → Option Text
  pub deployment_hash : Service → Option Text
  pub secret_hash : (crt key : Text) → Option Text
  pub ingress_hash : Service → Option Text
  pub decode : Text → Option Text
  pub owner_fails : Part → Bool
  pub fails : Write → Bool

abbrev pub has_hash : Option Text → Text → Bool
has_hash none h = false
has_hash (some g) h = text_eq g h

abbrev pub origin_static : Text
origin_static = codes "static"

abbrev pub origin_s3 : Text
origin_s3 = codes "s3"

abbrev pub healthy : Text
healthy = codes "Healthy"

abbrev pub progressing : Text
progressing = codes "Progressing"

module _ (r : Reads) where
  -- A write, and what follows if it does not fail.
  abbrev pub then_do : Write → Outcome → Outcome
  then_do w (ws, ending) = if r.fails w then (w ∷ [], failed) else (w ∷ ws, ending)

  -- An object that is created with `after_create` behind it, updated, or current with `next`.
  abbrev pub ensure : Part → Option Text → (after_create next : Outcome) → Outcome
  ensure part built after_create next = elim built [
    | none ↦ stop failed
    | some hash ↦ elim (r.current part) [
      | get_failed ↦ stop failed
      | not_found ↦
          if r.owner_fails part then stop failed else then_do (create part hash) after_create
      | found annotation ↦
          if not (has_hash annotation hash) then then_do (update part hash) (stop done) else next
    ]
  ]

  abbrev pub put_status : Outcome
  put_status = then_do (set_status healthy) (stop done)

  -- `Ingress Resource`: a created ingress does not end the reconciliation.
  abbrev pub put_ingress : Service → Outcome
  put_ingress s = ensure ingress (r.ingress_hash s) put_status put_status

  abbrev pub put_decoded : Service → (crt key : Text) → Outcome
  put_decoded s crt key = ensure secret (r.secret_hash crt key) (stop done) (put_ingress s)

  -- `Manage certificate from Service TLS Secret`
  abbrev pub put_secret : Service → Outcome
  put_secret s =
      if not (text_eq s.crt []) && not (text_eq s.key [])
      then elim (r.decode s.crt) [
        | none ↦ stop failed
        | some crt ↦ elim (r.decode s.key) [ none ↦ stop failed | some key ↦ put_decoded s crt key ]
      ]
      else put_ingress s

  -- `S3Gateway Deployment`
  abbrev pub put_deployment : Service → Outcome
  put_deployment s =
      if text_eq s.origin_type origin_static
      then elim (r.current deployment) [
        | found annotation ↦ then_do delete_deployment (stop done)
        | get_failed ↦ stop failed
        | not_found ↦ put_secret s
      ]
      else if text_eq s.origin_type origin_s3
      then ensure deployment (r.deployment_hash s) (stop done) (put_secret s)
      else put_secret s

  abbrev pub put_service : Service → Backend → Outcome
  put_service s backend = ensure service (r.service_hash backend) (stop done) (put_deployment s)

  -- `Service`: the two origin types differ, so that at most one of the two tests holds.
  abbrev pub put_all : Service → Outcome
  put_all s =
      if text_eq s.origin_type origin_static
      then elim s.static_origins [ [] ↦ stop panicked | u ∷ us ↦ put_service s (upstream u) ]
      else if text_eq s.origin_type origin_s3
      then put_service s (s3_gateway s.domain)
      else put_service s plain_backend

  -- ServiceCacheReconciler.Reconcile
  unfoldable pub reconcile : Fetched Service → Outcome
  reconcile not_found = stop done
  reconcile get_failed = stop failed
  reconcile (found s) =
      if s.deleting
      then stop done
      else if not (text_eq s.status [])
      then put_all s
      else then_do (set_status progressing) (stop done)
