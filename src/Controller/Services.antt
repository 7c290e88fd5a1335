-- ===== src/Controller/Services.antt =====
-- internal/controller/service_controller.go, with internal/builder/cert_builder.go: the certificate,
-- the ApplicationSet and the status of a Service. A reconciliation writes at most once, so that it
-- is a function from what it reads to that write. The hashes of what the builders make are
-- parameters, and so is SetControllerReference.
pub mod Progress
pub mod Objects
mod Tests
use edgecdnx_controller.Common.{
  ◌≡◌, Bool, true, false, not, ◌&&◌, ◌||◌, Option, none, some, List, [], ◌∷◌, Text, codes, text_eq,
  if◌then◌else◌,
}

pub record Service : Type 0 where
  pub name : Text
  pub domain : Text
  pub host_aliases : List Text
  -- status.status; the status is empty when it is.
  pub status : Text

-- HealthStatusHealthy and HealthStatusProgressing
abbrev pub healthy : Text
healthy = codes "Healthy"

abbrev pub progressing : Text
progressing = codes "Progressing"

-- A Certificate: the annotation ValuesHashAnnotation, and of each condition whether it is Ready and
-- True.
pub record Certificate : Type 0 where
  pub deleting : Bool
  pub has_controller : Bool
  pub hash : Option Text
  pub conditions : List Bool

pub record Appset : Type 0 where
  pub deleting : Bool
  pub hash : Option Text

-- tls.key and tls.crt, encoded.
pub record Secret : Type 0 where
  pub key : Text
  pub crt : Text

-- What `r.Get` returns.
pub data Fetched {ℓ} (A : Type ℓ) : Type ℓ where
  not_found get_failed : Fetched A
  found : A → Fetched A

pub data Write : Type 0 where
  create_certificate update_certificate create_appset update_appset : (hash : Text) → Write
  adopt_certificate : Write
  set_status : Text → Write

-- How `Reconcile` ends: with an error, with nothing to do, or with one write.
pub data Outcome : Type 0 where
  failed done : Outcome
  writes : Write → Outcome

-- What a reconciliation reads, and what the libraries make of it.
pub record Reads : Type 0 where
  pub certificate : Fetched Certificate
  pub secret : Fetched Secret
  pub appset : Fetched Appset
  -- The hash of the certificate for these names, or an error of json.Marshal.
  pub certificate_hash : (dns_names : List Text) → Option Text
  -- The hash of the ApplicationSet for the service and the certificate that is passed down.
  pub appset_hash : Service → (passed : Option Secret) → Option Text
  -- Whether SetControllerReference has an error.
  pub certificate_owner_fails : Bool
  pub appset_owner_fails : Bool

abbrev pub has_hash : Option Text → Text → Bool
has_hash none h = false
has_hash (some g) h = text_eq g h

-- The DNS names of the certificate: those of NewDefaultCertBuilder, or of WithDNSNames.
abbrev pub dns_names : Service → List Text
dns_names s = elim s.host_aliases [ [] ↦ s.domain ∷ [] | n ∷ ns ↦ s.domain ∷ n ∷ ns ]

module _ (r : Reads) (s : Service) where
  abbrev pub reconcile_status : Outcome
  reconcile_status = if not (text_eq s.status healthy) then writes (set_status healthy) else done

  -- The section on the ApplicationSet, with its hash.
  abbrev pub put_appset : (hash : Text) → Outcome
  put_appset hash = elim r.appset [
    | not_found ↦ if r.appset_owner_fails then failed else writes (create_appset hash)
    | get_failed ↦ failed
    | found a ↦
        if a.deleting
        then done
        else if not (has_hash a.hash hash)
        then writes (update_appset hash)
        else reconcile_status
  ]

  abbrev pub reconcile_appset : (passed : Option Secret) → Outcome
  reconcile_appset passed = elim (r.appset_hash s passed) [
    | none ↦ failed
    | some hash ↦ put_appset hash
  ]

  -- The loop over the conditions; `passed` is the certificate of the resource that is passed down.
  unfoldable pub pass_down : (conditions : List Bool) → (passed : Option Secret) → Outcome
  pass_down [] passed = reconcile_appset passed
  pass_down (ready ∷ conditions) passed =
      let skipped = pass_down conditions passed in
      elim r.secret [
        | not_found ↦ if ready then done else skipped
        | get_failed ↦ if ready then failed else skipped
        | found secret ↦
            let taken = pass_down conditions (some secret) in if ready then taken else skipped
      ]

  -- The section on the certificate, with its hash.
  abbrev pub put_certificate : (hash : Text) → Outcome
  put_certificate hash = elim r.certificate [
    | not_found ↦ if r.certificate_owner_fails then failed else writes (create_certificate hash)
    | get_failed ↦ failed
    | found c ↦
        if c.deleting
        then done
        else if not c.has_controller
        then (if r.certificate_owner_fails then failed else writes adopt_certificate)
        else if not (has_hash c.hash hash)
        then writes (update_certificate hash)
        else pass_down c.conditions none
  ]

  abbrev pub reconcile_certificate : Outcome
  reconcile_certificate = elim (r.certificate_hash (dns_names s)) [
    | none ↦ failed
    | some hash ↦ put_certificate hash
  ]

-- ServiceReconciler.Reconcile
unfoldable pub reconcile : Reads → (service : Fetched Service) → Outcome
reconcile r not_found = done
reconcile r get_failed = failed
reconcile r (found s) =
    if not (text_eq s.status []) then reconcile_certificate r s else writes (set_status progressing)
