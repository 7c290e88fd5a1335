-- ===== src/Controller/Zones.antt =====
-- internal/controller/zone_controller.go: a zone goes once no DNSEndpoint names it any more. Each
-- call to the API server may fail; a list of faults says which.
pub mod Cleanup
mod Tests
use edgecdnx_controller.Common.{
  ◌≡◌, Bool, true, false, not, ◌&&◌, ◌||◌, Option, none, some, List, [], ◌∷◌, Text, codes, text_eq,
  if◌then◌else◌,
}

-- What is read of a DNSEndpoint.
pub record Endpoint : Type 0 where
  pub name : Text
  pub zone : Option Text
  pub deleting : Bool

pub record Zone : Type 0 where
  pub name : Text
  pub deleting : Bool
  -- Whether zoneCleanupFinalizer is among the finalizers.
  pub finalizer : Bool
  pub status : Text

-- HealthStatusHealthy
abbrev pub healthy : Text
healthy = codes "Healthy"

-- The calls that write, in the order of the code.
pub data Write : Type 0 where
  delete_endpoint : (name : Text) → Write
  remove_finalizer add_finalizer set_healthy : Write

-- How `Reconcile` ends.
pub data Ending : Type 0 where
  done requeue failed : Ending

-- `r.Get` of the zone.
pub data Fetched : Type 0 where
  not_found get_failed : Fetched
  found : Zone → Fetched

abbrev pub Outcome : Type 0
Outcome = List Write × Ending

abbrev pub names_zone : Zone → Endpoint → Bool
names_zone z e = elim e.zone [ none ↦ false | some n ↦ text_eq n z.name ]

-- Whether a write fails; a delete that finds nothing does not.
module _ (fails : Write → Bool) where
  -- `write`, and what comes after it.
  abbrev pub then_do : Write → Outcome → Outcome
  then_do w (ws, ending) = if fails w then (w ∷ [], failed) else (w ∷ ws, ending)

  -- The loop over the endpoints, and what follows it; `pending` is the variable.
  unfoldable pub clean_up : Zone → List Endpoint → (pending : Bool) → Outcome
  clean_up z [] true = ([], requeue)
  clean_up z [] false = then_do remove_finalizer ([], done)
  clean_up z (e ∷ es) pending =
      let skipped = clean_up z es pending in
      let held = clean_up z es true in
      if not (names_zone z e)
      then skipped
      else if e.deleting
      then held
      else then_do (delete_endpoint e.name) held

  abbrev pub set_status : Zone → Outcome
  set_status z =
      if not (text_eq z.status healthy) then then_do set_healthy ([], done) else ([], done)

  -- `endpoints` is what r.List returns, `none` an error of it.
  abbrev pub reconcile_deleted : Zone → (endpoints : Option (List Endpoint)) → Outcome
  reconcile_deleted z endpoints =
      if not z.finalizer
      then ([], done)
      else elim endpoints [ none ↦ ([], failed) | some es ↦ clean_up z es false ]

  -- ZoneReconciler.Reconcile
  unfoldable pub reconcile : Fetched → (endpoints : Option (List Endpoint)) → Outcome
  reconcile not_found endpoints = ([], done)
  reconcile get_failed endpoints = ([], failed)
  reconcile (found z) endpoints =
      if z.deleting
      then reconcile_deleted z endpoints
      else if z.finalizer
      then set_status z
      else then_do add_finalizer (set_status z)
