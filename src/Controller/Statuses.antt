-- ===== src/Controller/Statuses.antt =====
-- internal/controller: location_controller.go, prefixlist_controller.go and
-- healthcheckprofile_controller.go, which each make an object healthy with one write of its status.
use edgecdnx_controller.Common.{Bool, not, ◌&&◌, ◌||◌, [], Text, codes, text_eq, if◌then◌else◌}

-- What is read of a Location, a HealthCheckProfile or a PrefixList.
pub record Object : Type 0 where
  pub deleting : Bool
  pub status : Text
  -- status.consolidationStatus, which only a PrefixList has.
  pub consolidation_status : Text

pub data Fetched : Type 0 where
  not_found get_failed : Fetched
  found : Object → Fetched

-- How a reconciliation ends: with an error, with nothing to do, or with a status to write.
pub data Outcome : Type 0 where
  failed done : Outcome
  writes_status : Text → Outcome

abbrev pub healthy : Text
healthy = codes "Healthy"

-- LocationReconciler.Reconcile
unfoldable pub reconcile_location : Fetched → Outcome
reconcile_location not_found = done
reconcile_location get_failed = failed
reconcile_location (found o) =
    if o.deleting || text_eq o.status healthy then done else writes_status healthy

-- HealthCheckProfileReconciler.Reconcile
unfoldable pub reconcile_health_check_profile : Fetched → Outcome
reconcile_health_check_profile not_found = done
reconcile_health_check_profile get_failed = failed
reconcile_health_check_profile (found o) =
    if o.deleting || text_eq o.status healthy then done else writes_status healthy

-- PrefixListReconciler.Reconcile
unfoldable pub reconcile_prefix_list : Fetched → Outcome
reconcile_prefix_list not_found = done
reconcile_prefix_list get_failed = failed
reconcile_prefix_list (found o) =
    if not (text_eq o.status [] && text_eq o.consolidation_status [])
    then done
    else writes_status healthy
