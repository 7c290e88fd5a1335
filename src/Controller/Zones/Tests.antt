-- ===== src/Controller/Zones/Tests.antt =====
-- The cleanup of one zone.
use edgecdnx_controller.Common.{◌≡◌, refl, true, false, some, [], ◌∷◌, text_eq, codes}
use edgecdnx_controller.Controller.Zones.{Zone, Endpoint, found, reconcile}
use edgecdnx_controller.Controller.Zones.Cleanup.{
  releases, deletes, never, is_requeue, releases-reconcile, reconcile-deletes,
}

abbrev leaving : Zone
leaving = record { name = codes "z"; deleting = true; finalizer = true; status = [] }

abbrev endpoint : Endpoint
endpoint = record { name = codes "e"; zone = some (codes "z"); deleting = false }

releases-reconcile_example : releases (reconcile never (found leaving) (some [])).0 ≡ true
releases-reconcile_example = releases-reconcile never leaving (some [])

reconcile-deletes_example :
    (deletes (codes "e") (reconcile never (found leaving) (some (endpoint ∷ []))).0 ≡ true)
    × (is_requeue (reconcile never (found leaving) (some (endpoint ∷ []))).1 ≡ true)
unfolding text_eq
reconcile-deletes_example = reconcile-deletes leaving (codes "e") (endpoint ∷ []) refl refl
