-- ===== src/Controller/Zones/Cleanup.antt =====
-- What the cleanup of a zone guarantees.
use edgecdnx_controller.Common.{
  ◌≡◌, refl, Bool, true, false, not, ◌&&◌, ◌||◌, Option, none, some, List, [], ◌∷◌, Text, text_eq,
  arith, any,
}
use edgecdnx_controller.Controller.Zones.{
  Endpoint, Zone, Write, remove_finalizer, delete_endpoint, found, requeue, Ending, names_zone,
  clean_up, reconcile,
}

-- Whether the finalizer is taken off among these writes.
abbrev pub releases : List Write → Bool
releases [] = false
releases (w ∷ ws) = (elim w [ remove_finalizer ↦ true | _ ↦ false ]) || releases ws

-- Whether an endpoint is deleted among these writes.
abbrev pub deletes : Text → List Write → Bool
deletes n [] = false
deletes n (w ∷ ws) = (elim w [ delete_endpoint m ↦ text_eq m n | _ ↦ false ]) || deletes n ws

module _ (fails : Write → Bool) where
  releases-clean_up :
      (z : Zone) (es : List Endpoint) (pending : Bool)
      → releases (clean_up fails z es pending).0 ≡ (not pending && not (any (names_zone z) es))
  unfolding clean_up
  releases-clean_up z [] true = refl
  releases-clean_up z [] false = ground arith
  releases-clean_up z (e ∷ es) pending =
      ground (arith, releases-clean_up z es pending, releases-clean_up z es true)

  -- The write that takes a zone's finalizer off is made exactly when the zone is being deleted, carries it, and the
  -- endpoints could be listed and none of them names the zone.
  pub releases-reconcile :
      (z : Zone) (es : Option (List Endpoint))
      → releases (reconcile fails (found z) es).0 ≡ (
          z.deleting
          && (z.finalizer && elim es [ none ↦ false | some l ↦ not (any (names_zone z) l) ]))
  unfolding reconcile
  releases-reconcile z none = ground arith
  releases-reconcile z (some l) = ground (arith, releases-clean_up z l false)

abbrev pub never : Write → Bool
never w = false

-- Whether the endpoint is one that is to be deleted under the name.
abbrev pub is_stale : Zone → (name : Text) → Endpoint → Bool
is_stale z n e = names_zone z e && (not e.deleting && text_eq e.name n)

deletes-clean_up :
    (z : Zone) (n : Text) (es : List Endpoint) (pending : Bool)
    → deletes n (clean_up never z es pending).0 ≡ any (is_stale z n) es
unfolding clean_up
deletes-clean_up z n [] true = refl
deletes-clean_up z n [] false = refl
deletes-clean_up z n (e ∷ es) pending =
    ground (arith, deletes-clean_up z n es pending, deletes-clean_up z n es true)

abbrev pub is_requeue : Ending → Bool
is_requeue requeue = true
is_requeue _ = false

is_requeue-clean_up :
    (z : Zone) (es : List Endpoint) (pending : Bool)
    → is_requeue (clean_up never z es pending).1 ≡ (pending || any (names_zone z) es)
unfolding clean_up
is_requeue-clean_up z [] true = refl
is_requeue-clean_up z [] false = refl
is_requeue-clean_up z (e ∷ es) pending =
    ground (arith, is_requeue-clean_up z es pending, is_requeue-clean_up z es true)

-- When no call fails, the reconciliation of a zone that is being deleted and carries the finalizer
-- deletes exactly the endpoints that name the zone and are not being deleted, and is run again
-- exactly when an endpoint names the zone.
pub reconcile-deletes :
    (z : Zone) (n : Text) (es : List Endpoint)
    → z.deleting ≡ true
    → z.finalizer ≡ true
    → (deletes n (reconcile never (found z) (some es)).0 ≡ any (is_stale z n) es)
      × (is_requeue (reconcile never (found z) (some es)).1 ≡ any (names_zone z) es)
unfolding reconcile
reconcile-deletes z n es d f =
    (ground (arith, deletes-clean_up z n es false), ground (arith, is_requeue-clean_up z es false))
