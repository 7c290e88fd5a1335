-- ===== src/Controller/Downstream/Worker.antt =====
-- internal/controller/downstream_controller.go: runWorker, on a queue that the handlers of the
-- upstream cache fill. One worker takes the keys in their order, and a key whose reconciliation
-- fails is queued again at once; the delays of the rate limiter are not modelled. Nothing else
-- changes the local cluster.
use edgecdnx_controller.Common.{
  Bool, true, false, Option, none, some, List, [], ◌∷◌, ◌++◌, any, not, if◌then◌else◌,
}
use edgecdnx_controller.Controller.Downstream.{
  Object, Key, Reconciler, Faults, same_key, set_empty_status,
}
use edgecdnx_controller.Controller.Downstream.Reconcile.{Local, Server, Outcome, reconcile_key}
use edgecdnx_controller.Controller.Downstream.Queue.{is_in_target}

-- What the upstream cache holds, the local cluster, and the queue.
pub record World (Spec Status : Type 0) : Type 0 where
  pub upstream : Key → Option (Object Spec Status)
  pub local : Local Spec Status
  pub queue : List Key

-- An object of the upstream cache changes, or the worker takes a key, with calls that may fail.
pub data Step (Spec Status : Type 0) : Type 0 where
  change : Key → Option (Object Spec Status) → Step Spec Status
  item : Faults → Step Spec Status

abbrev pub waits : Key → (queue : List Key) → Bool
waits key queue = any (λ q. same_key q key) queue

-- `queue.Add`: a key that waits already is not added.
abbrev pub add : Key → (queue : List Key) → List Key
add key queue = if waits key queue then queue else queue ++ key ∷ []

module _ {Spec Status : Type 0} (server : Server Spec Status) (r : Reconciler) (empty : Status)
    (deep_equal : Object Spec Status → Object Spec Status → Bool) where
  abbrev pub reconciled : Faults → World Spec Status → Key → Outcome Spec Status
  reconciled faults w key =
      reconcile_key server faults r empty deep_equal key (w.upstream key) w.local

  -- The body of the loop, for a key and those that wait behind it.
  unfoldable pub work_key : Faults → World Spec Status → Key → (rest : List Key) → World Spec Status
  work_key faults w key rest =
      let (after, error) = reconciled faults w key in
      record {
        upstream = w.upstream;
        local = after;
        queue = elim error [ none ↦ rest | some e ↦ add key rest ];
      }

  unfoldable pub work : Faults → World Spec Status → World Spec Status
  work faults w = elim w.queue [ [] ↦ w | key ∷ rest ↦ work_key faults w key rest ]

  -- The handlers: the key of an object that changes is queued, if it is mirrored.
  unfoldable pub changed : Key → Option (Object Spec Status) → World Spec Status → World Spec Status
  changed key o w = record {
    upstream = λ k. if same_key key k then o else w.upstream k;
    local = w.local;
    queue = if is_in_target r key then add key w.queue else w.queue;
  }

  unfoldable pub run : List (Step Spec Status) → World Spec Status → World Spec Status
  run [] w = w
  run (change key o ∷ steps) w = run steps (changed key o w)
  run (item faults ∷ steps) w = run steps (work faults w)

-- How Start ends.
pub data Ending : Type 0 where
  stopped stopped_before_sync not_synced not_listed cache_stopped cache_ended : Ending

-- Start: `synced` is what WaitForCacheSync returns; a cache that has ended by then, or later, says
-- whether it has an error, and `none` is one that runs on, until the context is done. `queued` are the
-- keys of the mirrors that are there, and whether all were listed; the second part of the result is
-- the queue with which the workers start.
unfoldable pub start_reconciler :
    (synced : Bool) → (early late : Option Bool) → (queued : List Key × Bool) → Ending × List Key
start_reconciler false none late queued = (not_synced, [])
start_reconciler false (some error) late queued =
    (if error then stopped_before_sync else stopped, [])
start_reconciler true early late (keys, listed) = if not listed then (not_listed, []) else (
  elim late [ none ↦ stopped | some error ↦ if error then cache_stopped else cache_ended ],
  keys,
)

module _ {Spec Status : Type 0} (empty : Status)
    (strip : Object Spec Status → Option (Object Spec Status)) where
  -- DownstreamCacheTransform of a resource, with the function that strips the managed fields: `none`
  -- is its error.
  unfoldable pub downstream_cache_transform : Object Spec Status → Option (Object Spec Status)
  downstream_cache_transform o = elim (strip o) [
    | none ↦ none
    | some s ↦ some (set_empty_status empty s)
  ]
