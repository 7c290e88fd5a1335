-- ===== src/Controller/Downstream/Pool.antt =====
-- internal/controller/downstream_controller.go: the workers that Start runs side by side, each in the
-- loop of runWorker, on one queue. The queue is that of client-go, an interface here. A worker reads
-- the upstream cache in one step and acts on the local cluster in a later one, so that a source may
-- change in between; what it does to the local cluster is one step, since the workers never hold the
-- same key.
pub mod Exclusion
pub mod Tended
pub mod Handlers
pub mod Cover
mod Lists
mod Tests
use edgecdnx_controller.Common.{
  ◌≡◌, ℕ, Bool, true, false, not, ◌&&◌, ◌||◌, Option, none, some, ◌==◌, if◌then◌else◌,
}
use edgecdnx_controller.Controller.Downstream.{Object, Key, Reconciler, Faults, Error, same_key}
use edgecdnx_controller.Controller.Downstream.Reconcile.{Local, Server, Outcome, reconcile_key}
use edgecdnx_controller.Controller.Downstream.Queue.{is_in_target, downstream_source_equal}
use edgecdnx_controller.Controller.Downstream.Agreement.{is_honest}

-- workqueue.TypedRateLimitingInterface. A key waits from the moment it is added, with a delay or
-- without, until Get gives it out; it is busy from then until Done. Get gives out no busy key.
pub record Workqueue : Type 1 where
  pub Queue : Type 0
  pub add : Key → Queue → Queue
  pub add_rate_limited : Key → Queue → Queue
  pub finish : Key → Queue → Queue
  pub get : Queue → Option (Key × Queue)
  pub waits : Key → Queue → Bool
  pub busy : Key → Queue → Bool
  pub waits-add : (k key : Key) (q : Queue) → waits k (add key q) ≡ (waits k q || same_key key k)
  pub busy-add : (k key : Key) (q : Queue) → busy k (add key q) ≡ busy k q
  pub waits-add_rate_limited :
      (k key : Key) (q : Queue) → waits k (add_rate_limited key q) ≡ (waits k q || same_key key k)
  pub busy-add_rate_limited : (k key : Key) (q : Queue) → busy k (add_rate_limited key q) ≡ busy k q
  pub waits-finish : (k key : Key) (q : Queue) → waits k (finish key q) ≡ waits k q
  pub busy-finish :
      (k key : Key) (q : Queue) → busy k (finish key q) ≡ (busy k q && not (same_key key k))
  pub waits-get :
      (k key : Key) (q rest : Queue)
      → get q ≡ some (key, rest)
      → waits k rest ≡ (waits k q && not (same_key key k))
  pub busy-get :
      (k key : Key) (q rest : Queue)
      → get q ≡ some (key, rest)
      → busy k rest ≡ (busy k q || same_key key k)
  pub get-free : (key : Key) (q rest : Queue) → get q ≡ some (key, rest) → busy key q ≡ false

-- Where a worker is: at Get, with a key, with what it has read for it, behind reconcileKey with an
-- error or none, and behind Done with an error.
pub data Phase (Spec Status : Type 0) : Type 0 where
  idle : Phase Spec Status
  got : Key → Phase Spec Status
  holds : Key → (source : Option (Object Spec Status)) → Phase Spec Status
  ended : Key → Option Error → Phase Spec Status
  failing : Key → Phase Spec Status

-- Behind `r.queue.Done(key)`: whether the worker goes on to AddRateLimited.
abbrev pub after_done : {Spec Status : Type 0} → Key → Option Error → Phase Spec Status
after_done key none = idle
after_done key (some e) = failing key

abbrev pub at_worker {ℓ} : {A : Type ℓ} → ℕ → A → (ℕ → A) → ℕ → A
at_worker i p workers j = if i == j then p else workers j

module _ (c : Workqueue) (Spec Status : Type 0) where
  -- The upstream cache, the local cluster, the queue, and the workers by their numbers.
  pub record System : Type 0 where
    pub upstream : Key → Option (Object Spec Status)
    pub local : Local Spec Status
    pub queue : c.Queue
    pub workers : ℕ → Phase Spec Status

module _ (c : Workqueue) {Spec Status : Type 0} where
  abbrev pub move : ℕ → Phase Spec Status → c.Queue → System c Spec Status → System c Spec Status
  move i p q w = record w { queue = q; workers = at_worker i p w.workers }

  module _ (server : Server Spec Status) (r : Reconciler) (empty : Status)
      (deep_equal : Object Spec Status → Object Spec Status → Bool) where
    -- reconcileKey on what was read.
    abbrev pub outcome :
        Faults → Key → Option (Object Spec Status) → System c Spec Status → Outcome Spec Status
    outcome faults key source w = reconcile_key server faults r empty deep_equal key source w.local

    abbrev pub acted :
        ℕ → Faults → Key → Option (Object Spec Status) → System c Spec Status → System c Spec Status
    acted i faults key source w =
        let (after, error) = outcome faults key source w in
        record w { local = after; workers = at_worker i (ended key error) w.workers }

    -- The event handlers, for an object that changes.
    abbrev pub changed :
        Key → Option (Object Spec Status) → System c Spec Status → System c Spec Status
    changed key o w = record w {
      upstream = λ k. if same_key key k then o else w.upstream k;
      queue = if is_in_target r key then c.add key w.queue else w.queue;
    }

    -- An update that the handler does not queue.
    abbrev pub replaced :
        Key → (new : Object Spec Status) → System c Spec Status → System c Spec Status
    replaced key new w = record w {
      upstream = λ k. if same_key key k then some new else w.upstream k;
    }

    -- What may happen next. A source changes, and its key is queued; or an update of it has an equal
    -- source, and is not queued. A worker takes a key, reads its source, reconciles it, is done with
    -- it, and queues it again if there was an error.
    pub data Step (w : System c Spec Status) : System c Spec Status → Type 0 where
      change : (key : Key) (o : Option (Object Spec Status)) → Step w (changed key o w)
      ignore :
          (key : Key) (old new : Object Spec Status)
          → w.upstream key ≡ some old
          → downstream_source_equal r empty deep_equal old new ≡ true
          → Step w (replaced key new w)
      take :
          (i : ℕ) (key : Key) (rest : c.Queue)
          → w.workers i ≡ idle
          → c.get w.queue ≡ some (key, rest)
          → Step w (move i (got key) rest w)
      read_source :
          (i : ℕ) (key : Key)
          → w.workers i ≡ got key
          → Step w (move i (holds key (w.upstream key)) w.queue w)
      act :
          (i : ℕ) (key : Key) (source : Option (Object Spec Status)) (faults : Faults)
          → w.workers i ≡ holds key source
          → is_honest faults ≡ true
          → Step w (acted i faults key source w)
      finish :
          (i : ℕ) (key : Key) (error : Option Error)
          → w.workers i ≡ ended key error
          → Step w (move i (after_done key error) (c.finish key w.queue) w)
      retry :
          (i : ℕ) (key : Key)
          → w.workers i ≡ failing key
          → Step w (move i idle (c.add_rate_limited key w.queue) w)

    -- The states that are reached from a first one.
    pub data Reach (first : System c Spec Status) : System c Spec Status → Type 0 where
      start : Reach first first
      later : {w v : System c Spec Status} → Reach first w → Step w v → Reach first v
