-- ===== src/Controller/Downstream/Start.antt =====
-- internal/controller/downstream_controller.go: Start, from the listing of the mirrors that are there
-- to the queue that runs empty.
use edgecdnx_controller.Common.{
  ◌≡◌, ap, ◌∙◌, Bool, true, false, ◌&&◌, ◌||◌, Option, none, some, List, [], ◌∷◌, Text, any,
  any-append, All, arith, Bool-cases, inl, inr, ◌⊎◌,
}
use edgecdnx_controller.Webhook.Admission.{is_none}
use edgecdnx_controller.Controller.Downstream.{Object, Key, Reconciler, same_key}
use edgecdnx_controller.Controller.Downstream.Reconcile.{Local, Server}
use edgecdnx_controller.Controller.Downstream.Keys.{same_key-eq}
use edgecdnx_controller.Controller.Downstream.Queue.{
  resource, is_in_target, key_of, add_key, enqueue_object, enqueue_items, enqueue_pages,
  enqueue_existing_mirrors,
}
use edgecdnx_controller.Controller.Downstream.Mirror.{SameContent}
use edgecdnx_controller.Controller.Downstream.Worker.{waits, run, start_reconciler}
use edgecdnx_controller.Controller.Downstream.Agreement.{is_mirrored_key, view, wanted, is_ready}
use edgecdnx_controller.Controller.Downstream.Drain.{world, items, IsFit, drain-agrees}

-- The pages of each kind that the local cluster lists.
abbrev pub Listing : (Spec Status : Type 0) → Type 0
Listing Spec Status = List (Text × List (Option (List (Object Spec Status))))

module _ {Spec Status : Type 0} (r : Reconciler) (k : Key) where
  -- Whether items, pages and kinds have an object with the key.
  abbrev pub among : (kind : Text) → List (Object Spec Status) → Bool
  among kind objects = any (λ o. same_key (key_of r kind o) k) objects

  abbrev pub in_page : (kind : Text) → Option (List (Object Spec Status)) → Bool
  in_page kind none = false
  in_page kind (some objects) = among kind objects

  abbrev pub is_listed : Listing Spec Status → Bool
  is_listed kinds = any (λ x. any (in_page x.0) x.1) kinds

  waits-add_key :
      (kind : Text) (o : Object Spec Status) (queue : List Key)
      → waits k (add_key r kind o queue)
        ≡ (waits k queue || (is_in_target r k && same_key (key_of r kind o) k))
  waits-add_key kind o queue = elim (Bool-cases (same_key (key_of r kind o) k)) [
    | inl e ↦
        let target = ap (is_in_target r) (same_key-eq (key_of r kind o) k e) in
        ground (arith, e, target, any-append (λ q. same_key q k) queue (key_of r kind o ∷ []))
    | inr e ↦ ground (arith, e, any-append (λ q. same_key q k) queue (key_of r kind o ∷ []))
  ]

  waits-items :
      (kind : Text) (objects : List (Object Spec Status)) (queue : List Key)
      → waits k (enqueue_items r kind objects queue)
        ≡ (waits k queue || (is_in_target r k && among kind objects))
  unfolding enqueue_items enqueue_object
  waits-items kind [] queue = ground arith
  waits-items kind (o ∷ objects) queue =
      waits-items kind objects (add_key r kind o queue) ∙ ground (arith, waits-add_key kind o queue)

  waits-pages :
      (kind : Text) (pages : List (Option (List (Object Spec Status)))) (queue : List Key)
      → (enqueue_pages r kind pages queue).1 ≡ true
      → waits k (enqueue_pages r kind pages queue).0
        ≡ (waits k queue || (is_in_target r k && any (in_page kind) pages))
  unfolding enqueue_pages
  waits-pages kind [] queue h = ground arith
  waits-pages kind (none ∷ pages) queue h = ground (arith, h)
  waits-pages kind (some objects ∷ pages) queue h =
      waits-pages kind pages (enqueue_items r kind objects queue) h
      ∙ ground (arith, waits-items kind objects queue)

  -- Behind a listing without error the keys of all objects listed wait, where they are mirrored, and
  -- those that waited before.
  pub waits-enqueue_existing_mirrors :
      (kinds : Listing Spec Status) (queue : List Key)
      → (enqueue_existing_mirrors r kinds queue).1 ≡ true
      → waits k (enqueue_existing_mirrors r kinds queue).0
        ≡ (waits k queue || (is_in_target r k && is_listed kinds))
  unfolding enqueue_existing_mirrors
  waits-enqueue_existing_mirrors [] queue h = ground arith
  waits-enqueue_existing_mirrors ((kind, pages) ∷ kinds) queue h =
      elim (Bool-cases (enqueue_pages r kind pages queue).1) [
        | inr e ↦ ground (arith, e, h)
        | inl e ↦
            let rest =
              waits-enqueue_existing_mirrors kinds (enqueue_pages r kind pages queue).0
                (ground (arith, e, h)) in
            ground (arith, e, rest, waits-pages kind pages queue e)
      ]

  -- Whether an object that the cache brought has the key.
  abbrev pub is_brought : List (Text × Object Spec Status) → Bool
  is_brought sources = any (λ x. same_key (key_of r x.0 x.1) k) sources

-- The handler AddFunc for each object that the cache brings when it is filled, with its kind.
unfoldable pub enqueue_sources :
    {Spec Status : Type 0} → Reconciler → List (Text × Object Spec Status) → List Key → List Key
enqueue_sources r [] queue = queue
enqueue_sources r ((kind, o) ∷ sources) queue =
    enqueue_sources r sources (enqueue_object r kind (resource o) queue)

module _ {Spec Status : Type 0} (r : Reconciler) where
  waits-enqueue_sources :
      (k : Key) (sources : List (Text × Object Spec Status)) (queue : List Key)
      → waits k (enqueue_sources r sources queue)
        ≡ (waits k queue || (is_in_target r k && is_brought r k sources))
  unfolding enqueue_sources enqueue_object
  waits-enqueue_sources k [] queue = ground arith
  waits-enqueue_sources k ((kind, o) ∷ sources) queue =
      waits-enqueue_sources k sources (add_key r kind o queue)
      ∙ ground (arith, waits-add_key r k kind o queue)

  -- The queue with which the workers start.
  abbrev pub first_queue : List (Text × Object Spec Status) → Listing Spec Status → List Key
  first_queue sources kinds =
      (start_reconciler true none none
        (enqueue_existing_mirrors r kinds (enqueue_sources r sources []))).1

  -- A key with a source or with a mirror waits at the start; any other holds what is wanted.
  covered_at_start :
      (u : Key → Option (Object Spec Status)) (l : Local Spec Status) (k : Key)
      (sources : List (Text × Object Spec Status)) (kinds : Listing Spec Status)
      → (enqueue_existing_mirrors r kinds (enqueue_sources r sources [])).1 ≡ true
      → is_mirrored_key r k ≡ true
      → (is_none (u k) || is_brought r k sources) ≡ true
      → (is_none (view r l k) || is_listed r k kinds) ≡ true
      → (waits k (first_queue sources kinds) ≡ true) ⊎ (view r l k ≡ wanted r (u k))
  unfolding start_reconciler
  covered_at_start u l k sources kinds listed mirrored brought found =
      elim (Bool-cases (is_brought r k sources || is_listed r k kinds)) [
        | inl e ↦ inl (ground (arith, listed, queue, e, mirrored))
        | inr e ↦ inr (ground (arith, brought, found, e))
      ]
    where
      queue :
          waits k (enqueue_existing_mirrors r kinds (enqueue_sources r sources [])).0
          ≡ (is_in_target r k && (is_brought r k sources || is_listed r k kinds))
      queue =
          waits-enqueue_existing_mirrors r k kinds (enqueue_sources r sources []) listed
          ∙ ground (arith, waits-enqueue_sources k sources [])

  module _ (server : Server Spec Status)
      (create-content : (d : Object Spec Status) → SameContent (server.on_create d) d)
      (update-content : (c d : Object Spec Status) → SameContent (server.on_update c d) d)
      (create-alive : (d : Object Spec Status)
        → (server.on_create d).meta.deletion_timestamp ≡ none)
      (update-alive : (c d : Object Spec Status)
        → (server.on_update c d).meta.deletion_timestamp ≡ c.meta.deletion_timestamp)
      (create-bare : (d : Object Spec Status)
        → (server.on_create d).meta.finalizers ≡ d.meta.finalizers)
      (update-bare : (c d : Object Spec Status)
        → (server.on_update c d).meta.finalizers ≡ d.meta.finalizers)
      (delete-gone : (c : Object Spec Status) → c.meta.finalizers ≡ [] → server.on_delete c ≡ none)
      (empty : Status) (equal : Object Spec Status → Object Spec Status → Bool)
      (equal-sound : (a b : Object Spec Status) → equal a b ≡ true → a ≡ b) where
    -- From the start on: the queue runs empty, and a key of a mirrored kind and namespace then
    -- holds the content of its source, and nothing if the source has gone while no worker ran. No
    -- call fails, the cache brought the source of the key, if it has one, the listing succeeded and
    -- has what is mirrored there, each key queued has a mirrored kind and namespace and a source
    -- with a namespace, if any, and no object of another owner, in deletion or with finalizers
    -- stands at those keys or at the key. The server keeps the content and the finalizers that it
    -- is given, sets no time of deletion on a create or an update, and leaves nothing of an object
    -- without finalizers that is deleted; reflect.DeepEqual holds at equal objects only.
    pub start-agrees :
        (u : Key → Option (Object Spec Status)) (l : Local Spec Status) (k : Key)
        (sources : List (Text × Object Spec Status)) (kinds : Listing Spec Status)
        → (enqueue_existing_mirrors r kinds (enqueue_sources r sources [])).1 ≡ true
        → is_mirrored_key r k ≡ true
        → is_ready r l k ≡ true
        → (is_none (u k) || is_brought r k sources) ≡ true
        → (is_none (view r l k) || is_listed r k kinds) ≡ true
        → All
            (IsFit server create-content update-content create-alive update-alive create-bare
              update-bare delete-gone r empty equal equal-sound u l)
            (first_queue sources kinds)
        → ((run server r empty equal
              (items (first_queue sources kinds))
              (world u l (first_queue sources kinds))).queue
            ≡ [])
          × (view r
                (run server r empty equal
                  (items (first_queue sources kinds))
                  (world u l (first_queue sources kinds))).local
                k
              ≡ wanted r (u k))
    start-agrees u l k sources kinds listed mirrored ready brought found fit =
        drain-agrees server create-content update-content create-alive update-alive create-bare
          update-bare delete-gone r empty equal equal-sound u l (first_queue sources kinds) fit k
          mirrored (covered_at_start u l k sources kinds listed mirrored brought found, ready)
