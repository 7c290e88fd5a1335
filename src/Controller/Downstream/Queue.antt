-- ===== src/Controller/Downstream/Queue.antt =====
-- internal/controller/downstream_controller.go: the constructor, the event handlers with
-- enqueueObject and downstreamSourceEqual, and the listing of mirrors at the start.
-- reflect.DeepEqual is a parameter; the queue, which drops what it holds already, is a list; a page that cannot be listed is `none`.
use edgecdnx_controller.Common.{
  ◌≡◌, ℕ, refl, Bool, true, false, not, ◌&&◌, ◌||◌, Option, none, some, List, [], ◌∷◌, ◌++◌, Text,
  text_eq, if◌then◌else◌, arith, all, all-append, ltb, subst, ◌∙◌, ◌⊎◌, inl, inr,
}
use edgecdnx_controller.Controller.Downstream.{
  Object, Key, Reconciler, Target, resource_kinds, clear_remote_metadata, set_empty_status,
  with_meta, with_status, ServerMeta, other,
}

pub data SetUpError : Type 0 where
  invalid_target not_configured no_source_id : SetUpError

-- DownstreamWorkers
abbrev pub default_workers : ℕ
default_workers = 16

abbrev pub SetUp : Type 0
SetUp = (Reconciler × ℕ) ⊎ SetUpError

-- NewDownstreamReconciler: `target` is `none` for any other text, `configured` says whether the
-- cache and the client are not nil, and the namespace is set by the caller. A number of workers
-- below 1, a negative one too, is 0 here.
unfoldable pub new_reconciler :
    (target : Option Target)
    → (configured : Bool) → (target_namespace source_id : Text) → (workers : ℕ) → SetUp
new_reconciler none configured target_namespace source_id workers = inr invalid_target
new_reconciler (some target) configured target_namespace source_id workers =
    let r : Reconciler = record {
      target_namespace = target_namespace;
      source_id = source_id;
      kinds = resource_kinds target;
    } in
    if not configured
    then inr not_configured
    else if text_eq source_id []
    then inr no_source_id
    else inl (r, if ltb workers 1 then default_workers else workers)

-- What an event handler is given: a tombstone holds the object that was lost.
pub data Event {ℓ} (A : Type ℓ) : Type ℓ where
  resource : A → Event A
  tombstone : Option A → Event A
  something_else : Event A

-- Whether a key lies in the namespace that is mirrored.
abbrev pub is_in_target : Reconciler → Key → Bool
is_in_target r k = text_eq r.target_namespace [] || text_eq k.namespace r.target_namespace

module _ {Spec Status : Type 0} (r : Reconciler) where
  abbrev pub key_of : (kind : Text) → Object Spec Status → Key
  key_of kind o = record { kind = kind; namespace = o.namespace; name = o.name }

  abbrev pub add_key : (kind : Text) → Object Spec Status → (queue : List Key) → List Key
  add_key kind o queue =
      if not (text_eq r.target_namespace []) && not (text_eq o.namespace r.target_namespace)
      then queue
      else queue ++ key_of kind o ∷ []

  -- enqueueObject
  unfoldable pub enqueue_object :
      (kind : Text) → Event (Object Spec Status) → (queue : List Key) → List Key
  enqueue_object kind (resource o) queue = add_key kind o queue
  enqueue_object kind (tombstone none) queue = queue
  enqueue_object kind (tombstone (some o)) queue = add_key kind o queue
  enqueue_object kind something_else queue = queue

  -- The loop over the items of a page.
  unfoldable pub enqueue_items : (kind : Text) → List (Object Spec Status) → List Key → List Key
  enqueue_items kind [] queue = queue
  enqueue_items kind (o ∷ items) queue =
      enqueue_items kind items (enqueue_object kind (resource o) queue)

  -- The loop over the pages of a kind: `none` ends it with an error.
  unfoldable pub enqueue_pages :
      (kind : Text) → List (Option (List (Object Spec Status))) → List Key → List Key × Bool
  enqueue_pages kind [] queue = (queue, true)
  enqueue_pages kind (none ∷ pages) queue = (queue, false)
  enqueue_pages kind (some items ∷ pages) queue =
      enqueue_pages kind pages (enqueue_items kind items queue)

  -- enqueueExistingMirrors: each kind with its pages, and whether all were listed.
  unfoldable pub enqueue_existing_mirrors :
      List (Text × List (Option (List (Object Spec Status)))) → List Key → List Key × Bool
  enqueue_existing_mirrors [] queue = (queue, true)
  enqueue_existing_mirrors ((kind, pages) ∷ kinds) queue =
      let (after, listed) = enqueue_pages kind pages queue in
      let rest = enqueue_existing_mirrors kinds after in if listed then rest else (after, false)

  module _ (empty : Status) (deep_equal : Object Spec Status → Object Spec Status → Bool) where
    -- What downstreamSourceEqual compares of an object.
    abbrev pub source_of : Object Spec Status → Object Spec Status
    source_of o = set_empty_status empty (clear_remote_metadata o)

    -- downstreamSourceEqual
    abbrev pub downstream_source_equal : (old new : Object Spec Status) → Bool
    downstream_source_equal old new = deep_equal (source_of old) (source_of new)

    abbrev pub are_equal : (old new : Event (Object Spec Status)) → Bool
    are_equal (resource old) (resource new) = downstream_source_equal old new
    are_equal (resource old) (tombstone new) = false
    are_equal (resource old) something_else = false
    are_equal (tombstone old) new = false
    are_equal something_else new = false

    -- The handler UpdateFunc; AddFunc and DeleteFunc are `enqueue_object`.
    unfoldable pub on_update :
        (kind : Text) → (old new : Event (Object Spec Status)) → List Key → List Key
    on_update kind old new queue =
        if are_equal old new then queue else enqueue_object kind new queue

  add_key-is_in_target :
      (kind : Text) (o : Object Spec Status) (queue : List Key)
      → all (is_in_target r) (add_key kind o queue) ≡ all (is_in_target r) queue
  add_key-is_in_target kind o queue =
      ground (arith, all-append (is_in_target r) queue (key_of kind o ∷ []))

  items-is_in_target :
      (kind : Text) (items : List (Object Spec Status)) (queue : List Key)
      → all (is_in_target r) (enqueue_items kind items queue) ≡ all (is_in_target r) queue
  unfolding enqueue_items enqueue_object
  items-is_in_target kind [] queue = refl
  items-is_in_target kind (o ∷ items) queue =
      items-is_in_target kind items (add_key kind o queue) ∙ add_key-is_in_target kind o queue

  pages-is_in_target :
      (kind : Text) (pages : List (Option (List (Object Spec Status)))) (queue : List Key)
      → all (is_in_target r) (enqueue_pages kind pages queue).0 ≡ all (is_in_target r) queue
  unfolding enqueue_pages
  pages-is_in_target kind [] queue = refl
  pages-is_in_target kind (none ∷ pages) queue = refl
  pages-is_in_target kind (some items ∷ pages) queue =
      pages-is_in_target kind pages (enqueue_items kind items queue)
      ∙ items-is_in_target kind items queue

  -- Whatever the pages hold and whichever cannot be listed, the keys queued at the start are in the
  -- namespace that is mirrored, where the reconciler has one, if those queued before are.
  pub enqueue_existing_mirrors-is_in_target :
      (kinds : List (Text × List (Option (List (Object Spec Status))))) (queue : List Key)
      → all (is_in_target r) (enqueue_existing_mirrors kinds queue).0 ≡ all (is_in_target r) queue
  unfolding enqueue_existing_mirrors
  enqueue_existing_mirrors-is_in_target [] queue = refl
  enqueue_existing_mirrors-is_in_target ((kind, pages) ∷ kinds) queue = ground (
    arith,
    pages-is_in_target kind pages queue,
    enqueue_existing_mirrors-is_in_target kinds (enqueue_pages kind pages queue).0,
  )

  -- Objects of the kinds that are mirrored.
  abbrev pub is_mirrored : Object Spec Status → Bool
  is_mirrored o = elim o.kind [ other ↦ false | _ ↦ true ]

  -- An update of a mirrored object that changes only its status, and the metadata that the upstream
  -- server keeps, queues nothing; here reflect.DeepEqual holds at equal objects.
  pub on_update-ignores :
      (empty : Status) (equal : Object Spec Status → Object Spec Status → Bool)
      (equal_refl : (a : Object Spec Status) → equal a a ≡ true) (kind : Text)
      (o : Object Spec Status) (m : ServerMeta) (st : Status) (queue : List Key)
      → is_mirrored o ≡ true
      → on_update empty equal kind (resource o) (resource (with_meta m (with_status st o))) queue
        ≡ queue
  unfolding on_update
  on_update-ignores empty equal equal_refl kind o m st queue h =
      let same : source_of empty equal o ≡ source_of empty equal (with_meta m (with_status st o)) =
        ground arith in
      let held =
        subst (λ a. equal (source_of empty equal o) a ≡ true) same
          (equal_refl (source_of empty equal o)) in
      ground (arith, held)
