-- ===== src/Controller/Downstream/Tests.antt =====
-- The mirror of one zone.
use edgecdnx_controller.Common.{
  ◌==◌, ==_iff, ◌∷◌, [], ℕ, ◌≡◌, refl, Bool, true, false, none, some, [], text_eq, codes, arith,
}
use edgecdnx_controller.Controller.Downstream.{
  Object, Kind, Key, Reconciler, router, resource_kinds, cleared, with_meta, with_status,
}
use edgecdnx_controller.Controller.Downstream.Reconcile.{Local, Server, reconcile_key}
use edgecdnx_controller.Controller.Downstream.Foreign.{reconcile_key-keeps_foreign}
use edgecdnx_controller.Controller.Downstream.Queue.{resource, on_update, on_update-ignores}
use edgecdnx_controller.Controller.Downstream.Mirror.{no_faults, reconcile_key-mirrors, Mirrors}
use edgecdnx_controller.Common.{List, inr}
use edgecdnx_controller.Controller.Downstream.{Faults, refused}
use edgecdnx_controller.Controller.Downstream.Worker.{World, Step, change, item, run}
use edgecdnx_controller.Controller.Downstream.Agreement.{view}
use edgecdnx_controller.Controller.Downstream.Convergence.{IsCovered, run-covers}
use edgecdnx_controller.Controller.Downstream.Drain.{world, items}
use edgecdnx_controller.Controller.Downstream.Start.{
  Listing, first_queue, enqueue_sources, start-agrees,
}
use edgecdnx_controller.Controller.Downstream.Queue.{
  enqueue_existing_mirrors, enqueue_pages, enqueue_items, enqueue_object,
}
use edgecdnx_controller.Controller.Downstream.{same_key, managed_label, with_labels}
use edgecdnx_controller.Controller.Downstream.Worker.{start_reconciler}
use edgecdnx_controller.Common.{if◌then◌else◌}

abbrev pub source : Object ℕ ℕ
source = record {
  kind = Kind.zone;
  name = codes "z";
  namespace = codes "n";
  labels = λ k. none;
  annotations = λ k. none;
  meta = cleared;
  spec = 7;
  status = 3;
}

abbrev pub key : Key
key = record { kind = codes "Zone"; namespace = codes "n"; name = codes "z" }

abbrev pub reconciler : Reconciler
reconciler = record { target_namespace = []; source_id = codes "up"; kinds = resource_kinds router }

abbrev server : Server ℕ ℕ
server = record { on_create = λ d. d; on_update = λ c d. d; on_delete = λ c. none }

-- An empty cluster, and one that holds an object of another owner.
abbrev pub empty : Local ℕ ℕ
empty = record { objects = λ k. none; has_namespace = λ n. false; known = λ n. false }

abbrev taken : Local ℕ ℕ
taken = record { objects = λ k. some source; has_namespace = λ n. true; known = λ n. true }

abbrev pub never_equal : Object ℕ ℕ → Object ℕ ℕ → Bool
never_equal a b = false

pub unequal : (a b : Object ℕ ℕ) → never_equal a b ≡ true → a ≡ b
unequal a b h = cc

reconcile_key-keeps_foreign_example :
    (reconcile_key server no_faults reconciler 0 never_equal key (some source) taken).0.objects key
    ≡ some source
unfolding text_eq
reconcile_key-keeps_foreign_example =
    reconcile_key-keeps_foreign server no_faults key source reconciler 0 never_equal key
      (some source) taken refl refl

reconcile_key-mirrors_example :
    ((reconcile_key server no_faults reconciler 0 never_equal key (some source) empty).1 ≡ none)
    × (o : Object ℕ ℕ) × ((reconcile_key server no_faults reconciler 0 never_equal key
            (some source)
            empty).0.objects
          key
        ≡ some o)
    × Mirrors (codes "up") source o
unfolding text_eq
reconcile_key-mirrors_example =
    reconcile_key-mirrors server (λ d. (refl, refl, refl)) (λ c d. (refl, refl, refl)) reconciler 0
      never_equal unequal key source empty refl refl refl refl

abbrev same_spec : Object ℕ ℕ → Object ℕ ℕ → Bool
same_spec a b = a.spec == b.spec

on_update-ignores_test :
    on_update reconciler 0 same_spec
      (codes "Zone")
      (resource source)
      (resource (with_meta cleared (with_status 9 source)))
      []
    ≡ []
on_update-ignores_test =
    on_update-ignores reconciler 0 same_spec (λ a. (==_iff a.spec a.spec).1 refl) (codes "Zone")
      source cleared 9 [] refl

-- A server that keeps the metadata of what it has, and what has finalizers.
abbrev pub keeper : Server ℕ ℕ
keeper = record {
  on_create = λ d. with_meta (record cleared { finalizers = d.meta.finalizers }) d;
  on_update = λ c d. with_meta (record c.meta { finalizers = d.meta.finalizers }) d;
  on_delete = λ c. elim c.meta.finalizers [ [] ↦ none | t ∷ ts ↦ some c ];
}

pub keeper-gone : (c : Object ℕ ℕ) → c.meta.finalizers ≡ [] → keeper.on_delete c ≡ none
keeper-gone c h = ground (arith, h)

abbrev refusing : Faults
refusing = record {
  get_upstream = none;
  get_namespace = none;
  create_namespace = none;
  get = none;
  create = some refused;
  update = some refused;
  delete = none;
}

-- The zone appears, its creation is refused once, and then succeeds.
abbrev appearance : List (Step ℕ ℕ)
appearance = change key (some source) ∷ item refusing ∷ item no_faults ∷ []

abbrev start : World ℕ ℕ
start = world (λ k. none) empty []

run-covers_example : IsCovered reconciler (run keeper reconciler 0 never_equal appearance start) key
unfolding text_eq
run-covers_example =
    run-covers keeper (λ d. (refl, refl, refl)) (λ c d. (refl, refl, refl)) (λ d. refl)
      (λ c d. refl) (λ d. refl) (λ c d. refl) keeper-gone reconciler 0 never_equal unequal
      appearance refl start key refl (inr refl, refl)

-- A mirror whose source went while nothing ran: it is listed at the start, and deleted.
abbrev mirror : Object ℕ ℕ
mirror = with_labels (λ k. if text_eq k managed_label then some (codes "up") else none) source

abbrev left_over : Local ℕ ℕ
left_over = record {
  objects = λ k. if same_key k key then some mirror else none;
  has_namespace = λ n. true;
  known = λ n. false;
}

abbrev listing : Listing ℕ ℕ
listing = (codes "Zone", some (mirror ∷ []) ∷ []) ∷ (codes "Location", []) ∷ []

start-agrees_example :
    ((run keeper reconciler 0 never_equal
        (items (first_queue reconciler [] listing))
        (world (λ k. none) left_over (first_queue reconciler [] listing))).queue
      ≡ [])
    × (view reconciler
          (run keeper reconciler 0 never_equal
            (items (first_queue reconciler [] listing))
            (world (λ k. none) left_over (first_queue reconciler [] listing))).local
          key
        ≡ none)
unfolding text_eq start_reconciler enqueue_existing_mirrors enqueue_pages enqueue_items
    enqueue_object enqueue_sources
start-agrees_example =
    start-agrees reconciler keeper (λ d. (refl, refl, refl)) (λ c d. (refl, refl, refl)) (λ d. refl)
      (λ c d. refl) (λ d. refl) (λ c d. refl) keeper-gone 0 never_equal unequal (λ k. none)
      left_over key [] listing refl refl refl refl refl ((refl, refl, refl), tt)
