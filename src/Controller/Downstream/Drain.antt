-- ===== src/Controller/Downstream/Drain.antt =====
-- The queue runs empty, and the mirror then holds what the upstream cluster wants.
use edgecdnx_controller.Common.{
  ◌≡◌, refl, sym, ap, subst, ◌∙◌, Bool, true, not, Option, none, some, List, [], ◌∷◌, map, text_eq,
  All, arith, inl, inr,
}
use edgecdnx_controller.Controller.Downstream.{Object, Key, Reconciler, Faults}
use edgecdnx_controller.Controller.Downstream.Reconcile.{
  Local, Server, reconcile_key, delete_mirror,
}
use edgecdnx_controller.Controller.Downstream.Mirror.{SameContent, no_faults, reconcile_key-mirrors}
use edgecdnx_controller.Controller.Downstream.Worker.{World, Step, item, waits, work_key, work, run}
use edgecdnx_controller.Controller.Downstream.Agreement.{
  is_mirrored_key, view, wanted, is_ready, free-replaceable,
}
use edgecdnx_controller.Controller.Downstream.Convergence.{
  IsCovered, ready-keeps, run-covers, are_honest, after,
}

-- Whether a source has a namespace.
abbrev pub is_named : {Spec Status : Type 0} → Option (Object Spec Status) → Bool
is_named none = true
is_named (some s) = not (text_eq s.namespace [])

abbrev pub world :
    {Spec Status : Type 0}
    → (Key → Option (Object Spec Status))
    → Local Spec Status
    → List Key
    → World Spec Status
world u l queue = record { upstream = u; local = l; queue = queue }

-- As many keys taken as wait, with no fault.
abbrev pub items : {Spec Status : Type 0} → List Key → List (Step Spec Status)
items queue = map (λ k. item no_faults) queue

items-are_honest :
    (Spec Status : Type 0) (queue : List Key)
    → are_honest (items {Spec = Spec} {Status = Status} queue) ≡ true
items-are_honest Spec Status [] = refl
items-are_honest Spec Status (k ∷ queue) = items-are_honest Spec Status queue

module _ {Spec Status : Type 0} (server : Server Spec Status)
    (create-content : (d : Object Spec Status) → SameContent (server.on_create d) d)
    (update-content : (c d : Object Spec Status) → SameContent (server.on_update c d) d)
    (create-alive : (d : Object Spec Status) → (server.on_create d).meta.deletion_timestamp ≡ none)
    (update-alive : (c d : Object Spec Status)
      → (server.on_update c d).meta.deletion_timestamp ≡ c.meta.deletion_timestamp)
    (create-bare : (d : Object Spec Status)
      → (server.on_create d).meta.finalizers ≡ d.meta.finalizers)
    (update-bare : (c d : Object Spec Status)
      → (server.on_update c d).meta.finalizers ≡ d.meta.finalizers)
    (delete-gone : (c : Object Spec Status) → c.meta.finalizers ≡ [] → server.on_delete c ≡ none)
    (r : Reconciler) (empty : Status) (equal : Object Spec Status → Object Spec Status → Bool)
    (equal-sound : (a b : Object Spec Status) → equal a b ≡ true → a ≡ b) where
  -- The server keeps the content and the finalizers that it is given, sets no time of deletion on a
  -- create or an update, and leaves nothing of an object without finalizers that is deleted;
  -- reflect.DeepEqual holds at equal objects only.
  -- Then a run in which objects change upstream and calls fail only by being refused, and at whose
  -- end the queue is empty, leaves at a key of a mirrored kind and namespace what is wanted: the
  -- content of its source with the label of the upstream, or nothing where there is no source. At the
  -- start the key waits in the queue or holds what is wanted, and no object of another owner, in
  -- deletion or with finalizers stands there.
  pub run-agrees :
      (steps : List (Step Spec Status)) (honest : are_honest steps ≡ true) (w : World Spec Status)
      (k : Key) (mirrored : is_mirrored_key r k ≡ true) (start : IsCovered r w k)
      (done : (run server r empty equal steps w).queue ≡ [])
      → view r (run server r empty equal steps w).local k
        ≡ wanted r ((run server r empty equal steps w).upstream k)
  run-agrees steps honest w k mirrored start done =
      elim (run-covers server create-content update-content create-alive update-alive create-bare
        update-bare delete-gone r empty equal equal-sound steps honest w k mirrored start).0 [
          | inl h ↦ ground (arith, sym (ap (waits k) done) ∙ h)
          | inr h ↦ h
        ]

  delete-succeeds :
      (key : Key) (l : Local Spec Status)
      → (delete_mirror server no_faults r empty equal key l).1 ≡ none
  unfolding delete_mirror
  delete-succeeds key l = ground arith

  reconcile_key-succeeds :
      (key : Key) (upstream : Option (Object Spec Status)) (l : Local Spec Status)
      → is_mirrored_key r key ≡ true
      → is_named upstream ≡ true
      → is_ready r l key ≡ true
      → (reconcile_key server no_faults r empty equal key upstream l).1 ≡ none
  unfolding reconcile_key
  reconcile_key-succeeds key none l mirrored named ready =
      ground (arith, mirrored, delete-succeeds key l)
  reconcile_key-succeeds key (some s) l mirrored named ready =
      (reconcile_key-mirrors server create-content update-content r empty equal equal-sound key s l
        (ground (arith, mirrored)) (ground (arith, mirrored)) (ground (arith, named))
        (free-replaceable r (l.objects key) ready)).0

  -- What is asked of a key for its reconciliation to succeed.
  abbrev pub IsFit : (Key → Option (Object Spec Status)) → Local Spec Status → Key → Type 0
  IsFit u l k = (is_mirrored_key r k ≡ true) × (is_named (u k) ≡ true) × (is_ready r l k ≡ true)

  All-IsFit :
      (u : Key → Option (Object Spec Status)) (l : Local Spec Status) (key : Key) (queue : List Key)
      → All (IsFit u l) queue
      → All (IsFit u (reconcile_key server no_faults r empty equal key (u key) l).0) queue
  All-IsFit u l key [] a = tt
  All-IsFit u l key (k ∷ queue) ((m, n, h), a) = (
    (
      m,
      n,
      ready-keeps server create-content update-content create-alive update-alive create-bare
          update-bare delete-gone r empty equal equal-sound no_faults key k (u key) l h,
    ),
    All-IsFit u l key queue a,
  )

  drained :
      (u : Key → Option (Object Spec Status)) (l : Local Spec Status) (queue : List Key)
      → All (IsFit u l) queue
      → (run server r empty equal (items queue) (world u l queue)).queue ≡ []
  unfolding run work work_key
  drained u l [] a = refl
  drained u l (key ∷ rest) ((m, n, h), a) =
      let e = reconcile_key-succeeds key (u key) l m n h in
      let l' = (reconcile_key server no_faults r empty equal key (u key) l).0 in
      subst
        (λ error.
          (run server r empty equal (items rest) (world u l' (after key rest error))).queue ≡ [])
        (sym e) (drained u l' rest (All-IsFit u l key rest a))

  upstream-work :
      (f : Faults) (w : World Spec Status) → (work server r empty equal f w).upstream ≡ w.upstream
  unfolding work work_key
  upstream-work f w = of_queue w.queue
    where
      of_queue :
          (queue : List Key)
          → (elim queue as (λ x. World Spec Status) [
            | [] ↦ w
            | key ∷ rest ↦ work_key server r empty equal f w key rest
          ]).upstream
            ≡ w.upstream
      of_queue [] = refl
      of_queue (key ∷ rest) = refl

  upstream-items :
      (queue : List Key) (w : World Spec Status)
      → (run server r empty equal (items queue) w).upstream ≡ w.upstream
  unfolding run
  upstream-items [] w = refl
  upstream-items (k ∷ queue) w =
      upstream-items queue (work server r empty equal no_faults w) ∙ upstream-work no_faults w

  -- The server keeps the content and the finalizers that it is given, sets no time of deletion on a
  -- create or an update, and leaves nothing of an object without finalizers that is deleted;
  -- reflect.DeepEqual holds at equal objects only.
  -- When no call fails and each key of the queue is of a mirrored kind and namespace, its source, if
  -- it has one, has a namespace, and no object of another owner, in deletion or with finalizers stands
  -- there, then after as many steps as keys wait the queue is empty; and a key of a mirrored kind and
  -- namespace then holds what is wanted, if at the start it waits or holds it and no such object
  -- stands there.
  pub drain-agrees :
      (u : Key → Option (Object Spec Status)) (l : Local Spec Status) (queue : List Key)
      (fit : All (IsFit u l) queue) (k : Key) (mirrored : is_mirrored_key r k ≡ true)
      (start : IsCovered r (world u l queue) k)
      → ((run server r empty equal (items queue) (world u l queue)).queue ≡ [])
        × (view r (run server r empty equal (items queue) (world u l queue)).local k
            ≡ wanted r (u k))
  drain-agrees u l queue fit k mirrored start =
      let done = drained u l queue fit in
      (
        done,
        run-agrees (items queue) (items-are_honest Spec Status queue) (world u l queue) k mirrored
              start done
            ∙ ap (λ v. wanted r (v k)) (upstream-items queue (world u l queue)),
      )
