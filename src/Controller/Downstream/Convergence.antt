-- ===== src/Controller/Downstream/Convergence.antt =====
-- What stays as it is while the worker runs, and that a key is queued or mirrored all the time.
use edgecdnx_controller.Common.{
  ◌≡◌, refl, sym, ap, subst, ◌∙◌, Bool, true, false, ◌&&◌, ◌||◌, Option, none, some, List, [], ◌∷◌,
  text_eq, text_refl, read, any-append, arith, Bool-cases, Option-cases, ◌⊎◌, inl, inr,
  if◌then◌else◌,
}
use edgecdnx_controller.Controller.Downstream.{
  Object, Key, Reconciler, Faults, same_key, managed_label, Error,
}
use edgecdnx_controller.Controller.Downstream.Reconcile.{
  Local, Server, is_managed, desired, adapted, reconcile_key,
}
use edgecdnx_controller.Controller.Downstream.Queue.{is_in_target}
use edgecdnx_controller.Controller.Downstream.Keys.{same_key-eq}
use edgecdnx_controller.Controller.Downstream.Mirror.{
  SameContent, Mirrors, desired-Mirrors, adapted-Mirrors,
}
use edgecdnx_controller.Controller.Downstream.Worker.{
  World, Step, change, item, add, waits, reconciled, work_key, work, changed, run,
}
use edgecdnx_controller.Controller.Downstream.Agreement.{
  is_honest, is_mirrored_key, view, seen, is_free, is_bare, free-bare, wanted, is_ready,
  reconcile_key-agrees, read-write,
}
use edgecdnx_controller.Controller.Downstream.Frame.{true-false, reconcile_key-keeps}

module _ {Spec Status : Type 0} where
  -- The faults of the steps are only refusals.
  abbrev pub are_honest : List (Step Spec Status) → Bool
  are_honest [] = true
  are_honest (change key o ∷ steps) = are_honest steps
  are_honest (item f ∷ steps) = is_honest f && are_honest steps

module _ {Spec Status : Type 0} (r : Reconciler) where
  -- A key waits in the queue, or the mirror holds what the upstream cluster wants there; and no
  -- object of another owner, in deletion or with finalizers stands there.
  abbrev pub IsCovered : World Spec Status → Key → Type 0
  IsCovered w k =
      ((waits k w.queue ≡ true) ⊎ (view r w.local k ≡ wanted r (w.upstream k)))
      × (is_ready r w.local k ≡ true)

-- A new mirror has no finalizers, and an old one keeps its own.
finalizers-desired :
    {Spec Status : Type 0} (r : Reconciler) (empty : Status) (s : Object Spec Status)
    → (desired r empty s).meta.finalizers ≡ []
finalizers-desired r empty s = ground arith

finalizers-adapted :
    {Spec Status : Type 0} (r : Reconciler) (empty : Status) (s c : Object Spec Status)
    → (adapted r empty s c).meta.finalizers ≡ c.meta.finalizers
finalizers-adapted r empty s c = ground arith

-- The queue after a reconciliation.
abbrev pub after : Key → (rest : List Key) → Option Error → List Key
after key rest error = elim error [ none ↦ rest | some e ↦ add key rest ]

waits-add :
    (key k : Key) (queue : List Key) → waits k (add key queue) ≡ (waits k queue || same_key key k)
waits-add key k queue = elim (Bool-cases (same_key key k)) [
  | inl e ↦
      let q = ap (λ x. waits x queue) (same_key-eq key k e) in
      ground (arith, e, q, any-append (λ q. same_key q k) queue (key ∷ []))
  | inr e ↦ ground (arith, e, any-append (λ q. same_key q k) queue (key ∷ []))
]

module _ {Spec Status : Type 0} (server : Server Spec Status)
    (create-content : (d : Object Spec Status) → SameContent (server.on_create d) d)
    (update-content : (c d : Object Spec Status) → SameContent (server.on_update c d) d)
    (create-alive : (d : Object Spec Status) → (server.on_create d).meta.deletion_timestamp ≡ none)
    (update-alive : (c d : Object Spec Status)
      → (server.on_update c d).meta.deletion_timestamp ≡ c.meta.deletion_timestamp)
    (create-bare : (d : Object Spec Status)
      → (server.on_create d).meta.finalizers ≡ d.meta.finalizers)
    (update-bare : (c d : Object Spec Status)
      → (server.on_update c d).meta.finalizers ≡ d.meta.finalizers)
    (delete-gone : (c : Object Spec Status) → c.meta.finalizers ≡ [] → server.on_delete c ≡ none)
    (r : Reconciler) (empty : Status) (equal : Object Spec Status → Object Spec Status → Bool)
    (equal-sound : (a b : Object Spec Status) → equal a b ≡ true → a ≡ b) where
  -- An object with the source's content, no time of deletion and no finalizers is replaceable.
  free :
      (s o : Object Spec Status)
      → Mirrors r.source_id s o
      → o.meta.deletion_timestamp ≡ none
      → o.meta.finalizers ≡ []
      → is_free r (some o) ≡ true
  free s o (x, t, y) alive bare =
      let m : is_managed r o ≡ true =
        ap (λ ls. text_eq (read ls managed_label) r.source_id) t
        ∙ ap (λ v. text_eq v r.source_id) (read-write s.labels managed_label r.source_id)
        ∙ text_refl r.source_id in
      let b : is_bare o.meta.finalizers ≡ true = ap is_bare bare in ground (arith, m, alive, b)

  bare_at :
      (key k : Key) (l : Local Spec Status) (c : Object Spec Status)
      → is_ready r l k ≡ true
      → same_key key k ≡ true
      → l.objects key ≡ some c
      → c.meta.finalizers ≡ []
  bare_at key k l c ready same g =
      free-bare r c (sym (ap (is_free r) (sym (ap l.objects (same_key-eq key k same)) ∙ g)) ∙ ready)

  stored-Mirrors :
      (s d o : Object Spec Status)
      → SameContent o d
      → Mirrors r.source_id s d
      → Mirrors r.source_id s o
  stored-Mirrors s d o (a, b, c) (a', b', c') = (a ∙ a', b ∙ b', c ∙ c')

  pub ready-keeps :
      (f : Faults) (key k : Key) (upstream : Option (Object Spec Status)) (l : Local Spec Status)
      → is_ready r l k ≡ true
      → is_ready r (reconcile_key server f r empty equal key upstream l).0 k ≡ true
  ready-keeps f key k upstream l ready =
      reconcile_key-keeps server r empty equal f key k (is_free r) true l.objects
        (λ s same g.
          free s (server.on_create (desired r empty s))
            (stored-Mirrors s (desired r empty s) (server.on_create (desired r empty s))
              (create-content (desired r empty s)) (desired-Mirrors r empty s))
            (create-alive (desired r empty s))
            (create-bare (desired r empty s) ∙ finalizers-desired r empty s))
        (λ s c same g h.
          free s (server.on_update c (adapted r empty s c))
            (stored-Mirrors s (adapted r empty s c) (server.on_update c (adapted r empty s c))
              (update-content c (adapted r empty s c)) (adapted-Mirrors r empty s c))
            (update-alive c (adapted r empty s c) ∙ ground (arith, h))
            (update-bare c (adapted r empty s c)
              ∙ finalizers-adapted r empty s c
              ∙ bare_at key k l c ready same g))
        (λ c same g h. ap (is_free r) (delete-gone c (bare_at key k l c ready same g))) upstream l
        refl ready

  -- Another key's view stays as it is.
  pub view-keeps :
      (f : Faults) (key k : Key) (upstream : Option (Object Spec Status)) (l : Local Spec Status)
      → same_key key k ≡ false
      → view r (reconcile_key server f r empty equal key upstream l).0 k ≡ view r l k
  view-keeps f key k upstream l other =
      reconcile_key-keeps server r empty equal f key k (seen r) (view r l k) l.objects
        (λ s same g. absurd (true-false (sym same ∙ other)))
        (λ s c same g h. absurd (true-false (sym same ∙ other)))
        (λ c same g h. absurd (true-false (sym same ∙ other))) upstream l refl refl

  waits-after :
      (key k : Key) (rest : List Key) (error : Option Error)
      → waits k rest ≡ true
      → waits k (after key rest error) ≡ true
  waits-after key k rest none h = h
  waits-after key k rest (some e) h = waits-add key k rest ∙ ground (arith, h)

  waits-failed :
      (key k : Key) (rest : List Key) (error : Option Error) (e : Error)
      → error ≡ some e
      → same_key key k ≡ true
      → waits k (after key rest error) ≡ true
  waits-failed key k rest none e q h = ground (arith, q)
  waits-failed key k rest (some d) e q h = waits-add key k rest ∙ ground (arith, h)

  module _ (f : Faults) (honest : is_honest f ≡ true) where
    -- A key that is taken from the queue is queued again, or the mirror holds what is wanted.
    taken-covers :
        (w : World Spec Status) (key : Key) (rest : List Key) (k : Key)
        → is_mirrored_key r k ≡ true
        → is_ready r w.local k ≡ true
        → same_key key k ≡ true
        → (waits k (work_key server r empty equal f w key rest).queue ≡ true)
          ⊎ (view r (work_key server r empty equal f w key rest).local k ≡ wanted r (w.upstream k))
    unfolding work_key
    taken-covers w key rest k mirrored ready same =
        elim (Option-cases (reconciled server r empty equal f w key).1) [
          | inl e ↦
              let agrees =
                reconcile_key-agrees r server create-content update-content create-alive
                  update-alive create-bare update-bare delete-gone empty equal equal-sound f honest
                  k (w.upstream k) w.local mirrored ready in
              let moved = same_key-eq key k same in
              inr (
                subst
                  (λ x.
                    (reconciled server r empty equal f w x).1 ≡ none
                    → view r (reconciled server r empty equal f w x).0 k ≡ wanted r (w.upstream k))
                  (sym moved) agrees e)
          | inr (e, g) ↦ inl (waits-failed key k rest _ e g same)
        ]

    work_key-covers :
        (w : World Spec Status) (key : Key) (rest : List Key) (k : Key)
        → is_mirrored_key r k ≡ true
        → w.queue ≡ key ∷ rest
        → IsCovered r w k
        → IsCovered r (work_key server r empty equal f w key rest) k
    unfolding work_key
    work_key-covers w key rest k mirrored q (covered, ready) = (
      elim (Bool-cases (same_key key k)) [
        | inl same ↦ taken-covers w key rest k mirrored ready same
        | inr other ↦ elim covered [
          | inl h ↦ inl (waits-after key k rest _ (ground (arith, sym (ap (waits k) q) ∙ h, other)))
          | inr h ↦ inr (view-keeps f key k (w.upstream key) w.local other ∙ h)
        ]
      ],
      ready-keeps f key k (w.upstream key) w.local ready,
    )

    work-covers :
        (w : World Spec Status) (k : Key)
        → is_mirrored_key r k ≡ true
        → IsCovered r w k
        → IsCovered r (work server r empty equal f w) k
    unfolding work
    work-covers w k mirrored h = of_queue w.queue refl
      where
        of_queue :
            (queue : List Key)
            → w.queue ≡ queue
            → IsCovered r
                (elim queue [ [] ↦ w | key ∷ rest ↦ work_key server r empty equal f w key rest ])
                k
        of_queue [] e = h
        of_queue (key ∷ rest) e = work_key-covers w key rest k mirrored e h

  changed-covers :
      (w : World Spec Status) (key : Key) (o : Option (Object Spec Status)) (k : Key)
      → is_mirrored_key r k ≡ true
      → IsCovered r w k
      → IsCovered r (changed server r empty equal key o w) k
  unfolding changed
  changed-covers w key o k mirrored (covered, ready) = (
    elim (Bool-cases (same_key key k)) [
      | inl same ↦
          let t = ap (is_in_target r) (same_key-eq key k same) in
          inl (ground (arith, t, mirrored, same, waits-add key k w.queue))
      | inr other ↦ elim covered [
        | inl h ↦ inl (ground (arith, h, waits-add key k w.queue))
        | inr h ↦ inr (h ∙ ap (λ b. wanted r (if b then o else w.upstream k)) (sym other))
      ]
    ],
    ready,
  )

  pub run-covers :
      (steps : List (Step Spec Status)) (honest : are_honest steps ≡ true) (w : World Spec Status)
      (k : Key)
      → is_mirrored_key r k ≡ true
      → IsCovered r w k
      → IsCovered r (run server r empty equal steps w) k
  unfolding run
  run-covers [] honest w k mirrored h = h
  run-covers (change key o ∷ steps) honest w k mirrored h =
      run-covers steps honest (changed server r empty equal key o w) k mirrored
        (changed-covers w key o k mirrored h)
  run-covers (item f ∷ steps) honest w k mirrored h =
      run-covers steps (ground (arith, honest)) (work server r empty equal f w) k mirrored
        (work-covers f (ground (arith, honest)) w k mirrored h)
