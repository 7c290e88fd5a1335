-- ===== src/Controller/Downstream/Mirror.antt =====
-- What a key's reconciliation makes of the local object when no call fails.
use edgecdnx_controller.Common.{
  write, ◌≡◌, sym, ap, subst, ◌∙◌, Bool, true, false, ◌&&◌, ◌||◌, none, some, [], Text, text_eq,
  arith, Bool-cases, Option-cases, inl, inr,
}
use edgecdnx_controller.Controller.Downstream.{
  Object, Key, Faults, Reconciler, find_kind, managed_label,
}
use edgecdnx_controller.Controller.Downstream.Reconcile.{
  Local, Server, Outcome, put_object, ensure_namespace, is_managed, overwrite, upsert,
  reconcile_key, desired, adapted,
}
use edgecdnx_controller.Controller.Downstream.Keys.{objects-ensure_namespace, same_key_refl}

abbrev pub no_faults : Faults
no_faults = record {
  get_upstream = none;
  get_namespace = none;
  create_namespace = none;
  get = none;
  create = none;
  update = none;
  delete = none;
}

module _ {Spec Status : Type 0} where
  -- The same spec, labels and annotations.
  abbrev pub SameContent : Object Spec Status → Object Spec Status → Type 0
  SameContent a b = (a.spec ≡ b.spec) × (a.labels ≡ b.labels) × (a.annotations ≡ b.annotations)

  -- The spec and the annotations of the source, and its labels with that of the upstream.
  abbrev pub Mirrors : (source_id : Text) → (source o : Object Spec Status) → Type 0
  Mirrors source_id source o =
      (o.spec ≡ source.spec)
      × (o.labels ≡ write source.labels managed_label source_id)
      × (o.annotations ≡ source.annotations)

  -- Whether an upstream may write an object over: it carries its label and is not being deleted.
  abbrev pub is_replaceable : Reconciler → Object Spec Status → Bool
  is_replaceable r o =
      is_managed r o && elim o.meta.deletion_timestamp [ none ↦ true | some t ↦ false ]

  pub desired-Mirrors :
      (r : Reconciler) (empty : Status) (source : Object Spec Status)
      → Mirrors r.source_id source (desired r empty source)
  desired-Mirrors r empty source = ground arith

  pub adapted-Mirrors :
      (r : Reconciler) (empty : Status) (source current : Object Spec Status)
      → Mirrors r.source_id source (adapted r empty source current)
  adapted-Mirrors r empty source current = ground arith

  module _ (server : Server Spec Status)
      (create-content : (d : Object Spec Status) → SameContent (server.on_create d) d)
      (update-content : (c d : Object Spec Status) → SameContent (server.on_update c d) d)
      (r : Reconciler) (empty : Status) (equal : Object Spec Status → Object Spec Status → Bool)
      (equal-sound : (a b : Object Spec Status) → equal a b ≡ true → a ≡ b) where
    pub stored :
        (d s o : Object Spec Status)
        → SameContent o d
        → Mirrors r.source_id s d
        → Mirrors r.source_id s o
    stored d s o (a, b, c) (a', b', c') = (a ∙ a', b ∙ b', c ∙ c')

    pub put-here :
        (key : Key) (o : Object Spec Status) (l : Local Spec Status)
        → (put_object key (some o) l).objects key ≡ some o
    put-here key o l = ground (arith, same_key_refl key)

    -- The object is there after the operation, which had no error, and mirrors the source.
    abbrev IsMirrored : Key → Object Spec Status → Outcome Spec Status → Type 0
    IsMirrored key source x =
        (x.1 ≡ none)
        × (o : Object Spec Status) × (x.0.objects key ≡ some o)
        × Mirrors r.source_id source o

    overwrite-mirrors :
        (key : Key) (source c : Object Spec Status) (l : Local Spec Status)
        → l.objects key ≡ some c
        → is_replaceable r c ≡ true
        → IsMirrored key source (overwrite server no_faults r empty equal key source c l)
    overwrite-mirrors key source c l g h = elim (Bool-cases (equal c (adapted r empty source c))) [
      | inl e ↦ (
        ground arith,
        c,
        ground (arith, g),
        subst (λ o. Mirrors r.source_id source o) (sym (equal-sound _ _ e))
            (adapted-Mirrors r empty source c),
      )
      | inr e ↦ (
        ground arith,
        server.on_update c (adapted r empty source c),
        ground (arith, put-here key (server.on_update c (adapted r empty source c)) l),
        stored (adapted r empty source c) source (server.on_update c (adapted r empty source c))
            (update-content c (adapted r empty source c)) (adapted-Mirrors r empty source c),
      )
    ]

    upsert-mirrors :
        (key : Key) (source : Object Spec Status) (l : Local Spec Status)
        → (elim (l.objects key) [ none ↦ true | some c ↦ is_replaceable r c ]) ≡ true
        → IsMirrored key source (upsert server no_faults r empty equal key source l)
    unfolding upsert
    upsert-mirrors key source l h = elim (Option-cases (l.objects key)) [
      | inl g ↦ (
        ground arith,
        server.on_create (desired r empty source),
        ground (arith, put-here key (server.on_create (desired r empty source)) l),
        stored (desired r empty source) source (server.on_create (desired r empty source))
            (create-content (desired r empty source)) (desired-Mirrors r empty source),
      )
      | inr (c, g) ↦
          let q = overwrite-mirrors key source c l g (ground arith) in
          (ground (arith, q.0), q.1, ground (arith, q.2), q.3)
    ]

    ensured :
        (n : Text) (l : Local Spec Status)
        → text_eq n [] ≡ false
        → (ensure_namespace server no_faults n l).1 ≡ none
    unfolding ensure_namespace
    ensured n l h = ground arith

    -- When no call fails, the key's namespace is the target's, its kind is known, and the object of
    -- the key in the local cluster, if there is one, is managed by this upstream and is not being
    -- deleted, reconciling a key whose source is there ends without error, and leaves a local object
    -- with the source's spec and annotations and its labels, with the upstream's label written in.
    pub reconcile_key-mirrors :
        (key : Key) (source : Object Spec Status) (l : Local Spec Status)
        → (text_eq r.target_namespace [] || text_eq key.namespace r.target_namespace) ≡ true
        → (elim (find_kind key.kind r.kinds) [ none ↦ false | some kind ↦ true ]) ≡ true
        → text_eq source.namespace [] ≡ false
        → (elim (l.objects key) [ none ↦ true | some c ↦ is_replaceable r c ]) ≡ true
        → IsMirrored key source (reconcile_key server no_faults r empty equal key (some source) l)
    unfolding reconcile_key
    reconcile_key-mirrors key source l in_target known named h =
        let after = (ensure_namespace server no_faults source.namespace l).0 in
        let same = ap (λ f. f key) (objects-ensure_namespace server no_faults source.namespace l) in
        let free =
          subst (λ v. (elim v [ none ↦ true | some c ↦ is_replaceable r c ]) ≡ true) (sym same) h in
        let q = upsert-mirrors key source after free in
        let noted = ensured source.namespace l named in
        (ground (arith, q.0), q.1, ground (arith, q.2), q.3)
