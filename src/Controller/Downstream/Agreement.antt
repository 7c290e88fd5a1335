-- ===== src/Controller/Downstream/Agreement.antt =====
-- The worker's runs as an abstract view sees them: what the mirror holds of each key.
use edgecdnx_controller.Common.{
  ◌≡◌, refl, sym, ap, ◌∙◌, List, ◌∷◌, Bool, true, false, ◌&&◌, Option, none, some, [], Text,
  text_eq, text_refl, write, read, arith, Bool-cases, Option-cases, inl, inr, if◌then◌else◌,
}
use edgecdnx_controller.Controller.Downstream.{
  Object, Key, Reconciler, Faults, Failure, refused, empty_namespace, find_kind, managed_label,
}
use edgecdnx_controller.Controller.Downstream.Reconcile.{
  Local, Server, put_object, create_object, is_managed, ensure_namespace, desired, overwrite,
  upsert, delete_mirror, reconcile_found, reconcile_key,
}
use edgecdnx_controller.Controller.Downstream.Queue.{is_in_target}
use edgecdnx_controller.Controller.Downstream.Keys.{same_key_refl}
use edgecdnx_controller.Controller.Downstream.Mirror.{
  SameContent, is_replaceable, no_faults, reconcile_key-mirrors, Mirrors,
}

-- A call fails only because the server refuses it, not with an answer about what it holds.
abbrev pub is_refusal : Option Failure → Bool
is_refusal none = true
is_refusal (some refused) = true
is_refusal (some e) = false

abbrev pub is_honest : Faults → Bool
is_honest f =
    is_refusal f.get_upstream
    && is_refusal f.get_namespace
    && is_refusal f.create_namespace
    && is_refusal f.get
    && is_refusal f.create
    && is_refusal f.update
    && is_refusal f.delete

-- A key that the reconciler mirrors.
abbrev pub is_mirrored_key : Reconciler → Key → Bool
is_mirrored_key r k =
    is_in_target r k && elim (find_kind k.kind r.kinds) [ none ↦ false | some kind ↦ true ]

pub read-write : (m : Text → Option Text) (key value : Text) → read (write m key value) key ≡ value
read-write m key value =
    ap (λ b. elim (if b then some value else m key) [ none ↦ [] | some v ↦ v ]) (text_refl key)

-- An operation that succeeds with calls that are only refused does what it does when none is.
module _ {Spec Status : Type 0} (server : Server Spec Status) (r : Reconciler) (empty : Status)
    (equal : Object Spec Status → Object Spec Status → Bool) (f : Faults)
    (honest : is_honest f ≡ true) where
  ensure_namespace-honest :
      (n : Text) (l : Local Spec Status)
      → (ensure_namespace server f n l).1 ≡ none
      → ensure_namespace server f n l ≡ ensure_namespace server no_faults n l
  unfolding ensure_namespace
  ensure_namespace-honest n l h = ground (arith, h, honest)

  create-honest :
      (key : Key) (o : Object Spec Status) (l : Local Spec Status)
      → (create_object server f key o l).1 ≡ none
      → create_object server f key o l ≡ create_object server no_faults key o l
  create-honest key o l h = ground (arith, h, honest)

  overwrite-honest :
      (key : Key) (s c : Object Spec Status) (l : Local Spec Status)
      → (overwrite server f r empty equal key s c l).1 ≡ none
      → overwrite server f r empty equal key s c l
        ≡ overwrite server no_faults r empty equal key s c l
  overwrite-honest key s c l h = ground (arith, h, honest)

  upsert-honest :
      (key : Key) (s : Object Spec Status) (l : Local Spec Status)
      → (upsert server f r empty equal key s l).1 ≡ none
      → upsert server f r empty equal key s l ≡ upsert server no_faults r empty equal key s l
  unfolding upsert
  upsert-honest key s l h = elim (Option-cases (l.objects key)) [
    | inl g ↦ ground (arith, h, honest, create-honest key (desired r empty s) l)
    | inr (c, g) ↦ ground (arith, h, honest, overwrite-honest key s c l)
  ]

  delete-honest :
      (key : Key) (l : Local Spec Status)
      → (delete_mirror server f r empty equal key l).1 ≡ none
      → delete_mirror server f r empty equal key l
        ≡ delete_mirror server no_faults r empty equal key l
  unfolding delete_mirror
  delete-honest key l h = ground (arith, h, honest)

  found-honest :
      (key : Key) (s : Object Spec Status) (l : Local Spec Status)
      → (reconcile_found server f r empty equal key s l).1 ≡ none
      → reconcile_found server f r empty equal key s l
        ≡ reconcile_found server no_faults r empty equal key s l
  found-honest key s l h = elim (Option-cases (ensure_namespace server f s.namespace l).1) [
    | inl g ↦ ground (
      arith,
      h,
      g,
      ensure_namespace-honest s.namespace l g,
      upsert-honest key s (ensure_namespace server f s.namespace l).0,
    )
    | inr (e, g) ↦ ground (arith, h, g)
  ]

  pub reconcile_key-honest :
      (key : Key) (upstream : Option (Object Spec Status)) (l : Local Spec Status)
      → (reconcile_key server f r empty equal key upstream l).1 ≡ none
      → reconcile_key server f r empty equal key upstream l
        ≡ reconcile_key server no_faults r empty equal key upstream l
  unfolding reconcile_key
  reconcile_key-honest key none l h = ground (arith, h, honest, delete-honest key l)
  reconcile_key-honest key (some s) l h = ground (arith, h, honest, found-honest key s l)

-- A source without a namespace is an error.
unnamed :
    {Spec Status : Type 0} (server : Server Spec Status) (r : Reconciler) (empty : Status)
    (equal : Object Spec Status → Object Spec Status → Bool) (f : Faults) (key : Key)
    (s : Object Spec Status) (l : Local Spec Status)
    → text_eq s.namespace [] ≡ true
    → (reconcile_found server f r empty equal key s l).1 ≡ some empty_namespace
unfolding ensure_namespace
unnamed server r empty equal f key s l e = ground (arith, e)

-- Whether there are no finalizers.
abbrev pub is_bare : List Text → Bool
is_bare [] = true
is_bare (finalizer ∷ finalizers) = false

bare : (finalizers : List Text) → is_bare finalizers ≡ true → finalizers ≡ []
bare [] h = refl
bare (t ∷ ts) h = ground arith

-- The content of an object: spec, labels and annotations.
abbrev pub Content : Type 0 → Type 0
Content Spec = Spec × (Text → Option Text) × (Text → Option Text)

module _ {Spec Status : Type 0} (r : Reconciler) where
  abbrev pub content : Object Spec Status → Content Spec
  content o = (o.spec, o.labels, o.annotations)

  -- What the local cluster holds for this upstream.
  abbrev pub seen : Option (Object Spec Status) → Option (Content Spec)
  seen none = none
  seen (some o) = if is_managed r o then some (content o) else none

  abbrev pub view : Local Spec Status → Key → Option (Content Spec)
  view l k = seen (l.objects k)

  -- What it is to hold: the content of the source, with the label of the upstream.
  abbrev pub wanted : Option (Object Spec Status) → Option (Content Spec)
  wanted none = none
  wanted (some s) = some (s.spec, write s.labels managed_label r.source_id, s.annotations)

  -- No object of another owner, in deletion or with finalizers stands at the key.
  abbrev pub is_free : Option (Object Spec Status) → Bool
  is_free v = elim v [ none ↦ true | some c ↦ is_replaceable r c && is_bare c.meta.finalizers ]

  pub free-bare : (c : Object Spec Status) → is_free (some c) ≡ true → c.meta.finalizers ≡ []
  free-bare c h = bare c.meta.finalizers (ground (arith, h))

  pub free-replaceable :
      (v : Option (Object Spec Status))
      → is_free v ≡ true
      → elim v [ none ↦ true | some c ↦ is_replaceable r c ] ≡ true
  free-replaceable none h = refl
  free-replaceable (some c) h = ground (arith, h)

  abbrev pub is_ready : Local Spec Status → Key → Bool
  is_ready l k = is_free (l.objects k)

  module _ (server : Server Spec Status)
      (create-content : (d : Object Spec Status) → SameContent (server.on_create d) d)
      (update-content : (c d : Object Spec Status) → SameContent (server.on_update c d) d)
      (create-alive : (d : Object Spec Status)
        → (server.on_create d).meta.deletion_timestamp ≡ none)
      (update-alive : (c d : Object Spec Status)
        → (server.on_update c d).meta.deletion_timestamp ≡ c.meta.deletion_timestamp)
      (create-bare : (d : Object Spec Status)
        → (server.on_create d).meta.finalizers ≡ d.meta.finalizers)
      (update-bare : (c d : Object Spec Status)
        → (server.on_update c d).meta.finalizers ≡ d.meta.finalizers)
      (delete-gone : (c : Object Spec Status) → c.meta.finalizers ≡ [] → server.on_delete c ≡ none)
      (empty : Status) (equal : Object Spec Status → Object Spec Status → Bool)
      (equal-sound : (a b : Object Spec Status) → equal a b ≡ true → a ≡ b) where
    -- A stored object with the source's content is managed, and viewed as wanted.
    viewed :
        (key : Key) (source o : Object Spec Status) (l : Local Spec Status)
        → l.objects key ≡ some o
        → Mirrors r.source_id source o
        → view l key ≡ wanted (some source)
    viewed key source o l g (s, t, a) =
        let c : content o
            ≡ (source.spec, write source.labels managed_label r.source_id, source.annotations) =
          λ i. (s i, t i, a i) in
        let m : is_managed r o ≡ true =
          ap (λ ls. text_eq (read ls managed_label) r.source_id) t
          ∙ ap (λ v. text_eq v r.source_id) (read-write source.labels managed_label r.source_id)
          ∙ text_refl r.source_id in
        ground (arith, g, m, c)

    gone : (key : Key) (l : Local Spec Status) → (put_object key none l).objects key ≡ none
    gone key l = ground (arith, same_key_refl key)

    delete-agrees :
        (key : Key) (l : Local Spec Status)
        → is_ready l key ≡ true
        → view (delete_mirror server no_faults r empty equal key l).0 key ≡ none
    unfolding delete_mirror
    delete-agrees key l ready = elim (Option-cases (l.objects key)) [
      | inl g ↦ ground (arith, g)
      | inr (c, g) ↦
          ground
            (arith, g, ready, delete-gone c (free-bare c (sym (ap is_free g) ∙ ready)), gone key l)
    ]

    -- Reconciling a key that is mirrored and ready, with success, makes the view what is wanted.
    pub reconcile_key-agrees :
        (faults : Faults) (honest : is_honest faults ≡ true) (key : Key)
        (upstream : Option (Object Spec Status)) (l : Local Spec Status)
        → is_mirrored_key r key ≡ true
        → is_ready l key ≡ true
        → (reconcile_key server faults r empty equal key upstream l).1 ≡ none
        → view (reconcile_key server faults r empty equal key upstream l).0 key ≡ wanted upstream
    unfolding reconcile_key
    reconcile_key-agrees faults honest key none l mirrored ready h =
        ap (λ x. view x.0 key)
          (reconcile_key-honest server r empty equal faults honest key none l h)
        ∙ ground (arith, mirrored, delete-agrees key l ready)
    reconcile_key-agrees faults honest key (some s) l mirrored ready h =
        elim (Bool-cases (text_eq s.namespace [])) [
          | inl e ↦ ground (arith, h, mirrored, unnamed server r empty equal faults key s l e)
          | inr e ↦
              let (none_left, o, g, m) =
                reconcile_key-mirrors server create-content update-content r empty equal equal-sound
                  key s l (ground (arith, mirrored)) (ground (arith, mirrored)) e
                  (free-replaceable (l.objects key) ready) in
              ap (λ x. view x.0 key)
                (reconcile_key-honest server r empty equal faults honest key (some s) l h)
              ∙ viewed key s o (reconcile_key server no_faults r empty equal key (some s) l).0 g m
        ]
