-- ===== src/Controller/Downstream/Frame.antt =====
-- What a reconciliation leaves as it is.
use edgecdnx_controller.Common.{
  ◌≡◌, sym, ap, subst, ◌∙◌, Bool, true, false, Option, none, some, arith, Bool-cases, Option-cases,
  inl, inr, if◌then◌else◌,
}
use edgecdnx_controller.Controller.Downstream.{Object, Key, Reconciler, Faults, same_key}
use edgecdnx_controller.Controller.Downstream.Reconcile.{
  Local, Server, put_object, create_object, ensure_namespace, is_managed, desired, adapted,
  overwrite, upsert, delete_mirror, reconcile_found, reconcile_key,
}
use edgecdnx_controller.Controller.Downstream.Keys.{objects-ensure_namespace}
use edgecdnx_controller.Controller.Downstream.Mirror.{is_replaceable}

pub true-false : true ≡ false → ⊥
true-false e = ground (arith, e)

-- A property of what stands at a key holds after a reconciliation if it holds before and of what
-- the reconciliation may put there.
module _ {Spec Status : Type 0} (server : Server Spec Status) (r : Reconciler) (empty : Status)
    (equal : Object Spec Status → Object Spec Status → Bool) (f : Faults) (key k : Key) {A : Type 0}
    (p : Option (Object Spec Status) → A) (a : A) (before : Key → Option (Object Spec Status))
    (created : (s : Object Spec Status)
      → same_key key k ≡ true
      → before key ≡ none
      → p (some (server.on_create (desired r empty s))) ≡ a)
    (updated : (s c : Object Spec Status)
      → same_key key k ≡ true
      → before key ≡ some c
      → is_replaceable r c ≡ true
      → p (some (server.on_update c (adapted r empty s c))) ≡ a)
    (deleted : (c : Object Spec Status)
      → same_key key k ≡ true
      → before key ≡ some c
      → is_managed r c ≡ true
      → p (server.on_delete c) ≡ a) where
  put-keeps :
      (v : Option (Object Spec Status)) (l : Local Spec Status)
      → (same_key key k ≡ true → p v ≡ a)
      → p (l.objects k) ≡ a
      → p ((put_object key v l).objects k) ≡ a
  put-keeps v l q h = elim (Bool-cases (same_key key k)) [
    | inl e ↦ subst (λ b. p (if b then v else l.objects k) ≡ a) (sym e) (q e)
    | inr e ↦ subst (λ b. p (if b then v else l.objects k) ≡ a) (sym e) h
  ]

  create-keeps :
      (s : Object Spec Status) (l : Local Spec Status)
      → before key ≡ none
      → p (l.objects k) ≡ a
      → p ((create_object server f key (desired r empty s) l).0.objects k) ≡ a
  create-keeps s l g h = ground (
    arith,
    h,
    put-keeps (some (server.on_create (desired r empty s))) l (λ same. created s same g) h,
  )

  overwrite-keeps :
      (s c : Object Spec Status) (l : Local Spec Status)
      → before key ≡ some c
      → p (l.objects k) ≡ a
      → p ((overwrite server f r empty equal key s c l).0.objects k) ≡ a
  overwrite-keeps s c l g h = elim (Bool-cases (is_replaceable r c)) [
    | inl e ↦ ground (
      arith,
      h,
      put-keeps (some (server.on_update c (adapted r empty s c))) l (λ same. updated s c same g e)
          h,
    )
    | inr e ↦ ground (arith, h, e)
  ]

  upsert-keeps :
      (s : Object Spec Status) (l : Local Spec Status)
      → l.objects key ≡ before key
      → p (l.objects k) ≡ a
      → p ((upsert server f r empty equal key s l).0.objects k) ≡ a
  unfolding upsert
  upsert-keeps s l q h = elim (Option-cases (l.objects key)) [
    | inl g ↦ ground (arith, h, g, create-keeps s l (sym q ∙ g) h)
    | inr (c, g) ↦ ground (arith, h, g, overwrite-keeps s c l (sym q ∙ g) h)
  ]

  delete-keeps :
      (l : Local Spec Status)
      → l.objects key ≡ before key
      → p (l.objects k) ≡ a
      → p ((delete_mirror server f r empty equal key l).0.objects k) ≡ a
  unfolding delete_mirror
  delete-keeps l q h = elim (Option-cases (l.objects key)) [
    | inl g ↦ ground (arith, h, g)
    | inr (c, g) ↦ elim (Bool-cases (is_managed r c)) [
      | inl m ↦
          ground
            (arith, h, g, put-keeps (server.on_delete c) l (λ same. deleted c same (sym q ∙ g) m) h)
      | inr m ↦ ground (arith, h, g, m)
    ]
  ]

  found-keeps :
      (s : Object Spec Status) (l : Local Spec Status)
      → l.objects key ≡ before key
      → p (l.objects k) ≡ a
      → p ((reconcile_found server f r empty equal key s l).0.objects k) ≡ a
  found-keeps s l q h =
      let same = objects-ensure_namespace server f s.namespace l in
      let h' = ap (λ v. p (v k)) same ∙ h in
      ground (
        arith,
        h',
        upsert-keeps s (ensure_namespace server f s.namespace l).0 (ap (λ v. v key) same ∙ q) h',
      )

  pub reconcile_key-keeps :
      (upstream : Option (Object Spec Status)) (l : Local Spec Status)
      → l.objects key ≡ before key
      → p (l.objects k) ≡ a
      → p ((reconcile_key server f r empty equal key upstream l).0.objects k) ≡ a
  unfolding reconcile_key
  reconcile_key-keeps none l q h = ground (arith, h, delete-keeps l q h)
  reconcile_key-keeps (some s) l q h = ground (arith, h, delete-keeps l q h, found-keeps s l q h)
