-- ===== src/Controller/Downstream/Foreign.antt =====
-- Objects that another owner put into the local cluster are left alone.
use edgecdnx_controller.Common.{◌≡◌, refl, ap, Bool, true, false, Option, none, some, arith}
use edgecdnx_controller.Controller.Downstream.{Object, Key, same_key, Faults, Reconciler}
use edgecdnx_controller.Controller.Downstream.Reconcile.{Local, Server, is_managed, reconcile_key}
use edgecdnx_controller.Controller.Downstream.Keys.{same_key-eq}
use edgecdnx_controller.Controller.Downstream.Frame.{reconcile_key-keeps}

module _ {Spec Status : Type 0} (server : Server Spec Status) (faults : Faults) (k : Key)
    (o : Object Spec Status) (r : Reconciler) (empty : Status)
    (equal : Object Spec Status → Object Spec Status → Bool) where
  -- The key of a foreign object is not one without an object, nor one of a managed object.
  vacant : (x y : Option (Object Spec Status)) → x ≡ y → x ≡ none → y ≡ some o → ⊥
  vacant x y e n s = ground (arith, e, n, s)

  clash :
      (x y : Option (Object Spec Status)) (c : Object Spec Status)
      → x ≡ y
      → x ≡ some c
      → y ≡ some o
      → is_managed r c ≡ true
      → is_managed r o ≡ false
      → ⊥
  clash x y c e n s m foreign = ground (arith, e, n, s, m, foreign)

  -- Whatever key is reconciled, whatever the upstream cluster holds and whichever calls fail, an
  -- object of the local cluster that does not carry the label of this upstream stays as it is.
  pub reconcile_key-keeps_foreign :
      (key : Key) (upstream : Option (Object Spec Status)) (l : Local Spec Status)
      → is_managed r o ≡ false
      → l.objects k ≡ some o
      → (reconcile_key server faults r empty equal key upstream l).0.objects k ≡ some o
  reconcile_key-keeps_foreign key upstream l foreign h =
      let here : same_key key k ≡ true → l.objects key ≡ l.objects k =
        λ same. ap l.objects (same_key-eq key k same) in
      reconcile_key-keeps server r empty equal faults key k (λ v. v) (some o) l.objects
        (λ s same g. absurd (vacant (l.objects key) (l.objects k) (here same) g h))
        (λ s c same g e.
          absurd
            (clash (l.objects key) (l.objects k) c (here same) g h (ground (arith, e)) foreign))
        (λ c same g m. absurd (clash (l.objects key) (l.objects k) c (here same) g h m foreign))
        upstream l refl h
