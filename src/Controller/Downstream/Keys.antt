-- ===== src/Controller/Downstream/Keys.antt =====
-- The keys of objects, and what ensureNamespace leaves alone.
use edgecdnx_controller.Common.{◌≡◌, true, Text, text_iff, text_refl, arith}
use edgecdnx_controller.Controller.Downstream.{Key, same_key, Faults}
use edgecdnx_controller.Controller.Downstream.Reconcile.{Local, Server, ensure_namespace}

pub same_key-eq : (a b : Key) → same_key a b ≡ true → a ≡ b
same_key-eq a b h =
    let kind = (text_iff a.kind b.kind).0 (ground arith) in
    let namespace = (text_iff a.namespace b.namespace).0 (ground arith) in
    let name = (text_iff a.name b.name).0 (ground arith) in
    λ i. record { kind = kind i; namespace = namespace i; name = name i }

pub same_key_refl : (k : Key) → same_key k k ≡ true
same_key_refl k = ground (arith, text_refl k.kind, text_refl k.namespace, text_refl k.name)

module _ {Spec Status : Type 0} (server : Server Spec Status) (faults : Faults) where
  pub objects-ensure_namespace :
      (n : Text) (l : Local Spec Status)
      → (ensure_namespace server faults n l).0.objects ≡ l.objects
  unfolding ensure_namespace
  objects-ensure_namespace n l = ground arith
