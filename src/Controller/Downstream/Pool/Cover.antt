-- ===== src/Controller/Downstream/Pool/Cover.antt =====
-- A change of a source is never lost, however the workers interleave.
use edgecdnx_controller.Common.{
  ◌≡◌, refl, sym, ap, subst, ◌∙◌, ℕ, Bool, true, false, Option, none, some, [], ◌==◌, arith,
  Bool-cases, Option-cases, inl, inr, ◌⊎◌,
}
use edgecdnx_controller.Controller.Downstream.{Object, Key, Reconciler, Faults, same_key}
use edgecdnx_controller.Controller.Downstream.Reconcile.{Server}
use edgecdnx_controller.Controller.Downstream.Keys.{same_key-eq, same_key_refl}
use edgecdnx_controller.Controller.Downstream.Mirror.{SameContent}
use edgecdnx_controller.Controller.Downstream.Frame.{true-false}
use edgecdnx_controller.Controller.Downstream.Agreement.{
  is_honest, is_mirrored_key, view, wanted, is_ready, reconcile_key-agrees,
}
use edgecdnx_controller.Controller.Downstream.Convergence.{ready-keeps, view-keeps}
use edgecdnx_controller.Controller.Downstream.Pool.{
  Workqueue, System, Phase, idle, got, holds, ended, failing, outcome, acted, Step, change, ignore,
  take, read_source, act, finish, retry, Reach, start, later,
}
use edgecdnx_controller.Controller.Downstream.Pool.Exclusion.{is_on, IsExclusive, Reach-IsExclusive}
use edgecdnx_controller.Controller.Downstream.Pool.Tended.{
  Tends, is_acting, IsTended, Tends-apart, Tends-here, acting-apart, acting-on, taken, has_read,
  finished, retried,
}
use edgecdnx_controller.Controller.Downstream.Pool.Handlers.{has_changed, has_replaced}

-- Whether a worker is on a key, or about to queue it again.
abbrev pub is_engaged : {Spec Status : Type 0} → Phase Spec Status → Key → Bool
is_engaged (failing key) k = same_key key k
is_engaged p k = is_on p k

engaged :
    {Spec Status : Type 0} (r : Reconciler) (u : Key → Option (Object Spec Status)) (k : Key)
    (p : Phase Spec Status)
    → Tends r u k p
    → is_engaged p k ≡ true
engaged r u k idle t = absurd t
engaged r u k (got key) t = t
engaged r u k (holds key source) t = t.0
engaged r u k (ended key none) t = absurd t
engaged r u k (ended key (some d)) t = t
engaged r u k (failing key) t = t

module _ (c : Workqueue) {Spec Status : Type 0} (r : Reconciler) where
  module _ (server : Server Spec Status)
      (create-content : (d : Object Spec Status) → SameContent (server.on_create d) d)
      (update-content : (c d : Object Spec Status) → SameContent (server.on_update c d) d)
      (create-alive : (d : Object Spec Status)
        → (server.on_create d).meta.deletion_timestamp ≡ none)
      (update-alive : (c d : Object Spec Status)
        → (server.on_update c d).meta.deletion_timestamp ≡ c.meta.deletion_timestamp)
      (create-bare : (d : Object Spec Status)
        → (server.on_create d).meta.finalizers ≡ d.meta.finalizers)
      (update-bare : (c d : Object Spec Status)
        → (server.on_update c d).meta.finalizers ≡ d.meta.finalizers)
      (delete-gone : (c : Object Spec Status) → c.meta.finalizers ≡ [] → server.on_delete c ≡ none)
      (empty : Status) (equal : Object Spec Status → Object Spec Status → Bool)
      (equal-sound : (a b : Object Spec Status) → equal a b ≡ true → a ≡ b) where
    -- A worker that acts on the key itself, on the present source: a failure is to be queued again;
    -- a success makes the mirror agree.
    acted_here :
        (k : Key) (w : System c Spec Status) (i : ℕ) (source : Option (Object Spec Status))
        (f : Faults)
        → is_mirrored_key r k ≡ true
        → is_ready r w.local k ≡ true
        → is_honest f ≡ true
        → wanted r source ≡ wanted r (w.upstream k)
        → w.workers i ≡ holds k source
        → IsExclusive c w.workers w.queue
        → IsTended c r k (acted c server r empty equal i f k source w)
    acted_here k w i source f mirrored ready honest read e (busy, alone) =
        elim (Option-cases (outcome c server r empty equal f k source w).1) [
          | inl none_left ↦
              let agrees =
                reconcile_key-agrees r server create-content update-content create-alive
                  update-alive create-bare update-bare delete-gone empty equal equal-sound f honest
                  k source w.local mirrored ready none_left in
              inr (inr (agrees ∙ read, acting-apart w.workers i _ k refl apart))
          | inr (d, left) ↦
              let tends =
                subst (λ x. Tends r w.upstream k (ended k x)) (sym left) (same_key_refl k) in
              inr (inl (i, Tends-here r w.upstream k w.workers i _ tends))
        ]
      where
        apart : (j : ℕ) → i == j ≡ false → is_acting (w.workers j) k ≡ false
        apart j other = elim (Bool-cases (is_acting (w.workers j) k)) [
          | inr h ↦ h
          | inl h ↦
              let mine = ap (λ p. is_on p k) e ∙ same_key_refl k in
              ground (arith, other, alone i j k mine (acting-on (w.workers j) k h))
        ]

    acted_same :
        (k : Key) (w : System c Spec Status) (i : ℕ) (source : Option (Object Spec Status))
        (f : Faults)
        → is_mirrored_key r k ≡ true
        → is_ready r w.local k ≡ true
        → is_honest f ≡ true
        → w.workers i ≡ holds k source
        → IsExclusive c w.workers w.queue
        → IsTended c r k w
        → IsTended c r k (acted c server r empty equal i f k source w)
    acted_same k w i source f mirrored ready honest e x (inl h) = inl h
    acted_same k w i source f mirrored ready honest e x (inr (inr (agrees, others))) =
        absurd (true-false (sym (same_key_refl k) ∙ sym (ap (λ p. is_acting p k) e) ∙ others i))
    acted_same k w i source f mirrored ready honest e x (inr (inl (j, t))) =
        elim (Bool-cases (i == j)) [
          | inr apart ↦ inr (inl (j, Tends-apart r w.upstream k w.workers i j _ apart t))
          | inl here ↦
              let at : i ≡ j = ground (arith, here) in
              let mine = subst (λ m. Tends r w.upstream k (w.workers m)) (sym at) t in
              acted_here k w i source f mirrored ready honest
                (subst (Tends r w.upstream k) e mine).1 e x
        ]

    -- A worker that acts on another key.
    acted_apart :
        (k : Key) (w : System c Spec Status) (i : ℕ) (key : Key)
        (source : Option (Object Spec Status)) (f : Faults)
        → same_key key k ≡ false
        → w.workers i ≡ holds key source
        → IsTended c r k w
        → IsTended c r k (acted c server r empty equal i f key source w)
    acted_apart k w i key source f other e (inl h) = inl h
    acted_apart k w i key source f other e (inr (inl (j, t))) = elim (Bool-cases (i == j)) [
      | inr apart ↦ inr (inl (j, Tends-apart r w.upstream k w.workers i j _ apart t))
      | inl here ↦
          let at : i ≡ j = ground (arith, here) in
          let mine = subst (λ m. Tends r w.upstream k (w.workers m)) (sym at) t in
          absurd (true-false (sym (subst (Tends r w.upstream k) e mine).0 ∙ other))
    ]
    acted_apart k w i key source f other e (inr (inr (agrees, others))) =
        let kept =
          view-keeps server create-content update-content create-alive update-alive create-bare
            update-bare delete-gone r empty equal equal-sound f key k source w.local other in
        inr (inr (kept ∙ agrees, acting-apart w.workers i _ k refl (λ j apart. others j)))

    has_acted :
        (k : Key) (w : System c Spec Status) (i : ℕ) (key : Key)
        (source : Option (Object Spec Status)) (f : Faults)
        → is_mirrored_key r k ≡ true
        → is_ready r w.local k ≡ true
        → is_honest f ≡ true
        → w.workers i ≡ holds key source
        → IsExclusive c w.workers w.queue
        → IsTended c r k w
        → IsTended c r k (acted c server r empty equal i f key source w)
    has_acted k w i key source f mirrored ready honest e x t = elim (Bool-cases (same_key key k)) [
      | inr other ↦ acted_apart k w i key source f other e t
      | inl same ↦
          let at = sym (same_key-eq key k same) in
          subst
            (λ y.
              w.workers i ≡ holds y source
              → IsTended c r k (acted c server r empty equal i f y source w))
            at (λ e. acted_same k w i source f mirrored ready honest e x t) e
    ]

    Step-is_ready :
        {w v : System c Spec Status} (k : Key)
        → Step c server r empty equal w v
        → is_ready r w.local k ≡ true
        → is_ready r v.local k ≡ true
    Step-is_ready k (change key o) h = h
    Step-is_ready k (ignore key old new e g) h = h
    Step-is_ready k (take i key rest e g) h = h
    Step-is_ready k (read_source i key e) h = h
    Step-is_ready {w} k (act i key source f e honest) h =
        ready-keeps server create-content update-content create-alive update-alive create-bare
          update-bare delete-gone r empty equal equal-sound f key k source w.local h
    Step-is_ready k (finish i key error e) h = h
    Step-is_ready k (retry i key e) h = h

    Step-IsTended :
        {w v : System c Spec Status} (k : Key)
        → Step c server r empty equal w v
        → is_mirrored_key r k ≡ true
        → is_ready r w.local k ≡ true
        → IsExclusive c w.workers w.queue
        → IsTended c r k w
        → IsTended c r k v
    Step-IsTended {w} k (change key o) mirrored ready x = has_changed c r k w key o mirrored
    Step-IsTended {w} k (ignore key old new e h) mirrored ready x =
        has_replaced c r empty equal equal-sound k w key old new e h
    Step-IsTended {w} k (take i key rest e g) mirrored ready x = taken c r k w i key rest e g
    Step-IsTended {w} k (read_source i key e) mirrored ready x = has_read c r k w i key e
    Step-IsTended {w} k (act i key source f e honest) mirrored ready x =
        has_acted k w i key source f mirrored ready honest e x
    Step-IsTended {w} k (finish i key error e) mirrored ready x = finished c r k w i key error e
    Step-IsTended {w} k (retry i key e) mirrored ready x = retried c r k w i key e

    Reach-IsTended :
        {first w : System c Spec Status} (k : Key)
        → ((i : ℕ) → first.workers i ≡ idle)
        → is_mirrored_key r k ≡ true
        → is_ready r first.local k ≡ true
        → IsTended c r k first
        → Reach c server r empty equal first w
        → (is_ready r w.local k ≡ true) × IsTended c r k w
    Reach-IsTended k rest mirrored ready t start = (ready, t)
    Reach-IsTended k rest mirrored ready t (later reach step) =
        let (still, now) = Reach-IsTended k rest mirrored ready t reach in
        let x = Reach-IsExclusive c server r empty equal rest reach in
        (Step-is_ready k step still, Step-IsTended k step mirrored still x now)

    -- However the workers interleave with each other and with changes upstream: in every state that
    -- is reached in which a mirrored key does not wait and no worker is on it or about to queue it
    -- again, the mirror holds what the upstream cluster has now. All workers wait at Get at first; the
    -- key waits or the mirror agrees on it then, with no object of another owner, in deletion or with
    -- finalizers there. Calls fail only by being refused; the server keeps the content and the
    -- finalizers that it is given, sets no time of deletion on a create or an update, and leaves nothing
    -- of an object without finalizers that is deleted; reflect.DeepEqual holds at equal objects only.
    pub Reach-agrees :
        {first w : System c Spec Status} (k : Key)
        → ((i : ℕ) → first.workers i ≡ idle)
        → is_mirrored_key r k ≡ true
        → is_ready r first.local k ≡ true
        → (c.waits k first.queue ≡ true) ⊎ (view r first.local k ≡ wanted r (first.upstream k))
        → Reach c server r empty equal first w
        → c.waits k w.queue ≡ false
        → ((i : ℕ) → is_engaged (w.workers i) k ≡ false)
        → view r w.local k ≡ wanted r (w.upstream k)
    Reach-agrees {first} {w} k rest mirrored ready covered reach drained quiet =
        settled (Reach-IsTended k rest mirrored ready (at_start covered) reach).1
      where
        at_start :
            (c.waits k first.queue ≡ true) ⊎ (view r first.local k ≡ wanted r (first.upstream k))
            → IsTended c r k first
        at_start (inl h) = inl h
        at_start (inr h) = inr (inr (h, λ i. ap (λ p. is_acting p k) (rest i)))

        settled : IsTended c r k w → view r w.local k ≡ wanted r (w.upstream k)
        settled (inl h) = absurd (true-false (sym h ∙ drained))
        settled (inr (inl (i, t))) =
            absurd (true-false (sym (engaged r w.upstream k (w.workers i) t) ∙ quiet i))
        settled (inr (inr (agrees, others))) = agrees
