-- ===== src/Controller/Downstream/Pool/Handlers.antt =====
-- What the handlers do to what a key has coming: a change is queued, an update of an equal source is
-- not.
use edgecdnx_controller.Common.{
  ◌≡◌, refl, sym, ap, ◌∙◌, Bool, true, Option, none, some, if◌then◌else◌, arith, Bool-cases, inl,
  inr,
}
use edgecdnx_controller.Controller.Downstream.{
  Object, Kind, other, clear_remote_metadata, with_status, Key, Reconciler, same_key,
}
use edgecdnx_controller.Controller.Downstream.Keys.{same_key-eq}
use edgecdnx_controller.Controller.Downstream.Queue.{
  is_in_target, source_of, downstream_source_equal,
}
use edgecdnx_controller.Controller.Downstream.Agreement.{is_mirrored_key, wanted}
use edgecdnx_controller.Controller.Downstream.Pool.{
  Workqueue, System, Phase, idle, got, holds, ended, failing,
}
use edgecdnx_controller.Controller.Downstream.Pool.Tended.{Tends, IsTended}

module _ (c : Workqueue) {Spec Status : Type 0} (r : Reconciler) where
  -- A source that changes leaves a worker that tends a key of which the same is wanted.
  Tends-upstream :
      (u v : Key → Option (Object Spec Status)) (k : Key) (p : Phase Spec Status)
      → wanted r (u k) ≡ wanted r (v k)
      → Tends r u k p
      → Tends r v k p
  Tends-upstream u v k idle e t = t
  Tends-upstream u v k (got key) e t = t
  Tends-upstream u v k (holds key source) e (same, read) = (same, read ∙ e)
  Tends-upstream u v k (ended key none) e t = t
  Tends-upstream u v k (ended key (some d)) e t = t
  Tends-upstream u v k (failing key) e t = t

  -- A source of which the same is wanted as before leaves what the key has coming.
  same_wanted :
      (k : Key) (w : System c Spec Status) (u : Key → Option (Object Spec Status))
      → wanted r (w.upstream k) ≡ wanted r (u k)
      → IsTended c r k w
      → IsTended c r k (record w { upstream = u })
  same_wanted k w u e (inl h) = inl h
  same_wanted k w u e (inr (inl (j, t))) =
      inr (inl (j, Tends-upstream w.upstream u k (w.workers j) e t))
  same_wanted k w u e (inr (inr (agrees, others))) = inr (inr (agrees ∙ e, others))

  pub has_changed :
      (k : Key) (w : System c Spec Status) (key : Key) (o : Option (Object Spec Status))
      → is_mirrored_key r k ≡ true
      → IsTended c r k w
      → IsTended c r k (record w {
        upstream = λ x. if same_key key x then o else w.upstream x;
        queue = if is_in_target r key then c.add key w.queue else w.queue;
      })
  has_changed k w key o mirrored t = elim (Bool-cases (same_key key k)) [
    | inl same ↦
        let aimed = ap (is_in_target r) (same_key-eq key k same) in
        inl (ground (arith, aimed, mirrored, same, c.waits-add k key w.queue))
    | inr apart ↦
        let after = λ (x : Key). if same_key key x then o else w.upstream x in
        let kept = sym (ap (λ b. wanted r (if b then o else w.upstream k)) apart) in
        elim (same_wanted k w after kept t) [
          | inl h ↦ inl (ground (arith, h, c.waits-add k key w.queue))
          | inr h ↦ inr h
        ]
  ]

  -- What is wanted does not hang on what downstreamSourceEqual clears.
  wanted_cleared :
      (empty : Status) (o : Object Spec Status) (kind : Kind)
      → wanted r (
          some (elim kind [
            | other ↦ clear_remote_metadata o
            | _ ↦ with_status empty (clear_remote_metadata o)
          ]))
        ≡ wanted r (some o)
  wanted_cleared empty o Kind.location = refl
  wanted_cleared empty o Kind.health_check_profile = refl
  wanted_cleared empty o Kind.zone = refl
  wanted_cleared empty o Kind.prefix_list = refl
  wanted_cleared empty o Kind.dns_endpoint = refl
  wanted_cleared empty o Kind.service = refl
  wanted_cleared empty o Kind.other = refl

  -- Where the handler finds the sources equal, the same is wanted.
  equal_wanted :
      (empty : Status) (equal : Object Spec Status → Object Spec Status → Bool)
      → ((a b : Object Spec Status) → equal a b ≡ true → a ≡ b)
      → (old new : Object Spec Status) → downstream_source_equal r empty equal old new ≡ true
      → wanted r (some old) ≡ wanted r (some new)
  equal_wanted empty equal equal-sound old new h =
      sym (wanted_cleared empty old old.kind)
      ∙ ap (λ s. wanted r (some s))
          (equal-sound (source_of r empty equal old) (source_of r empty equal new) h)
      ∙ wanted_cleared empty new new.kind

  pub has_replaced :
      (empty : Status) (equal : Object Spec Status → Object Spec Status → Bool)
      → ((a b : Object Spec Status) → equal a b ≡ true → a ≡ b)
      → (k : Key) (w : System c Spec Status) (key : Key) (old new : Object Spec Status)
      → w.upstream key ≡ some old
      → downstream_source_equal r empty equal old new ≡ true
      → IsTended c r k w
      → IsTended c r k
          (record w { upstream = λ x. if same_key key x then some new else w.upstream x })
  has_replaced empty equal equal-sound k w key old new e h =
      same_wanted k w (λ x. if same_key key x then some new else w.upstream x) kept
    where
      kept : wanted r (w.upstream k) ≡ wanted r (if same_key key k then some new else w.upstream k)
      kept = elim (Bool-cases (same_key key k)) [
        | inr apart ↦ sym (ap (λ b. wanted r (if b then some new else w.upstream k)) apart)
        | inl same ↦
            sym (ap (λ x. wanted r (w.upstream x)) (same_key-eq key k same))
            ∙ ap (wanted r) e
            ∙ equal_wanted empty equal equal-sound old new h
            ∙ sym (ap (λ b. wanted r (if b then some new else w.upstream k)) same)
      ]
