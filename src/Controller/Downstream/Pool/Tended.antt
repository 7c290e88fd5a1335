-- ===== src/Controller/Downstream/Pool/Tended.antt =====
-- What a key of the queue has coming, and how the steps that leave the local cluster keep it.
use edgecdnx_controller.Common.{
  ◌≡◌, refl, sym, ap, subst, ◌∙◌, ℕ, Bool, true, false, Option, none, some, ◌==◌, if◌then◌else◌,
  arith, Bool-cases, inl, inr, ◌⊎◌, ==_iff,
}
use edgecdnx_controller.Controller.Downstream.{Object, Key, Reconciler, Error, same_key}
use edgecdnx_controller.Controller.Downstream.Keys.{same_key-eq}
use edgecdnx_controller.Controller.Downstream.Agreement.{view, wanted}
use edgecdnx_controller.Controller.Downstream.Pool.{
  Workqueue, System, Phase, idle, got, holds, ended, failing, at_worker, after_done, move,
}
use edgecdnx_controller.Controller.Downstream.Pool.Exclusion.{is_on}

module _ {Spec Status : Type 0} where
  -- A worker that will bring the source to the mirror, or queue the key again.
  abbrev pub Tends :
      Reconciler → (Key → Option (Object Spec Status)) → Key → Phase Spec Status → Type 0
  Tends r u k idle = ⊥
  Tends r u k (got key) = same_key key k ≡ true
  Tends r u k (holds key source) = (same_key key k ≡ true) × (wanted r source ≡ wanted r (u k))
  Tends r u k (ended key none) = ⊥
  Tends r u k (ended key (some e)) = same_key key k ≡ true
  Tends r u k (failing key) = same_key key k ≡ true

  -- Whether a worker is about to act on a key.
  abbrev pub is_acting : Phase Spec Status → Key → Bool
  is_acting (holds key source) k = same_key key k
  is_acting p k = false

  pub acting-on : (p : Phase Spec Status) (k : Key) → is_acting p k ≡ true → is_on p k ≡ true
  acting-on idle k h = h
  acting-on (got key) k h = ground (arith, h)
  acting-on (holds key source) k h = h
  acting-on (ended key error) k h = ground (arith, h)
  acting-on (failing key) k h = h

  -- Another worker's move leaves a worker that tends a key.
  pub Tends-apart :
      (r : Reconciler) (u : Key → Option (Object Spec Status)) (k : Key)
      (ws : ℕ → Phase Spec Status) (i j : ℕ) (p : Phase Spec Status)
      → i == j ≡ false
      → Tends r u k (ws j)
      → Tends r u k (at_worker i p ws j)
  Tends-apart r u k ws i j p e t = subst (λ b. Tends r u k (if b then p else ws j)) (sym e) t

  pub Tends-here :
      (r : Reconciler) (u : Key → Option (Object Spec Status)) (k : Key)
      (ws : ℕ → Phase Spec Status) (i : ℕ) (p : Phase Spec Status)
      → Tends r u k p
      → Tends r u k (at_worker i p ws i)
  Tends-here r u k ws i p t =
      subst (λ b. Tends r u k (if b then p else ws i)) (sym ((==_iff i i).1 refl)) t

  pub acting-apart :
      (ws : ℕ → Phase Spec Status) (i : ℕ) (p : Phase Spec Status) (k : Key)
      → is_acting p k ≡ false
      → ((j : ℕ) → i == j ≡ false → is_acting (ws j) k ≡ false)
      → (j : ℕ) → is_acting (at_worker i p ws j) k ≡ false
  acting-apart ws i p k mine others j = elim (Bool-cases (i == j)) [
    | inl e ↦ subst (λ b. is_acting (if b then p else ws j) k ≡ false) (sym e) mine
    | inr e ↦ subst (λ b. is_acting (if b then p else ws j) k ≡ false) (sym e) (others j e)
  ]

module _ (c : Workqueue) {Spec Status : Type 0} (r : Reconciler) where
  -- A key waits, or a worker tends it, or the mirror holds what is wanted and no worker is about to
  -- act on the key.
  abbrev pub IsTended : Key → System c Spec Status → Type 0
  IsTended k w =
      (c.waits k w.queue ≡ true)
      ⊎ (((i : ℕ) × Tends r w.upstream k (w.workers i))
          ⊎ ((view r w.local k ≡ wanted r (w.upstream k))
              × ((i : ℕ) → is_acting (w.workers i) k ≡ false)))

  here :
      (k : Key) (w : System c Spec Status) (i : ℕ) (p : Phase Spec Status) (q : c.Queue)
      → (c.waits k q ≡ true) ⊎ Tends r w.upstream k p
      → IsTended k (move c i p q w)
  here k w i p q (inl h) = inl h
  here k w i p q (inr h) = inr (inl (i, Tends-here r w.upstream k w.workers i p h))

  -- A worker's move that changes neither the sources nor the local cluster: where the worker tends
  -- the key, it tends it still, or the key waits; it does not come to act on it.
  moves :
      (k : Key) (w : System c Spec Status) (i : ℕ) (p : Phase Spec Status) (q : c.Queue)
      → (c.waits k w.queue ≡ true → (c.waits k q ≡ true) ⊎ Tends r w.upstream k p)
      → (Tends r w.upstream k (w.workers i) → (c.waits k q ≡ true) ⊎ Tends r w.upstream k p)
      → (is_acting p k ≡ false) ⊎ Tends r w.upstream k p
      → IsTended k w
      → IsTended k (move c i p q w)
  moves k w i p q waiting tending acting (inl h) = here k w i p q (waiting h)
  moves k w i p q waiting tending acting (inr (inl (j, t))) = elim (Bool-cases (i == j)) [
    | inl e ↦
        let same : i ≡ j = ground (arith, e) in
        here k w i p q (tending (subst (λ m. Tends r w.upstream k (w.workers m)) (sym same) t))
    | inr e ↦ inr (inl (j, Tends-apart r w.upstream k w.workers i j p e t))
  ]
  moves k w i p q waiting tending (inl h) (inr (inr (agrees, others))) =
      inr (inr (agrees, acting-apart w.workers i p k h (λ j e. others j)))
  moves k w i p q waiting tending (inr h) (inr (inr (agrees, others))) = here k w i p q (inr h)

  pub taken :
      (k : Key) (w : System c Spec Status) (i : ℕ) (key : Key) (rest : c.Queue)
      → w.workers i ≡ idle
      → c.get w.queue ≡ some (key, rest)
      → IsTended k w
      → IsTended k (move c i (got key) rest w)
  taken k w i key rest e g =
      moves k w i (got key) rest
        (λ h. elim (Bool-cases (same_key key k)) [
          | inl same ↦ inr same
          | inr apart ↦ inl (c.waits-get k key w.queue rest g ∙ ground (arith, h, apart))
        ])
        (λ t. absurd (subst (Tends r w.upstream k) e t)) (inl refl)

  pub has_read :
      (k : Key) (w : System c Spec Status) (i : ℕ) (key : Key)
      → w.workers i ≡ got key
      → IsTended k w
      → IsTended k (move c i (holds key (w.upstream key)) w.queue w)
  has_read k w i key e =
      moves k w i (holds key (w.upstream key)) w.queue inl
        (λ t. inr (now (subst (Tends r w.upstream k) e t)))
        (elim (Bool-cases (same_key key k)) [ inl same ↦ inr (now same) | inr apart ↦ inl apart ])
    where
      now :
          same_key key k ≡ true
          → (same_key key k ≡ true) × (wanted r (w.upstream key) ≡ wanted r (w.upstream k))
      now same = (same, ap (λ x. wanted r (w.upstream x)) (same_key-eq key k same))

  pub finished :
      (k : Key) (w : System c Spec Status) (i : ℕ) (key : Key) (error : Option Error)
      → w.workers i ≡ ended key error
      → IsTended k w
      → IsTended k (move c i (after_done key error) (c.finish key w.queue) w)
  finished k w i key none e =
      moves k w i idle (c.finish key w.queue) (λ h. inl (c.waits-finish k key w.queue ∙ h))
        (λ t. absurd (subst (Tends r w.upstream k) e t)) (inl refl)
  finished k w i key (some d) e =
      moves k w i (failing key) (c.finish key w.queue) (λ h. inl (c.waits-finish k key w.queue ∙ h))
        (λ t. inr (subst (Tends r w.upstream k) e t)) (inl refl)

  pub retried :
      (k : Key) (w : System c Spec Status) (i : ℕ) (key : Key)
      → w.workers i ≡ failing key
      → IsTended k w
      → IsTended k (move c i idle (c.add_rate_limited key w.queue) w)
  retried k w i key e =
      moves k w i idle (c.add_rate_limited key w.queue)
        (λ h. inl (c.waits-add_rate_limited k key w.queue ∙ ground (arith, h)))
        (λ t.
          let same = subst (Tends r w.upstream k) e t in
          inl (c.waits-add_rate_limited k key w.queue ∙ ground (arith, same)))
        (inl refl)
