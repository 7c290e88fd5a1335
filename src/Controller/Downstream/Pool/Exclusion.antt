-- ===== src/Controller/Downstream/Pool/Exclusion.antt =====
-- No two workers are on one key.
use edgecdnx_controller.Common.{
  ◌≡◌, refl, sym, ap, subst, ◌∙◌, ℕ, Bool, true, false, Option, none, some, ◌==◌, if◌then◌else◌,
  arith, Bool-cases, inl, inr, ◌⊎◌,
}
use edgecdnx_controller.Controller.Downstream.{Object, Key, Reconciler, Error, same_key}
use edgecdnx_controller.Controller.Downstream.Reconcile.{Server}
use edgecdnx_controller.Controller.Downstream.Keys.{same_key-eq}
use edgecdnx_controller.Controller.Downstream.Pool.{
  Workqueue, System, Phase, idle, got, holds, ended, failing, at_worker, after_done, Step, change,
  ignore, take, read_source, act, finish, retry, Reach, start, later,
}

-- Whether a worker is on a key: from Get to Done.
abbrev pub is_on : {Spec Status : Type 0} → Phase Spec Status → Key → Bool
is_on idle k = false
is_on (got key) k = same_key key k
is_on (holds key source) k = same_key key k
is_on (ended key error) k = same_key key k
is_on (failing key) k = false

module _ (c : Workqueue) {Spec Status : Type 0} where
  -- A key that a worker is on is busy, and no other worker is on it.
  abbrev pub IsExclusive : (ℕ → Phase Spec Status) → c.Queue → Type 0
  IsExclusive ws q =
      ((i : ℕ) (k : Key) → is_on (ws i) k ≡ true → c.busy k q ≡ true)
      × ((i j : ℕ) (k : Key) → is_on (ws i) k ≡ true → is_on (ws j) k ≡ true → i ≡ j)

  -- A worker of the new family that is on a key: the one that moved, or one that was on it.
  on-at_worker :
      (ws : ℕ → Phase Spec Status) (i j : ℕ) (p : Phase Spec Status) (k : Key)
      → is_on (at_worker i p ws j) k ≡ true
      → ((i ≡ j) × (is_on p k ≡ true)) ⊎ ((i == j ≡ false) × (is_on (ws j) k ≡ true))
  on-at_worker ws i j p k h = elim (Bool-cases (i == j)) [
    | inl e ↦ inl (ground (arith, e), subst (λ b. is_on (if b then p else ws j) k ≡ true) e h)
    | inr e ↦ inr (e, subst (λ b. is_on (if b then p else ws j) k ≡ true) e h)
  ]

  -- A worker that is on the keys that it was on, at most, and a queue whose busy keys stay busy.
  moved :
      (ws : ℕ → Phase Spec Status) (i : ℕ) (p : Phase Spec Status) (q rest : c.Queue)
      → ((k : Key) → is_on p k ≡ true → is_on (ws i) k ≡ true)
      → ((k : Key) → c.busy k rest ≡ c.busy k q)
      → IsExclusive ws q
      → IsExclusive (at_worker i p ws) rest
  moved ws i p q rest narrower same (held, alone) =
      (λ j k h. same k ∙ held j k (was j k h), λ j m k h g. alone j m k (was j k h) (was m k g))
    where
      was : (j : ℕ) (k : Key) → is_on (at_worker i p ws j) k ≡ true → is_on (ws j) k ≡ true
      was j k h = elim (on-at_worker ws i j p k h) [
        | inl (e, on) ↦ subst (λ m. is_on (ws m) k ≡ true) e (narrower k on)
        | inr (e, on) ↦ on
      ]

  taken :
      (ws : ℕ → Phase Spec Status) (i : ℕ) (key : Key) (q rest : c.Queue)
      → c.get q ≡ some (key, rest)
      → IsExclusive ws q
      → IsExclusive (at_worker i (got key) ws) rest
  taken ws i key q rest g (held, alone) = (
    λ j k h. elim (on-at_worker ws i j (got key) k h) [
      | inl (e, on) ↦ c.busy-get k key q rest g ∙ ground (arith, on)
      | inr (e, on) ↦ c.busy-get k key q rest g ∙ ground (arith, held j k on)
    ],
    λ j m k h f. elim (on-at_worker ws i j (got key) k h) [
      | inl (e, on) ↦ elim (on-at_worker ws i m (got key) k f) [
        | inl (e', on') ↦ sym e ∙ e'
        | inr (e', on') ↦ absurd (free m k on on')
      ]
      | inr (e, on) ↦ elim (on-at_worker ws i m (got key) k f) [
        | inl (e', on') ↦ absurd (free j k on' on)
        | inr (e', on') ↦ alone j m k on on'
      ]
    ],
  )
    where
      free : (j : ℕ) (k : Key) → same_key key k ≡ true → is_on (ws j) k ≡ true → ⊥
      free j k same on =
          let b = ap (λ x. c.busy x q) (same_key-eq key k same) in
          ground (arith, held j k on, b, c.get-free key q rest g)

  finished :
      (ws : ℕ → Phase Spec Status) (i : ℕ) (key : Key) (error : Option Error) (q : c.Queue)
      → ws i ≡ ended key error
      → IsExclusive ws q
      → IsExclusive (at_worker i (after_done key error) ws) (c.finish key q)
  finished ws i key error q e (held, alone) = (
    λ j k h.
        let (apart, on) = was j k h in
        c.busy-finish k key q ∙ ground (arith, held j k on, other j k apart on),
    λ j m k h g. alone j m k (was j k h).1 (was m k g).1,
  )
    where
      off :
          (x : Option Error) (k : Key)
          → is_on (after_done {Spec = Spec} {Status = Status} key x) k ≡ false
      off none k = refl
      off (some d) k = refl

      was :
          (j : ℕ) (k : Key)
          → is_on (at_worker i (after_done key error) ws j) k ≡ true
          → (i == j ≡ false) × (is_on (ws j) k ≡ true)
      was j k h = elim (on-at_worker ws i j (after_done key error) k h) [
        | inl (p, on) ↦ ground (arith, on, off error k)
        | inr (p, on) ↦ (p, on)
      ]

      other : (j : ℕ) (k : Key) → i == j ≡ false → is_on (ws j) k ≡ true → same_key key k ≡ false
      other j k apart on = elim (Bool-cases (same_key key k)) [
        | inr apart_keys ↦ apart_keys
        | inl same ↦
            let mine = ap (λ p. is_on p k) e ∙ same in ground (arith, apart, alone i j k mine on)
      ]

  module _ (server : Server Spec Status) (r : Reconciler) (empty : Status)
      (equal : Object Spec Status → Object Spec Status → Bool) where
    Step-IsExclusive :
        {w v : System c Spec Status}
        → Step c server r empty equal w v
        → IsExclusive w.workers w.queue
        → IsExclusive v.workers v.queue
    Step-IsExclusive {w} (change key o) (held, alone) =
        (λ i k h. ground (arith, held i k h, c.busy-add k key w.queue), alone)
    Step-IsExclusive (ignore key old new e h) x = x
    Step-IsExclusive {w} (take i key rest e g) x = taken w.workers i key w.queue rest g x
    Step-IsExclusive {w} (read_source i key e) x =
        moved w.workers i (holds key (w.upstream key)) w.queue w.queue
          (λ k h. ap (λ p. is_on p k) e ∙ h) (λ k. refl) x
    Step-IsExclusive {w} (act i key source f e honest) x =
        moved w.workers i _ w.queue w.queue (λ k h. ap (λ p. is_on p k) e ∙ h) (λ k. refl) x
    Step-IsExclusive {w} (finish i key error e) x = finished w.workers i key error w.queue e x
    Step-IsExclusive {w} (retry i key e) x =
        moved w.workers i idle w.queue (c.add_rate_limited key w.queue) (λ k h. ground (arith, h))
          (λ k. c.busy-add_rate_limited k key w.queue) x

    -- Where all workers wait at Get at first, a key that a worker is on is busy in every state that is
    -- reached, and no other worker is on it.
    pub Reach-IsExclusive :
        {first w : System c Spec Status}
        → ((i : ℕ) → first.workers i ≡ idle)
        → Reach c server r empty equal first w
        → IsExclusive w.workers w.queue
    Reach-IsExclusive rest start =
        (λ i k h. ground (arith, rest i, h), λ i j k h g. ground (arith, rest i, h))
    Reach-IsExclusive rest (later reach step) = Step-IsExclusive step (Reach-IsExclusive rest reach)
