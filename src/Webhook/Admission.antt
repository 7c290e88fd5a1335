-- ===== src/Webhook/Admission.antt =====
-- What the validators share: their answer, the key of an object, and the store that requests change
-- when they are admitted one at a time.
use edgecdnx_controller.Common.{
  ◌≡◌, Bool, true, false, not, ◌&&◌, Option, none, some, List, [], ◌∷◌, Text, text_eq, All,
  All-filter, All-mono, filter, Bool-cases, inl, inr,
}

-- The warnings and the error that a validator returns; the texts of messages are constructors.
pub record Response {ℓ κ} (W : Type ℓ) (E : Type κ) : Type (ℓ ⊔ κ) where
  pub warnings : List W
  pub error : Option E

-- `return nil, nil` and `return nil, err`
abbrev pub allowed {ℓ κ} : {W : Type ℓ} {E : Type κ} → Response W E
allowed = record { warnings = []; error = none }

abbrev pub denied {ℓ κ} : {W : Type ℓ} {E : Type κ} → E → Response W E
denied e = record { warnings = []; error = some e }

abbrev pub is_none {ℓ} : {A : Type ℓ} → Option A → Bool
is_none none = true
is_none (some a) = false

-- Whether the request goes on.
abbrev pub is_allowed {ℓ κ} : {W : Type ℓ} {E : Type κ} → Response W E → Bool
is_allowed r = is_none r.error

-- metav1.ObjectMeta, as far as the validators read it.
pub record ObjectMeta : Type 0 where
  pub name : Text
  pub namespace : Text

abbrev pub same_key : ObjectMeta → ObjectMeta → Bool
same_key a b = text_eq a.name b.name && text_eq a.namespace b.namespace

module _ {A : Type 0} (clash : A → A → Bool) where
  -- No two objects clash.
  abbrev pub IsPeaceful : List A → Type 0
  IsPeaceful [] = Unit
  IsPeaceful (x ∷ xs) = All (λ y. clash x y ≡ false) xs × IsPeaceful xs

-- A store of objects: an admitted object replaces the one of its key, and objects may disappear.
-- A validator reads the store as it is before the change: requests are taken one at a time.
module _ {A : Type 0} (same clash : A → A → Bool) (accepts : A → List A → Bool) where
  abbrev pub put : A → List A → List A
  put x xs = x ∷ filter (λ e. not (same e x)) xs

  pub data Step (xs : List A) : List A → Type 0 where
    admit : (x : A) → accepts x xs ≡ true → Step xs (put x xs)
    remove : (gone : A → Bool) → Step xs (filter (λ e. not (gone e)) xs)

  pub data Reach : List A → Type 0 where
    empty : Reach []
    next : {xs ys : List A} → Reach xs → Step xs ys → Reach ys

  filter-IsPeaceful :
      (t : A → Bool) (xs : List A) → IsPeaceful clash xs → IsPeaceful clash (filter t xs)
  filter-IsPeaceful t [] h = tt
  filter-IsPeaceful t (x ∷ xs) (h, hs) =
      let rest = filter-IsPeaceful t xs hs in
      elim (Bool-cases (t x)) [
        | inl e ↦
            rw e (
              All-mono (filter t xs) (λ y k. k.0) (All-filter (λ y. clash x y ≡ false) t xs h),
              rest,
            )
        | inr e ↦ rw e rest
      ]

  module _
      (sound : (x : A) (xs : List A)
        → accepts x xs ≡ true
        → All (λ e. (not (same e x) ≡ true) → clash x e ≡ false) xs) where
    Step-IsPeaceful : {xs ys : List A} → Step xs ys → IsPeaceful clash xs → IsPeaceful clash ys
    Step-IsPeaceful {xs} (admit x h) p = (
      All-mono _ (λ y k. k.0 k.1)
          (All-filter (λ e. (not (same e x) ≡ true) → clash x e ≡ false) _ xs (sound x xs h)),
      filter-IsPeaceful _ xs p,
    )
    Step-IsPeaceful {xs} (remove gone) p = filter-IsPeaceful _ xs p

    -- Whatever is admitted, no two objects of the store clash.
    pub Reach-IsPeaceful : {xs : List A} → Reach xs → IsPeaceful clash xs
    Reach-IsPeaceful empty = tt
    Reach-IsPeaceful (next r s) = Step-IsPeaceful s (Reach-IsPeaceful r)
