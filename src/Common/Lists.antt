-- ===== src/Common/Lists.antt =====
-- Lists: Boolean quantifiers, predicates by recursion and lengths in native numbers.
use Prim.Native.Nat.{ℕ, suc}
use mathlib.Core.Path.{◌≡◌, refl, sym, ◌∙◌, ap}
use mathlib.Core.Logic.{inl, inr, ∥∥₁_elim}
use mathlib.Core.Bool.{Bool, true, false, not, ◌&&◌, ◌||◌, Bool-set}
use mathlib.Core.List.{List, [], ◌∷◌, ◌++◌, Perm, Permᴰ}
use native.Mathlib.Omega.{arith}
use edgecdnx_controller.Common.Tests.{if◌then◌else◌, Bool-cases, or_true}

module _ {ℓ} {A : Type ℓ} where
  abbrev pub length : List A → ℕ
  length [] = 0
  length (x ∷ xs) = suc (length xs)

  abbrev pub any : (A → Bool) → List A → Bool
  any p [] = false
  any p (x ∷ xs) = p x || any p xs

  abbrev pub all : (A → Bool) → List A → Bool
  all p [] = true
  all p (x ∷ xs) = p x && all p xs

  abbrev pub filter : (A → Bool) → List A → List A
  filter p [] = []
  filter p (x ∷ xs) = let rest = filter p xs in if p x then x ∷ rest else rest

  -- A predicate that holds of every item.
  abbrev pub All {κ} : (A → Type κ) → List A → Type κ
  All P [] = Unit
  All P (x ∷ xs) = P x × All P xs

module _ {ℓ} {A : Type ℓ} where
  pub any-append : (p : A → Bool) (xs ys : List A) → any p (xs ++ ys) ≡ (any p xs || any p ys)
  any-append p [] ys = refl
  any-append p (x ∷ xs) ys = ground (arith, any-append p xs ys)

  pub all-append : (p : A → Bool) (xs ys : List A) → all p (xs ++ ys) ≡ (all p xs && all p ys)
  all-append p [] ys = refl
  all-append p (x ∷ xs) ys = ground (arith, all-append p xs ys)

  pub any-permᴰ : (p : A → Bool) {xs ys : List A} → Permᴰ xs ys → any p xs ≡ any p ys
  any-permᴰ p Permᴰ.nil = refl
  any-permᴰ p (Permᴰ.cons {a} {b} e d) = rw e (ap (λ t. p b || t) (any-permᴰ p d))
  any-permᴰ p (Permᴰ.swap e f) = rw (e, f) (ground arith)
  any-permᴰ p (Permᴰ.trans d e) = any-permᴰ p d ∙ any-permᴰ p e

  -- The order of a list does not matter to a Boolean quantifier.
  pub any-perm : (p : A → Bool) {xs ys : List A} → Perm xs ys → any p xs ≡ any p ys
  any-perm p h = ∥∥₁_elim h (Bool-set _ _) (any-permᴰ p)

  pub any_mono :
      (p q : A → Bool) (xs : List A)
      → ((x : A) → p x ≡ true → q x ≡ true)
      → any p xs ≡ true
      → any q xs ≡ true
  any_mono p q (x ∷ xs) h e = ground (arith, h x, any_mono p q xs h)
  any_mono p q [] h e = e

  pub All-mono {κ μ} :
      {P : A → Type κ} {Q : A → Type μ} (xs : List A) → ((x : A) → P x → Q x) → All P xs → All Q xs
  All-mono [] h a = tt
  All-mono (x ∷ xs) h (p, a) = (h x p, All-mono xs h a)

  pub All-append {κ} : (P : A → Type κ) (xs ys : List A) → All P xs → All P ys → All P (xs ++ ys)
  All-append P [] ys a b = b
  All-append P (x ∷ xs) ys (p, a) b = (p, All-append P xs ys a b)

  -- What holds of every item holds of those that a filter keeps, which pass its test too.
  pub All-filter {κ} :
      (P : A → Type κ) (t : A → Bool) (xs : List A)
      → All P xs
      → All (λ x. P x × (t x ≡ true)) (filter t xs)
  All-filter P t [] a = tt
  All-filter P t (x ∷ xs) (p, a) =
      let rest = All-filter P t xs a in
      elim (Bool-cases (t x)) [ inl e ↦ rw e ((p, e), rest) | inr e ↦ rw e rest ]

  -- Every item of a list is one that a search of the list finds.
  pub All-found : (xs : List A) → All (λ x. (q : A → Bool) → q x ≡ true → any q xs ≡ true) xs
  All-found [] = tt
  All-found (x ∷ xs) =
      (λ q e. rw e, All-mono xs (λ y h q e. rw (h q e) (or_true (q x))) (All-found xs))

  pub any-of_All {κ} :
      (P : A → Type κ) (q : A → Bool) (xs : List A)
      → All P xs
      → any q xs ≡ true
      → (x : A) × P x × (q x ≡ true)
  any-of_All P q (x ∷ xs) (p, a) e = elim (Bool-cases (q x)) [
    | inl h ↦ (x, p, h)
    | inr h ↦ any-of_All P q xs a (rw h at e)
  ]
  any-of_All P q [] a e = cc

  -- A Boolean test of every item, beside a predicate that holds of every item.
  pub All-and {κ} :
      (t : A → Bool) (R : A → Type κ) (xs : List A)
      → all t xs ≡ true
      → All R xs
      → All (λ x. (t x ≡ true) × R x) xs
  All-and t R [] h a = tt
  All-and t R (x ∷ xs) h (r, a) = ((ground arith, r), All-and t R xs (ground arith) a)

  pub all-eq-not-any : (t : A → Bool) (xs : List A) → all t xs ≡ not (any (λ x. not (t x)) xs)
  all-eq-not-any t [] = refl
  all-eq-not-any t (x ∷ xs) = ground (arith, all-eq-not-any t xs)

  pub all-perm : (t : A → Bool) {xs ys : List A} → Perm xs ys → all t xs ≡ all t ys
  all-perm t {xs} {ys} h =
      all-eq-not-any t xs ∙ ap not (any-perm (λ x. not (t x)) h) ∙ sym (all-eq-not-any t ys)

  pub any-filter : (q t : A → Bool) (xs : List A) → any q (filter t xs) ≡ any (λ x. t x && q x) xs
  any-filter q t [] = refl
  any-filter q t (x ∷ xs) = ground (arith, any-filter q t xs)

  pub all-of_All : (t : A → Bool) (xs : List A) → All (λ x. t x ≡ true) xs → all t xs ≡ true
  all-of_All t [] a = refl
  all-of_All t (x ∷ xs) (h, a) = ground (arith, all-of_All t xs a)

  pub All-of_all : (t : A → Bool) (xs : List A) → all t xs ≡ true → All (λ x. t x ≡ true) xs
  All-of_all t [] a = tt
  All-of_all t (x ∷ xs) h = (ground arith, All-of_all t xs (ground arith))

  -- What a search finds, with the means to be found again.
  pub any-found :
      (q : A → Bool) (xs : List A)
      → any q xs ≡ true
      → (x : A) × (q x ≡ true) × ((r : A → Bool) → r x ≡ true → any r xs ≡ true)
  any-found q xs h = let (x, again, e) = any-of_All _ q xs (All-found xs) h in (x, e, again)
