-- ===== src/Strings/Laws.antt =====
-- Laws of the string functions.
use edgecdnx_controller.Common.{
  ℕ, ◌≡◌, ◌≢◌, refl, ◌∙◌, ap, List, [], ◌∷◌, ◌++◌, ◌==◌, Text, All, arith, Bool-cases, inl, inr,
}
use mathlib.Core.Path.{ap₂}
use edgecdnx_controller.Strings.{lower_byte, upper_byte, to_lower, split, push}

-- The pieces with `sep` between them.
abbrev pub join : ℕ → List Text → Text
join sep [] = []
join sep (s ∷ []) = s
join sep (s ∷ t ∷ rest) = s ++ sep ∷ join sep (t ∷ rest)

abbrev pub Lacks : ℕ → Text → Type 0
Lacks sep = All (λ c. c ≢ sep)

join-push : (sep c : ℕ) (ls : List Text) → join sep (push c ls) ≡ c ∷ join sep ls
join-push sep c [] = refl
join-push sep c (l ∷ []) = refl
join-push sep c (l ∷ k ∷ ls) = refl

push-Lacks :
    (sep c : ℕ) (ls : List Text) → c ≢ sep → All (Lacks sep) ls → All (Lacks sep) (push c ls)
push-Lacks sep c [] h a = ((h, tt), tt)
push-Lacks sep c (l ∷ ls) h (k, a) = ((h, k), a)

join-nil_push :
    (sep c : ℕ) (ls : List Text) → join sep ([] ∷ push c ls) ≡ sep ∷ join sep (push c ls)
join-nil_push sep c [] = refl
join-nil_push sep c (l ∷ ls) = refl

split-join-cons : (sep : ℕ) (s : Text) → join sep ([] ∷ split sep s) ≡ sep ∷ join sep (split sep s)
unfolding split
split-join-cons sep [] = refl
split-join-cons sep (c ∷ s) = elim (Bool-cases (c == sep)) [
  | inl e ↦ rw e refl
  | inr e ↦ rw e (join-nil_push sep c (split sep s))
]

-- What Split takes apart at a separator goes together again, and no piece holds the separator.
pub join-split : (sep : ℕ) (s : Text) → join sep (split sep s) ≡ s
unfolding split
join-split sep [] = refl
join-split sep (c ∷ s) = elim (Bool-cases (c == sep)) [
  | inl e ↦ rw e (split-join-cons sep s ∙ ap₂ ◌∷◌ (ground arith) (join-split sep s))
  | inr e ↦ rw e (join-push sep c (split sep s) ∙ ap (◌∷◌ c) (join-split sep s))
]

pub split-Lacks : (sep : ℕ) (s : Text) → All (Lacks sep) (split sep s)
unfolding split
split-Lacks sep [] = (tt, tt)
split-Lacks sep (c ∷ s) = elim (Bool-cases (c == sep)) [
  | inl e ↦ rw e (tt, split-Lacks sep s)
  | inr e ↦ rw e (push-Lacks sep c (split sep s) (ground arith) (split-Lacks sep s))
]

pub lower_byte_idem : (c : ℕ) → lower_byte (lower_byte c) ≡ lower_byte c
unfolding lower_byte
lower_byte_idem c = ground arith

pub to_lower_idem : (s : Text) → to_lower (to_lower s) ≡ to_lower s
unfolding to_lower
to_lower_idem [] = refl
to_lower_idem (c ∷ s) = cc (lower_byte_idem c, to_lower_idem s)

pub lower-upper_byte : (c : ℕ) → lower_byte (upper_byte c) ≡ lower_byte c
unfolding lower_byte upper_byte
lower-upper_byte c = ground arith

pub upper-lower_byte : (c : ℕ) → upper_byte (lower_byte c) ≡ upper_byte c
unfolding lower_byte upper_byte
upper-lower_byte c = ground arith

split-push :
    (sep c : ℕ) (s : Text) (ls : List Text)
    → c ≢ sep
    → split sep s ≡ ls
    → split sep (c ∷ s) ≡ push c ls
unfolding split
split-push sep c s ls h e = ground (arith, h, e)

-- A piece without the separator, and what follows the separator.
split-append : (sep : ℕ) (l s : Text) → Lacks sep l → split sep (l ++ sep ∷ s) ≡ l ∷ split sep s
unfolding split
split-append sep [] s h = ground arith
split-append sep (c ∷ l) s (h, k) =
    split-push sep c (l ++ sep ∷ s) (l ∷ split sep s) h (split-append sep l s k)

split_one : (sep : ℕ) (l : Text) → Lacks sep l → split sep l ≡ l ∷ []
unfolding split
split_one sep [] h = refl
split_one sep (c ∷ l) (h, k) = split-push sep c l (l ∷ []) h (split_one sep l k)

-- Pieces without the separator, at least one of them, are found again.
pub split-join :
    (sep : ℕ) (l : Text) (ls : List Text)
    → All (Lacks sep) (l ∷ ls)
    → split sep (join sep (l ∷ ls)) ≡ l ∷ ls
split-join sep l [] (h, k) = split_one sep l h
split-join sep l (m ∷ ls) (h, k) =
    split-append sep l (join sep (m ∷ ls)) h ∙ ap (◌∷◌ l) (split-join sep m ls k)
