-- ===== src/Controller/Downstream/Pool/Lists.antt =====
-- A work queue on two lists: the keys that wait, and the busy ones.
use edgecdnx_controller.Common.{
  ◌≡◌, refl, sym, ap, ◌∙◌, Bool, false, not, ◌&&◌, ◌||◌, Option, none, some, List, [], ◌∷◌, any,
  filter, if◌then◌else◌, arith, Bool-cases, Option-cases, subst, inl, inr,
}
use edgecdnx_controller.Controller.Downstream.{Key, same_key}
use edgecdnx_controller.Controller.Downstream.Keys.{same_key-eq}
use edgecdnx_controller.Controller.Downstream.Pool.{Workqueue}

abbrev has : Key → List Key → Bool
has k keys = any (λ key. same_key key k) keys

-- The keys but one.
abbrev without : Key → List Key → List Key
without key keys = filter (λ k. not (same_key key k)) keys

abbrev pub add : Key → List Key × List Key → List Key × List Key
add key (waiting, busy) = (key ∷ waiting, busy)

abbrev pub first_free : List Key → (busy : List Key) → Option Key
first_free [] busy = none
first_free (key ∷ keys) busy = if has key busy then first_free keys busy else some key

abbrev pub get : List Key × List Key → Option (Key × (List Key × List Key))
get (waiting, busy) = elim (first_free waiting busy) [
  | none ↦ none
  | some key ↦ some (key, (without key waiting, key ∷ busy))
]

pub has-cons : (k key : Key) (keys : List Key) → has k (key ∷ keys) ≡ (has k keys || same_key key k)
has-cons k key keys = ground arith

pub first_free-free :
    (key : Key) (waiting busy : List Key)
    → first_free waiting busy ≡ some key
    → has key busy ≡ false
first_free-free key [] busy e = ground (arith, e)
first_free-free key (x ∷ keys) busy e = elim (Bool-cases (has x busy)) [
  | inl h ↦ first_free-free key keys busy (ground (arith, e, h))
  | inr h ↦
      let at : some x ≡ some key = ground (arith, e, h) in
      subst (λ y. has y busy ≡ false) (ap (λ o. elim o [ none ↦ x | some y ↦ y ]) at) h
]

pub has-without :
    (k key : Key) (keys : List Key)
    → has k (without key keys) ≡ (has k keys && not (same_key key k))
has-without k key [] = refl
has-without k key (x ∷ keys) = elim (Bool-cases (same_key x k)) [
  | inl e ↦
      let at = ap (same_key key) (same_key-eq x k e) in
      ground (arith, e, at, has-without k key keys)
  | inr e ↦ ground (arith, e, has-without k key keys)
]

-- What Get gives out: a key that is not busy, and the lists without it and with it.
pub get-cases :
    (key : Key) (waiting busy : List Key) (rest : List Key × List Key)
    → get (waiting, busy) ≡ some (key, rest)
    → (first_free waiting busy ≡ some key) × (rest ≡ (without key waiting, key ∷ busy))
get-cases key waiting busy rest e = elim (Option-cases (first_free waiting busy)) [
  | inl h ↦ ground (arith, e, h)
  | inr (x, h) ↦
      let out : some (x, (without x waiting, x ∷ busy)) ≡ some (key, rest) =
        ap (λ o. elim o [ none ↦ none | some k ↦ some (k, (without k waiting, k ∷ busy)) ]) (sym h)
        ∙ e in
      let same = ap (λ o. elim o [ none ↦ x | some y ↦ y.0 ]) out in
      let left = ap (λ o. elim o [ none ↦ (without x waiting, x ∷ busy) | some y ↦ y.1 ]) out in
      (h ∙ ap some same, sym left ∙ ap (λ k. (without k waiting, k ∷ busy)) same)
]

abbrev pub lists : Workqueue
lists = record {
  Queue = List Key × List Key;
  add = add;
  add_rate_limited = add;
  finish = λ key (waiting, busy). (waiting, without key busy);
  get = get;
  waits = λ k (waiting, busy). has k waiting;
  busy = λ k (waiting, busy). has k busy;
  waits-add = λ k key (waiting, busy). has-cons k key waiting;
  busy-add = λ k key (waiting, busy). refl;
  waits-add_rate_limited = λ k key (waiting, busy). has-cons k key waiting;
  busy-add_rate_limited = λ k key (waiting, busy). refl;
  waits-finish = λ k key (waiting, busy). refl;
  busy-finish = λ k key (waiting, busy). has-without k key busy;
  waits-get = λ k key (waiting, busy) rest e.
      ap (λ q. has k q.0) (get-cases key waiting busy rest e).1 ∙ has-without k key waiting;
  busy-get = λ k key (waiting, busy) rest e.
      ap (λ q. has k q.1) (get-cases key waiting busy rest e).1 ∙ has-cons k key busy;
  get-free = λ key (waiting, busy) rest e.
      first_free-free key waiting busy (get-cases key waiting busy rest e).0;
}
