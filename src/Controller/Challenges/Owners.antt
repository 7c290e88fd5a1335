-- ===== src/Controller/Challenges/Owners.antt =====
-- The search for an owner ends, and what it finds is an owner along the chain.
use edgecdnx_controller.Common.{
  ap, not_both, ◌≡◌, ◌≢◌, ℕ, zero, suc, ◌<◌, refl, Bool, true, false, ◌&&◌, ◌||◌, Option, none,
  some, List, [], ◌∷◌, Text, text_eq, text_refl, any, ap, not_both, arith, Bool-cases, inl, inr,
}
use edgecdnx_controller.Controller.Challenges.{
  Owner, Object, Reader, Search, found, get_failed, not_in_chain, out_of_fuel, is_chain_kind, Round,
  target, next, failed, stuck, visit_owners, get_owner_in_chain,
}

module _ (get : Reader) where
  -- An object that a controlling owner reference of another leads to.
  abbrev pub IsOwner : Object → Object → Type 0
  IsOwner o t =
      (kind : Text) × (name : Text) × (get kind name ≡ some t)
      × (any (λ w. w.controller && (text_eq w.kind kind && text_eq w.name name)) o.owners ≡ true)

  -- One or more steps from an object to an owner.
  pub data Chain : Object → Object → Type 0 where
    last : {o t : Object} → IsOwner o t → Chain o t
    step : {o n t : Object} → IsOwner o n → Chain n t → Chain o t

  -- An owner that one of the references of a list leads to.
  abbrev Leads : List Owner → Object → Type 0
  Leads owners t =
      (kind : Text) × (name : Text) × (get kind name ≡ some t)
      × (any (λ w. w.controller && (text_eq w.kind kind && text_eq w.name name)) owners ≡ true)

  abbrev object_of : Round → Option Object
  object_of (target t) = some t
  object_of (next n) = some n
  object_of failed = none
  object_of stuck = none

  visit_owners-Leads :
      (k : Text) (owners : List Owner) (t : Object)
      → object_of (visit_owners get k owners) ≡ some t
      → Leads owners t
  unfolding visit_owners
  visit_owners-Leads k [] t h = cc
  visit_owners-Leads k (o ∷ owners) t h =
      elim (Bool-cases (o.controller && (text_eq o.kind k || is_chain_kind o.kind))) [
        | inl e ↦ (o.kind, o.name, taken e, ground (arith, e, text_refl o.kind, text_refl o.name))
        | inr e ↦
            let rest : object_of (visit_owners get k owners) ≡ some t = ground (arith, e, h) in
            let (kind, name, g, i) = visit_owners-Leads k owners t rest in
            (kind, name, g, ground (arith, i))
      ]
    where
      taken :
          (o.controller && (text_eq o.kind k || is_chain_kind o.kind)) ≡ true
          → get o.kind o.name ≡ some t
      taken e = ground (arith, e, h)

  -- What a round leads to is an owner of its object.
  round-IsOwner :
      (k : Text) (o t : Object) (q : Round)
      → visit_owners get k o.owners ≡ q
      → object_of q ≡ some t
      → IsOwner o t
  round-IsOwner k o t q e h = visit_owners-Leads k o.owners t (rw e h)

  abbrev is_out : Search → Bool
  is_out out_of_fuel = true
  is_out _ = false

  -- What the search comes to, from what a round comes to.
  abbrev continue : (Object → Search) → Round → Search
  continue search (target t) = found t
  continue search (next n) = search n
  continue search failed = get_failed
  continue search stuck = not_in_chain

  get_owner-Chain :
      (k : Text) (fuel : ℕ) (o t : Object) → get_owner_in_chain get k fuel o ≡ found t → Chain o t
  unfolding get_owner_in_chain
  get_owner-Chain k zero o t h = cc
  get_owner-Chain k (suc fuel) o t h =
      along (get_owner-Chain k fuel) (visit_owners get k o.owners) refl h
    where
      along :
          ((n t : Object) → get_owner_in_chain get k fuel n ≡ found t → Chain n t)
          → (q : Round) → visit_owners get k o.owners ≡ q
          → continue (get_owner_in_chain get k fuel) q ≡ found t
          → Chain o t
      along deeper (target s) e h = last (round-IsOwner k o t (target s) e (ground arith))
      along deeper (next n) e h = step (round-IsOwner k o n (next n) e refl) (deeper n t h)
      along deeper failed e h = cc
      along deeper stuck e h = cc

  module _ (rank : Object → ℕ) (falls : (o n : Object) → IsOwner o n → rank n < rank o) where
    get_owner-ends :
        (k : Text) (fuel : ℕ) (o : Object)
        → rank o < fuel
        → is_out (get_owner_in_chain get k fuel o) ≡ false
    unfolding get_owner_in_chain
    get_owner-ends k zero o h = absurd (omega arith)
    get_owner-ends k (suc fuel) o h =
        along (get_owner-ends k fuel) (visit_owners get k o.owners) refl
      where
        along :
            ((n : Object) → rank n < fuel → is_out (get_owner_in_chain get k fuel n) ≡ false)
            → (q : Round) → visit_owners get k o.owners ≡ q
            → is_out (continue (get_owner_in_chain get k fuel) q) ≡ false
        along deeper (target s) e = refl
        along deeper (next n) e =
            let less = falls o n (round-IsOwner k o n (next n) e refl) in deeper n (omega arith)
        along deeper failed e = refl
        along deeper stuck e = refl

    -- Where no chain of controlling owners runs in a circle, as a rank that falls along it says, the
    -- search for an owner ends within as many rounds as the rank and one more, and an object that it
    -- finds is an owner at the end of a chain of controlling owners.
    pub get_owner_in_chain-Chain :
        (k : Text) (o : Object)
        → (get_owner_in_chain get k (suc (rank o)) o ≢ out_of_fuel)
          × ((t : Object) → get_owner_in_chain get k (suc (rank o)) o ≡ found t → Chain o t)
    get_owner_in_chain-Chain k o =
        let ends = get_owner-ends k (suc (rank o)) o (omega arith) in
        (λ e. in_fuel _ ends e, get_owner-Chain k (suc (rank o)) o)
      where
        in_fuel : (s : Search) → is_out s ≡ false → s ≡ out_of_fuel → ⊥
        in_fuel s h e = not_both (ap is_out e) h
