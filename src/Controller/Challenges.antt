-- ===== src/Controller/Challenges.antt =====
-- internal/controller/challenge_controller.go: the owner of an ACME challenge, and the
-- ApplicationSet that solves it. The hash of what the builders make and SetControllerReference are
-- parameters.
pub mod Owners
pub mod Solver
mod Tests
use edgecdnx_controller.Common.{
  ◌≡◌, ℕ, zero, suc, Bool, true, false, not, ◌&&◌, ◌||◌, Option, none, some, List, [], ◌∷◌, Text,
  codes, text_eq, any, if◌then◌else◌,
}

-- metav1.OwnerReference; `controller` is whether its field is set and true.
pub record Owner : Type 0 where
  pub kind : Text
  pub name : Text
  pub controller : Bool

-- An object, by its owner references.
pub record Object : Type 0 where
  pub name : Text
  pub owners : List Owner

-- `c.Get` by kind and name in the namespace of the request: `none` is an error.
abbrev pub Reader : Type 0
Reader = (kind name : Text) → Option Object

-- What the search comes to; out_of_fuel is that of the model.
pub data Search : Type 0 where
  found : Object → Search
  get_failed not_in_chain out_of_fuel : Search

-- The kinds of the switch.
abbrev pub is_chain_kind : Text → Bool
is_chain_kind kind =
    any (text_eq kind)
      (codes "Order" ∷ codes "CertificateRequest" ∷ codes "Certificate" ∷ codes "Service" ∷ [])

-- What a round of the outer loop comes to.
pub data Round : Type 0 where
  target next : Object → Round
  failed stuck : Round

abbrev pub fetch_as : (Object → Round) → Option Object → Round
fetch_as wrap none = failed
fetch_as wrap (some o) = wrap o

module _ (get : Reader) (target_kind : Text) where
  -- The inner loop, over the owner references.
  unfoldable pub visit_owners : List Owner → Round
  visit_owners [] = stuck
  visit_owners (o ∷ owners) =
      let rest = visit_owners owners in
      if text_eq o.kind target_kind && o.controller
      then fetch_as target (get o.kind o.name)
      else if o.controller && is_chain_kind o.kind
      then fetch_as next (get o.kind o.name)
      else rest

  -- GetOwnerInChain; the fuel bounds the rounds of the outer loop.
  unfoldable pub get_owner_in_chain : (fuel : ℕ) → Object → Search
  get_owner_in_chain zero o = out_of_fuel
  get_owner_in_chain (suc fuel) o = elim (visit_owners o.owners) [
    | target t ↦ found t
    | next n ↦ get_owner_in_chain fuel n
    | failed ↦ get_failed
    | stuck ↦ not_in_chain
  ]

-- The challenge, and its ApplicationSet: the annotation ValuesHashAnnotation.
pub record Challenge : Type 0 where
  pub object : Object
  pub presented : Bool
  pub processing : Bool

pub record Appset : Type 0 where
  pub deleting : Bool
  pub hash : Option Text

pub data Fetched {ℓ} (A : Type ℓ) : Type ℓ where
  absent unreadable : Fetched A
  there : A → Fetched A

-- How a reconciliation ends: with an error, with nothing to do, or with one write.
pub data Outcome : Type 0 where
  fails done : Outcome
  creates updates : (hash : Text) → Outcome

abbrev pub has_hash : Option Text → Text → Bool
has_hash none h = false
has_hash (some g) h = text_eq g h

-- What a reconciliation reads. `hash` is that of the ApplicationSet for the challenge and the service
-- that owns it, or an error of a builder; `marshals` says that the challenge has a JSON form.
pub record Reads : Type 0 where
  pub get : Reader
  pub marshals : Bool
  pub hash : (service : Object) → Option Text
  pub appset : Fetched Appset
  pub owner_fails : Bool

module _ (r : Reads) where
  abbrev pub put_appset : (hash : Text) → Outcome
  put_appset hash = elim r.appset [
    | unreadable ↦ fails
    | absent ↦ if r.owner_fails then fails else creates hash
    | there a ↦
        if a.deleting then done else if not (has_hash a.hash hash) then updates hash else done
  ]

  abbrev pub put_solver : Challenge → (service : Object) → Outcome
  put_solver c service =
      if not r.marshals
      then fails
      else if c.presented && c.processing
      then (elim (r.hash service) [ none ↦ fails | some hash ↦ put_appset hash ])
      else done

  -- ChallengeReconciler.Reconcile; the fuel is that of the search for the owner.
  unfoldable pub reconcile : (fuel : ℕ) → Fetched Challenge → Option Outcome
  reconcile fuel absent = some done
  reconcile fuel unreadable = some fails
  reconcile fuel (there c) = elim (get_owner_in_chain r.get (codes "Service") fuel c.object) [
    | out_of_fuel ↦ none
    | get_failed ↦ some fails
    | not_in_chain ↦ some fails
    | found service ↦ some (put_solver c service)
  ]
