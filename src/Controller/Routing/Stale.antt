-- ===== src/Controller/Routing/Stale.antt =====
-- What is left of a service's DNSEndpoints once the stale ones are deleted.
use edgecdnx_controller.Common.{
  ◌≡◌, refl, ap, Bool, true, false, not, ◌&&◌, ◌||◌, Option, none, some, List, [], ◌∷◌, Text,
  text_eq, text_refl, if◌then◌else◌, arith, Bool-cases, inl, inr, any, all, filter,
}
use edgecdnx_controller.Webhook.Admission.{is_none}
use edgecdnx_controller.Controller.Routing.Records.{
  Endpoint, Service, Zone, Outcome, list_failed, and_then, dns_names,
}
use edgecdnx_controller.Controller.Routing.{
  Calls, is_controlled, is_desired, delete_stale, reconcile, reconcile_names,
}

module _ (c : Calls) (s : Service) where
  -- Whether the endpoint may stay: another owner's, or one that the service wants.
  abbrev pub is_wanted : Endpoint → Bool
  is_wanted e = not (is_controlled c s e) || is_desired c s e.name

  -- Whether the name is that of an endpoint that is deleted.
  abbrev pub is_stale : Text → List Endpoint → Bool
  is_stale name items = any (λ e. not (is_wanted e) && text_eq name e.name) items

  abbrev pub without : List Endpoint → List Endpoint → List Endpoint
  without items stored = filter (λ o. not (is_stale o.name items)) stored

  filter-filter :
      (p q : Endpoint → Bool) (es : List Endpoint)
      → filter q (filter p es) ≡ filter (λ e. p e && q e) es
  filter-filter p q [] = refl
  filter-filter p q (e ∷ es) = ground (arith, filter-filter p q es)

  without-cons :
      (e : Endpoint) (items stored : List Endpoint)
      → is_wanted e ≡ false
      → without items (filter (λ o. not (text_eq o.name e.name)) stored)
        ≡ without (e ∷ items) stored
  without-cons e items [] h = refl
  without-cons e items (o ∷ stored) h = ground (arith, h, without-cons e items stored h)

  without-wanted :
      (e : Endpoint) (items stored : List Endpoint)
      → is_wanted e ≡ true
      → without items stored ≡ without (e ∷ items) stored
  without-wanted e items [] h = refl
  without-wanted e items (o ∷ stored) h = ground (arith, h, without-wanted e items stored h)

  without-none : (stored : List Endpoint) → stored ≡ without [] stored
  without-none [] = refl
  without-none (o ∷ stored) = ap (◌∷◌ o) (without-none stored)

  pub delete_stale_lem :
      (items stored : List Endpoint)
      → is_none (delete_stale c s items stored).1 ≡ true
      → (delete_stale c s items stored).0 ≡ without items stored
  unfolding delete_stale
  delete_stale_lem [] stored h = without-none stored
  delete_stale_lem (e ∷ items) stored h = elim (Bool-cases (is_wanted e)) [
    | inl w ↦
        let rest : is_none (delete_stale c s items stored).1 ≡ true = ground (arith, w, h) in
        ground (arith, w, delete_stale_lem items stored rest, without-wanted e items stored w)
    | inr w ↦
        let left = filter (λ o. not (text_eq o.name e.name)) stored in
        let rest : is_none (delete_stale c s items left).1 ≡ true = ground (arith, w, h) in
        ground (arith, w, h, delete_stale_lem items left rest, without-cons e items stored w)
  ]

  -- Whether each endpoint is wanted or stale.
  abbrev is_settled : List Endpoint → List Endpoint → Bool
  is_settled items stored = all (λ o. is_wanted o || is_stale o.name items) stored

  is_settled-cons :
      (e : Endpoint) (items stored : List Endpoint)
      → is_settled items stored ≡ true
      → is_settled (e ∷ items) stored ≡ true
  is_settled-cons e items [] h = refl
  is_settled-cons e items (o ∷ stored) h =
      ground (arith, is_settled-cons e items stored (ground arith))

  is_settled_self : (items : List Endpoint) → is_settled items items ≡ true
  is_settled_self [] = refl
  is_settled_self (e ∷ items) =
      ground (arith, text_refl e.name, is_settled-cons e items items (is_settled_self items))

  without-is_wanted :
      (items stored : List Endpoint)
      → is_settled items stored ≡ true
      → all is_wanted (without items stored) ≡ true
  without-is_wanted items [] h = refl
  without-is_wanted items (o ∷ stored) h =
      ground (arith, h, without-is_wanted items stored (ground arith))

  delete_stale-is_wanted :
      (stored : List Endpoint)
      → is_none (delete_stale c s stored stored).1 ≡ true
      → all is_wanted (delete_stale c s stored stored).0 ≡ true
  delete_stale-is_wanted stored h =
      rw (delete_stale_lem stored stored h)
        (without-is_wanted stored stored (is_settled_self stored))

  -- After a reconciliation that ends without error, every DNSEndpoint of the namespace that the
  -- service controls has a name that the service asks for.
  pub reconcile-is_wanted :
      (zones : Option (List Zone)) (listed : Bool) (stored : List Endpoint)
      → is_none (reconcile c s zones listed stored).1 ≡ true
      → all is_wanted (reconcile c s zones listed stored).0 ≡ true
  unfolding reconcile
  reconcile-is_wanted none listed stored h = ground (arith, h)
  reconcile-is_wanted (some zones) listed stored h =
      from_names (reconcile_names c s zones (dns_names s) stored) h
    where
      from_names :
          (o : Outcome)
          → is_none
              (and_then o (λ after.
                if listed then delete_stale c s after after else (after, some list_failed))).1
            ≡ true
          → all is_wanted
              (and_then o (λ after.
                if listed then delete_stale c s after after else (after, some list_failed))).0
            ≡ true
      from_names (after, some e) k = ground (arith, k)
      from_names (after, none) k = ground (arith, k, delete_stale-is_wanted after)
