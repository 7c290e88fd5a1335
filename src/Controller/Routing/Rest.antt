-- ===== src/Controller/Routing/Rest.antt =====
-- The loops over the names and the record types leave every endpoint there and current.
use edgecdnx_controller.Common.{
  ◌≡◌, refl, sym, subst, ◌∙◌, Bool, true, false, not, ◌&&◌, ◌||◌, Option, none, some, List, [], ◌∷◌,
  Text, text_eq, text_iff, arith, Bool-cases, inl, inr, all,
}
use edgecdnx_controller.Webhook.Admission.{is_none}
use edgecdnx_controller.Controller.Routing.Records.{
  Endpoint, Service, Zone, Outcome, and_then, same_option, record_types, choose_zone,
}
use edgecdnx_controller.Controller.Routing.{
  Calls, endpoint_name, reconcile_record, reconcile_records, reconcile_names,
}
use edgecdnx_controller.Controller.Routing.Settled.{
  is_settled, reconcile_record-keeps, reconcile_record-is_settled,
}

pub and_then-next :
    (o : Outcome) (next : List Endpoint → Outcome)
    → is_none (and_then o next).1 ≡ true
    → (is_none o.1 ≡ true) × (and_then o next ≡ next o.0)
and_then-next (stored, some e) next h = ground (arith, h)
and_then-next (stored, none) next h = (refl, refl)

-- What holds of an item and of the others, for each of some items, holds of the others.
drop_first :
    (f : Text → Text → Bool) (x : Text) (xs ys : List Text)
    → all (λ u. f x u && all (λ t. f t u) xs) ys ≡ true
    → all (λ u. all (λ t. f t u) xs) ys ≡ true
drop_first f x xs [] h = refl
drop_first f x xs (y ∷ ys) h = ground (arith, h, drop_first f x xs ys (ground (arith, h)))

module _ (c : Calls) (s : Service) where
  -- Whether the endpoints of two records have different names, unless the records are the same.
  abbrev pub is_apart : (n t m u : Text) → Bool
  is_apart n t m u =
      not (text_eq (endpoint_name c s n t) (endpoint_name c s m u)) || (text_eq n m && text_eq t u)

  abbrev pub names_apart : (n m : Text) → Bool
  names_apart n m = all (λ u. all (λ t. is_apart n t m u) record_types) record_types

  abbrev pub are_apart : (names : List Text) → Bool
  are_apart names = all (λ m. all (λ n. names_apart n m) names) names

  module _ (zones : List Zone) where
    abbrev pub zone_of : (dns_name : Text) → Text
    zone_of n = (choose_zone c.is_sub_domain c.fqdn s n zones [] 0).0

    abbrev pub settles : List Endpoint → (dns_name record_type : Text) → Bool
    settles stored n t = is_settled c s (zone_of n) n t stored

    -- Whether a name has a zone, and its endpoints are there and current.
    abbrev pub is_name_settled : List Endpoint → (dns_name : Text) → Bool
    is_name_settled stored n = not (text_eq (zone_of n) []) && all (settles stored n) record_types

    module _ (project : same_option s.project s.project ≡ true)
        (owns : (o : Option Text) (v : Text) → c.set_controller s.uid o ≡ some v → v ≡ s.uid) where
      record-lasts :
          (n t m u : Text) (stored : List Endpoint)
          → is_apart n t m u ≡ true
          → settles stored m u ≡ true
          → is_none (reconcile_record c s (zone_of n) n t stored).1 ≡ true
          → settles (reconcile_record c s (zone_of n) n t stored).0 m u ≡ true
      record-lasts n t m u stored apart h done =
          elim (Bool-cases (text_eq (endpoint_name c s n t) (endpoint_name c s m u))) [
            | inr other ↦
                reconcile_record-keeps c s (zone_of n) n t (zone_of m) m u stored other ∙ h
            | inl same ↦
                let named : n ≡ m = (text_iff n m).0 (ground (arith, apart, same)) in
                let typed : t ≡ u = (text_iff t u).0 (ground (arith, apart, same)) in
                let now =
                  reconcile_record-is_settled c s project owns (zone_of n) n t stored done in
                subst (λ x. settles (reconcile_record c s (zone_of n) n t stored).0 x u ≡ true)
                  named
                  (subst (λ x. settles (reconcile_record c s (zone_of n) n t stored).0 n x ≡ true)
                    typed now)
          ]

      records-last :
          (n m u : Text) (types : List Text) (stored : List Endpoint)
          → all (λ t. is_apart n t m u) types ≡ true
          → settles stored m u ≡ true
          → is_none (reconcile_records c s (zone_of n) n types stored).1 ≡ true
          → settles (reconcile_records c s (zone_of n) n types stored).0 m u ≡ true
      unfolding reconcile_records
      records-last n m u [] stored apart h done = h
      records-last n m u (t ∷ types) stored apart h done =
          let (first, rest) = and_then-next (reconcile_record c s (zone_of n) n t stored) _ done in
          subst (λ o. settles o.0 m u ≡ true) (sym rest)
            (records-last n m u types _ (ground (arith, apart))
              (record-lasts n t m u stored (ground (arith, apart)) h first)
              (subst (λ o. is_none o.1 ≡ true) rest done))

      records-settle :
          (n : Text) (types : List Text) (stored : List Endpoint)
          → all (λ u. all (λ t. is_apart n t n u) types) types ≡ true
          → is_none (reconcile_records c s (zone_of n) n types stored).1 ≡ true
          → all (settles (reconcile_records c s (zone_of n) n types stored).0 n) types ≡ true
      unfolding reconcile_records
      records-settle n [] stored apart done = refl
      records-settle n (t ∷ types) stored apart done =
          let (first, rest) = and_then-next (reconcile_record c s (zone_of n) n t stored) _ done in
          let left = (reconcile_record c s (zone_of n) n t stored).0 in
          let left_done = subst (λ o. is_none o.1 ≡ true) rest done in
          let now = reconcile_record-is_settled c s project owns (zone_of n) n t stored first in
          let lasts = records-last n n t types left (ground (arith, apart)) now left_done in
          let others =
            records-settle n types left
              (drop_first (λ t u. is_apart n t n u) t types types (ground (arith, apart)))
              left_done in
          subst (λ o. all (settles o.0 n) (t ∷ types) ≡ true) (sym rest)
            (ground (arith, lasts, others))

      records-last_each :
          (n m : Text) (types : List Text) (us : List Text) (stored : List Endpoint)
          → all (λ u. all (λ t. is_apart n t m u) types) us ≡ true
          → all (settles stored m) us ≡ true
          → is_none (reconcile_records c s (zone_of n) n types stored).1 ≡ true
          → all (settles (reconcile_records c s (zone_of n) n types stored).0 m) us ≡ true
      records-last_each n m types [] stored apart h done = refl
      records-last_each n m types (u ∷ us) stored apart h done =
          let first =
            records-last n m u types stored (ground (arith, apart)) (ground (arith, h)) done in
          let others =
            records-last_each n m types us stored (ground (arith, apart)) (ground (arith, h))
              done in
          ground (arith, first, others)

      -- What is left of the loop behind one name that is reconciled.
      names-next :
          (n : Text) (names : List Text) (stored : List Endpoint)
          → is_none (reconcile_names c s zones (n ∷ names) stored).1 ≡ true
          → (text_eq (zone_of n) [] ≡ false)
            × (is_none (reconcile_records c s (zone_of n) n record_types stored).1 ≡ true)
            × (reconcile_names c s zones (n ∷ names) stored
                ≡ reconcile_names c s zones names
                    (reconcile_records c s (zone_of n) n record_types stored).0)
      unfolding reconcile_names
      names-next n names stored done = elim (Bool-cases (text_eq (zone_of n) [])) [
        | inl e ↦ ground (arith, e, done)
        | inr e ↦
            let next = λ (x : List Endpoint). reconcile_names c s zones names x in
            let o = reconcile_records c s (zone_of n) n record_types stored in
            let (first, rest) = and_then-next o next (ground (arith, e, done)) in
            (e, first, ground (arith, e, rest))
      ]

      -- The records of the names that follow leave a name settled.
      names-last :
          (m : Text) (names : List Text) (stored : List Endpoint)
          → all (λ n. names_apart n m) names ≡ true
          → is_name_settled stored m ≡ true
          → is_none (reconcile_names c s zones names stored).1 ≡ true
          → is_name_settled (reconcile_names c s zones names stored).0 m ≡ true
      unfolding reconcile_names
      names-last m [] stored apart h done = h
      names-last m (n ∷ names) stored apart h done =
          let (zoned, first, rest) = names-next n names stored done in
          let lasts =
            records-last_each n m record_types record_types stored (ground (arith, apart))
              (ground (arith, h)) first in
          subst (λ o. is_name_settled o.0 m ≡ true) (sym rest)
            (names-last m names _ (ground (arith, apart)) (ground (arith, h, lasts))
              (subst (λ o. is_none o.1 ≡ true) rest done))

      pub names-settle :
          (names : List Text) (stored : List Endpoint)
          → are_apart names ≡ true
          → is_none (reconcile_names c s zones names stored).1 ≡ true
          → all (is_name_settled (reconcile_names c s zones names stored).0) names ≡ true
      names-settle [] stored apart done = refl
      names-settle (n ∷ names) stored apart done =
          let (zoned, first, rest) = names-next n names stored done in
          let left = (reconcile_records c s (zone_of n) n record_types stored).0 in
          let left_done = subst (λ o. is_none o.1 ≡ true) rest done in
          let now = records-settle n record_types stored (ground (arith, apart)) first in
          let lasts =
            names-last n names left (ground (arith, apart)) (ground (arith, zoned, now))
              left_done in
          let others =
            names-settle names left
              (drop_first (λ n m. names_apart n m) n names names (ground (arith, apart)))
              left_done in
          subst (λ o. all (is_name_settled o.0) (n ∷ names) ≡ true) (sym rest)
            (ground (arith, lasts, others))
