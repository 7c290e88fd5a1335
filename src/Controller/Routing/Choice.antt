-- ===== src/Controller/Routing/Choice.antt =====
-- The zone of a name is a longest one of those that cover it.
use edgecdnx_controller.Common.{
  ◌≡◌, ℕ, ◌≤◌, refl, Bool, true, not, ◌&&◌, ◌||◌, List, [], ◌∷◌, length, ltb, leb, Text, text_eq,
  text_refl, text_comm, arith, Bool-cases, inl, inr, any, all, ◌==◌, ==_iff, subst, ◌⊎◌, text_iff,
}
use edgecdnx_controller.Controller.Routing.Records.{Service, Zone, covers, choose_zone}

module _ (is_sub_domain : Text → Text → Bool) (fqdn : Text → Text) (s : Service) (n : Text) where
  -- Whether the choice is that of a covering zone.
  abbrev pub is_choice : Text × ℕ → Zone → Bool
  is_choice x z = covers is_sub_domain fqdn s n z && (text_eq z.name x.0 && length z.zone == x.1)

  -- Every covering zone is at most as long.
  abbrev pub is_longest : List Zone → ℕ → Bool
  is_longest zs size =
      all (λ z. not (covers is_sub_domain fqdn s n z) || leb (length z.zone) size) zs

  grows :
      (zs : List Zone) (name : Text) (size : ℕ)
      → size ≤ (choose_zone is_sub_domain fqdn s n zs name size).1
  unfolding choose_zone
  grows [] name size = omega arith
  grows (z ∷ zs) name size = ground (arith, grows zs z.name (length z.zone), grows zs name size)

  is_longest-choose_zone :
      (zs : List Zone) (name : Text) (size : ℕ)
      → is_longest zs (choose_zone is_sub_domain fqdn s n zs name size).1 ≡ true
  unfolding choose_zone
  is_longest-choose_zone [] name size = refl
  is_longest-choose_zone (z ∷ zs) name size =
      elim (Bool-cases (covers is_sub_domain fqdn s n z && ltb size (length z.zone))) [
        | inl e ↦ ground (
          arith,
          e,
          grows zs z.name (length z.zone),
          is_longest-choose_zone zs z.name (length z.zone),
        )
        | inr e ↦ ground (arith, e, grows zs name size, is_longest-choose_zone zs name size)
      ]

  is_choice-choose_zone :
      (zs : List Zone) (name : Text) (size : ℕ)
      → ((text_eq (choose_zone is_sub_domain fqdn s n zs name size).0 name
            && (choose_zone is_sub_domain fqdn s n zs name size).1 == size)
          || any (is_choice (choose_zone is_sub_domain fqdn s n zs name size)) zs)
        ≡ true
  unfolding choose_zone
  is_choice-choose_zone [] name size = ground (arith, text_refl name)
  is_choice-choose_zone (z ∷ zs) name size =
      elim (Bool-cases (covers is_sub_domain fqdn s n z && ltb size (length z.zone))) [
        | inl e ↦ ground (
          arith,
          e,
          is_choice-choose_zone zs z.name (length z.zone),
          text_comm z.name (choose_zone is_sub_domain fqdn s n zs z.name (length z.zone)).0,
        )
        | inr e ↦ ground (arith, e, is_choice-choose_zone zs name size)
      ]

  -- No zone of the service's project that covers a name is longer than the zone chosen for it, which
  -- is one of them; where none of them has a zone name that is not empty, no zone is chosen.
  pub choose_zone-is_longest :
      (zs : List Zone)
      → (is_longest zs (choose_zone is_sub_domain fqdn s n zs [] 0).1 ≡ true)
        × (any (is_choice (choose_zone is_sub_domain fqdn s n zs [] 0)) zs ≡ true
            ⊎ ((choose_zone is_sub_domain fqdn s n zs [] 0).0 ≡ []) × (is_longest zs 0 ≡ true))
  choose_zone-is_longest zs =
      let longest = is_longest-choose_zone zs [] 0 in
      let chosen = is_choice-choose_zone zs [] 0 in
      (
        longest,
        elim (Bool-cases (any (is_choice (choose_zone is_sub_domain fqdn s n zs [] 0)) zs)) [
          | inl e ↦ inl e
          | inr e ↦ inr (
            (text_iff (choose_zone is_sub_domain fqdn s n zs [] 0).0 []).0 (ground arith),
            none_longest (ground arith) longest,
          )
        ],
      )
    where
      none_longest :
          ((choose_zone is_sub_domain fqdn s n zs [] 0).1 == 0) ≡ true
          → is_longest zs (choose_zone is_sub_domain fqdn s n zs [] 0).1 ≡ true
          → is_longest zs 0 ≡ true
      none_longest h k = subst (λ m. is_longest zs m ≡ true) ((==_iff _ 0).0 h) k
