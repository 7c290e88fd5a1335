-- ===== src/Consolidation/Siblings.antt =====
-- Two halves of a network never stay without the network itself.
use edgecdnx_controller.Common.{
  ℕ, suc, ◌+◌, ◌≤◌, ◌≡◌, refl, ◌∙◌, ◌≢◌, Bool, true, false, ◌&&◌, List, [], ◌∷◌, arith, ◌==◌, leb,
  any, all, All, Bool-cases, inl, inr, length, any-append, any_mono, any-filter, or_true,
}
use edgecdnx_controller.Net.{Family, IsLawful as IsLawfulFamily, IpNet, net_eq, mask}
use edgecdnx_controller.Net.Masks.{mask-mask}
use edgecdnx_controller.Consolidation.{
  PrefixSpec, Consolidable, Consolidables, smaller_subnets, add_consolidables, joined_prefixes,
  Ordering, IsLawful, merge_round,
}
use edgecdnx_controller.Consolidation.Coverage.{is_net, is_net-eq-true, is_net_of}
use edgecdnx_controller.Consolidation.Entries.{
  is_plain, IsEntry, has, key_of, prefixes_of, add_consolidables-has,
}
use edgecdnx_controller.Consolidation.Merge.{
  joined, is_joined, is_joined-entry, any-joined_prefixes, any-joined_perm, round_entries,
}

two_found {ℓ} :
    {A : Type ℓ} (p q : A → Bool) (xs : List A)
    → ((x : A) → p x ≡ true → q x ≡ true → ⊥)
    → any p xs ≡ true
    → any q xs ≡ true
    → leb (length xs) 1 ≡ false
two_found p q [] h e g = cc
two_found p q (x ∷ []) h e g = absurd (h x (ground arith) (ground arith))
two_found p q (x ∷ y ∷ xs) h e g = ground arith

is_net-size : (f : Family) (b n : ℕ) (p : PrefixSpec) → is_net f b n p ≡ true → p.size ≡ n
is_net-size f b n p h = let (a, parsed, fit, size, same) = is_net-eq-true f b n p h in size

is_net-base :
    (f : Family) (b c n : ℕ) (p : PrefixSpec)
    → is_net f b n p ≡ true
    → is_net f c n p ≡ true
    → b ≡ c
is_net-base f b c n p h k =
    let (a, parsed, fit, size, same) = is_net-eq-true f b n p h in
    let (a', parsed', fit', size', same') = is_net-eq-true f c n p k in ground arith

any-smaller_subnets :
    (f : Family) (n b : ℕ) (ps : List PrefixSpec)
    → any (is_net f b (suc n)) ps ≡ true
    → any (is_net f b (suc n)) (smaller_subnets n ps) ≡ true
unfolding smaller_subnets
any-smaller_subnets f n b ps h =
    any-filter (is_net f b (suc n)) _ ps
    ∙ any_mono (is_net f b (suc n)) (λ p. (p.size == n + 1) && is_net f b (suc n) p) ps
        (λ p e. ground (arith, is_net-size f b (suc n) p e)) h

net_eq-parts : (a b : IpNet) → net_eq a b ≡ true → (a.base ≡ b.base) × (a.size ≡ b.size)
unfolding net_eq
net_eq-parts a b h = ground arith

module _ (f : Family) (lawful : IsLawfulFamily f) (n : ℕ) (fits : suc n ≤ f.width) where
  joined-is_net :
      (k key : IpNet) (val : Consolidable)
      → k.base ≡ key.base
      → f.plain k.base ≡ true
      → k.size ≡ n
      → mask f.width n key.base ≡ key.base
      → is_net f key.base n (joined f (k, val)) ≡ true
  joined-is_net k key val same plain size base = rw (← base) (
      rw (← same) (
        is_net_of f (joined f (k, val)) k.base n (lawful.parse-print k.base plain) size
          (omega arith)))

  -- An entry that holds two bases is joined.
  joined_of_has :
      (backed : ℕ → Bool) (key : IpNet) (a b : ℕ) (m : Consolidables)
      → All (IsEntry f n backed) m
      → mask f.width n key.base ≡ key.base
      → key.size ≡ n
      → has key a m ≡ true
      → has key b m ≡ true
      → a ≢ b
      → any (is_joined (is_net f key.base n) f) m ≡ true
  unfolding prefixes_of
  joined_of_has backed key a b ((k, val) ∷ m) (entry, entries) base size ha hb ne =
      elim (Bool-cases (net_eq k key)) [
        | inr e ↦
            let rest =
              joined_of_has backed key a b m entries base size (rw (e, prefixes_of) at ha)
                (rw (e, prefixes_of) at hb) ne in
            rw (rest, or_true) refl
        | inl e ↦
            let long =
              two_found (λ x. x == a) (λ x. x == b) val.prefixes (λ x p q. ne (ground arith))
                (rw (e, prefixes_of) at ha) (rw (e, prefixes_of) at hb) in
            let same = net_eq-parts k key e in
            let (ks, kp, hs, hd) = entry in
            ground (
              arith,
              long,
              joined-is_net k key val same.0 kp ks base,
              is_joined-entry f lawful n fits (is_net f key.base n) backed (k, val) entry,
            )
      ]
  joined_of_has backed key a b [] entries base size ha hb ne = cc

  module _ (o : Ordering) (fair : IsLawful o) where
    -- A round that sees two different halves of a network adds the network.
    pub merge_round-parent :
        (ps : List PrefixSpec) (a b : ℕ)
        → all (is_plain f) ps ≡ true
        → any (is_net f a (suc n)) ps ≡ true
        → any (is_net f b (suc n)) ps ≡ true
        → mask f.width n a ≡ mask f.width n b
        → a ≢ b
        → any (is_net f (mask f.width n a) n) (merge_round f o n ps) ≡ true
    unfolding merge_round
    merge_round-parent ps a b plain ha hb same ne =
        let smaller = smaller_subnets n ps in
        let m = add_consolidables f n smaller [] in
        let q = is_net f (mask f.width n a) n in
        let sa = any-smaller_subnets f n a ps ha in
        let sb = any-smaller_subnets f n b ps hb in
        let many =
          two_found (is_net f a (suc n)) (is_net f b (suc n)) smaller
            (λ p x y. ne (is_net-base f a b (suc n) p x y)) sa sb in
        let found =
          joined_of_has _ (key_of f n fits a) a b m (round_entries f lawful n fits o fair ps plain)
            (mask-mask f.width n a) refl (add_consolidables-has f n fits smaller [] a sa)
            (rw same (add_consolidables-has f n fits smaller [] b sb)) ne in
        let new : any q (joined_prefixes f (o.range n m)) ≡ true =
          any-joined_perm q f (o.range n m) m (fair.range-perm n m)
          ∙ any-joined_prefixes q f m
          ∙ found in
        rw (many, merge_round)
          (any-append q ps (joined_prefixes f (o.range n m)) ∙ rw new (or_true _))
