-- ===== src/Consolidation/Kept.antt =====
-- What the loop over `keepPrefixes` leaves: every covered address, and no prefix inside another.
use edgecdnx_controller.Common.{
  ℕ, zero, suc, ◌≤◌, ◌<◌, ◌≡◌, refl, sym, ◌∙◌, Bool, true, false, ◌&&◌, none, some, List, arith,
  ltb, any, all, not, all-eq-not-any, Bool-cases, Option-cases, inl, inr, ap, filter, any_mono,
  Bool-ext, any-filter, any-found, and_left, and_right, not_both,
}
use edgecdnx_controller.Net.{Family, IsLawful, IpNet, net_eq, mask, contains, parse_cidr}
use edgecdnx_controller.Net.Masks.{mask-mask_le, mask-eq_of_le}
use edgecdnx_controller.Consolidation.{PrefixSpec, to_be_deleted, is_kept, keep_prefixes}
use edgecdnx_controller.Consolidation.Coverage.{
  covers, covered, is_net, is_net-eq-true, covers-eq-true, covers_of, is_net_of, parse_cidr-eq-some,
  parse_cidr_of, contains_of, contains-eq-true, holds, holds_of,
}
use edgecdnx_controller.Consolidation.Entries.{is_plain, plain_of_parse}
use edgecdnx_controller.Consolidation.Deletion.{is_inside, has_inside, marked-found, marked_of}

-- Whether the second prefix is longer than the first and lies inside it.
unfoldable pub is_within : Family → PrefixSpec → PrefixSpec → Bool
is_within f p q = ltb p.size q.size && elim (parse_cidr f p.address p.size) [
  | none ↦ false
  | some (_, s) ↦ elim (parse_cidr f q.address q.size) [
    | none ↦ false
    | some (_, t) ↦ holds f s t.base
  ]
]

module _ (f : Family) where
  is_within-parts :
      (p q : PrefixSpec)
      → is_within f p q ≡ true
      → (v : ℕ) × (a : ℕ) × (f.parse p.address ≡ some v)
        × (f.parse q.address ≡ some a)
        × (p.size < q.size)
        × (q.size ≤ f.width)
        × (mask f.width p.size (mask f.width q.size a) ≡ mask f.width p.size v)
  unfolding is_within parse_cidr
  is_within-parts p q h = elim (Option-cases (f.parse p.address)) [
    | inl e ↦ absurd (none_left e)
    | inr (v, e) ↦ elim (Option-cases (f.parse q.address)) [
      | inl g ↦ absurd (none_right v e g)
      | inr (a, g) ↦ (v, a, e, g, ground arith, ground arith, ground arith)
    ]
  ]
    where
      none_left : f.parse p.address ≡ none → ⊥
      none_left e = ground arith

      none_right : (v : ℕ) → f.parse p.address ≡ some v → f.parse q.address ≡ none → ⊥
      none_right v e g = ground arith

  -- A kept prefix parses, and its network is not marked.
  is_kept-parts :
      (d : _) (q : PrefixSpec)
      → is_kept f d q ≡ true
      → (a : ℕ) × (f.parse q.address ≡ some a)
        × (q.size ≤ f.width)
        × (any (net_eq (record { base = mask f.width q.size a; size = q.size })) d ≡ false)
  unfolding is_kept parse_cidr
  is_kept-parts d q h = elim (Option-cases (f.parse q.address)) [
    | inl e ↦ absurd (none_kept e)
    | inr (a, e) ↦ (a, e, ground arith, ground arith)
  ]
    where
      none_kept : f.parse q.address ≡ none → ⊥
      none_kept e = ground arith

  inside_of :
      (n a : ℕ) (s : _) (q : PrefixSpec)
      → f.parse q.address ≡ some a
      → n < q.size
      → q.size ≤ f.width
      → contains f s (mask f.width q.size a) ≡ true
      → is_inside f n s (record { base = mask f.width q.size a; size = q.size }) q ≡ true
  inside_of n a s q e h k c = ground (arith, is_net_of f q a q.size e refl k)

  has_inside_of :
      (ps : List PrefixSpec) (key : IpNet) (p : PrefixSpec) (v : ℕ)
      → f.parse p.address ≡ some v
      → p.size ≤ f.width
      → any (is_inside f p.size (record { base = mask f.width p.size v; size = p.size }) key) ps
        ≡ true
      → has_inside f p.size ps key p ≡ true
  has_inside_of ps key p v e h k = rw (parse_cidr_of f p.address p.size v e h) (rw k (ground arith))

  has_inside-parts :
      (n : ℕ) (ps : List PrefixSpec) (key : IpNet) (p : PrefixSpec)
      → has_inside f n ps key p ≡ true
      → (v : ℕ) × (f.parse p.address ≡ some v)
        × (p.size ≡ n)
        × (n ≤ f.width)
        × (any (is_inside f n (record { base = mask f.width n v; size = n }) key) ps ≡ true)
  has_inside-parts n ps key p h = elim (Option-cases (parse_cidr f p.address n)) [
    | inl e ↦ absurd (none_has e)
    | inr ((v, s), e) ↦
        let (parsed, fit, net) = parse_cidr-eq-some f p.address n v s e in
        let k : any (is_inside f n s key) ps ≡ true = ground arith in
        (v, parsed, ground arith, fit, rw net at k)
  ]
    where
      none_has : parse_cidr f p.address n ≡ none → ⊥
      none_has e = ground arith

  -- A prefix that is found in a list of plain ones is plain.
  found-is_plain :
      (ps : List PrefixSpec) (p : PrefixSpec)
      → all (is_plain f) ps ≡ true
      → ((r : PrefixSpec → Bool) → r p ≡ true → any r ps ≡ true)
      → is_plain f p ≡ true
  found-is_plain ps p plain inp = elim (Bool-cases (is_plain f p)) [
    | inl e ↦ e
    | inr e ↦
        let odd : any (λ r. not (is_plain f r)) ps ≡ true =
          inp (λ r. not (is_plain f r)) (ap not e) in
        ground (arith, sym (all-eq-not-any (is_plain f) ps) ∙ plain)
  ]

  plain-base :
      (lawful : IsLawful f) (p : PrefixSpec) (v : ℕ)
      → is_plain f p ≡ true
      → f.parse p.address ≡ some v
      → p.size ≤ f.width
      → f.plain (mask f.width p.size v) ≡ true
  plain-base lawful p v h e fit = lawful.plain-mask p.size v fit (plain_of_parse f p v h e)

  -- A prefix of the list that lies inside another one of it is marked.
  within-marked :
      (lawful : IsLawful f) (ps : List PrefixSpec) (p q : PrefixSpec) (a : ℕ)
      → all (is_plain f) ps ≡ true
      → ((r : PrefixSpec → Bool) → r p ≡ true → any r ps ≡ true)
      → ((r : PrefixSpec → Bool) → r q ≡ true → any r ps ≡ true)
      → is_within f p q ≡ true
      → f.parse q.address ≡ some a
      → any (net_eq (record { base = mask f.width q.size a; size = q.size })) (to_be_deleted f ps)
        ≡ true
  within-marked lawful ps p q a plain inp inq h e =
      let (v, a', ep, eq, lt, fit, same) = is_within-parts p q h in
      let key : IpNet = record { base = mask f.width q.size a; size = q.size } in
      let net : IpNet = record { base = mask f.width p.size v; size = p.size } in
      let a'=a : a' ≡ a = cc in
      let found : any (is_inside f p.size net key) ps ≡ true = inq (is_inside f p.size net key) (
        inside_of p.size a net q e lt fit (
          contains_of f p.size v (mask f.width q.size a)
            (plain-base lawful p v (found-is_plain ps p plain inp) ep (omega arith))
            (plain-base lawful q a (found-is_plain ps q plain inq) e fit) (rw a'=a at same))) in
      marked_of f ps key p.size (omega arith)
        (inp (has_inside f p.size ps key) (has_inside_of ps key p v ep (omega arith) found))

  -- No prefix that is kept lies inside another one of a list of plain prefixes.
  pub keep_prefixes-not_within :
      (lawful : IsLawful f) (ps : List PrefixSpec)
      → all (is_plain f) ps ≡ true
      → any (λ q. any (λ p. is_within f p q) ps) (keep_prefixes f ps) ≡ false
  unfolding keep_prefixes
  keep_prefixes-not_within lawful ps plain =
      let d = to_be_deleted f ps in
      let outer : PrefixSpec → Bool = λ q. any (λ p. is_within f p q) ps in
      elim (Bool-cases (any outer (filter (is_kept f d) ps))) [
        | inr e ↦ e
        | inl e ↦
            let (q, eq, inq) = any-found _ ps (sym (any-filter outer (is_kept f d) ps) ∙ e) in
            let (p, ep, inp) = any-found _ ps (and_right _ _ eq) in
            let (a, parsed, fit, unmarked) = is_kept-parts d q (and_left _ _ eq) in
            absurd (not_both (within-marked lawful ps p q a plain inp inq ep parsed) unmarked)
      ]

  -- What is kept was there.
  pub keep_prefixes-subset :
      (ps : List PrefixSpec) (t : PrefixSpec → Bool)
      → any t (keep_prefixes f ps) ≡ true
      → any t ps ≡ true
  unfolding keep_prefixes
  keep_prefixes-subset ps t h =
      let d = to_be_deleted f ps in
      any_mono (λ q. is_kept f d q && t q) t ps (λ q. and_right _ _)
        (sym (any-filter t (is_kept f d) ps) ∙ h)

  -- A network of a list has no half among the prefixes that are kept.
  pub is_net-within :
      (l a : ℕ) (p q : PrefixSpec)
      → is_net f (mask f.width l a) l p ≡ true
      → is_net f a (suc l) q ≡ true
      → is_within f p q ≡ true
  unfolding is_within
  is_net-within l a p q h k =
      let (v, parsed, fit, size, same) = is_net-eq-true f (mask f.width l a) l p h in
      let (w, parsed', fit', size', same') = is_net-eq-true f a (suc l) q k in
      let inner : mask f.width p.size (mask f.width q.size w) ≡ mask f.width p.size v =
        rw (size, size') (ap (mask f.width l) same' ∙ sym same) in
      rw (parse_cidr_of f p.address p.size v parsed fit) (
        rw (parse_cidr_of f q.address q.size w parsed' fit')
          (ground (arith, holds_of f p.size v (mask f.width q.size w) inner)))

  marked_of_not_kept :
      (d : List IpNet) (p : PrefixSpec) (a : ℕ)
      → is_kept f d p ≡ false
      → f.parse p.address ≡ some a
      → p.size ≤ f.width
      → any (net_eq (record { base = mask f.width p.size a; size = p.size })) d ≡ true
  unfolding is_kept
  marked_of_not_kept d p a h e k =
      let g = rw (parse_cidr_of f p.address p.size a e k, is_kept) at h in ground arith

  inside-size :
      (m : ℕ) (s key : IpNet) (q : PrefixSpec) → is_inside f m s key q ≡ true → m < key.size
  inside-size m s key q h =
      let (a, parsed, fit, size, same) = is_net-eq-true f key.base key.size q (ground arith) in
      ground arith

  inside-base :
      (m : ℕ) (s key : IpNet) (q : PrefixSpec)
      → is_inside f m s key q ≡ true
      → mask f.width s.size key.base ≡ s.base
  inside-base m s key q h = contains-eq-true f s key.base (ground arith)

  -- The search for a kept prefix: from any covering one, of size below `bound`.
  kept_covers :
      (bound : ℕ) (ps : List PrefixSpec) (x : ℕ) (p : PrefixSpec)
      → p.size < bound
      → ((r : PrefixSpec → Bool) → r p ≡ true → any r ps ≡ true)
      → covers f x p ≡ true
      → any (λ q. is_kept f (to_be_deleted f ps) q && covers f x q) ps ≡ true
  kept_covers zero ps x p h inp c = elim h [ ]
  kept_covers (suc bound) ps x p h inp c =
      let d = to_be_deleted f ps in
      elim (Bool-cases (is_kept f d p)) [
        | inl e ↦ inp (λ q. is_kept f d q && covers f x q) (rw (e, c) refl)
        | inr e ↦
            let (a, parsed, fit, same) = covers-eq-true f x p c in
            let key : IpNet = record { base = mask f.width p.size a; size = p.size } in
            let (m, has) = marked-found f ps key (marked_of_not_kept d p a e parsed fit) in
            let (p', hp', inp') = any-found (has_inside f m ps key) ps has in
            let (v, parsed', size', fit', found) = has_inside-parts m ps key p' hp' in
            let (q, hq, inq) = any-found _ ps found in
            let shorter : m < p.size =
              inside-size m (record { base = mask f.width m v; size = m }) key q hq in
            let inner : mask f.width m key.base ≡ mask f.width m v =
              inside-base m (record { base = mask f.width m v; size = m }) key q hq in
            let into : mask f.width m x ≡ mask f.width m v =
              mask-eq_of_le f.width m p.size x a (omega arith) fit same
              ∙ sym (mask-mask_le f.width m p.size a (omega arith) fit)
              ∙ inner in
            kept_covers bound ps x p' (omega arith) inp'
              (covers_of f x p' v parsed' (omega arith) (rw size' into))
      ]

  -- Removing what lies inside other prefixes loses no address and adds none.
  pub covered-keep_prefixes :
      (ps : List PrefixSpec) (x : ℕ) → covered f (keep_prefixes f ps) x ≡ covered f ps x
  unfolding keep_prefixes
  covered-keep_prefixes ps x =
      let d = to_be_deleted f ps in
      any-filter (covers f x) (is_kept f d) ps
      ∙ Bool-ext _ _
          (any_mono (λ q. is_kept f d q && covers f x q) (covers f x) ps (λ q. and_right _ _))
          (λ h.
            let (p, c, inp) = any-found (covers f x) ps h in
            kept_covers (suc p.size) ps x p (omega arith) inp c)
