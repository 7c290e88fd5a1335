-- ===== src/Consolidation/Entries.antt =====
-- The map `consolidables` of one round: what its entries hold, and what no entry misses.
use edgecdnx_controller.Common.{
  ℕ, suc, ◌≤◌, ◌≡◌, refl, sym, ◌∙◌, ◌≢◌, Bool, true, false, none, some, List, [], ◌∷◌, ◌++◌, arith,
  ◌==◌, if◌then◌else◌, any, All, All-append, Bool-cases, Option-cases, inl, inr, ap,
}
use edgecdnx_controller.Net.{Family, IsLawful, IpNet, net_eq, mask, parse_cidr}
use edgecdnx_controller.Net.Masks.{mask-mask, mask-mask_le}
use edgecdnx_controller.Consolidation.{
  PrefixSpec, Consolidable, Consolidables, first_equal, put_consolidable, add_consolidable,
  add_consolidables,
}
use edgecdnx_controller.Consolidation.Coverage.{
  parse_cidr-none, parse_cidr_of, is_net, is_net_of, is_net-eq-true,
}

-- A prefix whose address, if it has one, the family can write.
abbrev pub is_plain : Family → PrefixSpec → Bool
is_plain f p = elim (f.parse p.address) [ none ↦ true | some a ↦ f.plain a ]

pub plain_of_parse :
    (f : Family) (p : PrefixSpec) (a : ℕ)
    → is_plain f p ≡ true
    → f.parse p.address ≡ some a
    → f.plain a ≡ true
plain_of_parse f p a h e = ground arith

module _ (f : Family) (prefixlen : ℕ) (backed : ℕ → Bool) where
  -- A base that an entry with this key may hold.
  abbrev pub IsHalf : IpNet → ℕ → Type 0
  IsHalf key ip =
      (mask f.width prefixlen ip ≡ key.base)
      × (mask f.width (suc prefixlen) ip ≡ ip)
      × (backed ip ≡ true)

  -- The bases behind the first differ from it.
  abbrev pub IsHeaded : List ℕ → Type 0
  IsHeaded [] = ⊥
  IsHeaded (a ∷ ips) = All (λ b. a ≢ b) ips

  abbrev pub IsEntry : IpNet × Consolidable → Type 0
  IsEntry (key, val) =
      (key.size ≡ prefixlen)
      × (f.plain key.base ≡ true)
      × All (IsHalf key) val.prefixes
      × IsHeaded val.prefixes

  first_equal-ne : (a ip : ℕ) (ips : List ℕ) → first_equal (a ∷ ips) ip ≡ false → a ≢ ip
  unfolding first_equal
  first_equal-ne a ip ips h = ground arith

  net_eq-sizes : (a b : IpNet) → net_eq a b ≡ true → (a.base ≡ b.base) × (a.size ≡ b.size)
  unfolding net_eq
  net_eq-sizes a b h = ground arith

  IsHeaded-append :
      (ips : List ℕ) (ip : ℕ)
      → IsHeaded ips
      → first_equal ips ip ≡ false
      → IsHeaded (ips ++ ip ∷ [])
  IsHeaded-append (a ∷ ips) ip h e =
      All-append (λ b. a ≢ b) ips (ip ∷ []) h (first_equal-ne a ip ips e, tt)
  IsHeaded-append [] ip h e = absurd h

  put_consolidable-IsEntry :
      (b : IpNet) (size ip : ℕ) (m : Consolidables)
      → b.size ≡ prefixlen
      → f.plain b.base ≡ true
      → IsHalf b ip
      → All IsEntry m
      → All IsEntry (put_consolidable b size ip m)
  unfolding put_consolidable
  put_consolidable-IsEntry b size ip [] bs bp h a = ((bs, bp, (h, tt), tt), tt)
  put_consolidable-IsEntry b size ip ((k, val) ∷ m) bs bp h ((ks, kp, halves, headed), a) =
      let rest = put_consolidable-IsEntry b size ip m bs bp h a in
      elim (Bool-cases (net_eq k b)) [
        | inr e ↦ rw (e, put_consolidable) ((ks, kp, halves, headed), rest)
        | inl e ↦ elim (Bool-cases (first_equal val.prefixes ip)) [
          | inl g ↦
              rw (e, put_consolidable) (rw (g, put_consolidable) ((ks, kp, halves, headed), a))
          | inr g ↦
              let s = net_eq-sizes k b e in
              let h' : IsHalf k ip = (rw s.0 h.0, h.1, h.2) in
              rw (e, put_consolidable)
                (rw (g, put_consolidable)
                  (
                    (
                      ks,
                      kp,
                      All-append (IsHalf k) val.prefixes (ip ∷ []) halves (h', tt),
                      IsHeaded-append val.prefixes ip headed g,
                    ),
                    a,
                  ))
        ]
      ]

module _ (f : Family) (prefixlen : ℕ) (backed : ℕ → Bool) where
  -- A prefix that the round reads: one bit longer, and known to the list that is joined.
  abbrev pub IsSource : PrefixSpec → Type 0
  IsSource p =
      (p.size ≡ suc prefixlen)
      × (is_plain f p ≡ true)
      × ((ip : ℕ) → is_net f ip (suc prefixlen) p ≡ true → backed ip ≡ true)

  module _ (fits : suc prefixlen ≤ f.width) (lawful : IsLawful f) where
    add_consolidable-IsEntry :
        (p : PrefixSpec) (m : Consolidables)
        → IsSource p
        → All (IsEntry f prefixlen backed) m
        → All (IsEntry f prefixlen backed) (add_consolidable f prefixlen p m)
    unfolding add_consolidable
    add_consolidable-IsEntry p m (size, plain, known) a = elim (Option-cases (f.parse p.address)) [
      | inl e ↦ rw (parse_cidr-none f p.address prefixlen e, add_consolidable) a
      | inr (v, e) ↦
          let n = prefixlen in
          let fit : p.size ≤ f.width = omega arith in
          let short = parse_cidr_of f p.address n v e (omega arith) in
          let long = parse_cidr_of f p.address p.size v e fit in
          let half : IsHalf f n backed (record { base = mask f.width n v; size = n })
              (mask f.width p.size v) =
            (
              mask-mask_le f.width n p.size v (omega arith) fit,
              rw size (mask-mask f.width (suc n) v),
              rw size (known _ (is_net_of f p v (suc n) e size fits)),
            ) in
          rw (short, add_consolidable)
            (rw (long, add_consolidable)
              (put_consolidable-IsEntry f n backed _ p.size _ m refl
                (lawful.plain-mask n v (omega arith) (plain_of_parse f p v plain e)) half a))
    ]

    -- Every entry of the map that a round builds is sound.
    pub add_consolidables-IsEntry :
        (ps : List PrefixSpec) (m : Consolidables)
        → All IsSource ps
        → All (IsEntry f prefixlen backed) m
        → All (IsEntry f prefixlen backed) (add_consolidables f prefixlen ps m)
    unfolding add_consolidables
    add_consolidables-IsEntry [] m s a = a
    add_consolidables-IsEntry (p ∷ ps) m (s, ss) a =
        add_consolidables-IsEntry ps (add_consolidable f prefixlen p m) ss
          (add_consolidable-IsEntry p m s a)

-- The bases under a key.
unfoldable pub prefixes_of : IpNet → Consolidables → List ℕ
prefixes_of key [] = []
prefixes_of key ((k, val) ∷ m) = if net_eq k key then val.prefixes else prefixes_of key m

-- Whether a base stands under a key.
abbrev pub has : IpNet → ℕ → Consolidables → Bool
has key ip m = any (λ a. a == ip) (prefixes_of key m)

any-append_last : (ips : List ℕ) (ip : ℕ) → any (λ a. a == ip) (ips ++ ip ∷ []) ≡ true
any-append_last [] ip = ground arith
any-append_last (a ∷ ips) ip = ground (arith, any-append_last ips ip)

any-append_left :
    (ips : List ℕ) (j ip : ℕ)
    → any (λ a. a == j) ips ≡ true
    → any (λ a. a == j) (ips ++ ip ∷ []) ≡ true
any-append_left [] j ip h = cc
any-append_left (a ∷ ips) j ip h = ground (arith, any-append_left ips j ip)

any_of_first : (ips : List ℕ) (ip : ℕ) → first_equal ips ip ≡ true → any (λ a. a == ip) ips ≡ true
unfolding first_equal
any_of_first [] ip h = cc
any_of_first (a ∷ ips) ip h = rw h

-- The base that is put stands under its key.
put_consolidable-has :
    (b : IpNet) (size ip : ℕ) (m : Consolidables) → has b ip (put_consolidable b size ip m) ≡ true
unfolding put_consolidable prefixes_of net_eq
put_consolidable-has b size ip [] = ground arith
put_consolidable-has b size ip ((k, val) ∷ m) = elim (Bool-cases (net_eq k b)) [
  | inr e ↦ rw (e, put_consolidable) (rw (e, prefixes_of) (put_consolidable-has b size ip m))
  | inl e ↦ elim (Bool-cases (first_equal val.prefixes ip)) [
    | inl g ↦
        rw (e, put_consolidable)
          (rw (g, put_consolidable) (rw (e, prefixes_of) (any_of_first val.prefixes ip g)))
    | inr g ↦
        rw (e, put_consolidable)
          (rw (g, put_consolidable) (rw (e, prefixes_of) (any-append_last val.prefixes ip)))
  ]
]

-- What stood under a key stays there.
put_consolidable-keeps :
    (b : IpNet) (size ip : ℕ) (m : Consolidables) (key : IpNet) (j : ℕ)
    → has key j m ≡ true
    → has key j (put_consolidable b size ip m) ≡ true
unfolding put_consolidable prefixes_of
put_consolidable-keeps b size ip [] key j h = cc
put_consolidable-keeps b size ip ((k, val) ∷ m) key j h =
    ground (arith, any-append_left val.prefixes j ip, put_consolidable-keeps b size ip m key j)

module _ (f : Family) (prefixlen : ℕ) (fits : suc prefixlen ≤ f.width) where
  -- The key under which a base of the longer length is put.
  abbrev pub key_of : ℕ → IpNet
  key_of ip = record { base = mask f.width prefixlen ip; size = prefixlen }

  add_consolidable-has :
      (p : PrefixSpec) (m : Consolidables) (ip : ℕ)
      → is_net f ip (suc prefixlen) p ≡ true
      → has (key_of ip) ip (add_consolidable f prefixlen p m) ≡ true
  unfolding add_consolidable
  add_consolidable-has p m ip h =
      let (v, e, fit, size, same) = is_net-eq-true f ip (suc prefixlen) p h in
      let n = prefixlen in
      let short = parse_cidr_of f p.address n v e (omega arith) in
      let long = parse_cidr_of f p.address p.size v e fit in
      let base : mask f.width p.size v ≡ ip = rw size same in
      let key : mask f.width n v ≡ mask f.width n ip =
        sym (mask-mask_le f.width n (suc n) v (omega arith) fits) ∙ ap (mask f.width n) same in
      rw (short, add_consolidable)
        (rw (long, add_consolidable)
          (rw (base, key) (put_consolidable-has (key_of ip) p.size ip m)))

  add_consolidable-keeps :
      (p : PrefixSpec) (m : Consolidables) (key : IpNet) (j : ℕ)
      → has key j m ≡ true
      → has key j (add_consolidable f prefixlen p m) ≡ true
  unfolding add_consolidable
  add_consolidable-keeps p m key j h = elim (Option-cases (parse_cidr f p.address prefixlen)) [
    | inl e ↦ rw (e, add_consolidable) h
    | inr (b, e) ↦ elim (Option-cases (parse_cidr f p.address p.size)) [
      | inl g ↦ rw (e, add_consolidable) (rw (g, add_consolidable) h)
      | inr (c, g) ↦
          rw (e, add_consolidable)
            (rw (g, add_consolidable) (put_consolidable-keeps b.1 p.size c.1.base m key j h))
    ]
  ]

  add_consolidables-keeps :
      (ps : List PrefixSpec) (m : Consolidables) (key : IpNet) (j : ℕ)
      → has key j m ≡ true
      → has key j (add_consolidables f prefixlen ps m) ≡ true
  unfolding add_consolidables
  add_consolidables-keeps [] m key j h = h
  add_consolidables-keeps (p ∷ ps) m key j h =
      add_consolidables-keeps ps _ key j (add_consolidable-keeps p m key j h)

  -- No base that a round reads is missed.
  pub add_consolidables-has :
      (ps : List PrefixSpec) (m : Consolidables) (ip : ℕ)
      → any (is_net f ip (suc prefixlen)) ps ≡ true
      → has (key_of ip) ip (add_consolidables f prefixlen ps m) ≡ true
  unfolding add_consolidables
  add_consolidables-has (p ∷ ps) m ip h = elim (Bool-cases (is_net f ip (suc prefixlen) p)) [
    | inl e ↦ add_consolidables-keeps ps _ (key_of ip) ip (add_consolidable-has p m ip e)
    | inr e ↦ add_consolidables-has ps _ ip (rw e at h)
  ]
  add_consolidables-has [] m ip h = cc
