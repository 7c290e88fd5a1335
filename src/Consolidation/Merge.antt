-- ===== src/Consolidation/Merge.antt =====
-- Joining halves keeps the covered addresses, and never leaves two halves without their parent.
use edgecdnx_controller.Common.{
  ℕ, suc, ◌≤◌, ◌≡◌, refl, sym, ◌∙◌, ◌≢◌, Bool, true, false, none, some, and_right, ◌&&◌, not, List,
  [], ◌∷◌, Perm, arith, ltb, any, all, All, All-mono, inl, inr, ap, length, any-append, all-append,
  any-perm, any-of_All, All-filter, All-found, any_mono, All-and, all-eq-not-any,
}
use edgecdnx_controller.Net.{Family, IsLawful as IsLawfulFamily, IpNet, mask, parse_cidr}
use edgecdnx_controller.Net.Masks.{mask-mask, half_cases}
use edgecdnx_controller.Consolidation.{
  PrefixSpec, Consolidable, Consolidables, smaller_subnets, add_consolidables, reparsed,
  joined_prefixes, Ordering, IsLawful, merge_round,
}
use edgecdnx_controller.Consolidation.Coverage.{
  covers, covered, is_net, covers-eq-true, covers_of_is_net,
}
use edgecdnx_controller.Consolidation.Entries.{
  is_plain, IsEntry, IsHalf, IsSource, add_consolidables-IsEntry,
}

-- The prefix that an entry gives, and whether it gives one.
abbrev pub joined : Family → IpNet × Consolidable → PrefixSpec
joined f (key, val) = record { address = f.print key.base; size = key.size }

abbrev pub is_joined : (PrefixSpec → Bool) → Family → IpNet × Consolidable → Bool
is_joined q f (key, val) =
    ltb 1 (length val.prefixes) && elim (reparsed f key) [ none ↦ false | some p ↦ q p ]

pub any-joined_prefixes :
    (q : PrefixSpec → Bool) (f : Family) (m : Consolidables)
    → any q (joined_prefixes f m) ≡ any (is_joined q f) m
unfolding joined_prefixes
any-joined_prefixes q f [] = refl
any-joined_prefixes q f ((key, val) ∷ m) = ground (arith, any-joined_prefixes q f m)

-- The key of a plain network is read as the network that was written.
reparsed-plain :
    (f : Family) (key : IpNet)
    → IsLawfulFamily f
    → f.plain key.base ≡ true
    → key.size ≤ f.width
    → mask f.width key.size key.base ≡ key.base
    → reparsed f key ≡ some (record { address = f.print key.base; size = key.size })
unfolding reparsed parse_cidr
reparsed-plain f key lawful plain fit same =
    ground (arith, lawful.parse-print key.base plain, plain, fit, same)

-- The order in which the map is visited does not matter to a search of the result.
pub any-joined_perm :
    (q : PrefixSpec → Bool) (f : Family) (m n : Consolidables)
    → Perm m n
    → any q (joined_prefixes f m) ≡ any q (joined_prefixes f n)
any-joined_perm q f m n h =
    any-joined_prefixes q f m ∙ any-perm (is_joined q f) h ∙ sym (any-joined_prefixes q f n)

module _ (f : Family) (lawful : IsLawfulFamily f) (prefixlen : ℕ)
    (fits : suc prefixlen ≤ f.width) where
  -- An entry is joined to the network of its key.
  reparsed-entry :
      (backed : ℕ → Bool) (key : IpNet) (size : ℕ) (ips : List ℕ)
      → IsEntry f prefixlen backed (key, record { mask = size; prefixes = ips })
      → reparsed f key ≡ some (joined f (key, record { mask = size; prefixes = ips }))
  reparsed-entry backed key size [] (s, plain, halves, headed) = absurd headed
  reparsed-entry backed key size (a ∷ ips) (s, plain, (half, halves), headed) =
      let same : mask f.width key.size key.base ≡ key.base =
        ap (λ n. mask f.width n key.base) s
        ∙ ap (mask f.width prefixlen) (sym half.0)
        ∙ mask-mask f.width prefixlen a
        ∙ half.0 in
      reparsed-plain f key lawful plain (omega (arith, s)) same

  pub is_joined-entry :
      (q : PrefixSpec → Bool) (backed : ℕ → Bool) (e : IpNet × Consolidable)
      → IsEntry f prefixlen backed e
      → is_joined q f e ≡ (ltb 1 (length e.1.prefixes) && q (joined f e))
  is_joined-entry q backed e entry =
      ap (λ r. ltb 1 (length e.1.prefixes) && elim r [ none ↦ false | some p ↦ q p ])
        (reparsed-entry backed e.0 e.1.mask e.1.prefixes entry)

  joined-covers :
      (backed : ℕ → Bool) (key : IpNet) (val : Consolidable) (x a : ℕ)
      → key.size ≡ prefixlen
      → f.plain key.base ≡ true
      → IsHalf f prefixlen backed key a
      → covers f x (joined f (key, val)) ≡ true
      → mask f.width prefixlen x ≡ key.base
  joined-covers backed key val x a size plain half c =
      let (b, parsed, fit, same) = covers-eq-true f x (joined f (key, val)) c in
      let e : b ≡ key.base = ground (arith, lawful.parse-print key.base plain) in
      let short : mask f.width prefixlen x ≡ mask f.width prefixlen key.base =
        ap (λ n. mask f.width n x) (sym size)
        ∙ same
        ∙ ap (mask f.width key.size) e
        ∙ ap (λ n. mask f.width n key.base) size in
      short ∙ ap (mask f.width prefixlen) (sym half.0) ∙ mask-mask f.width prefixlen a ∙ half.0

  two_halves :
      (backed : ℕ → Bool) (key : IpNet) (x a b : ℕ)
      → IsHalf f prefixlen backed key a
      → IsHalf f prefixlen backed key b
      → a ≢ b
      → mask f.width prefixlen x ≡ key.base
      → backed (mask f.width (suc prefixlen) x) ≡ true
  two_halves backed key x a b ha hb ne h =
      let split =
        half_cases f.width prefixlen a b x (omega arith) (ha.0 ∙ sym hb.0) (ha.0 ∙ sym h)
          (λ e. ne (sym ha.1 ∙ e ∙ hb.1)) in
      elim split [ inl e ↦ rw (e ∙ ha.1) ha.2 | inr e ↦ rw (e ∙ hb.1) hb.2 ]

  -- An address of a joined prefix lies in one of its halves.
  entry_covers :
      (backed : ℕ → Bool) (x : ℕ) (key : IpNet) (size : ℕ) (ips : List ℕ)
      → IsEntry f prefixlen backed (key, record { mask = size; prefixes = ips })
      → is_joined (covers f x) f (key, record { mask = size; prefixes = ips }) ≡ true
      → backed (mask f.width (suc prefixlen) x) ≡ true
  entry_covers backed x key size [] (s, plain, halves, headed) h = absurd headed
  entry_covers backed x key size (a ∷ []) (s, plain, halves, headed) h = ground arith
  entry_covers backed x key size (a ∷ b ∷ r) (s, plain, (ha, (hb, hs)), headed) h =
      let test =
        sym (
          is_joined-entry (covers f x) backed (key, record { mask = size; prefixes = a ∷ b ∷ r })
            (s, plain, (ha, (hb, hs)), headed))
        ∙ h in
      two_halves backed key x a b ha hb headed.0 (
        joined-covers backed key (record { mask = size; prefixes = a ∷ b ∷ r }) x a s plain ha
          (and_right _ _ test))

  -- What a round adds was covered before.
  joined-covered :
      (ps : List PrefixSpec) (m : Consolidables) (x : ℕ)
      → All (IsEntry f prefixlen (λ ip. any (is_net f ip (suc prefixlen)) ps)) m
      → covered f (joined_prefixes f m) x ≡ true
      → covered f ps x ≡ true
  joined-covered ps m x entries h =
      let backed : ℕ → Bool = λ ip. any (is_net f ip (suc prefixlen)) ps in
      let (e, entry, test) =
        any-of_All (IsEntry f prefixlen backed) (is_joined (covers f x) f) m entries
          (sym (any-joined_prefixes (covers f x) f m) ∙ h) in
      any_mono (is_net f (mask f.width (suc prefixlen) x) (suc prefixlen)) (covers f x) ps
        (λ p. covers_of_is_net f _ (suc prefixlen) x p refl)
        (entry_covers backed x e.0 e.1.mask e.1.prefixes entry test)

  -- The prefixes of one length are sources of the round.
  smaller_subnets-sources :
      (ps : List PrefixSpec)
      → all (is_plain f) ps ≡ true
      → All
          (IsSource f prefixlen (λ ip. any (is_net f ip (suc prefixlen)) ps))
          (smaller_subnets prefixlen ps)
  unfolding smaller_subnets
  smaller_subnets-sources ps plain =
      All-mono _ (λ p (h, e). (ground arith, h.0, λ ip. h.1 (is_net f ip (suc prefixlen))))
        (All-filter
          (λ p. (is_plain f p ≡ true) × ((q : PrefixSpec → Bool) → q p ≡ true → any q ps ≡ true)) _
          ps (All-and (is_plain f) _ ps plain (All-found ps)))

  entry_plain :
      (backed : ℕ → Bool) (e : IpNet × Consolidable)
      → IsEntry f prefixlen backed e
      → is_plain f (joined f e) ≡ true
  entry_plain backed e (s, plain, halves, headed) =
      ground (arith, lawful.parse-print e.0.base plain)

  not_odd :
      (ps : List PrefixSpec) (m : Consolidables)
      → All (IsEntry f prefixlen (λ ip. any (is_net f ip (suc prefixlen)) ps)) m
      → any (λ p. not (is_plain f p)) (joined_prefixes f m) ≢ true
  not_odd ps m entries h =
      let odd : PrefixSpec → Bool = λ p. not (is_plain f p) in
      let (e, entry, test) =
        any-of_All (IsEntry f prefixlen _) (is_joined odd f) m entries
          (sym (any-joined_prefixes odd f m) ∙ h) in
      ground (arith, entry_plain _ e entry, sym (is_joined-entry odd _ e entry) ∙ test)

  module _ (o : Ordering) (fair : IsLawful o) where
    pub round_entries :
        (ps : List PrefixSpec)
        → all (is_plain f) ps ≡ true
        → All
            (IsEntry f prefixlen (λ ip. any (is_net f ip (suc prefixlen)) ps))
            (add_consolidables f prefixlen (smaller_subnets prefixlen ps) [])
    round_entries ps plain =
        add_consolidables-IsEntry f prefixlen _ fits lawful (smaller_subnets prefixlen ps) []
          (smaller_subnets-sources ps plain) tt

    -- A round changes no address's coverage.
    pub covered-merge_round :
        (ps : List PrefixSpec) (x : ℕ)
        → all (is_plain f) ps ≡ true
        → covered f (merge_round f o prefixlen ps) x ≡ covered f ps x
    unfolding merge_round
    covered-merge_round ps x plain =
        let m = add_consolidables f prefixlen (smaller_subnets prefixlen ps) [] in
        let new = joined_prefixes f (o.range prefixlen m) in
        let old : covered f new x ≡ true → covered f ps x ≡ true = λ h.
          joined-covered ps m x (round_entries ps plain) (
            sym
              (any-joined_perm (covers f x) f (o.range prefixlen m) m (fair.range-perm prefixlen m))
            ∙ h) in
        ground (arith, any-append (covers f x) ps new, old)

    -- The prefixes that a round adds can be written.
    pub merge_round-is_plain :
        (ps : List PrefixSpec)
        → all (is_plain f) ps ≡ true
        → all (is_plain f) (merge_round f o prefixlen ps) ≡ true
    unfolding merge_round
    merge_round-is_plain ps plain =
        let m = add_consolidables f prefixlen (smaller_subnets prefixlen ps) [] in
        let new = joined_prefixes f (o.range prefixlen m) in
        let odd : PrefixSpec → Bool = λ p. not (is_plain f p) in
        let none_odd : any odd new ≢ true = λ h.
          not_odd ps m (round_entries ps plain) (
            sym (any-joined_perm odd f (o.range prefixlen m) m (fair.range-perm prefixlen m))
            ∙ h) in
        ground (arith, all-append (is_plain f) ps new, all-eq-not-any (is_plain f) new, none_odd)
