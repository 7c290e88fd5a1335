-- ===== src/Consolidation/Deletion.antt =====
-- The prefixes that lie inside another are removed, and no address is lost by it.
use edgecdnx_controller.Common.{
  ℕ, zero, suc, ◌+◌, ◌≤◌, ◌<◌, ◌≡◌, refl, sym, ◌∙◌, Bool, true, false, ◌&&◌, ◌||◌, none, some, List,
  [], ◌∷◌, arith, ◌==◌, ==_iff, ltb, if◌then◌else◌, any, Bool-cases, Option-cases, inl, inr,
  or_true,
}
use edgecdnx_controller.Net.{Family, IpNet, net_eq, contains, parse_cidr}
use edgecdnx_controller.Consolidation.{
  PrefixSpec, mark_inside, mark_level, mark_levels, to_be_deleted,
}
use edgecdnx_controller.Consolidation.Coverage.{is_net}

module _ (f : Family) where
  -- Whether a prefix is the network `key`, longer than `n` and inside the network `s`.
  abbrev pub is_inside : ℕ → IpNet → IpNet → PrefixSpec → Bool
  is_inside n s key q = ltb n q.size && is_net f key.base key.size q && contains f s key.base

  -- Whether a prefix of length `n` has `key` inside.
  abbrev pub has_inside : ℕ → List PrefixSpec → IpNet → PrefixSpec → Bool
  has_inside n ps key p =
      (p.size == n)
      && elim (parse_cidr f p.address n) [ none ↦ false | some (_, s) ↦ any (is_inside n s key) ps ]

  abbrev has_level : (left n : ℕ) → List PrefixSpec → IpNet → Bool
  has_level zero n ps key = false
  has_level (suc left) n ps key = any (has_inside n ps key) ps || has_level left (n + 1) ps key

  any-net_eq :
      (key s : IpNet) (d : List IpNet) → net_eq key s ≡ true → any (net_eq s) d ≡ any (net_eq key) d
  unfolding net_eq
  any-net_eq key s [] h = refl
  any-net_eq key s (k ∷ d) h = ground (arith, any-net_eq key s d h)

  mark_one :
      (key : IpNet) (n : ℕ) (s : IpNet) (q : PrefixSpec) (d : List IpNet)
      → any (net_eq key) (
          if ltb n q.size
          then (elim (parse_cidr f q.address q.size) [
            | none ↦ d
            | some (_, p) ↦
                if contains f s p.base then (if any (net_eq p) d then d else p ∷ d) else d
          ])
          else d)
        ≡ (any (net_eq key) d || is_inside n s key q)
  unfolding is_net net_eq contains
  mark_one key n s q d = elim (Option-cases (parse_cidr f q.address q.size)) [
    | inl e ↦ rw (e, is_net) (ground arith)
    | inr ((v, p), e) ↦ rw (e, is_net) (ground (arith, any-net_eq key p d))
  ]

  mark_inside-has :
      (key : IpNet) (n : ℕ) (s : IpNet) (qs : List PrefixSpec) (d : List IpNet)
      → any (net_eq key) (mark_inside f n s qs d)
        ≡ (any (net_eq key) d || any (is_inside n s key) qs)
  unfolding mark_inside
  mark_inside-has key n s [] d = ground arith
  mark_inside-has key n s (q ∷ qs) d =
      mark_inside-has key n s qs _ ∙ rw (mark_one key n s q d) (ground arith)

  mark_level-has :
      (key : IpNet) (n : ℕ) (ps qs : List PrefixSpec) (d : List IpNet)
      → any (net_eq key) (mark_level f n ps qs d)
        ≡ (any (net_eq key) d || any (has_inside n ps key) qs)
  unfolding mark_level
  mark_level-has key n ps [] d = ground arith
  mark_level-has key n ps (q ∷ qs) d =
      mark_level-has key n ps qs _ ∙ elim (Option-cases (parse_cidr f q.address n)) [
        | inl e ↦ rw e (ground arith)
        | inr ((v, s), e) ↦ rw e (ground (arith, mark_inside-has key n s ps d))
      ]

  mark_levels-has :
      (key : IpNet) (left n : ℕ) (ps : List PrefixSpec) (d : List IpNet)
      → any (net_eq key) (mark_levels f left n ps d)
        ≡ (any (net_eq key) d || has_level left n ps key)
  unfolding mark_levels
  mark_levels-has key zero n ps d = ground arith
  mark_levels-has key (suc left) n ps d =
      mark_levels-has key left (n + 1) ps _ ∙ rw (mark_level-has key n ps ps d) (ground arith)

  -- Some level has a prefix that contains the network.
  has_level-found :
      (left n : ℕ) (ps : List PrefixSpec) (key : IpNet)
      → has_level left n ps key ≡ true
      → (m : ℕ) × (any (has_inside m ps key) ps ≡ true)
  has_level-found zero n ps key h = cc
  has_level-found (suc left) n ps key h = elim (Bool-cases (any (has_inside n ps key) ps)) [
    | inl e ↦ (n, e)
    | inr e ↦ has_level-found left (n + 1) ps key (rw e at h)
  ]

  has_level_of :
      (left n m : ℕ) (ps : List PrefixSpec) (key : IpNet)
      → n ≤ m
      → m < n + left
      → any (has_inside m ps key) ps ≡ true
      → has_level left n ps key ≡ true
  has_level_of zero n m ps key h k e = absurd (omega arith)
  has_level_of (suc left) n m ps key h k e = elim (Bool-cases (n == m)) [
    | inl same ↦ rw ((==_iff n m).0 same) (rw e refl)
    | inr other ↦
        let rest = has_level_of left (n + 1) m ps key (ground arith) (omega arith) e in
        rw rest (or_true (any (has_inside n ps key) ps))
  ]

  -- A network is marked for a prefix that contains it and is shorter.
  pub marked-found :
      (ps : List PrefixSpec) (key : IpNet)
      → any (net_eq key) (to_be_deleted f ps) ≡ true
      → (m : ℕ) × (any (has_inside m ps key) ps ≡ true)
  unfolding to_be_deleted
  marked-found ps key h =
      has_level-found f.width 0 ps key (sym (mark_levels-has key f.width 0 ps []) ∙ h)

  pub marked_of :
      (ps : List PrefixSpec) (key : IpNet) (m : ℕ)
      → m < f.width
      → any (has_inside m ps key) ps ≡ true
      → any (net_eq key) (to_be_deleted f ps) ≡ true
  unfolding to_be_deleted
  marked_of ps key m h e =
      mark_levels-has key f.width 0 ps []
      ∙ has_level_of f.width 0 m ps key (omega arith) (omega arith) e
