-- ===== src/Consolidation/Coverage.antt =====
-- The addresses that a list of prefixes covers: the abstract view of internal/consolidation.
use edgecdnx_controller.Common.{
  ℕ, ◌≤◌, ◌≡◌, Bool, true, false, none, some, List, arith, ◌==◌, Text, any, Option-cases, inl, inr,
}
use edgecdnx_controller.Net.{Family, IpNet, net_eq, mask, parse_cidr, contains}
use edgecdnx_controller.Consolidation.{PrefixSpec}

-- Whether an address has the bits of a network.
abbrev pub holds : Family → IpNet → ℕ → Bool
holds f n x = mask f.width n.size x == n.base

-- Whether an address lies in a prefix. A prefix that does not parse has no addresses.
unfoldable pub covers : Family → ℕ → PrefixSpec → Bool
covers f x p = elim (parse_cidr f p.address p.size) [ none ↦ false | some (_, n) ↦ holds f n x ]

-- Whether an address lies in some prefix of a list.
abbrev pub covered : Family → List PrefixSpec → ℕ → Bool
covered f ps x = any (covers f x) ps

-- Whether a prefix is the network of that base and size.
unfoldable pub is_net : Family → (base size : ℕ) → PrefixSpec → Bool
is_net f b n p = elim (parse_cidr f p.address p.size) [
  | none ↦ false
  | some (_, s) ↦ net_eq s (record { base = b; size = n })
]

pub parse_cidr-eq-some :
    (f : Family) (t : Text) (n a : ℕ) (s : IpNet)
    → parse_cidr f t n ≡ some (a, s)
    → (f.parse t ≡ some a) × (n ≤ f.width) × (s ≡ record { base = mask f.width n a; size = n })
unfolding parse_cidr
parse_cidr-eq-some f t n a s h = ground arith

pub parse_cidr_of :
    (f : Family) (t : Text) (n a : ℕ)
    → f.parse t ≡ some a
    → n ≤ f.width
    → parse_cidr f t n ≡ some (a, record { base = mask f.width n a; size = n })
unfolding parse_cidr
parse_cidr_of f t n a e h = ground arith

pub covers_of_is_net :
    (f : Family) (b n x : ℕ) (p : PrefixSpec)
    → mask f.width n x ≡ b
    → is_net f b n p ≡ true
    → covers f x p ≡ true
unfolding covers is_net net_eq
covers_of_is_net f b n x p h e = ground arith

-- What a prefix with a network looks like.
pub is_net-eq-true :
    (f : Family) (b n : ℕ) (p : PrefixSpec)
    → is_net f b n p ≡ true
    → (a : ℕ) × (f.parse p.address ≡ some a)
      × (p.size ≤ f.width)
      × (p.size ≡ n)
      × (mask f.width n a ≡ b)
unfolding is_net net_eq parse_cidr
is_net-eq-true f b n p h = elim (Option-cases (f.parse p.address)) [
  | inl e ↦ absurd (not_none e)
  | inr (a, e) ↦ (a, e, ground arith, ground arith, ground arith)
]
  where
    not_none : f.parse p.address ≡ none → ⊥
    not_none e = ground arith

pub is_net_of :
    (f : Family) (p : PrefixSpec) (a n : ℕ)
    → f.parse p.address ≡ some a
    → p.size ≡ n
    → n ≤ f.width
    → is_net f (mask f.width n a) n p ≡ true
unfolding is_net net_eq parse_cidr
is_net_of f p a n e k h = ground arith

pub covers-eq-true :
    (f : Family) (x : ℕ) (p : PrefixSpec)
    → covers f x p ≡ true
    → (a : ℕ) × (f.parse p.address ≡ some a)
      × (p.size ≤ f.width)
      × (mask f.width p.size x ≡ mask f.width p.size a)
unfolding covers parse_cidr
covers-eq-true f x p h = elim (Option-cases (f.parse p.address)) [
  | inl e ↦ absurd (not_none e)
  | inr (a, e) ↦ (a, e, ground arith, ground arith)
]
  where
    not_none : f.parse p.address ≡ none → ⊥
    not_none e = ground arith

pub covers_of :
    (f : Family) (x : ℕ) (p : PrefixSpec) (a : ℕ)
    → f.parse p.address ≡ some a
    → p.size ≤ f.width
    → mask f.width p.size x ≡ mask f.width p.size a
    → covers f x p ≡ true
unfolding covers parse_cidr
covers_of f x p a e h k = ground arith

pub parse_cidr-none : (f : Family) (t : Text) (n : ℕ) → f.parse t ≡ none → parse_cidr f t n ≡ none
unfolding parse_cidr
parse_cidr-none f t n e = ground arith

pub holds_of :
    (f : Family) (n v b : ℕ)
    → mask f.width n b ≡ mask f.width n v
    → holds f (record { base = mask f.width n v; size = n }) b ≡ true
holds_of f n v b h = ground (arith, h)

-- IPNet.Contains, for plain addresses.
pub contains_of :
    (f : Family) (n v b : ℕ)
    → f.plain (mask f.width n v) ≡ true
    → f.plain b ≡ true
    → mask f.width n b ≡ mask f.width n v
    → contains f (record { base = mask f.width n v; size = n }) b ≡ true
unfolding contains
contains_of f n v b k l h = ground arith

pub contains-eq-true :
    (f : Family) (s : IpNet) (b : ℕ) → contains f s b ≡ true → mask f.width s.size b ≡ s.base
unfolding contains
contains-eq-true f s b h = ground arith
