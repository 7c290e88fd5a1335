-- ===== src/Consolidation.antt =====
-- internal/consolidation/consolidation.go: ConsolidateV4 and ConsolidateV6. The two functions
-- differ in the width of an address alone (32 and 128), so one definition serves both.
pub mod Coverage
pub mod Entries
pub mod Merge
pub mod Deletion
pub mod Kept
pub mod Siblings
pub mod Rounds
pub mod Whole
mod Tests
use Prim.Native.Nat.{pred}
use edgecdnx_controller.Common.{
  ℕ, zero, suc, ◌+◌, ◌-◌, ◌≡◌, Bool, true, false, ◌&&◌, not, Option, none, some, List, [], ◌∷◌,
  ◌++◌, Perm, ◌==◌, ltb, leb, if◌then◌else◌, Text, length, filter, any,
}
use edgecdnx_controller.Net.{Family, IpNet, net_eq, mask, parse_cidr, contains}

-- V4PrefixSpec and V6PrefixSpec
pub record PrefixSpec : Type 0 where
  pub address : Text
  pub size : ℕ

-- The anonymous struct of the map `consolidables`.
pub record Consolidable : Type 0 where
  pub mask : ℕ
  pub prefixes : List ℕ

abbrev pub Consolidables : Type 0
Consolidables = List (IpNet × Consolidable)

-- `subnet.Size-1 == prefixlen`
unfoldable pub smaller_subnets : ℕ → List PrefixSpec → List PrefixSpec
smaller_subnets prefixlen = filter (λ subnet. subnet.size == prefixlen + 1)

-- `val.prefixes[0].Equal(ip)`
unfoldable pub first_equal : List ℕ → ℕ → Bool
first_equal [] ip = false
first_equal (a ∷ ips) ip = a == ip

-- The body of the loop that fills the map, after the two networks are parsed.
unfoldable pub put_consolidable : IpNet → ℕ → ℕ → Consolidables → Consolidables
unfolding first_equal net_eq
put_consolidable b size ip [] = (b, record { mask = size; prefixes = ip ∷ [] }) ∷ []
put_consolidable b size ip ((k, val) ∷ m) =
    let rest = put_consolidable b size ip m in
    if net_eq k b
    then if first_equal val.prefixes ip
      then (k, val) ∷ m
      else (k, record val { prefixes = val.prefixes ++ ip ∷ [] }) ∷ m
    else (k, val) ∷ rest

module _ (f : Family) where
  -- One round of that loop: `subnetB` has the shorter prefix, `subnetC` the original one.
  unfoldable pub add_consolidable : ℕ → PrefixSpec → Consolidables → Consolidables
  unfolding put_consolidable parse_cidr
  add_consolidable prefixlen subnet m = elim (parse_cidr f subnet.address prefixlen) [
    | none ↦ m
    | some (_, subnet_b) ↦ elim (parse_cidr f subnet.address subnet.size) [
      | none ↦ m
      | some (_, subnet_c) ↦ put_consolidable subnet_b subnet.size subnet_c.base m
    ]
  ]

  unfoldable pub add_consolidables : ℕ → List PrefixSpec → Consolidables → Consolidables
  unfolding add_consolidable
  add_consolidables prefixlen [] m = m
  add_consolidables prefixlen (subnet ∷ rest) m =
      add_consolidables prefixlen rest (add_consolidable prefixlen subnet m)

  -- A key of the map as ParseCIDR reads it again, with the length of the mask that it finds. An
  -- IPv4-mapped network was written as the IPv4 network of its last 32 bits, and is read as that.
  unfoldable pub reparsed : IpNet → Option PrefixSpec
  unfolding parse_cidr
  reparsed key =
      if f.plain key.base
      then (elim (parse_cidr f (f.print key.base) key.size) [
        | none ↦ none
        | some (_, new_prefix) ↦
            some (record { address = f.print new_prefix.base; size = new_prefix.size })
      ])
      else some (record { address = f.print key.base; size = key.size - (f.width - 32) })

  -- The loop that appends the joined prefixes.
  unfoldable pub joined_prefixes : Consolidables → List PrefixSpec
  unfolding reparsed
  joined_prefixes [] = []
  joined_prefixes ((key, val) ∷ m) =
      let rest = joined_prefixes m in
      if ltb 1 (length val.prefixes)
      then (elim (reparsed key) [ none ↦ rest | some p ↦ p ∷ rest ])
      else rest

-- Go's runtime and library: the order in which `range` visits a map, in the round of a prefix
-- length, and sort.Slice.
pub record Ordering : Type 0 where
  pub range : ℕ → Consolidables → Consolidables
  pub sort : (PrefixSpec → PrefixSpec → Bool) → List PrefixSpec → List PrefixSpec

-- Both visit or keep each item once.
pub record IsLawful (o : Ordering) : Type 0 where
  pub range-perm : (n : ℕ) (m : Consolidables) → Perm (o.range n m) m
  pub sort-perm :
      (less : PrefixSpec → PrefixSpec → Bool) (l : List PrefixSpec) → Perm (o.sort less l) l

module _ (f : Family) (o : Ordering) where
  -- The body of the first loop, for one prefix length.
  unfoldable pub merge_round : ℕ → List PrefixSpec → List PrefixSpec
  unfolding smaller_subnets add_consolidables joined_prefixes
  merge_round prefixlen prefixes =
      let smaller = smaller_subnets prefixlen prefixes in
      if leb (length smaller) 1
      then prefixes
      else prefixes
        ++ joined_prefixes f (o.range prefixlen (add_consolidables f prefixlen smaller []))

  -- `for prefixlen := …; prefixlen > 1; prefixlen--`
  unfoldable pub merge_rounds : ℕ → List PrefixSpec → List PrefixSpec
  unfolding merge_round
  merge_rounds zero prefixes = prefixes
  merge_rounds (suc zero) prefixes = prefixes
  merge_rounds (suc (suc n)) prefixes = merge_rounds (suc n) (merge_round (suc (suc n)) prefixes)

module _ (f : Family) where
  -- The innermost loop: the networks inside `subnet_s` are marked, each once.
  unfoldable pub mark_inside : ℕ → IpNet → List PrefixSpec → List IpNet → List IpNet
  unfolding parse_cidr contains net_eq
  mark_inside prefixlen subnet_s [] deleted = deleted
  mark_inside prefixlen subnet_s (ch ∷ rest) deleted = mark_inside prefixlen subnet_s rest (
      if ltb prefixlen ch.size
      then (elim (parse_cidr f ch.address ch.size) [
        | none ↦ deleted
        | some (_, ch_p) ↦
            if contains f subnet_s ch_p.base
            then (if any (net_eq ch_p) deleted then deleted else ch_p ∷ deleted)
            else deleted
      ])
      else deleted)

  -- The middle loop, over the supernets of one length; `prefixes` is the whole list.
  unfoldable pub mark_level : ℕ → List PrefixSpec → List PrefixSpec → List IpNet → List IpNet
  unfolding mark_inside
  mark_level prefixlen prefixes [] deleted = deleted
  mark_level prefixlen prefixes (subnet ∷ rest) deleted = mark_level prefixlen prefixes rest (
      if subnet.size == prefixlen
      then (elim (parse_cidr f subnet.address prefixlen) [
        | none ↦ deleted
        | some (_, subnet_s) ↦ mark_inside prefixlen subnet_s prefixes deleted
      ])
      else deleted)

  -- `for prefixlen := range …`: `left` rounds are still to come.
  unfoldable pub mark_levels : (left prefixlen : ℕ) → List PrefixSpec → List IpNet → List IpNet
  unfolding mark_level
  mark_levels zero prefixlen prefixes deleted = deleted
  mark_levels (suc left) prefixlen prefixes deleted =
      mark_levels left (prefixlen + 1) prefixes (mark_level prefixlen prefixes prefixes deleted)

  -- `toBeDeleted`, by its keys: the values are not read.
  unfoldable pub to_be_deleted : List PrefixSpec → List IpNet
  unfolding mark_levels
  to_be_deleted prefixes = mark_levels f.width 0 prefixes []

  -- The test of the loop that fills `keepPrefixes`.
  unfoldable pub is_kept : List IpNet → PrefixSpec → Bool
  unfolding parse_cidr net_eq
  is_kept deleted prefix = elim (parse_cidr f prefix.address prefix.size) [
    | none ↦ false
    | some (_, s) ↦ not (any (net_eq s) deleted)
  ]

  unfoldable pub keep_prefixes : List PrefixSpec → List PrefixSpec
  unfolding to_be_deleted is_kept
  keep_prefixes prefixes = filter (is_kept (to_be_deleted prefixes)) prefixes

-- `<` on Go strings
unfoldable pub text_less : Text → Text → Bool
text_less s [] = false
text_less [] (d ∷ t) = true
text_less (c ∷ s) (d ∷ t) = if c == d then text_less s t else ltb c d

-- The text of the address that ParseCIDR returns; IP(nil) is written `<nil>`.
unfoldable pub ip_text : Family → PrefixSpec → Text
unfolding parse_cidr
ip_text f p = elim (parse_cidr f p.address p.size) [
  | none ↦ 60 ∷ 110 ∷ 105 ∷ 108 ∷ 62 ∷ []
  | some (ip, _) ↦ f.print ip
]

-- The whole function; its error is always nil.
unfoldable pub consolidate : Family → Ordering → List PrefixSpec → List PrefixSpec
unfolding merge_rounds keep_prefixes text_less ip_text
consolidate f o prefixes =
    o.sort (λ i j. text_less (ip_text f i) (ip_text f j))
      (keep_prefixes f (merge_rounds f o (pred f.width) prefixes))

-- ConsolidateV4 and ConsolidateV6: the same loops at 32 and at 128 bits. How net.ParseCIDR reads an
-- address, how net.IP prints one, and which are printed as they are, are the arguments.
module _ (parse : Text → Option ℕ) (print : ℕ → Text) (plain : ℕ → Bool) (o : Ordering) where
  abbrev pub consolidate_v4 : List PrefixSpec → List PrefixSpec
  consolidate_v4 =
      consolidate (record { width = 32; parse = parse; print = print; plain = plain }) o

  abbrev pub consolidate_v6 : List PrefixSpec → List PrefixSpec
  consolidate_v6 =
      consolidate (record { width = 128; parse = parse; print = print; plain = plain }) o
