-- ===== src/Net.antt =====
-- What internal/consolidation uses of Go's package net: addresses of one family as numbers, the
-- textual form of an address, ParseCIDR, IPNet and Contains.
pub mod Masks
use edgecdnx_controller.Common.{
  ℕ, suc, ◌+◌, ◌-◌, ◌*◌, ◌/◌, ◌^◌, ◌≤◌, ◌<◌, ◌≡◌, Bool, true, false, not, ◌&&◌, Option, none, some,
  ◌==◌, leb, if◌then◌else◌, Text,
}

-- An address family: the bits of an address, how its text is read (net.ParseIP's grammar; `none`
-- is a text that is refused) and written (IP.String). An IPv4 text among IPv6 prefixes, of which
-- ParseCIDR reads 32 bits and not 128, is left out: `parse` refuses it there.
pub record Family : Type 0 where
  pub width : ℕ
  pub parse : Text → Option ℕ
  pub print : ℕ → Text
  -- The addresses whose text is read back in the same family: all but the IPv4-mapped of IPv6.
  pub plain : ℕ → Bool

-- net.IPNet: the network's base address and its prefix length.
pub record IpNet : Type 0 where
  pub base : ℕ
  pub size : ℕ

-- The texts of two networks of one family (IPNet.String) are equal when these are.
unfoldable pub net_eq : IpNet → IpNet → Bool
net_eq a b = a.base == b.base && a.size == b.size

-- IP.Mask with CIDRMask(size, width): the host bits cleared.
unfoldable pub mask : ℕ → ℕ → ℕ → ℕ
mask width size a = a / 2 ^ (width - size) * 2 ^ (width - size)

-- net.ParseCIDR(address + "/" + size): the address and its network; an error for a text that is no
-- address and for a length beyond the address.
unfoldable pub parse_cidr : Family → Text → ℕ → Option (ℕ × IpNet)
parse_cidr f address size = elim (f.parse address) [
  | none ↦ none
  | some a ↦
      if leb size f.width
      then some (a, record { base = mask f.width size a; size = size })
      else none
]

-- IPNet.Contains: the address has the network's bits, and either both have four bytes as To4 sees
-- them, which are the IPv4-mapped of IPv6, or neither.
unfoldable pub contains : Family → IpNet → ℕ → Bool
contains f n a =
    mask f.width n.size a == n.base && (if f.plain n.base then f.plain a else not (f.plain a))

-- What the code relies on: a plain address that the family writes is read back, and the base of a
-- plain address's network is plain.
pub record IsLawful (f : Family) : Type 0 where
  pub parse-print : (a : ℕ) → f.plain a ≡ true → f.parse (f.print a) ≡ some a
  pub plain-mask : (n a : ℕ) → n ≤ f.width → f.plain a ≡ true → f.plain (mask f.width n a) ≡ true
