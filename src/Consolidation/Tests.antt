-- ===== src/Consolidation/Tests.antt =====
-- Runs of the consolidation on small lists, and its theorems at concrete data. Addresses are
-- written as one number, and the map is visited in the order in which it is built.
use mathlib.Core.List.Perm
use edgecdnx_controller.Common.{
  ℕ, ◌+◌, ◌*◌, ◌/◌, not, ◌==◌, ◌^◌, ◌≡◌, refl, true, false, none, some, List, [], ◌∷◌, arith, Text,
  any, Option,
}
use edgecdnx_controller.Net.{Family, IsLawful as IsLawfulFamily, mask}
use edgecdnx_controller.Consolidation.{PrefixSpec, Ordering, IsLawful, consolidate}
use edgecdnx_controller.Consolidation.Coverage.{covered, is_net}
use edgecdnx_controller.Consolidation.Kept.{is_within}
use edgecdnx_controller.Consolidation.Whole.{
  covered-consolidate, consolidate-not_within, consolidate-no_halves,
}

abbrev read : Text → Option ℕ
read [] = none
read (a ∷ []) = some a
read (a ∷ b ∷ t) = none

abbrev numbers : Family
numbers = record { width = 32; parse = read; print = λ a. a ∷ []; plain = λ _. true }

numbers-IsLawful : IsLawfulFamily numbers
numbers-IsLawful = record { parse-print = λ a h. refl; plain-mask = λ n a h k. refl }

abbrev as_built : Ordering
as_built = record { range = λ n m. m; sort = λ less l. l }

as_built-IsLawful : IsLawful as_built
as_built-IsLawful = record { range-perm = λ n m. Perm.refl m; sort-perm = λ less l. Perm.refl l }

abbrev ip : (a b c d : ℕ) → Text
ip a b c d = (a * 2 ^ 24 + b * 2 ^ 16 + c * 2 ^ 8 + d) ∷ []

abbrev cidr : Text → ℕ → PrefixSpec
cidr a n = record { address = a; size = n }

abbrev pair : List PrefixSpec
pair = cidr (ip 192 168 0 0) 24 ∷ cidr (ip 192 168 2 0) 24 ∷ cidr (ip 192 168 1 0) 24 ∷ []

joins : consolidate numbers as_built pair ≡ cidr (ip 192 168 2 0) 24 ∷ cidr (ip 192 168 0 0) 23 ∷ []
unfolding consolidate mask
joins = refl

-- Four quarters become one network.
quarters :
    consolidate numbers as_built (
      cidr (ip 10 0 0 0) 10
      ∷ cidr (ip 10 64 0 0) 10
      ∷ cidr (ip 10 128 0 0) 10
      ∷ cidr (ip 10 192 0 0) 10
      ∷ [])
    ≡ cidr (ip 10 0 0 0) 8 ∷ []
unfolding consolidate mask
quarters = refl

-- A prefix given twice is returned twice.
twice :
    consolidate numbers as_built (cidr (ip 10 0 0 0) 8 ∷ cidr (ip 10 0 0 0) 8 ∷ [])
    ≡ cidr (ip 10 0 0 0) 8 ∷ cidr (ip 10 0 0 0) 8 ∷ []
unfolding consolidate mask
twice = refl

covered-consolidate_example :
    covered numbers (consolidate numbers as_built pair) (192 * 2 ^ 24 + 168 * 2 ^ 16 + 300)
    ≡ covered numbers pair (192 * 2 ^ 24 + 168 * 2 ^ 16 + 300)
covered-consolidate_example =
    covered-consolidate numbers numbers-IsLawful as_built as_built-IsLawful pair _ (omega arith)
      refl

consolidate-not_within_example :
    any
      (λ q. any (λ p. is_within numbers p q) (consolidate numbers as_built pair))
      (consolidate numbers as_built pair)
    ≡ false
consolidate-not_within_example =
    consolidate-not_within numbers numbers-IsLawful as_built as_built-IsLawful pair (omega arith)
      refl

consolidate-no_halves_example :
    ◌≡◌ {A = ℕ} (192 * 2 ^ 24 + 168 * 2 ^ 16) (192 * 2 ^ 24 + 168 * 2 ^ 16)
unfolding consolidate is_net mask
consolidate-no_halves_example =
    consolidate-no_halves numbers numbers-IsLawful as_built as_built-IsLawful pair 22
      (192 * 2 ^ 24 + 168 * 2 ^ 16) (192 * 2 ^ 24 + 168 * 2 ^ 16) refl (omega arith) (omega arith)
      refl refl refl

-- IPv6 addresses, of which those with the prefix ::ffff:0:0/96 are IPv4-mapped.
abbrev six : Family
six = record {
  width = 128;
  parse = read;
  print = λ a. a ∷ [];
  plain = λ a. not (a / 2 ^ 32 == 65535);
}

-- An IPv4-mapped address is not found to be inside ::/0, and both are returned.
mapped_stays :
    consolidate six as_built (cidr (0 ∷ []) 0 ∷ cidr ((65535 * 2 ^ 32 + 1) ∷ []) 128 ∷ [])
    ≡ cidr (0 ∷ []) 0 ∷ cidr ((65535 * 2 ^ 32 + 1) ∷ []) 128 ∷ []
unfolding consolidate mask
mapped_stays = refl

-- Another address is removed.
other_goes :
    consolidate six as_built (cidr (0 ∷ []) 0 ∷ cidr ((65536 * 2 ^ 32 + 1) ∷ []) 128 ∷ [])
    ≡ cidr (0 ∷ []) 0 ∷ []
unfolding consolidate mask
other_goes = refl
