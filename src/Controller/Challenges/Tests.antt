-- ===== src/Controller/Challenges/Tests.antt =====
-- A challenge whose order belongs to a service.
use edgecdnx_controller.Common.{
  ◌≡◌, ◌≢◌, ℕ, ◌<◌, ◌≤◌, any, ap, Bool, true, Option, none, some, List, [], ◌∷◌, codes, arith,
  length,
}
use edgecdnx_controller.Controller.Challenges.{
  Object, Owner, Reader, found, out_of_fuel, get_owner_in_chain,
}
use edgecdnx_controller.Controller.Challenges.Owners.{Chain, IsOwner, get_owner_in_chain-Chain}

abbrev service : Object
service = record { name = codes "s"; owners = [] }

abbrev challenge : Object
challenge = record {
  name = codes "c";
  owners = record { kind = codes "Service"; name = codes "s"; controller = true } ∷ [];
}

-- Each read finds the service.
abbrev get : Reader
get kind name = some service

abbrev size : Option Object → ℕ
size none = 0
size (some o) = length o.owners

filled : (p : Owner → Bool) (os : List Owner) → any p os ≡ true → 1 ≤ length os
filled p [] h = cc
filled p (o ∷ os) h = omega arith

falls : (o n : Object) → IsOwner get o n → length n.owners < length o.owners
falls o n (kind, name, g, h) =
    let none_left = ap size g in let some_here = filled _ o.owners h in omega arith

get_owner_in_chain-Chain_example :
    (get_owner_in_chain get (codes "Service") 2 challenge ≢ out_of_fuel)
    × ((t : Object)
        → get_owner_in_chain get (codes "Service") 2 challenge ≡ found t
        → Chain get challenge t)
get_owner_in_chain-Chain_example =
    get_owner_in_chain-Chain get (λ o. length o.owners) falls (codes "Service") challenge
