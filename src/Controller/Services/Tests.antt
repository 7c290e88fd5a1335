-- ===== src/Controller/Services/Tests.antt =====
-- A service that has nothing yet.
use edgecdnx_controller.Common.{◌≡◌, refl, true, Option, none, List, [], Text, codes}
use edgecdnx_controller.Controller.Services.{Secret, found, done, reconcile}
use edgecdnx_controller.Controller.Services.Progress.{World, reads, run, is_settled, run-is_settled}

abbrev hash_names : List Text → Text
hash_names ns = codes "c"

abbrev hash_values : (name domain : Text) → List Text → Option Secret → Text
hash_values name domain aliases passed = name

abbrev new : World
new = record {
  service = record { name = codes "s"; domain = codes "s.a"; host_aliases = []; status = [] };
  certificate = none;
  appset = none;
  secret = record { key = []; crt = [] };
}

run-is_settled_example :
    (is_settled hash_names hash_values (run hash_names hash_values 5 new) ≡ true)
    × (reconcile
          (reads hash_names hash_values (run hash_names hash_values 5 new))
          (found (run hash_names hash_values 5 new).service)
        ≡ done)
run-is_settled_example = run-is_settled hash_names hash_values new refl
