-- ===== src/Controller/Caches/Tests.antt =====
-- A service with one static origin whose objects are all there.
use edgecdnx_controller.Common.{◌≡◌, true, false, none, some, [], ◌∷◌, text_eq, codes}
use edgecdnx_controller.Controller.Caches.{Service, deployment, not_found, found, Reads, reconcile}
use edgecdnx_controller.Controller.Caches.Health.{reports, reports-reconcile}

abbrev shop : Service
shop = record {
  deleting = false;
  status = codes "Progressing";
  origin_type = codes "static";
  static_origins = codes "a.example" ∷ [];
  domain = codes "shop.example";
  crt = [];
  key = [];
}

abbrev reads : Reads
reads = record {
  current = elim [ deployment ↦ not_found | _ ↦ found (some (codes "h")) ];
  service_hash = λ b. some (codes "h");
  deployment_hash = λ s. none;
  secret_hash = λ crt key. none;
  ingress_hash = λ s. some (codes "h");
  decode = λ t. none;
  owner_fails = λ p. false;
  fails = λ w. false;
}

reports-reconcile_example : reports (reconcile reads (found shop)).0 ≡ true
unfolding text_eq
reports-reconcile_example = reports-reconcile reads shop
