-- ===== src/Controller/Challenges/Solver/Tests.antt =====
-- The resources of a challenge.
use edgecdnx_controller.Common.{Option, some, Text, codes}
use edgecdnx_controller.Builder.{ThrowerOptions}
use edgecdnx_controller.Controller.Challenges.Solver.{Challenge, Resources}

abbrev asked : Challenge
asked = record {
  name = codes "c-1.x";
  dns_name = codes "shop.example";
  token = codes "t";
  key = codes "k";
}

abbrev options : ThrowerOptions
options = record {
  thrower_chart_name = codes "resource-thrower";
  thrower_chart_version = codes "0.1.0";
  thrower_chart_repository = codes "https://charts";
  target_namespace = codes "edgecdnx";
  application_set_project = codes "default";
}

abbrev digest : Challenge → Option Text
digest c = some c.token

abbrev json : Resources → Text
json x = x.pod.name
