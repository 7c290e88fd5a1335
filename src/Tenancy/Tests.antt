-- ===== src/Tenancy/Tests.antt =====
-- Admission of a DNS endpoint of a project, with its zone in the same project.
use edgecdnx_controller.Common.{◌≡◌, refl, true, false, none, some, Text, text_eq, codes, All}
use edgecdnx_controller.Webhook.Admission.{is_none}
use edgecdnx_controller.Tenancy.{
  Scope, Kind, plain, dns_endpoint, Object, Reader, validate_namespace, validate_project,
  validate_body, validate_reference, validate_referenced, validate_member, validate_resource,
  project_reference, same_reference, same_project, handle,
}
use edgecdnx_controller.Tenancy.References.{references, names_itself, resolves}
use edgecdnx_controller.Tenancy.Isolation.{
  fits, Names, is_none-validate_member, validate_member-Names, handle-update_project,
}

abbrev shared : Scope
shared = record { namespaced = false; target_namespace = codes "n" }

abbrev team : Object
team = record {
  name = codes "p";
  namespace = codes "n";
  deleting = false;
  project = none;
  body = plain Kind.project;
}

abbrev zone : Object
zone = record {
  name = codes "z";
  namespace = codes "n";
  deleting = false;
  project = some (codes "p");
  body = plain Kind.zone;
}

abbrev record_of : Object
record_of = record {
  name = codes "r";
  namespace = codes "n";
  deleting = false;
  project = some (codes "p");
  body = dns_endpoint (some (codes "z"));
}

abbrev get : Reader
get kind namespace name = elim kind [ Kind.project ↦ some team | _ ↦ some zone ]

run : Unit {0}
unfolding handle validate_resource validate_member validate_referenced validate_project
    validate_namespace validate_body validate_reference project_reference same_reference
    same_project text_eq
run = tt

is_none-validate_member_example : is_none (validate_member get record_of shared none) ≡ true
unfolding run names_itself references resolves
is_none-validate_member_example = is_none-validate_member shared get record_of none

validate_member-Names_example :
    (p : Text) × (project_reference record_of ≡ some p)
    × (fits shared record_of.namespace p ≡ true)
    × All (Names get record_of p) (references record_of.body)
unfolding run
validate_member-Names_example = validate_member-Names shared get record_of none refl

handle-update_project_example :
    (p : Text) × (project_reference record_of ≡ some p) × (project_reference record_of ≡ some p)
unfolding run
handle-update_project_example = handle-update_project shared get record_of record_of refl refl
