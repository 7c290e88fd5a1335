-- ===== src/Main/Tests.antt =====
-- Runs of main's steps and of parseCSVValues.
use edgecdnx_controller.Common.{
  ◌≡◌, refl, Bool, true, false, [], ◌∷◌, Text, codes, text_eq, pos, arith, not, ◌||◌, any,
}
use edgecdnx_controller.Tenancy.{validate}
use edgecdnx_controller.Controller.Downstream.Queue.{new_reconciler}
use edgecdnx_controller.Strings.Laws.{join}
use edgecdnx_controller.Strings.{
  to_lower, trim_prefix, trim_suffix, has_suffix, is_space, trim_space, split,
}
use edgecdnx_controller.Main.{
  Flags, Call, zone_webhook, run_steps, main_steps, positive, scope_is_valid, is_role,
  role_downstream, filled_parts, parse_csv_values,
}
use edgecdnx_controller.Main.Values.{parse_csv_values-blocks}
use edgecdnx_controller.Main.Roles.{main_steps-roles, is_mirror_set_up, is_call, expected}
use edgecdnx_controller.Common.{Option, none}
use edgecdnx_controller.Webhook.Admission.{is_none}
use edgecdnx_controller.Webhook.Service.{
  Ip, normalise_upstream_tlds, validate_upstream_configuration,
}

abbrev any_label : Text → Bool
any_label t = not (text_eq t [])

abbrev no_failure : Call → Bool
no_failure c = false

abbrev mirror_flags : Flags
mirror_flags = record {
  role = role_downstream;
  scope = record { namespaced = false; target_namespace = codes "edgecdnx" };
  feature_gates = codes "other, cachingreconciler";
  downstream_target = codes "cache";
  upstream_kubeconfig = codes "/up";
  downstream_workers = pos 16;
  downstream_qps = positive;
  downstream_burst = pos 200;
  blocked_upstream_tlds = codes "local,internal,private";
  webhook_cert_path = [];
  metrics_cert_path = codes "/m";
  enable_webhooks = [];
}

parse_csv_values_test :
    parse_csv_values (codes " local, internal ,,private")
    ≡ codes "local" ∷ codes "internal" ∷ codes "private" ∷ []
unfolding parse_csv_values text_eq trim_space filled_parts split
parse_csv_values_test = refl

abbrev no_address : Text → Option Ip
no_address t = none

parse_csv_values-blocks_example :
    is_none (
      validate_upstream_configuration no_address
        (normalise_upstream_tlds
          (parse_csv_values (join b',' (codes "local" ∷ codes "internal" ∷ []))))
        (codes "db.Internal."))
    ≡ false
unfolding is_space trim_space to_lower trim_prefix trim_suffix has_suffix
parse_csv_values-blocks_example =
    parse_csv_values-blocks no_address (codes "local" ∷ codes "internal" ∷ [])
      (codes "db.Internal.")
      (((refl, ground arith, refl), refl, refl), (((refl, ground arith, refl), refl, refl), tt))
      refl refl

no_workers_test :
    (run_steps no_failure
      (main_steps any_label (codes "id") (record mirror_flags { downstream_workers = pos 0 }))).1
    ≡ false
unfolding run_steps main_steps validate text_eq new_reconciler
no_workers_test = refl

main_steps-roles_example :
    (scope_is_valid any_label (codes "id") mirror_flags ≡ true)
    × (any
          (is_call zone_webhook)
          (run_steps no_failure (main_steps any_label (codes "id") mirror_flags)).0
        ≡ expected mirror_flags zone_webhook)
    × ((not (is_role mirror_flags role_downstream)
          || is_mirror_set_up any_label (codes "id") mirror_flags)
        ≡ true)
unfolding run_steps main_steps validate text_eq new_reconciler
main_steps-roles_example =
    main_steps-roles any_label (codes "id") mirror_flags no_failure zone_webhook refl
