-- ===== src/Main.antt =====
-- cmd/main.go: what a process sets up. A step is a check of the flags or a call of controller-runtime,
-- which may fail; a check or a call that fails ends the process with status 1.
-- Servers and Scopes have the options that are handed on.
pub mod Values
pub mod Roles
pub mod Scopes
pub mod Servers
pub mod Arguments
mod Tests
mod Runs
use edgecdnx_controller.Common.{
  ◌≡◌, ℕ, ℤ, pos, negsuc, Bool, true, false, not, ◌&&◌, ◌||◌, Option, none, some, List, [], ◌∷◌,
  ◌++◌, Text, codes, text_eq, ltb, ◌⊎◌, inl, inr, if◌then◌else◌,
}
use edgecdnx_controller.Strings.{split, trim_space}
use edgecdnx_controller.Featuregate.{enabled}
use edgecdnx_controller.Tenancy.{Scope, validate}
use edgecdnx_controller.Controller.Downstream.{Target, router, cache}
use edgecdnx_controller.Controller.Downstream.Queue.{new_reconciler, SetUp}

-- The sign of --downstream-client-qps, a floating-point number.
pub data Sign : Type 0 where
  negative zero positive : Sign

-- The flags that decide what is set up, and ENABLE_WEBHOOKS.
pub record Flags : Type 0 where
  pub role : Text
  pub scope : Scope
  pub feature_gates : Text
  pub downstream_target : Text
  pub upstream_kubeconfig : Text
  pub downstream_workers : ℤ
  pub downstream_qps : Sign
  pub downstream_burst : ℤ
  pub blocked_upstream_tlds : Text
  pub webhook_cert_path : Text
  pub metrics_cert_path : Text
  pub enable_webhooks : Text

-- The calls of controller-runtime.
pub data Call : Type 0 where
  load_kubeconfig new_upstream_cache webhook_watcher metrics_watcher : Call
  load_local_config new_manager new_client : Call
  register_handlers add_mirror : Call
  service_reconciler challenge_reconciler health_check_profile_reconciler : Call
  location_reconciler prefix_list_reconciler zone_reconciler : Call
  service_cache_reconciler service_routing_reconciler : Call
  service_webhook zone_webhook dns_endpoint_webhook prefix_list_webhook : Call
  health_check_profile_webhook project_webhook tenancy_webhook : Call
  add_metrics_watcher add_webhook_watcher health_check ready_check start : Call

-- A check, a call that may fail, and a call that cannot.
pub data Step : Type 0 where
  check : Bool → Step
  call : Call → Step
  sure : Call → Step

-- The calls that were made and did not fail, and whether all steps were taken.
unfoldable pub run_steps : (fails : Call → Bool) → List Step → List Call × Bool
run_steps fails [] = ([], true)
run_steps fails (check b ∷ steps) =
    let rest = run_steps fails steps in if b then rest else ([], false)
run_steps fails (call c ∷ steps) =
    let rest = run_steps fails steps in if fails c then ([], false) else (c ∷ rest.0, rest.1)
run_steps fails (sure c ∷ steps) = let rest = run_steps fails steps in (c ∷ rest.0, rest.1)

-- The steps, if a condition holds.
abbrev pub when : Bool → List Step → List Step
when b steps = if b then steps else []

abbrev pub is_role : Flags → Text → Bool
is_role f role = text_eq f.role role

abbrev pub role_controller : Text
role_controller = codes "controller"

abbrev pub role_cache_controller : Text
role_cache_controller = codes "cache-controller"

abbrev pub role_router : Text
role_router = codes "router"

abbrev pub role_downstream : Text
role_downstream = codes "downstream"

-- DownstreamTarget of a text.
abbrev pub target_of : Text → Option Target
target_of t =
    if text_eq t (codes "router")
    then some router
    else if text_eq t (codes "cache")
    then some cache
    else none

-- `n < 1`
abbrev pub below_one : ℤ → Bool
below_one (pos n) = ltb n 1
below_one (negsuc n) = true

-- A number of workers, where it is positive.
abbrev pub workers_of : ℤ → ℕ
workers_of (pos n) = n
workers_of (negsuc n) = 0

abbrev pub is_zero : Sign → Bool
is_zero zero = true
is_zero _ = false

-- Whether NewDownstreamReconciler returns a reconciler.
abbrev pub is_made : SetUp → Bool
is_made (inl r) = true
is_made (inr e) = false

abbrev pub caching : Flags → Bool
caching f = enabled f.feature_gates (codes "cachingreconciler")

module _ (is_dns1123_label : Text → Bool) (source_id : Text) (f : Flags) where
  abbrev pub scope_is_valid : Bool
  scope_is_valid = elim (validate is_dns1123_label f.scope) [ none ↦ true | some e ↦ false ]

  -- `if !tenantScope.Namespaced { downstream.TargetNamespace = … }`
  abbrev pub mirrored_namespace : Text
  mirrored_namespace = if not f.scope.namespaced then f.scope.target_namespace else []

  -- The first part for the role downstream.
  abbrev pub upstream_steps : List Step
  upstream_steps =
      check (
        text_eq f.downstream_target (codes "router") || text_eq f.downstream_target (codes "cache"))
      ∷ check (not (text_eq f.upstream_kubeconfig []))
      ∷ call load_kubeconfig
      ∷ check (
          not (
            below_one f.downstream_workers
            || (is_zero f.downstream_qps || below_one f.downstream_burst)))
      ∷ call new_upstream_cache
      ∷ []

  -- The part that adds the mirror to the manager.
  abbrev pub mirror_steps : List Step
  mirror_steps =
      call new_client
      ∷ check (
          is_made (
            new_reconciler (target_of f.downstream_target) true mirrored_namespace source_id
              (workers_of f.downstream_workers)))
      ∷ call register_handlers
      ∷ call add_mirror
      ∷ []

  abbrev pub watcher_steps : List Step
  watcher_steps =
      when (not (text_eq f.webhook_cert_path [])) (call webhook_watcher ∷ [])
      ++ when (not (text_eq f.metrics_cert_path [])) (call metrics_watcher ∷ [])

  -- The reconcilers of the roles.
  abbrev pub reconciler_steps : List Step
  reconciler_steps =
      when (is_role f role_controller && caching f)
        (call service_reconciler ∷ call challenge_reconciler ∷ [])
      ++ (when (is_role f role_controller) (
            call health_check_profile_reconciler
            ∷ call location_reconciler
            ∷ call prefix_list_reconciler
            ∷ call zone_reconciler
            ∷ [])
          ++ (when (is_role f role_cache_controller) (call service_cache_reconciler ∷ [])
              ++ when (is_role f role_router) (call service_routing_reconciler ∷ [])))

  -- The webhooks: each group of the source has the same test.
  abbrev pub webhook_steps : List Step
  webhook_steps = when (not (text_eq f.enable_webhooks (codes "false"))) (
      call service_webhook
      ∷ call zone_webhook
      ∷ call dns_endpoint_webhook
      ∷ call prefix_list_webhook
      ∷ call health_check_profile_webhook
      ∷ call project_webhook
      ∷ sure tenancy_webhook
      ∷ [])

  abbrev pub start_steps : List Step
  start_steps =
      when (not (text_eq f.metrics_cert_path [])) (call add_metrics_watcher ∷ [])
      ++ (when (not (text_eq f.webhook_cert_path [])) (call add_webhook_watcher ∷ [])
          ++ (call health_check ∷ call ready_check ∷ call start ∷ []))

  -- main, after the flags are parsed.
  unfoldable pub main_steps : List Step
  main_steps =
      (check scope_is_valid ∷ [])
      ++ (when (is_role f role_downstream) upstream_steps
          ++ (watcher_steps
              ++ ((call load_local_config ∷ call new_manager ∷ [])
                  ++ (when (is_role f role_downstream) mirror_steps
                      ++ (reconciler_steps ++ (webhook_steps ++ start_steps))))))

-- The loop of parseCSVValues.
unfoldable pub filled_parts : List Text → List Text
filled_parts [] = []
filled_parts (part ∷ parts) =
    let rest = filled_parts parts in
    if text_eq (trim_space part) [] then rest else trim_space part ∷ rest

-- parseCSVValues
unfoldable pub parse_csv_values : Text → List Text
parse_csv_values raw = if text_eq (trim_space raw) [] then [] else filled_parts (split b',' raw)
