-- ===== src/Main/Roles.antt =====
-- cmd/main.go: what a process has set up when main has taken all its steps.
use edgecdnx_controller.Common.{
  ℕ, ◌==◌, ◌≡◌, refl, sym, ap, ◌∙◌, Bool, true, false, not, ◌&&◌, ◌||◌, List, [], ◌∷◌, ◌++◌, Text,
  codes, text_eq, any, arith,
}
use mathlib.Core.Bool.{and-false, and-true, or-false, or-true, and_assoc}
use edgecdnx_controller.Main.{
  below_one, Flags, Call, Step, check, call, sure, run_steps, when, is_role, role_controller,
  role_cache_controller, role_router, role_downstream, target_of, workers_of, is_made, caching,
  scope_is_valid, mirrored_namespace, upstream_steps, mirror_steps, main_steps, load_kubeconfig,
  new_upstream_cache, webhook_watcher, metrics_watcher, load_local_config, new_manager, new_client,
  register_handlers, add_mirror, service_reconciler, challenge_reconciler,
  health_check_profile_reconciler, location_reconciler, prefix_list_reconciler, zone_reconciler,
  service_cache_reconciler, service_routing_reconciler, service_webhook, zone_webhook,
  dns_endpoint_webhook, prefix_list_webhook, health_check_profile_webhook, project_webhook,
  tenancy_webhook, add_metrics_watcher, add_webhook_watcher, health_check, ready_check, start,
}
use edgecdnx_controller.Controller.Downstream.Queue.{new_reconciler}

-- The checks and the calls among steps.
abbrev pub checks_of : List Step → Bool
checks_of [] = true
checks_of (check b ∷ steps) = b && checks_of steps
checks_of (call c ∷ steps) = checks_of steps
checks_of (sure c ∷ steps) = checks_of steps

abbrev pub has : (Call → Bool) → List Step → Bool
has p [] = false
has p (check b ∷ steps) = has p steps
has p (call c ∷ steps) = p c || has p steps
has p (sure c ∷ steps) = p c || has p steps

module _ (fails : Call → Bool) where
  run_steps-checks_of :
      (steps : List Step) → (run_steps fails steps).1 ≡ true → checks_of steps ≡ true
  unfolding run_steps
  run_steps-checks_of [] h = refl
  run_steps-checks_of (check b ∷ steps) h = ground (arith, h, run_steps-checks_of steps)
  run_steps-checks_of (call c ∷ steps) h = ground (arith, h, run_steps-checks_of steps)
  run_steps-checks_of (sure c ∷ steps) h = run_steps-checks_of steps h

  run_steps-has :
      (p : Call → Bool) (steps : List Step)
      → (run_steps fails steps).1 ≡ true
      → any p (run_steps fails steps).0 ≡ has p steps
  unfolding run_steps
  run_steps-has p [] h = refl
  run_steps-has p (check b ∷ steps) h = ground (arith, h, run_steps-has p steps)
  run_steps-has p (call c ∷ steps) h = ground (arith, h, run_steps-has p steps)
  run_steps-has p (sure c ∷ steps) h = ap (◌||◌ (p c)) (run_steps-has p steps h)

checks_of-append : (xs ys : List Step) → checks_of (xs ++ ys) ≡ checks_of xs && checks_of ys
checks_of-append [] ys = refl
checks_of-append (check b ∷ xs) ys = ground (arith, checks_of-append xs ys)
checks_of-append (call c ∷ xs) ys = checks_of-append xs ys
checks_of-append (sure c ∷ xs) ys = checks_of-append xs ys

has-append : (p : Call → Bool) (xs ys : List Step) → has p (xs ++ ys) ≡ has p xs || has p ys
has-append p [] ys = refl
has-append p (check b ∷ xs) ys = has-append p xs ys
has-append p (call c ∷ xs) ys = ground (arith, has-append p xs ys)
has-append p (sure c ∷ xs) ys = ground (arith, has-append p xs ys)

has-when : (p : Call → Bool) (b : Bool) (xs : List Step) → has p (when b xs) ≡ b && has p xs
has-when p true xs = refl
has-when p false xs = refl

checks_of-when : (b : Bool) (xs : List Step) → checks_of (when b xs) ≡ not b || checks_of xs
checks_of-when true xs = refl
checks_of-when false xs = refl

ruleset step_laws = (
  has-append, has-when, checks_of-append, checks_of-when, and-false, and-true, or-false, or-true,
  and_assoc,
)

-- Each call has its number.
abbrev pub number : Call → ℕ
number load_kubeconfig = 0
number new_upstream_cache = 1
number webhook_watcher = 2
number metrics_watcher = 3
number load_local_config = 4
number new_manager = 5
number new_client = 6
number register_handlers = 7
number add_mirror = 8
number service_reconciler = 9
number challenge_reconciler = 10
number health_check_profile_reconciler = 11
number location_reconciler = 12
number prefix_list_reconciler = 13
number zone_reconciler = 14
number service_cache_reconciler = 15
number service_routing_reconciler = 16
number service_webhook = 17
number zone_webhook = 18
number dns_endpoint_webhook = 19
number prefix_list_webhook = 20
number health_check_profile_webhook = 21
number project_webhook = 22
number tenancy_webhook = 23
number add_metrics_watcher = 24
number add_webhook_watcher = 25
number health_check = 26
number ready_check = 27
number start = 28

abbrev pub is_call : Call → Call → Bool
is_call x c = number x == number c

-- For which flags a call is to be made: the controllers and the mirror by their roles, the
-- webhooks unless they are switched off, the watchers for the certificates that are given.
abbrev pub expected : Flags → Call → Bool
expected f load_kubeconfig = is_role f role_downstream
expected f new_upstream_cache = is_role f role_downstream
expected f webhook_watcher = not (text_eq f.webhook_cert_path [])
expected f metrics_watcher = not (text_eq f.metrics_cert_path [])
expected f load_local_config = true
expected f new_manager = true
expected f new_client = is_role f role_downstream
expected f register_handlers = is_role f role_downstream
expected f add_mirror = is_role f role_downstream
expected f service_reconciler = is_role f role_controller && caching f
expected f challenge_reconciler = is_role f role_controller && caching f
expected f health_check_profile_reconciler = is_role f role_controller
expected f location_reconciler = is_role f role_controller
expected f prefix_list_reconciler = is_role f role_controller
expected f zone_reconciler = is_role f role_controller
expected f service_cache_reconciler = is_role f role_cache_controller
expected f service_routing_reconciler = is_role f role_router
expected f service_webhook = not (text_eq f.enable_webhooks (codes "false"))
expected f zone_webhook = not (text_eq f.enable_webhooks (codes "false"))
expected f dns_endpoint_webhook = not (text_eq f.enable_webhooks (codes "false"))
expected f prefix_list_webhook = not (text_eq f.enable_webhooks (codes "false"))
expected f health_check_profile_webhook = not (text_eq f.enable_webhooks (codes "false"))
expected f project_webhook = not (text_eq f.enable_webhooks (codes "false"))
expected f tenancy_webhook = not (text_eq f.enable_webhooks (codes "false"))
expected f add_metrics_watcher = not (text_eq f.metrics_cert_path [])
expected f add_webhook_watcher = not (text_eq f.webhook_cert_path [])
expected f health_check = true
expected f ready_check = true
expected f start = true

module _ (is_dns1123_label : Text → Bool) (source_id : Text) (f : Flags) where
  abbrev steps : List Step
  steps = main_steps is_dns1123_label source_id f

  has-is_call : (x : Call) → has (is_call x) steps ≡ expected f x
  unfolding main_steps
  has-is_call load_kubeconfig = simp step_laws
  has-is_call new_upstream_cache = simp step_laws
  has-is_call webhook_watcher = simp step_laws
  has-is_call metrics_watcher = simp step_laws
  has-is_call load_local_config = simp step_laws
  has-is_call new_manager = simp step_laws
  has-is_call new_client = simp step_laws
  has-is_call register_handlers = simp step_laws
  has-is_call add_mirror = simp step_laws
  has-is_call service_reconciler = simp step_laws
  has-is_call challenge_reconciler = simp step_laws
  has-is_call health_check_profile_reconciler = simp step_laws
  has-is_call location_reconciler = simp step_laws
  has-is_call prefix_list_reconciler = simp step_laws
  has-is_call zone_reconciler = simp step_laws
  has-is_call service_cache_reconciler = simp step_laws
  has-is_call service_routing_reconciler = simp step_laws
  has-is_call service_webhook = simp step_laws
  has-is_call zone_webhook = simp step_laws
  has-is_call dns_endpoint_webhook = simp step_laws
  has-is_call prefix_list_webhook = simp step_laws
  has-is_call health_check_profile_webhook = simp step_laws
  has-is_call project_webhook = simp step_laws
  has-is_call tenancy_webhook = simp step_laws
  has-is_call add_metrics_watcher = simp step_laws
  has-is_call add_webhook_watcher = simp step_laws
  has-is_call health_check = simp step_laws
  has-is_call ready_check = simp step_laws
  has-is_call start = simp step_laws

  checks_of-main_steps : checks_of steps ≡ (
      scope_is_valid is_dns1123_label source_id f
      && ((not (is_role f role_downstream)
            || checks_of (upstream_steps is_dns1123_label source_id f))
          && (not (is_role f role_downstream)
              || checks_of (mirror_steps is_dns1123_label source_id f))))
  unfolding main_steps
  checks_of-main_steps = simp step_laws

  -- What the role downstream needs.
  abbrev pub is_mirror_set_up : Bool
  is_mirror_set_up =
      not (text_eq f.upstream_kubeconfig [])
      && (not (below_one f.downstream_workers)
          && is_made (
              new_reconciler (target_of f.downstream_target) true
                (mirrored_namespace is_dns1123_label source_id f) source_id
                (workers_of f.downstream_workers)))

  -- Where main has taken all its steps, none of them failing, the scope is valid, and every call was
  -- made exactly for the flags that are expected of it: each reconciler and the mirror for its
  -- role, the reconcilers of Services and of challenges with the feature gate besides, each of the
  -- seven webhooks unless ENABLE_WEBHOOKS is "false", a watcher where its certificate is given, the
  -- manager, the probes and the start always. For the role downstream a kubeconfig and a positive
  -- number of workers are given, and NewDownstreamReconciler returns a reconciler.
  pub main_steps-roles :
      (fails : Call → Bool) (x : Call) (h : (run_steps fails steps).1 ≡ true)
      → (scope_is_valid is_dns1123_label source_id f ≡ true)
        × (any (is_call x) (run_steps fails steps).0 ≡ expected f x)
        × ((not (is_role f role_downstream) || is_mirror_set_up) ≡ true)
  main_steps-roles fails x h = (
    ground (arith, sym checks_of-main_steps ∙ run_steps-checks_of fails steps h),
    run_steps-has fails (is_call x) steps h ∙ has-is_call x,
    ground (arith, sym checks_of-main_steps ∙ run_steps-checks_of fails steps h),
  )
