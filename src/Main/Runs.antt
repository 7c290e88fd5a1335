-- ===== src/Main/Runs.antt =====
-- Flags that are parsed, and the servers and caches that they lead to.
use edgecdnx_controller.Common.{
  ◌≡◌, refl, ℤ, pos, Bool, true, false, not, ◌&&◌, Option, none, some, List, [], ◌∷◌, ◌++◌, Text,
  text_eq, codes, all, map, if◌then◌else◌,
}
use edgecdnx_controller.Tenancy
use edgecdnx_controller.Strings.{split, trim_space}
use edgecdnx_controller.Featuregate.{enabled, enabled_in}
use edgecdnx_controller.Tenancy.{cache_objects, validate}
use edgecdnx_controller.Controller.Downstream.{Key, Reconciler, cache, resource_kinds}
use edgecdnx_controller.Controller.Downstream.Queue.{is_in_target, new_reconciler}
use edgecdnx_controller.Main.{Flags, Call, Sign, run_steps, main_steps, role_downstream}
use edgecdnx_controller.Main.Scopes.{is_held, namespaces_of, is_cached-is_in_target}
use edgecdnx_controller.Main.Servers.{
  TlsConfig, TlsOption, ServerFlags, expected, manager_options, manager_options-expected,
}
use edgecdnx_controller.Main.Arguments.{
  defaults, default_flags, default_servers, registered, parse_flags,
}

abbrev read_bool : Text → Option Bool
read_bool t =
    if text_eq t (codes "true")
    then some true
    else if text_eq t (codes "false")
    then some false
    else none

abbrev read_int : Text → Option ℤ
read_int t = if text_eq t (codes "4") then some (pos 4) else none

abbrev read_float : Text → Option Sign
read_float t = none

abbrev are_distinct : List Text → Bool
are_distinct [] = true
are_distinct (n ∷ ns) = all (λ m. not (text_eq n m)) ns && are_distinct ns

-- No flag is registered twice, which the package flag does not allow.
distinct_test : are_distinct (map (λ f. f.0) (registered read_bool read_int read_float)) ≡ true
unfolding text_eq
distinct_test = refl

abbrev given : List (Text × Text)
given =
    (codes "role", codes "downstream")
    ∷ (codes "target", codes "cache")
    ∷ (codes "upstream-kubeconfig", codes "/up")
    ∷ (codes "downstream-workers", codes "4")
    ∷ (codes "namespaced", codes "false")
    ∷ (codes "webhook-cert-path", codes "/w")
    ∷ []

abbrev flags : Flags
flags = record (default_flags []) {
  role = role_downstream;
  downstream_target = codes "cache";
  upstream_kubeconfig = codes "/up";
  downstream_workers = pos 4;
  scope = record { namespaced = false; target_namespace = codes "edgecdnx" };
  webhook_cert_path = codes "/w";
}

parsed_test :
    parse_flags read_bool read_int read_float given (defaults [])
    ≡ some (record (defaults []) {
      flags = flags;
      servers = record default_servers { webhook_cert_path = codes "/w" };
    })
unfolding parse_flags text_eq
parsed_test = refl

unknown_test :
    parse_flags read_bool read_int read_float ((codes "rolle", []) ∷ []) (defaults []) ≡ none
unfolding parse_flags text_eq
unknown_test = refl

abbrev no_failure : Call → Bool
no_failure c = false

abbrev any_label : Text → Bool
any_label t = not (text_eq t [])

-- Without a flag, all steps are taken.
started_test :
    (run_steps no_failure (main_steps any_label (codes "id") (default_flags []))).1 ≡ true
unfolding run_steps main_steps validate text_eq enabled enabled_in split trim_space
started_test = refl

abbrev apply : List TlsOption → TlsOption
apply [] c = c
apply (t ∷ ts) c = apply ts (t c)

abbrev plain : TlsConfig
plain = record { next_protos = codes "h2" ∷ []; certificate = none }

abbrev join : Text → Text → Text
join a b = a ++ b'/' ∷ b

abbrev certified : ServerFlags
certified = record default_servers {
  webhook_cert_path = codes "/w";
  webhook_cert_name = codes "crt";
  webhook_cert_key = codes "key";
}

manager_options-expected_example :
    (apply (manager_options join certified flags.scope).webhook_tls_opts plain
      ≡ expected join certified (codes "/w") (codes "crt") (codes "key") plain)
    × (apply (manager_options join certified flags.scope).metrics.tls_opts plain
        ≡ expected join certified [] certified.metrics_cert_name certified.metrics_cert_key plain)
    × ((manager_options join certified flags.scope).metrics.secure_serving
        ≡ certified.secure_metrics)
    × ((manager_options join certified flags.scope).metrics.authenticated
        ≡ certified.secure_metrics)
manager_options-expected_example =
    manager_options-expected join certified apply (λ c. refl) (λ t ts c. refl) flags.scope plain

abbrev service_key : Key
service_key = record { kind = codes "Service"; namespace = codes "edgecdnx"; name = codes "s" }

abbrev reconciler : Reconciler
reconciler = record {
  target_namespace = codes "edgecdnx";
  source_id = codes "id";
  kinds = resource_kinds cache;
}

is_cached-is_in_target_example :
    is_held (namespaces_of Tenancy.Kind.service (cache_objects flags.scope)) (codes "edgecdnx")
    ≡ is_in_target reconciler service_key
unfolding validate new_reconciler text_eq
is_cached-is_in_target_example =
    is_cached-is_in_target any_label refl (λ objects kind n. is_held (namespaces_of kind objects) n)
      (λ objects kind n. refl) (codes "id") flags cache 4 reconciler 4 Tenancy.Kind.service
      service_key refl refl
