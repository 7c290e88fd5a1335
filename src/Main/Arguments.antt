-- ===== src/Main/Arguments.antt =====
-- cmd/main.go: the flags that main registers with the package flag, with their defaults, and what
-- flag.Parse makes of the flags that are given, each as a name and a value. How a number or a Boolean
-- is read is a parameter. The flags of the logger are left out.
use edgecdnx_controller.Common.{
  ℤ, pos, Bool, true, false, Option, none, some, List, [], ◌∷◌, Text, codes, text_eq, if◌then◌else◌,
}
use edgecdnx_controller.Controller.Downstream.Queue.{default_workers}
use edgecdnx_controller.Main.{Flags, Sign, positive, role_controller}
use edgecdnx_controller.Main.Servers.{ServerFlags}

-- What the reconcilers are given.
pub record ReconcilerFlags : Type 0 where
  pub thrower_chart_repository : Text
  pub thrower_chart_name : Text
  pub thrower_chart_version : Text
  pub infrastructure_target_namespace : Text
  pub infrastructure_application_set_project : Text
  pub cluster_issuer_name : Text
  pub secure_urls_endpoint : Text

pub record Arguments : Type 0 where
  pub flags : Flags
  pub servers : ServerFlags
  pub charts : ReconcilerFlags

-- The values of the flags that are not given; ENABLE_WEBHOOKS is no flag.
abbrev pub default_flags : (enable_webhooks : Text) → Flags
default_flags enable_webhooks = record {
  role = role_controller;
  scope = record { namespaced = true; target_namespace = codes "edgecdnx" };
  feature_gates = [];
  downstream_target = [];
  upstream_kubeconfig = [];
  downstream_workers = pos default_workers;
  downstream_qps = positive;
  downstream_burst = pos 200;
  blocked_upstream_tlds = codes "local,internal,private";
  webhook_cert_path = [];
  metrics_cert_path = [];
  enable_webhooks = enable_webhooks;
}

abbrev pub default_servers : ServerFlags
default_servers = record {
  enable_http2 = false;
  webhook_cert_path = [];
  webhook_cert_name = codes "tls.crt";
  webhook_cert_key = codes "tls.key";
  metrics_addr = codes "0";
  secure_metrics = true;
  metrics_cert_path = [];
  metrics_cert_name = codes "tls.crt";
  metrics_cert_key = codes "tls.key";
  probe_addr = codes ":8081";
  enable_leader_election = false;
  leader_election_lock_id = codes "9cbc19dd.edgecdnx.com";
}

abbrev pub default_charts : ReconcilerFlags
default_charts = record {
  thrower_chart_repository = codes "https://edgecdn-x.github.io/helm-charts";
  thrower_chart_name = codes "resource-thrower";
  thrower_chart_version = codes "0.1.0";
  infrastructure_target_namespace = codes "edgecdnx";
  infrastructure_application_set_project = codes "default";
  cluster_issuer_name = codes "edgecdnx";
  secure_urls_endpoint = codes "http://secure-urls.edgecdnx-cache.svc.cluster.local";
}

abbrev pub defaults : (enable_webhooks : Text) → Arguments
defaults enable_webhooks = record {
  flags = default_flags enable_webhooks;
  servers = default_servers;
  charts = default_charts;
}

-- What sets a flag from a text; `none` when the text is not understood.
abbrev pub Setter : Type 0
Setter = Text → Arguments → Option Arguments

module _ {V : Type 0} where
  abbrev pub in_flags : (V → Flags → Flags) → V → Arguments → Arguments
  in_flags set v a = record a { flags = set v a.flags }

  abbrev pub in_servers : (V → ServerFlags → ServerFlags) → V → Arguments → Arguments
  in_servers set v a = record a { servers = set v a.servers }

  abbrev pub in_charts : (V → ReconcilerFlags → ReconcilerFlags) → V → Arguments → Arguments
  in_charts set v a = record a { charts = set v a.charts }

  -- A flag that two of the records have.
  abbrev pub in_both :
      (V → Flags → Flags) → (V → ServerFlags → ServerFlags) → V → Arguments → Arguments
  in_both set set_server v a = record a { flags = set v a.flags; servers = set_server v a.servers }

  abbrev pub of_value : (Text → Option V) → (V → Arguments → Arguments) → Setter
  of_value parse set value a = elim (parse value) [ none ↦ none | some v ↦ some (set v a) ]

-- flag.StringVar
abbrev pub of_text : (Text → Arguments → Arguments) → Setter
of_text set value a = some (set value a)

module _ (parse_bool : Text → Option Bool) (parse_int : Text → Option ℤ)
    (parse_float : Text → Option Sign) where
  -- flag.BoolVar, flag.IntVar and flag.Float64Var
  abbrev pub of_bool : (Bool → Arguments → Arguments) → Setter
  of_bool = of_value parse_bool

  abbrev pub of_int : (ℤ → Arguments → Arguments) → Setter
  of_int = of_value parse_int

  abbrev pub of_float : (Sign → Arguments → Arguments) → Setter
  of_float = of_value parse_float

  abbrev pub registered : List (Text × Setter)
  registered =
      (codes "metrics-bind-address", of_text (in_servers (λ v s. record s { metrics_addr = v })))
      ∷ (
        codes "health-probe-bind-address",
        of_text (in_servers (λ v s. record s { probe_addr = v })),
      )
      ∷ (
        codes "leader-elect",
        of_bool (in_servers (λ v s. record s { enable_leader_election = v })),
      )
      ∷ (
        codes "leader-election-lock-id",
        of_text (in_servers (λ v s. record s { leader_election_lock_id = v })),
      )
      ∷ (codes "metrics-secure", of_bool (in_servers (λ v s. record s { secure_metrics = v })))
      ∷ (
        codes "webhook-cert-path",
        of_text (
            in_both (λ v f. record f { webhook_cert_path = v })
              (λ v s. record s { webhook_cert_path = v })),
      )
      ∷ (
        codes "webhook-cert-name",
        of_text (in_servers (λ v s. record s { webhook_cert_name = v })),
      )
      ∷ (codes "webhook-cert-key", of_text (in_servers (λ v s. record s { webhook_cert_key = v })))
      ∷ (
        codes "metrics-cert-path",
        of_text (
            in_both (λ v f. record f { metrics_cert_path = v })
              (λ v s. record s { metrics_cert_path = v })),
      )
      ∷ (
        codes "metrics-cert-name",
        of_text (in_servers (λ v s. record s { metrics_cert_name = v })),
      )
      ∷ (codes "metrics-cert-key", of_text (in_servers (λ v s. record s { metrics_cert_key = v })))
      ∷ (codes "enable-http2", of_bool (in_servers (λ v s. record s { enable_http2 = v })))
      ∷ (codes "role", of_text (in_flags (λ v f. record f { role = v })))
      ∷ (
        codes "namespaced",
        of_bool (in_flags (λ v f. record f { scope = record f.scope { namespaced = v } })),
      )
      ∷ (
        codes "target-namespace",
        of_text (in_flags (λ v f. record f { scope = record f.scope { target_namespace = v } })),
      )
      ∷ (codes "feature-gates", of_text (in_flags (λ v f. record f { feature_gates = v })))
      ∷ (codes "target", of_text (in_flags (λ v f. record f { downstream_target = v })))
      ∷ (
        codes "upstream-kubeconfig",
        of_text (in_flags (λ v f. record f { upstream_kubeconfig = v })),
      )
      ∷ (codes "downstream-workers", of_int (in_flags (λ v f. record f { downstream_workers = v })))
      ∷ (
        codes "downstream-client-qps",
        of_float (in_flags (λ v f. record f { downstream_qps = v })),
      )
      ∷ (
        codes "downstream-client-burst",
        of_int (in_flags (λ v f. record f { downstream_burst = v })),
      )
      ∷ (
        codes "thrower-chart-repository",
        of_text (in_charts (λ v c. record c { thrower_chart_repository = v })),
      )
      ∷ (
        codes "thrower-chart-name",
        of_text (in_charts (λ v c. record c { thrower_chart_name = v })),
      )
      ∷ (
        codes "thrower-chart-version",
        of_text (in_charts (λ v c. record c { thrower_chart_version = v })),
      )
      ∷ (
        codes "infrastructure-target-namespace",
        of_text (in_charts (λ v c. record c { infrastructure_target_namespace = v })),
      )
      ∷ (
        codes "infrastructure-application-set-project",
        of_text (in_charts (λ v c. record c { infrastructure_application_set_project = v })),
      )
      ∷ (
        codes "cluster-issuer-name",
        of_text (in_charts (λ v c. record c { cluster_issuer_name = v })),
      )
      ∷ (
        codes "secure-urls-endpoint",
        of_text (in_charts (λ v c. record c { secure_urls_endpoint = v })),
      )
      ∷ (
        codes "blocked-upstream-tlds",
        of_text (in_flags (λ v f. record f { blocked_upstream_tlds = v })),
      )
      ∷ []

  abbrev pub find_setter : Text → List (Text × Setter) → Option Setter
  find_setter name [] = none
  find_setter name ((n, set) ∷ setters) =
      if text_eq n name then some set else find_setter name setters

  -- flag.Parse: the process ends where a flag is not known or its value is not understood.
  unfoldable pub parse_flags : List (Text × Text) → Arguments → Option Arguments
  parse_flags [] a = some a
  parse_flags ((name, value) ∷ given) a = elim (find_setter name registered) [
    | none ↦ none
    | some set ↦ elim (set value a) [ none ↦ none | some b ↦ parse_flags given b ]
  ]
