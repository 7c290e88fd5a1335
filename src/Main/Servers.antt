-- ===== src/Main/Servers.antt =====
-- cmd/main.go: the options of the manager, of its webhook and metrics servers, and of its clients.
-- A function on a tls.Config is a function here, and a tls.Config what these functions set;
-- filepath.Join is a parameter, and a certificate watcher the two files that it watches.
use edgecdnx_controller.Common.{
  ◌≡◌, ◌∙◌, ℤ, Bool, true, false, not, Option, none, some, List, [], ◌∷◌, ◌++◌, Text, codes,
  text_eq, if◌then◌else◌,
}
use edgecdnx_controller.Tenancy
use edgecdnx_controller.Tenancy.{Scope, cache_objects}
use edgecdnx_controller.Main.{Flags, is_role, role_downstream}

-- The files of a certificate and its key.
pub record Watched : Type 0 where
  pub cert_file : Text
  pub key_file : Text

-- tls.Config: NextProtos, and where GetCertificate takes the certificate from.
pub record TlsConfig : Type 0 where
  pub next_protos : List Text
  pub certificate : Option Watched

abbrev pub TlsOption : Type 0
TlsOption = TlsConfig → TlsConfig

-- The flags of the servers and of the manager.
pub record ServerFlags : Type 0 where
  pub enable_http2 : Bool
  pub webhook_cert_path : Text
  pub webhook_cert_name : Text
  pub webhook_cert_key : Text
  pub metrics_addr : Text
  pub secure_metrics : Bool
  pub metrics_cert_path : Text
  pub metrics_cert_name : Text
  pub metrics_cert_key : Text
  pub probe_addr : Text
  pub enable_leader_election : Bool
  pub leader_election_lock_id : Text

-- metricsserver.Options; `authenticated` says whether FilterProvider is set.
pub record MetricsOptions : Type 0 where
  pub bind_address : Text
  pub secure_serving : Bool
  pub authenticated : Bool
  pub tls_opts : List TlsOption

-- ctrl.Options
pub record ManagerOptions : Type 0 where
  pub by_object : List (Tenancy.Kind × List Text)
  pub metrics : MetricsOptions
  pub webhook_tls_opts : List TlsOption
  pub health_probe_bind_address : Text
  pub leader_election : Bool
  pub leader_election_id : Text

-- The limits of rest.Config.
pub record Limits (Rate Limiter : Type 0) : Type 0 where
  pub qps : Rate
  pub burst : ℤ
  pub rate_limiter : Option Limiter

-- The function disableHTTP2
abbrev pub disable_http2 : TlsOption
disable_http2 c = record c { next_protos = codes "http/1.1" ∷ [] }

-- The functions that set GetCertificate
abbrev pub get_certificate : Watched → TlsOption
get_certificate w c = record c { certificate = some w }

module _ (join : Text → Text → Text) (o : ServerFlags) where
  abbrev pub tls_opts : List TlsOption
  tls_opts = if not o.enable_http2 then disable_http2 ∷ [] else []

  abbrev pub webhook_watched : Watched
  webhook_watched = record {
    cert_file = join o.webhook_cert_path o.webhook_cert_name;
    key_file = join o.webhook_cert_path o.webhook_cert_key;
  }

  abbrev pub metrics_watched : Watched
  metrics_watched = record {
    cert_file = join o.metrics_cert_path o.metrics_cert_name;
    key_file = join o.metrics_cert_path o.metrics_cert_key;
  }

  abbrev pub webhook_opts : List TlsOption
  webhook_opts =
      if not (text_eq o.webhook_cert_path [])
      then tls_opts ++ get_certificate webhook_watched ∷ []
      else tls_opts

  abbrev pub metrics_opts : MetricsOptions
  metrics_opts = record {
    bind_address = o.metrics_addr;
    secure_serving = o.secure_metrics;
    authenticated = o.secure_metrics;
    tls_opts =
        if not (text_eq o.metrics_cert_path [])
        then tls_opts ++ get_certificate metrics_watched ∷ []
        else tls_opts;
  }

  abbrev pub manager_options : Scope → ManagerOptions
  manager_options scope = record {
    by_object = cache_objects scope;
    metrics = metrics_opts;
    webhook_tls_opts = webhook_opts;
    health_probe_bind_address = o.probe_addr;
    leader_election = o.enable_leader_election;
    leader_election_id = o.leader_election_lock_id;
  }

  -- What a server is to have: HTTP/1.1 alone unless HTTP/2 is enabled, and the certificate of the
  -- files of these names under its path, where one is given.
  abbrev pub expected : (path name key : Text) → TlsConfig → TlsConfig
  expected path name key c = record {
    next_protos = if o.enable_http2 then c.next_protos else codes "http/1.1" ∷ [];
    certificate =
        if text_eq path []
        then c.certificate
        else some (record { cert_file = join path name; key_file = join path key });
  }

  module _ (apply : List TlsOption → TlsOption) (apply-nil : (c : TlsConfig) → apply [] c ≡ c)
      (apply-cons : (t : TlsOption) (ts : List TlsOption) (c : TlsConfig)
        → apply (t ∷ ts) c ≡ apply ts (t c)) where
    served :
        (path name key : Text) (c : TlsConfig)
        → apply
            (if not (text_eq path [])
              then tls_opts
                ++ get_certificate (record { cert_file = join path name; key_file = join path key })
                  ∷ []
              else tls_opts)
            c
          ≡ expected path name key c
    served path name key c = of_cases o.enable_http2 (text_eq path [])
      where
        watched : Watched
        watched = record { cert_file = join path name; key_file = join path key }

        of_cases :
            (http2 empty : Bool)
            → apply
                (if not empty
                  then (if not http2 then disable_http2 ∷ [] else [])
                    ++ get_certificate watched ∷ []
                  else if not http2
                  then disable_http2 ∷ []
                  else [])
                c
              ≡ record {
                next_protos = if http2 then c.next_protos else codes "http/1.1" ∷ [];
                certificate = if empty then c.certificate else some watched;
              }
        of_cases true true = apply-nil c
        of_cases true false = apply-cons (get_certificate watched) [] c ∙ apply-nil _
        of_cases false true = apply-cons disable_http2 [] c ∙ apply-nil _
        of_cases false false =
            apply-cons disable_http2 _ c ∙ apply-cons (get_certificate watched) [] _ ∙ apply-nil _

    -- Whatever the flags: both servers speak HTTP/1.1 alone unless HTTP/2 is enabled; where its own
    -- path is given, each takes its certificate and key from the files of its own names under that
    -- path; and metrics are served over TLS, with the filter that asks who reads them, exactly when
    -- secure metrics are asked for. A server applies its options in their order.
    pub manager_options-expected :
        (scope : Scope) (c : TlsConfig)
        → (apply (manager_options scope).webhook_tls_opts c
            ≡ expected o.webhook_cert_path o.webhook_cert_name o.webhook_cert_key c)
          × (apply (manager_options scope).metrics.tls_opts c
              ≡ expected o.metrics_cert_path o.metrics_cert_name o.metrics_cert_key c)
          × ((manager_options scope).metrics.secure_serving ≡ o.secure_metrics)
          × ((manager_options scope).metrics.authenticated ≡ o.secure_metrics)
    manager_options-expected scope c = (
      served o.webhook_cert_path o.webhook_cert_name o.webhook_cert_key c,
      served o.metrics_cert_path o.metrics_cert_name o.metrics_cert_key c,
      λ i. o.secure_metrics,
      λ i. o.secure_metrics,
    )

module _ {Rate Limiter : Type 0} (is_negative : Rate → Bool) where
  -- What the role downstream sets in the configuration of a client.
  abbrev pub limited : (qps : Rate) → (burst : ℤ) → Limits Rate Limiter → Limits Rate Limiter
  limited qps burst config = record {
    qps = qps;
    burst = burst;
    rate_limiter = if is_negative qps then none else config.rate_limiter;
  }

  abbrev pub local_limits : Flags → (qps : Rate) → Limits Rate Limiter → Limits Rate Limiter
  local_limits f qps config =
      if is_role f role_downstream then limited qps f.downstream_burst config else config
