-- ===== src/Builder/Ingress.antt =====
-- internal/builder/ingress_builder.go: the Ingress of a cached Service. The rendering of the template
-- is in Snippet; the conversion of a port to int32 is in Common.Int.
pub mod Snippet
pub mod Routes
use edgecdnx_controller.Common.{
  ◌≡◌, ℕ, ℤ, int32, Bool, true, false, not, ◌&&◌, ◌||◌, Option, none, some, List, [], ◌∷◌, ◌++◌,
  map, Text, codes, text_eq, Map, no_entries, write, length, if◌then◌else◌,
}
use edgecdnx_controller.Strings.{to_upper, replace_all}
use edgecdnx_controller.Api.{
  Service, StaticOriginSpec, CorsSpec, origin_type_static, origin_type_s3,
}
use edgecdnx_controller.Builder.{values_hash_annotation, built}
use edgecdnx_controller.Builder.Ingress.Snippet.{config_snippet}

-- HTTPIngressPath: the path type is ImplementationSpecific in all of them.
pub record IngressPath : Type 0 where
  pub path : Text
  pub service_name : Text
  pub port : ℤ

pub record IngressRule : Type 0 where
  pub host : Text
  pub paths : List IngressPath

pub record IngressTls : Type 0 where
  pub hosts : List Text
  pub secret_name : Text

pub record Ingress : Type 0 where
  pub name : Text
  pub namespace : Text
  pub labels : Map
  pub annotations : Map
  pub ingress_class : Option Text
  pub rules : List IngressRule
  pub tls : List IngressTls

-- NewCacheIngressBuilder, less its configuration.
abbrev pub new_cache_ingress : (name namespace : Text) → Ingress
new_cache_ingress name namespace = record {
  name = name;
  namespace = namespace;
  labels = no_entries;
  annotations = no_entries;
  ingress_class = none;
  rules = [];
  tls = [];
}

abbrev pub with_label : (key value : Text) → Ingress → Ingress
with_label key value i = record i { labels = write i.labels key value }

abbrev pub with_annotation : (key value : Text) → Ingress → Ingress
with_annotation key value i = record i { annotations = write i.annotations key value }

-- An annotation of ingress-nginx.
abbrev pub with_nginx : (key value : Text) → Ingress → Ingress
with_nginx key value = with_annotation (codes "nginx.ingress.kubernetes.io/" ++ key) value

abbrev pub with_ingress_class : Text → Ingress → Ingress
with_ingress_class ingress_class i = record i { ingress_class = some ingress_class }

abbrev pub with_tls : List IngressTls → Ingress → Ingress
with_tls tls i = record i { tls = tls }

abbrev pub with_additional_tls : List IngressTls → Ingress → Ingress
with_additional_tls tls i = record i { tls = i.tls ++ tls }

abbrev pub with_rules : List IngressRule → Ingress → Ingress
with_rules rules i = record i { rules = rules }

abbrev pub with_additional_rules : List IngressRule → Ingress → Ingress
with_additional_rules rules i = record i { rules = i.rules ++ rules }

-- Build keeps the annotations that are there.
abbrev pub build : (hash : Ingress → Option Text) → Ingress → Option (Ingress × Text)
build hash = built hash (with_annotation values_hash_annotation)

-- WithWaf: the two tests of it come to waf.enabled.
abbrev pub with_waf : Bool → Ingress → Ingress
with_waf enabled i =
    if enabled
    then with_nginx (codes "modsecurity-snippet") (codes "\n\t\t\tSecRuleEngine On\n\t\t") (
        with_nginx (codes "enable-owasp-core-rules") (codes "true")
          (with_nginx (codes "modsecurity-transaction-id") (codes "$request_id") i))
    else with_nginx (codes "modsecurity-snippet") (codes "SecRuleEngine Off")
        (with_nginx (codes "modsecurity-transaction-id") [] i)

-- An annotation that is set only where the value is not empty.
abbrev pub with_filled : (key value : Text) → Ingress → Ingress
with_filled key value i = if not (text_eq value []) then with_nginx key value i else i

-- `%t`
abbrev pub bool_text : Bool → Text
bool_text true = codes "true"
bool_text false = codes "false"

-- The annotations of spec.cors, unless it is empty.
unfoldable pub put_cors : CorsSpec → Ingress → Ingress
put_cors c i =
    if not (text_eq c.allow_methods []) || not (text_eq c.allow_origin []) || c.allow_credentials
    then with_nginx (codes "cors-allow-credentials") (bool_text c.allow_credentials) (
        with_filled (codes "cors-allow-origin") c.allow_origin (
          with_filled (codes "cors-allow-methods") c.allow_methods
            (with_nginx (codes "enable-cors") (codes "true") i)))
    else i

abbrev pub tls_of : Service → (host : Text) → IngressTls
tls_of s host = record { hosts = host ∷ []; secret_name = s.name ++ codes "-tls" }

-- The loop over the host aliases, for the certificate.
unfoldable pub add_tls : Service → List Text → Ingress → Ingress
add_tls s [] i = i
add_tls s (alias ∷ aliases) i = add_tls s aliases (with_additional_tls (tls_of s alias ∷ []) i)

unfoldable pub put_tls : Service → Ingress → Ingress
put_tls s i =
    if not (text_eq s.certificate.crt []) && not (text_eq s.certificate.key [])
    then add_tls s s.host_aliases (with_tls (tls_of s s.domain ∷ []) i)
    else i

unfoldable pub put_mirror : Service → Ingress → Ingress
put_mirror s i =
    if not (text_eq s.mirror.url [])
    then with_filled (codes "mirror-host") s.mirror.host_header
        (with_nginx (codes "mirror-target") (s.mirror.url ++ codes "$request_uri") i)
    else i

-- The name of the Service that the paths lead to.
abbrev pub service_name_of : Service → Text
service_name_of s = replace_all b'.' b'-' s.name

abbrev pub path_of : Service → (port : ℤ) → (path : Text) → IngressPath
path_of s port path = record { path = path; service_name = service_name_of s; port = port }

-- The loop over the host aliases, for the rules.
unfoldable pub add_rules : List IngressPath → List Text → Ingress → Ingress
add_rules paths [] i = i
add_rules paths (alias ∷ aliases) i =
    add_rules paths aliases (with_additional_rules (record { host = alias; paths = paths } ∷ []) i)

abbrev pub put_rules : Service → List IngressPath → Ingress → Ingress
put_rules s paths i =
    add_rules paths s.host_aliases (with_rules (record { host = s.domain; paths = paths } ∷ []) i)

-- The paths of a static origin.
abbrev pub static_paths : Service → StaticOriginSpec → List IngressPath
static_paths s o = elim s.path.paths [
  | [] ↦ path_of s (int32 o.port) (codes "/") ∷ []
  | p ∷ ps ↦ map (path_of s (int32 o.port)) (p ∷ ps)
]

-- The annotations of a static origin.
unfoldable pub put_backend : Service → StaticOriginSpec → Ingress → Ingress
put_backend s o i =
    let backed =
      with_nginx (codes "upstream-vhost") o.host_header
        (with_nginx (codes "backend-protocol") (to_upper o.scheme) i) in
    if not (text_eq s.path.rewrite [])
    then with_nginx (codes "rewrite-target") s.path.rewrite
        (with_nginx (codes "use-regex") (codes "true") backed)
    else backed

unfoldable pub put_static : Service → StaticOriginSpec → Ingress → Ingress
put_static s o i = put_rules s (static_paths s o) (put_backend s o i)

unfoldable pub put_s3 : Service → Ingress → Ingress
put_s3 s i = put_rules s (path_of s (int32 (ℤ.pos 80)) (codes "/") ∷ []) i

-- The part of WithService that depends on the type of the origin. A static Service without an origin
-- does not get here: its snippet has no text.
unfoldable pub put_origin : Service → Ingress → Ingress
put_origin s i =
    if text_eq s.origin_type origin_type_static
    then elim s.static_origins [ [] ↦ i | o ∷ os ↦ put_static s o i ]
    else if text_eq s.origin_type origin_type_s3
    then put_s3 s i
    else i

-- WithService, from the snippet to the certificate.
unfoldable pub put_secured : Service → (snippet : Text) → Ingress → Ingress
put_secured s snippet i =
    let classed =
      with_nginx (codes "server-snippet")
        (codes "\nlocation /.edgecdnx/healthz {\n\treturn 200 \"OK\";\n}\n\t")
        (with_nginx (codes "configuration-snippet") snippet (with_ingress_class s.cache i)) in
    put_tls s (with_nginx (codes "force-ssl-redirect") (codes "true") (put_cors s.cors classed))

-- The annotation for signed URLs.
unfoldable pub put_signed : (secure_urls_endpoint : Text) → Service → Ingress → Ingress
put_signed secure_urls_endpoint s i = elim s.secure_keys [
  | [] ↦ i
  | k ∷ ks ↦ with_nginx (codes "auth-url") secure_urls_endpoint i
]

-- WithService, from the snippet on.
unfoldable pub put_service :
    (secure_urls_endpoint : Text) → Service → (snippet : Text) → Ingress → Ingress
put_service secure_urls_endpoint s snippet i =
    with_waf s.waf
      (put_origin s (put_mirror s (put_signed secure_urls_endpoint s (put_secured s snippet i))))

-- WithService: an error of the template ends it before it changes anything.
unfoldable pub with_service : (secure_urls_endpoint : Text) → Service → Ingress → Ingress
unfolding put_service config_snippet
with_service secure_urls_endpoint s i = elim (config_snippet s) [
  | none ↦ i
  | some snippet ↦ put_service secure_urls_endpoint s snippet i
]
