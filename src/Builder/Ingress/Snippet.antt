-- ===== src/Builder/Ingress/Snippet.antt =====
-- internal/builder/ingress_builder.go: the template of the nginx configuration, as text/template
-- renders it. A name of the template is not escaped.
use edgecdnx_controller.Common.{
  Option, none, some, List, [], ◌∷◌, ◌++◌, Text, codes, text_eq, if◌then◌else◌,
}
use edgecdnx_controller.Api.{Service, origin_type_static}

-- `{{- if and (eq .OriginType "static") … }}`: `none` is an error of `index`, which is evaluated only
-- where the first test holds.
abbrev pub ssl_lines : Service → Option Text
ssl_lines s =
    if text_eq s.origin_type origin_type_static
    then elim s.static_origins [
      | [] ↦ none
      | o ∷ os ↦ some (
          if text_eq o.scheme (codes "Https")
          then codes "\n\tproxy_ssl_name "
            ++ o.host_header
            ++ codes ";\n\tproxy_ssl_server_name on;"
          else [])
    ]
    else some []

-- `{{ range .CacheKeySpec.QueryParams }}"{{ . }}",{{ end }}`
unfoldable pub param_list : List Text → Text
param_list [] = []
param_list (p ∷ ps) = codes "\"" ++ p ++ codes "\"," ++ param_list ps

abbrev pub filter_lines : List Text → Text
filter_lines ps =
    codes "\n\t\tlocal h, err = ngx.req.get_uri_args()\n\t\tlocal allowed_query_params = { "
    ++ param_list ps
    ++ codes " }\n\n\t\tfor k, v in pairs(h) do\n\t\t\tlocal found = false\n"
    ++ codes "\t\t\tfor _, allowed in ipairs(allowed_query_params) do\n"
    ++ codes "\t\t\t\tif k == allowed then\n\t\t\t\t\tfound = true\n\t\t\t\t\tbreak\n"
    ++ codes "\t\t\t\tend\n\t\t\tend\n\t\t\tif not found then\n\t\t\t\th[k] = nil\n"
    ++ codes "\t\t\tend\n\t\tend"

-- `{{- if .CacheKeySpec.QueryParams }}`
abbrev pub query_lines : List Text → Text
query_lines [] = codes "\n\t\tlocal h = {}"
query_lines (p ∷ ps) = filter_lines (p ∷ ps)

-- The lines between the two conditional parts, and those after them.
abbrev pub cache_lines : (cache : Text) → Text
cache_lines cache =
    codes "\n\tproxy_cache "
    ++ cache
    ++ codes ";\n"
    ++ codes "\tproxy_cache_use_stale error timeout http_500 http_502 http_503 http_504;\n"
    ++ codes "\tproxy_cache_background_update on;\n\tproxy_cache_revalidate on;\n"
    ++ codes "\tproxy_cache_lock on;\n\n\taccess_by_lua_block {"

abbrev pub end_lines : Text
end_lines =
    codes "\n\n\t\tngx.req.set_uri_args(h)\n\t}\n\n"
    ++ codes "\tproxy_cache_key $proxy_host$uri$is_args$args;\n"
    ++ codes "\tadd_header X-Cache-Key $proxy_host$uri$is_args$args;\n"
    ++ codes "\tadd_header X-EX-Status $upstream_cache_status;\n\t"

unfoldable pub config_snippet : Service → Option Text
config_snippet s = elim (ssl_lines s) [
  | none ↦ none
  | some ssl ↦ some (ssl ++ cache_lines s.cache ++ query_lines s.query_params ++ end_lines)
]
