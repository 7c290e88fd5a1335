-- ===== src/Api/Samples.antt =====
-- A Service that the tests of several modules start from.
use edgecdnx_controller.Common.{false, [], ◌∷◌, codes, pos}
use edgecdnx_controller.Api.{Service}

abbrev pub shop : Service
shop = record {
  name = codes "shop";
  namespace = codes "n";
  domain = codes "shop.example";
  certificate = record { crt = codes "c"; key = codes "k" };
  origin_type = codes "static";
  static_origins =
      record {
        upstream = codes "a.example";
        port = pos 443;
        host_header = codes "h";
        scheme = codes "Https";
      }
      ∷ [];
  s3_origin_spec = [];
  secure_keys = [];
  cache = codes "cache1";
  query_params = codes "page" ∷ [];
  mirror = record { url = []; host_header = [] };
  host_aliases = codes "www.shop.example" ∷ [];
  waf = false;
  cors = record { allow_methods = []; allow_origin = codes "*"; allow_credentials = false };
  path = record { paths = codes "/img" ∷ codes "/css" ∷ []; rewrite = [] };
}
