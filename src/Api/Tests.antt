-- ===== src/Api/Tests.antt =====
-- Two probes of a profile.
use edgecdnx_controller.Common.{◌*◌, ◌^◌, pos, refl, none, some, [], ◌∷◌, codes, map, All, text_eq}
use edgecdnx_controller.Webhook.HealthCheckProfile.{IsTimed, validate_probe_durations, check_probe}
use edgecdnx_controller.Api.Probes.{ProbeType, ProbeSpec, ipv4, timed, IsConfigured, valid-profile}

abbrev web : ProbeSpec
web = record {
  name = codes "web";
  type = ProbeType.http;
  interval = pos (5 * 10 ^ 9);
  timeout = pos (10 ^ 9);
  tcp = none;
  http = some (record {
    protocol = codes "https";
    port = pos 443;
    target = [];
    path = codes "/";
    host = [];
    stack = some ipv4;
  });
  assume = none;
}

-- A probe of HTTPS, which can say nothing of its port or its path.
abbrev secure : ProbeSpec
secure = record web { name = codes "secure"; type = ProbeType.https; http = none }

valid-profile_test :
    All (λ p. IsConfigured p p.type) (web ∷ secure ∷ [])
    × All IsTimed (map timed (web ∷ secure ∷ []))
unfolding validate_probe_durations check_probe text_eq
valid-profile_test = valid-profile (web ∷ secure ∷ []) refl refl
