-- ===== src/Api/Probes.antt =====
-- api/v1alpha1/healthcheckprofile_types.go: the probes of a health check profile, with the rules of
-- the comments that start with +kubebuilder:validation, which the API server checks before the
-- webhook is asked.
use edgecdnx_controller.Common.{
  ◌≡◌, ℤ, pos, negsuc, refl, Bool, true, false, not, ◌&&◌, ◌||◌, Option, none, some, List, [], ◌∷◌,
  Text, text_eq, codes, all, All, All-of_all, All-mono, ltb, leb, map, arith, inl, inr,
  if◌then◌else◌,
}
use edgecdnx_controller.Webhook.Admission.{is_none, is_allowed}
use edgecdnx_controller.Webhook.HealthCheckProfile.{
  Probe, validate_probe_durations, validate_probe_durations-IsTimed, IsTimed,
}

-- HealthCheckProbeType: the enumeration has a value beside the constants.
pub data ProbeType : Type 0 where
  tcp http https assume : ProbeType

-- StackType, `none` where it is left out.
pub data Stack : Type 0 where
  ipv4 ipv6 dual : Stack

-- TCPHealthCheckProbeSpec
pub record TcpProbe : Type 0 where
  pub port : ℤ
  pub target : Text
  pub stack : Option Stack

-- HTTPHealthCheckProbeSpec
pub record HttpProbe : Type 0 where
  pub protocol : Text
  pub port : ℤ
  pub target : Text
  pub path : Text
  pub host : Text
  pub stack : Option Stack

-- AssumedHealthStatus
pub data Assumed : Type 0 where
  healthy unhealthy : Assumed

-- AssumeHealthCheckProbeSpec
pub record AssumeProbe : Type 0 where
  pub status : Assumed
  pub stack : Option Stack

-- HealthCheckProbeSpec; a duration is a number of nanoseconds.
pub record ProbeSpec : Type 0 where
  pub name : Text
  pub type : ProbeType
  pub interval : ℤ
  pub timeout : ℤ
  pub tcp : Option TcpProbe
  pub http : Option HttpProbe
  pub assume : Option AssumeProbe

-- The probe as the webhook reads it.
abbrev pub timed : ProbeSpec → Probe
timed p = record { name = p.name; interval = p.interval; timeout = p.timeout }

-- Minimum=1 and Maximum=65535
abbrev pub is_port : ℤ → Bool
is_port (pos n) = ltb 0 n && leb n 65535
is_port (negsuc n) = false

-- A port of 0 is left out, and so not checked.
abbrev pub is_optional_port : ℤ → Bool
is_optional_port (pos n) = leb n 65535
is_optional_port (negsuc n) = false

abbrev pub is_tcp : ProbeType → Bool
is_tcp tcp = true
is_tcp _ = false

abbrev pub is_http : ProbeType → Bool
is_http http = true
is_http _ = false

abbrev pub is_assume : ProbeType → Bool
is_assume assume = true
is_assume _ = false

-- `self.type == … ? has(…) : !has(…)`
abbrev pub set_only : {A : Type 0} → (when : Bool) → Option A → Bool
set_only when o = if when then not (is_none o) else is_none o

-- The rules for the settings of each type, and those for what they hold.
abbrev pub is_valid_tcp : Option TcpProbe → Bool
is_valid_tcp none = true
is_valid_tcp (some t) = is_port t.port

abbrev pub is_valid_http : Option HttpProbe → Bool
is_valid_http none = true
is_valid_http (some h) =
    is_optional_port h.port
    && (text_eq h.protocol (codes "http") || text_eq h.protocol (codes "https"))

abbrev pub is_valid_probe : ProbeSpec → Bool
is_valid_probe p =
    set_only (is_tcp p.type) p.tcp
    && (set_only (is_http p.type) p.http
        && (set_only (is_assume p.type) p.assume && (is_valid_tcp p.tcp && is_valid_http p.http)))

-- MinItems=1, and the name as the key of the list.
abbrev pub are_distinct : List ProbeSpec → Bool
are_distinct [] = true
are_distinct (p ∷ ps) = all (λ q. not (text_eq p.name q.name)) ps && are_distinct ps

abbrev pub is_valid_profile : List ProbeSpec → Bool
is_valid_profile [] = false
is_valid_profile (p ∷ ps) = are_distinct (p ∷ ps) && all is_valid_probe (p ∷ ps)

-- Whether the settings are those of the type, with a valid port. One of HTTPS has none.
abbrev pub IsConfigured : ProbeSpec → ProbeType → Type 0
IsConfigured p tcp = (t : TcpProbe) × (p.tcp ≡ some t) × (is_port t.port ≡ true)
IsConfigured p http = (h : HttpProbe) × (p.http ≡ some h) × (is_optional_port h.port ≡ true)
IsConfigured p assume = (a : AssumeProbe) × (p.assume ≡ some a)
IsConfigured p https = (p.tcp ≡ none) × (p.http ≡ none) × (p.assume ≡ none)

valid-IsConfigured : (p : ProbeSpec) → is_valid_probe p ≡ true → IsConfigured p p.type
valid-IsConfigured p h = of_settings p.type p.tcp p.http p.assume refl refl refl refl
  where
    of_settings :
        (type : ProbeType) (t : Option TcpProbe) (w : Option HttpProbe) (a : Option AssumeProbe)
        → p.tcp ≡ t
        → p.http ≡ w
        → p.assume ≡ a
        → p.type ≡ type
        → IsConfigured p type
    of_settings tcp none w a k l m e = ground (arith, h, e, k, l, m)
    of_settings tcp (some t) w a k l m e = (t, k, ground (arith, h, e, k, l, m))
    of_settings http t none a k l m e = ground (arith, h, e, k, l, m)
    of_settings http t (some w) a k l m e = (w, l, ground (arith, h, e, k, l, m))
    of_settings assume t w none k l m e = ground (arith, h, e, k, l, m)
    of_settings assume t w (some a) k l m e = (a, m)
    of_settings https none none none k l m e = (k, l, m)
    of_settings https (some t) w a k l m e = ground (arith, h, e, k, l, m)
    of_settings https none (some w) a k l m e = ground (arith, h, e, k, l, m)
    of_settings https none none (some a) k l m e = ground (arith, h, e, k, l, m)

-- A profile that passes the rules and the webhook has the settings that its probes' types ask for,
-- with ports from 1 to 65535 or, for HTTP, none, and probes of HTTPS without any; and all its probes are timed.
pub valid-profile :
    (probes : List ProbeSpec)
    → is_valid_profile probes ≡ true
    → is_allowed (validate_probe_durations (map timed probes)) ≡ true
    → All (λ p. IsConfigured p p.type) probes × All IsTimed (map timed probes)
valid-profile [] valid allowed = ground (arith, valid)
valid-profile (p ∷ ps) valid allowed = (
  All-mono (p ∷ ps) valid-IsConfigured (All-of_all is_valid_probe (p ∷ ps) (ground (arith, valid))),
  elim (validate_probe_durations-IsTimed (map timed (p ∷ ps))) [
    | inl (a, e) ↦ a
    | inr (before, w, after, e, s, b, n, c, q) ↦ ground (arith, allowed, q)
  ],
)
