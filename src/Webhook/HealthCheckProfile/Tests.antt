-- ===== src/Webhook/HealthCheckProfile/Tests.antt =====
-- A profile with a probe whose timeout is its interval.
use edgecdnx_controller.Common.{
  ◌≡◌, refl, ◌*◌, ◌^◌, pos, List, [], ◌∷◌, ◌++◌, some, codes, All, ◌⊎◌,
}
use edgecdnx_controller.Webhook.Admission.{allowed, denied}
use edgecdnx_controller.Webhook.HealthCheckProfile.{
  Probe, ProbeError, IsTimed, check_probe, validate_probe_durations,
  validate_probe_durations-IsTimed, wrong_timeout,
}

abbrev timed : Probe
timed = record { name = codes "a"; interval = pos (5 * 10 ^ 9); timeout = pos (10 ^ 9) }

abbrev untimed : Probe
untimed = record { name = codes "b"; interval = pos (6 * 10 ^ 9); timeout = pos (6 * 10 ^ 9) }

first_error_test :
    validate_probe_durations (timed ∷ untimed ∷ []) ≡ denied (wrong_timeout (codes "b"))
unfolding validate_probe_durations check_probe
first_error_test = refl

validate_probe_durations-IsTimed_example :
    (All IsTimed (timed ∷ untimed ∷ [])
      × (validate_probe_durations (timed ∷ untimed ∷ []) ≡ allowed))
    ⊎ ((before : List Probe) × (p : Probe) × (after : List Probe) × (e : ProbeError) × (timed
            ∷ untimed ∷ []
          ≡ before ++ p ∷ after)
        × All IsTimed before
        × ¬ IsTimed p
        × (check_probe p ≡ some e)
        × (validate_probe_durations (timed ∷ untimed ∷ []) ≡ denied e))
validate_probe_durations-IsTimed_example = validate_probe_durations-IsTimed (timed ∷ untimed ∷ [])
