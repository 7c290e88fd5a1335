-- ===== src/Webhook/HealthCheckProfile.antt =====
-- internal/webhook/v1alpha1/healthcheckprofile_webhook.go. A duration is a number of nanoseconds.
mod Tests
use edgecdnx_controller.Common.{
  ◌≡◌, ℕ, ◌*◌, ◌^◌, ◌≤◌, ◌<◌, ℤ, pos, negsuc, exceeds, Bool, true, false, not, ◌||◌, ◌&&◌, Option,
  none, some, List, [], ◌∷◌, Text, ltb, if◌then◌else◌, All, ap, arith, Option-cases, Bool-cases,
  inl, inr, ◌⊎◌, ◌++◌, refl,
}
use edgecdnx_controller.Webhook.Admission.{Response, allowed, denied, is_allowed}

pub record Probe : Type 0 where
  pub name : Text
  pub interval : ℤ
  pub timeout : ℤ

-- The two messages, with the name of the probe.
pub data ProbeError : Type 0 where
  short_interval wrong_timeout : (name : Text) → ProbeError

abbrev pub Answer : Type 0
Answer = Response Text ProbeError

-- 5*time.Second
abbrev pub least_interval : ℕ
least_interval = 5 * 10 ^ 9

-- `a >= b`
abbrev pub at_least : (a b : ℤ) → Bool
at_least (pos a) (pos b) = not (ltb a b)
at_least (pos a) (negsuc b) = true
at_least (negsuc a) (pos b) = false
at_least (negsuc a) (negsuc b) = not (ltb b a)

-- The tests of one probe: `none` goes on with the next.
unfoldable pub check_probe : Probe → Option ProbeError
check_probe p =
    if not (at_least p.interval (pos least_interval))
    then some (short_interval p.name)
    else if not (exceeds 0 p.timeout) || at_least p.timeout p.interval
    then some (wrong_timeout p.name)
    else none

-- validateHealthCheckProfileProbeDurations
unfoldable pub validate_probe_durations : List Probe → Answer
validate_probe_durations [] = allowed
validate_probe_durations (p ∷ probes) =
    let rest = validate_probe_durations probes in
    elim (check_probe p) [ some e ↦ denied e | none ↦ rest ]

abbrev pub validate_create : (profile : List Probe) → Answer
validate_create profile = validate_probe_durations profile

abbrev pub validate_update : (old profile : List Probe) → Answer
validate_update old profile = validate_probe_durations profile

abbrev pub validate_delete : (profile : List Probe) → Answer
validate_delete profile = allowed

-- An interval of at least five seconds, and a positive timeout below it.
abbrev pub IsTimed : Probe → Type 0
IsTimed p =
    (n : ℕ) × (t : ℕ) × (p.interval ≡ pos n)
    × (p.timeout ≡ pos t)
    × (least_interval ≤ n)
    × (0 < t)
    × (t < n)

check_probe-IsTimed : (p : Probe) → check_probe p ≡ none → IsTimed p
unfolding check_probe
check_probe-IsTimed p h = of_parts p.interval p.timeout refl refl
  where
    of_parts : (i t : ℤ) → p.interval ≡ i → p.timeout ≡ t → IsTimed p
    of_parts (negsuc n) t e q = ground (arith, h, e)
    of_parts (pos n) (negsuc t) e q = ground (arith, h, e, q)
    of_parts (pos n) (pos t) e q =
        (n, t, e, q, ground (arith, h, e, q), ground (arith, h, e, q), ground (arith, h, e, q))

IsTimed-check_probe : (p : Probe) → IsTimed p → check_probe p ≡ none
unfolding check_probe
IsTimed-check_probe p (n, t, e, q, a, b, c) = ground (arith, e, q, a, b, c)

-- A profile is admitted, when it is created or updated, exactly if each of its probes has an
-- interval of at least five seconds and a timeout that is positive and below it; otherwise the error
-- is that of the first probe that has not.
pub validate_probe_durations-IsTimed :
    (probes : List Probe)
    → (All IsTimed probes × (validate_probe_durations probes ≡ allowed))
      ⊎ ((before : List Probe) × (p : Probe) × (after : List Probe) × (e : ProbeError) × (probes
            ≡ before ++ p ∷ after)
          × All IsTimed before
          × ¬ IsTimed p
          × (check_probe p ≡ some e)
          × (validate_probe_durations probes ≡ denied e))
unfolding validate_probe_durations
validate_probe_durations-IsTimed [] = inl (tt, refl)
validate_probe_durations-IsTimed (p ∷ probes) = elim (Option-cases (check_probe p)) [
  | inr (e, h) ↦
      inr (
        [],
        p,
        probes,
        e,
        refl,
        tt,
        (λ t. wrong e h (IsTimed-check_probe p t)),
        h,
        ground (arith, h),
      )
  | inl h ↦ elim (validate_probe_durations-IsTimed probes) [
    | inl (a, q) ↦ inl ((check_probe-IsTimed p h, a), ground (arith, h, q))
    | inr (before, w, after, e, s, a, n, c, q) ↦ inr (
      p ∷ before,
      w,
      after,
      e,
      ap (◌∷◌ p) s,
      (check_probe-IsTimed p h, a),
      n,
      c,
      ground (arith, h, q),
    )
  ]
]
  where
    wrong : {x : Option ProbeError} (e : ProbeError) → x ≡ some e → x ≡ none → ⊥
    wrong e h k = cc
