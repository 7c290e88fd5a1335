-- ===== src/Controller/Services/Progress.antt =====
-- Reconciling a service again and again brings it to the state that it asks for.
use edgecdnx_controller.Common.{
  ◌≡◌, ℕ, zero, suc, ◌-◌, ◌≤◌, Option-cases, refl, Bool, true, false, not, ◌&&◌, Option, none, some,
  List, [], ◌∷◌, Text, text_eq, text_refl, text_iff, and_left, if◌then◌else◌, arith, inl, inr, any,
}
use edgecdnx_controller.Controller.Services.{
  Service, Certificate, Appset, Secret, Fetched, not_found, found, Write, create_certificate,
  update_certificate, create_appset, update_appset, adopt_certificate, set_status, done, writes,
  Reads, has_hash, dns_names, healthy, progressing, reconcile, pass_down, reconcile_appset,
}

-- The objects of one service in the cluster, and the secret that cert-manager keeps.
pub record World : Type 0 where
  pub service : Service
  pub certificate : Option Certificate
  pub appset : Option Appset
  pub secret : Secret

abbrev pub fetched {ℓ} : {A : Type ℓ} → Option A → Fetched A
fetched none = not_found
fetched (some a) = found a

abbrev pub with_status : Text → World → World
with_status status w = record {
  service = record {
    name = w.service.name;
    domain = w.service.domain;
    host_aliases = w.service.host_aliases;
    status = status;
  };
  certificate = w.certificate;
  appset = w.appset;
  secret = w.secret;
}

abbrev pub with_certificate : Certificate → World → World
with_certificate c w = record {
  service = w.service;
  certificate = some c;
  appset = w.appset;
  secret = w.secret;
}

abbrev pub with_appset : Appset → World → World
with_appset a w = record {
  service = w.service;
  certificate = w.certificate;
  appset = some a;
  secret = w.secret;
}

-- What a write makes of the cluster. A new certificate has no condition yet.
unfoldable pub apply_write : Write → World → World
apply_write (create_certificate hash) w =
    with_certificate
      (record { deleting = false; has_controller = true; hash = some hash; conditions = [] }) w
apply_write (update_certificate hash) w = elim w.certificate [
  | none ↦ w
  | some c ↦
      with_certificate
        (record {
          deleting = c.deleting;
          has_controller = c.has_controller;
          hash = some hash;
          conditions = c.conditions;
        })
        w
]
apply_write adopt_certificate w = elim w.certificate [
  | none ↦ w
  | some c ↦
      with_certificate
        (record {
          deleting = c.deleting;
          has_controller = true;
          hash = c.hash;
          conditions = c.conditions;
        })
        w
]
apply_write (create_appset hash) w = with_appset (record { deleting = false; hash = some hash }) w
apply_write (update_appset hash) w = elim w.appset [
  | none ↦ w
  | some a ↦ with_appset (record { deleting = a.deleting; hash = some hash }) w
]
apply_write (set_status status) w = with_status status w

-- The hashes of the builders do not depend on the status: the resource that is passed down has none.
module _ (certificate_hash : List Text → Text)
    (appset_hash : (name domain : Text) → List Text → Option Secret → Text) where
  abbrev pub reads : World → Reads
  reads w = record {
    certificate = fetched w.certificate;
    secret = found w.secret;
    appset = fetched w.appset;
    certificate_hash = λ ns. some (certificate_hash ns);
    appset_hash = λ s passed. some (appset_hash s.name s.domain s.host_aliases passed);
    certificate_owner_fails = false;
    appset_owner_fails = false;
  }

  -- One reconciliation in which no call fails, and its write.
  unfoldable pub step : World → World
  step w = elim (reconcile (reads w) (found w.service)) [ writes x ↦ apply_write x w | _ ↦ w ]

  unfoldable pub run : ℕ → World → World
  run zero w = w
  run (suc n) w = run n (step w)

  abbrev pub wanted_certificate : World → Text
  wanted_certificate w = certificate_hash (dns_names w.service)

  -- The certificate is passed down when one of its conditions says that it is ready.
  abbrev pub wanted_appset : World → Certificate → Text
  wanted_appset w c =
      appset_hash w.service.name w.service.domain w.service.host_aliases
        (if any (λ b. b) c.conditions then some w.secret else none)

  -- Neither object is being deleted.
  abbrev pub is_alive : World → Bool
  is_alive w =
      elim w.certificate [ none ↦ true | some c ↦ not c.deleting ]
      && elim w.appset [ none ↦ true | some a ↦ not a.deleting ]

  -- The service is healthy, and its certificate and its ApplicationSet are those it asks for.
  abbrev pub is_settled : World → Bool
  is_settled w = text_eq w.service.status healthy && elim w.certificate [
    | none ↦ false
    | some c ↦
        c.has_controller
        && (has_hash c.hash (wanted_certificate w)
            && elim w.appset [ none ↦ false | some a ↦ has_hash a.hash (wanted_appset w c) ])
  ]

  -- How many reconciliations may be missing.
  abbrev stage : World → ℕ
  stage w = if text_eq w.service.status [] then 5 else elim w.certificate [
    | none ↦ 3
    | some c ↦
        if not c.has_controller
        then 4
        else if not (has_hash c.hash (wanted_certificate w))
        then 3
        else elim w.appset [
          | none ↦ 2
          | some a ↦
              if not (has_hash a.hash (wanted_appset w c))
              then 2
              else if text_eq w.service.status healthy
              then 0
              else 1
        ]
  ]

  pass_down-ready :
      (w : World) (cs : List Bool) (p : Option Secret)
      → pass_down (reads w) w.service cs p
        ≡ reconcile_appset (reads w) w.service (if any (λ b. b) cs then some w.secret else p)
  unfolding pass_down
  pass_down-ready w [] p = refl
  pass_down-ready w (ready ∷ cs) p =
      ground (arith, pass_down-ready w cs p, pass_down-ready w cs (some w.secret))

  stage-settled : (w : World) → stage w ≤ 0 → is_settled w ≡ true
  stage-settled w h = ground arith

  literals :
      (text_eq progressing [] ≡ false)
      × (text_eq healthy [] ≡ false)
      × (text_eq healthy healthy ≡ true)
  unfolding text_eq
  literals = (refl, refl, refl)

  stage-step :
      (w : World) → is_alive w ≡ true → (is_alive (step w) ≡ true) × (stage (step w) ≤ stage w - 1)
  unfolding step apply_write reconcile
  stage-step w h = elim (Option-cases w.certificate) [
    | inl e ↦ (
      ground (arith, e, h),
      ground (arith, e, h, text_refl (wanted_certificate w), literals.0, literals.1, literals.2),
    )
    | inr (c, e) ↦ (
      ground (arith, e, h, pass_down-ready w c.conditions none),
      ground (
        arith,
        e,
        h,
        text_refl (wanted_certificate w),
        text_refl (wanted_appset w c),
        pass_down-ready w c.conditions none,
        literals.0,
        literals.1,
        literals.2,
      ),
    )
  ]

  run-stage :
      (n : ℕ) (w : World)
      → is_alive w ≡ true
      → (is_alive (run n w) ≡ true) × (stage (run n w) ≤ stage w - n)
  unfolding run
  run-stage zero w h = (h, omega arith)
  run-stage (suc n) w h =
      let (alive, less) = stage-step w h in
      let (stays, rest) = run-stage n (step w) alive in (stays, omega arith)

  stage-bound : (w : World) → stage w ≤ 5
  stage-bound w = ground arith

  reconcile-settled :
      (w : World)
      → is_alive w ≡ true
      → is_settled w ≡ true
      → reconcile (reads w) (found w.service) ≡ done
  unfolding reconcile
  reconcile-settled w h k = elim (Option-cases w.certificate) [
    | inl e ↦ absurd (missing e)
    | inr (c, e) ↦ ground (arith, e, h, k, pass_down-ready w c.conditions none, not_empty w k)
  ]
    where
      missing : w.certificate ≡ none → ⊥
      missing e = ground (arith, k)

      not_empty : (w : World) → is_settled w ≡ true → text_eq w.service.status [] ≡ false
      not_empty w k = rw ((text_iff w.service.status healthy).0 (and_left _ _ k)) literals.1

  -- When no call fails and neither the certificate nor the ApplicationSet is being deleted, at most
  -- five reconciliations of a service make it healthy, with a certificate under a controller and an
  -- ApplicationSet that are both those it asks for, and a further one then writes nothing.
  pub run-is_settled :
      (w : World)
      → is_alive w ≡ true
      → (is_settled (run 5 w) ≡ true)
        × (reconcile (reads (run 5 w)) (found (run 5 w).service) ≡ done)
  run-is_settled w h =
      let (alive, less) = run-stage 5 w h in
      let bound = stage-bound w in
      let settled = stage-settled (run 5 w) (omega arith) in
      (settled, reconcile-settled (run 5 w) alive settled)
