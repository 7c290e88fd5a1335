-- ===== src/Controller/Caches/Health.antt =====
-- When a service is reported healthy.
use edgecdnx_controller.Common.{
  ◌≡◌, refl, Bool, true, false, not, ◌&&◌, ◌||◌, Option, none, some, List, [], ◌∷◌, Text, text_eq,
  if◌then◌else◌, arith, Bool-cases, inl, inr,
}
use edgecdnx_controller.Controller.Caches.{
  Service, Part, service, deployment, secret, ingress, not_found, found, Write, set_status, create,
  Outcome, stop, done, Reads, upstream, s3_gateway, plain_backend, Backend, has_hash, origin_static,
  origin_s3, healthy, progressing, reconcile, put_all, put_service, put_deployment, put_secret,
  put_ingress, put_status, ensure,
}

-- Whether the status Healthy is written.
abbrev pub reports : List Write → Bool
reports [] = false
reports (w ∷ ws) = (elim w [ set_status t ↦ text_eq t healthy | _ ↦ false ]) || reports ws

module _ (r : Reads) where
  -- Whether the part is there and carries the hash of what is built.
  abbrev pub is_current : Part → Option Text → Bool
  is_current part built = elim built [
    | none ↦ false
    | some hash ↦ elim (r.current part) [ found annotation ↦ has_hash annotation hash | _ ↦ false ]
  ]

  -- Whether the part is not there and can be created.
  abbrev pub is_created : Part → Option Text → Bool
  is_created part built = elim built [
    | none ↦ false
    | some hash ↦ elim (r.current part) [
      | not_found ↦ not (r.owner_fails part) && not (r.fails (create part hash))
      | _ ↦ false
    ]
  ]

  -- What the service's backend is.
  abbrev pub backend : Service → Option Backend
  backend s =
      if text_eq s.origin_type origin_static
      then elim s.static_origins [ [] ↦ none | u ∷ us ↦ some (upstream u) ]
      else some (if text_eq s.origin_type origin_s3 then s3_gateway s.domain else plain_backend)

  -- The gateway is there for S3, and gone for static origins.
  abbrev pub is_gateway_ready : Service → Bool
  is_gateway_ready s =
      if text_eq s.origin_type origin_static
      then (elim (r.current deployment) [ not_found ↦ true | _ ↦ false ])
      else not (text_eq s.origin_type origin_s3) || is_current deployment (r.deployment_hash s)

  -- A certificate that has both parts decodes, and its secret is current.
  abbrev pub is_secret_ready : Service → Bool
  is_secret_ready s = (text_eq s.crt [] || text_eq s.key []) || elim (r.decode s.crt) [
    | none ↦ false
    | some crt ↦ elim (r.decode s.key) [
      | none ↦ false
      | some key ↦ is_current secret (r.secret_hash crt key)
    ]
  ]

  reports-put_status : reports (put_status r).0 ≡ true
  unfolding text_eq
  reports-put_status = ground arith

  reports-ensure :
      (part : Part) (built : Option Text) (next : Outcome)
      → reports (ensure r part built (stop done) next).0 ≡ (is_current part built && reports next.0)
  reports-ensure part built next = ground arith

  reports-put_ingress :
      (s : Service)
      → reports (put_ingress r s).0
        ≡ (is_current ingress (r.ingress_hash s) || is_created ingress (r.ingress_hash s))
  unfolding text_eq
  reports-put_ingress s = ground arith

  reports-put_secret :
      (s : Service)
      → reports (put_secret r s).0 ≡ (is_secret_ready s && reports (put_ingress r s).0)
  reports-put_secret s = ground arith

  reports-put_deployment :
      (s : Service)
      → reports (put_deployment r s).0 ≡ (is_gateway_ready s && reports (put_secret r s).0)
  reports-put_deployment s = ground arith

  reports-put_service :
      (s : Service) (b : Backend)
      → reports (put_service r s b).0
        ≡ (is_current service (r.service_hash b) && reports (put_deployment r s).0)
  reports-put_service s b = reports-ensure service (r.service_hash b) (put_deployment r s)

  -- The four kinds of objects are as the service asks for, the ingress at least once this
  -- reconciliation has created it.
  abbrev pub is_ready : Service → Bool
  is_ready s =
      elim (backend s) [ none ↦ false | some b ↦ is_current service (r.service_hash b) ]
      && (is_gateway_ready s
          && (is_secret_ready s
              && (is_current ingress (r.ingress_hash s) || is_created ingress (r.ingress_hash s))))

  reports-put_all : (s : Service) → reports (put_all r s).0 ≡ is_ready s
  reports-put_all s =
      let rest = reports-put_deployment s in
      let inner = reports-put_secret s in
      let last = reports-put_ingress s in
      elim (Bool-cases (text_eq s.origin_type origin_static)) [
        | inl e ↦ origins s.static_origins refl e
        | inr e ↦ elim (Bool-cases (text_eq s.origin_type origin_s3)) [
          | inl f ↦
              ground (arith, rest, inner, last, e, f, reports-put_service s (s3_gateway s.domain))
          | inr f ↦ ground (arith, rest, inner, last, e, f, reports-put_service s plain_backend)
        ]
      ]
    where
      origins :
          (us : List Text)
          → s.static_origins ≡ us
          → text_eq s.origin_type origin_static ≡ true
          → reports (put_all r s).0 ≡ is_ready s
      origins [] q e = ground (arith, q, e)
      origins (u ∷ us) q e = ground (
        arith,
        q,
        e,
        reports-put_deployment s,
        reports-put_secret s,
        reports-put_ingress s,
        reports-put_service s (upstream u),
      )

  -- A reconciliation comes to write the status Healthy exactly when the service is not being deleted and has
  -- a status, the service of its backend is current, the S3 gateway is current for S3 and gone for
  -- static origins, a certificate with both parts decodes and its secret is current, and the ingress
  -- is current or has just been created.
  pub reports-reconcile :
      (s : Service)
      → reports (reconcile r (found s)).0
        ≡ (not s.deleting && (not (text_eq s.status []) && is_ready s))
  unfolding reconcile
  reports-reconcile s = ground (arith, reports-put_all s, reports_progressing)
    where
      reports_progressing : text_eq progressing healthy ≡ false
      reports_progressing = unfold text_eq in refl
