-- ===== src/Controller/Caches/Objects/Fit.antt =====
-- The backend, the Ingress and the Secret of a Service fit together.
use edgecdnx_controller.Common.{
  ◌≡◌, refl, int32, Bool, true, some, List, [], ◌∷◌, ◌++◌, map, all, Text, codes, text_eq,
  text_refl, arith, Bool-cases, inl, inr,
}
use edgecdnx_controller.Api.{Service, StaticOriginSpec, origin_type_static, origin_type_s3}
use edgecdnx_controller.Builder.Backends.{Backend, new_backend, with_upstream, with_s3_gateway}
use edgecdnx_controller.Builder.Ingress.{Ingress, static_paths, path_of, tls_of, service_name_of}
use edgecdnx_controller.Builder.Ingress.Routes.{
  is_servable, has_certificate, rules-with_service, rule_of, paths_of, hosts_of,
}
use edgecdnx_controller.Controller.Caches.Objects.{
  backend_name, desired_backend, desired_backend_lem, desired_secret, desired_ingress,
}

-- A backend that is built, under the name that the paths lead to.
abbrev HasBackend : Service → Type 0
HasBackend s =
    (b : Backend) × (desired_backend s ≡ some b) × (text_eq (service_name_of s) b.name ≡ true)

has_backend : (s : Service) → is_servable s ≡ true → HasBackend s
has_backend s h = elim (Bool-cases (text_eq s.origin_type origin_type_static)) [
  | inl e ↦ of_origins s.static_origins refl e
  | inr e ↦
      let three : text_eq s.origin_type origin_type_s3 ≡ true = ground (arith, e, h) in
      (
        with_s3_gateway s.domain (new_backend (backend_name s) s.namespace),
        ground (arith, e, three, desired_backend_lem s),
        text_refl (backend_name s),
      )
]
  where
    of_origins :
        (os : List StaticOriginSpec)
        → s.static_origins ≡ os
        → text_eq s.origin_type origin_type_static ≡ true
        → HasBackend s
    of_origins [] q e = absurd (ground (arith, e, q, h))
    of_origins (o ∷ os) q e = (
      with_upstream o.upstream (new_backend (backend_name s) s.namespace),
      ground (arith, e, q, desired_backend_lem s),
      text_refl (backend_name s),
    )

all-map {ℓ} :
    {A : Type ℓ} (p : A → Bool) (f : Text → A) (xs : List Text)
    → ((x : Text) → p (f x) ≡ true)
    → all p (map f xs) ≡ true
all-map p f [] h = refl
all-map p f (x ∷ xs) h = ground (arith, h x, all-map p f xs h)

leads :
    (s : Service) (name : Text)
    → text_eq (service_name_of s) name ≡ true
    → all (λ p. text_eq p.service_name name) (paths_of s) ≡ true
leads s name h = elim (Bool-cases (text_eq s.origin_type origin_type_static)) [
  | inl e ↦ of_origins s.static_origins refl e
  | inr e ↦ ground (arith, e, h)
]
  where
    of_paths :
        (o : StaticOriginSpec) (ps : List Text)
        → s.path.paths ≡ ps
        → all (λ p. text_eq p.service_name name) (static_paths s o) ≡ true
    of_paths o [] q = ground (arith, q, h)
    of_paths o (p ∷ ps) q = ground (
      arith,
      q,
      h,
      all-map (λ p. text_eq p.service_name name) (path_of s (int32 o.port)) ps (λ x. h),
    )

    of_origins :
        (os : List StaticOriginSpec)
        → s.static_origins ≡ os
        → text_eq s.origin_type origin_type_static ≡ true
        → all (λ p. text_eq p.service_name name) (paths_of s) ≡ true
    of_origins [] q e = ground (arith, e, q)
    of_origins (o ∷ os) q e = ground (arith, e, q, of_paths o s.path.paths refl)

-- Whether each path of the Ingress leads to the Service of this name.
abbrev pub leads_to : (name : Text) → Ingress → Bool
leads_to name i = all (λ r. all (λ p. text_eq p.service_name name) r.paths) i.rules

-- Whether each TLS entry of the Ingress names this Secret.
abbrev pub uses_secret : (name : Text) → Ingress → Bool
uses_secret name i = all (λ t. text_eq t.secret_name name) i.tls

module _ (secure_urls_endpoint : Text) (s : Service) where
  routes :
      (name : Text)
      → is_servable s ≡ true
      → text_eq (service_name_of s) name ≡ true
      → leads_to name (desired_ingress secure_urls_endpoint s) ≡ true
  unfolding desired_ingress
  routes name h e = rw ((rules-with_service secure_urls_endpoint s s.name s.namespace h).0) (
      all-map (λ r. all (λ p. text_eq p.service_name name) r.paths) (rule_of (paths_of s))
        (hosts_of s) (λ x. leads s name e))

  secrets :
      (crt key : Text)
      → is_servable s ≡ true
      → uses_secret (desired_secret s crt key).name (desired_ingress secure_urls_endpoint s) ≡ true
  unfolding desired_ingress desired_secret
  secrets crt key h =
      rw ((rules-with_service secure_urls_endpoint s s.name s.namespace h).1)
        (elim (Bool-cases (has_certificate s)) [
          | inl e ↦ ground (
            arith,
            e,
            all-map (λ t. text_eq t.secret_name (s.name ++ codes "-tls")) (tls_of s) (hosts_of s)
                (λ x. text_refl (s.name ++ codes "-tls")),
          )
          | inr e ↦ rw e refl
        ])

  -- The objects of a Service that can be served fit together: its backend is built, every path of
  -- its Ingress leads to a Service of the backend's name, and every TLS entry names the Secret that
  -- is built for the certificate.
  pub desired_objects-fit :
      (crt key : Text)
      → is_servable s ≡ true
      → (b : Backend) × (desired_backend s ≡ some b)
        × (leads_to b.name (desired_ingress secure_urls_endpoint s) ≡ true)
        × (uses_secret (desired_secret s crt key).name (desired_ingress secure_urls_endpoint s)
            ≡ true)
  desired_objects-fit crt key h =
      let (b, e, n) = has_backend s h in (b, e, routes b.name h n, secrets crt key h)
