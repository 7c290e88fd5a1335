-- ===== src/Builder/Ingress/Routes.antt =====
-- Which hosts a cached Service's Ingress serves, and where its paths lead.
use edgecdnx_controller.Common.{
  ◌≡◌, refl, sym, ap, ◌∙◌, ℤ, Bool, true, false, not, ◌&&◌, none, some, List, [], ◌∷◌, ◌++◌, map,
  Text, codes, text_eq, if◌then◌else◌, arith, Bool-cases, Option-cases, inl, inr,
}
use edgecdnx_controller.Api.{
  Service, StaticOriginSpec, CorsSpec, origin_type_static, origin_type_s3,
}
use edgecdnx_controller.Builder.Ingress.{
  Ingress, IngressPath, IngressRule, new_cache_ingress, put_cors, put_tls, add_tls, tls_of,
  put_mirror, path_of, add_rules, put_rules, static_paths, put_static, put_backend, put_s3,
  put_origin, put_secured, put_signed, put_service, with_service, with_waf, with_additional_rules,
  with_additional_tls,
}
use edgecdnx_controller.Builder.Ingress.Snippet.{config_snippet}

abbrev pub rule_of : List IngressPath → (host : Text) → IngressRule
rule_of paths host = record { host = host; paths = paths }

-- The hosts of a Service: its domain and its aliases.
abbrev pub hosts_of : Service → List Text
hosts_of s = s.domain ∷ s.host_aliases

-- Where the paths of a Service lead, by the type of its origin.
abbrev pub paths_of : Service → List IngressPath
paths_of s =
    if text_eq s.origin_type origin_type_static
    then elim s.static_origins [ [] ↦ [] | o ∷ os ↦ static_paths s o ]
    else path_of s (ℤ.pos 80) (codes "/") ∷ []

append_assoc {ℓ} : {A : Type ℓ} (xs ys zs : List A) → (xs ++ ys) ++ zs ≡ xs ++ (ys ++ zs)
append_assoc [] ys zs = refl
append_assoc (x ∷ xs) ys zs = ap (◌∷◌ x) (append_assoc xs ys zs)

append_nil {ℓ} : {A : Type ℓ} (xs : List A) → xs ++ [] ≡ xs
append_nil [] = refl
append_nil (x ∷ xs) = ap (◌∷◌ x) (append_nil xs)

rules-add_rules :
    (paths : List IngressPath) (aliases : List Text) (i : Ingress)
    → (add_rules paths aliases i).rules ≡ i.rules ++ map (rule_of paths) aliases
unfolding add_rules
rules-add_rules paths [] i = sym (append_nil i.rules)
rules-add_rules paths (a ∷ aliases) i =
    rules-add_rules paths aliases (with_additional_rules (rule_of paths a ∷ []) i)
    ∙ append_assoc i.rules (rule_of paths a ∷ []) (map (rule_of paths) aliases)

tls-add_rules :
    (paths : List IngressPath) (aliases : List Text) (i : Ingress)
    → (add_rules paths aliases i).tls ≡ i.tls
unfolding add_rules
tls-add_rules paths [] i = refl
tls-add_rules paths (a ∷ aliases) i =
    tls-add_rules paths aliases (with_additional_rules (rule_of paths a ∷ []) i)

tls-add_tls :
    (s : Service) (aliases : List Text) (i : Ingress)
    → (add_tls s aliases i).tls ≡ i.tls ++ map (tls_of s) aliases
unfolding add_tls
tls-add_tls s [] i = sym (append_nil i.tls)
tls-add_tls s (a ∷ aliases) i =
    tls-add_tls s aliases (with_additional_tls (tls_of s a ∷ []) i)
    ∙ append_assoc i.tls (tls_of s a ∷ []) (map (tls_of s) aliases)

-- A Service that can be served: one with a static origin, or one of S3.
abbrev pub is_servable : Service → Bool
is_servable s =
    if text_eq s.origin_type origin_type_static
    then (elim s.static_origins [ [] ↦ false | o ∷ os ↦ true ])
    else text_eq s.origin_type origin_type_s3

-- A certificate that is there in both parts.
abbrev pub has_certificate : Service → Bool
has_certificate s = not (text_eq s.certificate.crt []) && not (text_eq s.certificate.key [])

rules-put_rules :
    (s : Service) (paths : List IngressPath) (i : Ingress)
    → (put_rules s paths i).rules ≡ map (rule_of paths) (hosts_of s)
rules-put_rules s paths i =
    rules-add_rules paths s.host_aliases (record i { rules = rule_of paths s.domain ∷ [] })

tls-put_rules :
    (s : Service) (paths : List IngressPath) (i : Ingress) → (put_rules s paths i).tls ≡ i.tls
tls-put_rules s paths i =
    tls-add_rules paths s.host_aliases (record i { rules = rule_of paths s.domain ∷ [] })

rules-put_static :
    (s : Service) (o : StaticOriginSpec) (i : Ingress)
    → (put_static s o i).rules ≡ map (rule_of (static_paths s o)) (hosts_of s)
unfolding put_static
rules-put_static s o i = rules-put_rules s (static_paths s o) (put_backend s o i)

rules-put_s3 :
    (s : Service) (i : Ingress)
    → (put_s3 s i).rules ≡ map (rule_of (path_of s (ℤ.pos 80) (codes "/") ∷ [])) (hosts_of s)
unfolding put_s3
rules-put_s3 s i = rules-put_rules s (path_of s (ℤ.pos 80) (codes "/") ∷ []) i

rules-put_origin :
    (s : Service) (i : Ingress)
    → is_servable s ≡ true
    → (put_origin s i).rules ≡ map (rule_of (paths_of s)) (hosts_of s)
unfolding put_origin
rules-put_origin s i h = elim (Bool-cases (text_eq s.origin_type origin_type_static)) [
  | inl e ↦ of_origins s.static_origins refl e
  | inr e ↦
      let three : text_eq s.origin_type origin_type_s3 ≡ true = ground (arith, e, h) in
      ground (arith, e, three, rules-put_s3 s i)
]
  where
    of_origins :
        (os : List StaticOriginSpec)
        → s.static_origins ≡ os
        → text_eq s.origin_type origin_type_static ≡ true
        → (put_origin s i).rules ≡ map (rule_of (paths_of s)) (hosts_of s)
    of_origins [] q e = absurd (ground (arith, e, q, h))
    of_origins (o ∷ os) q e = ground (arith, e, q, rules-put_static s o i)

tls-put_static : (s : Service) (o : StaticOriginSpec) (i : Ingress) → (put_static s o i).tls ≡ i.tls
unfolding put_static put_backend
tls-put_static s o i = tls-put_rules s (static_paths s o) (put_backend s o i) ∙ ground arith

tls-put_s3 : (s : Service) (i : Ingress) → (put_s3 s i).tls ≡ i.tls
unfolding put_s3
tls-put_s3 s i = tls-put_rules s (path_of s (ℤ.pos 80) (codes "/") ∷ []) i

tls-put_origin : (s : Service) (i : Ingress) → (put_origin s i).tls ≡ i.tls
unfolding put_origin
tls-put_origin s i = elim (Bool-cases (text_eq s.origin_type origin_type_static)) [
  | inl e ↦ of_origins s.static_origins refl e
  | inr e ↦ elim (Bool-cases (text_eq s.origin_type origin_type_s3)) [
    | inl f ↦ ground (arith, e, f, tls-put_s3 s i)
    | inr f ↦ ground (arith, e, f)
  ]
]
  where
    of_origins :
        (os : List StaticOriginSpec)
        → s.static_origins ≡ os
        → text_eq s.origin_type origin_type_static ≡ true
        → (put_origin s i).tls ≡ i.tls
    of_origins [] q e = ground (arith, e, q)
    of_origins (o ∷ os) q e = ground (arith, e, q, tls-put_static s o i)

tls-put_tls :
    (s : Service) (i : Ingress)
    → i.tls ≡ []
    → (put_tls s i).tls ≡ (if has_certificate s then map (tls_of s) (hosts_of s) else [])
unfolding put_tls
tls-put_tls s i h =
    ground (arith, h, tls-add_tls s s.host_aliases (record i { tls = tls_of s s.domain ∷ [] }))

tls-put_cors : (c : CorsSpec) (i : Ingress) → (put_cors c i).tls ≡ i.tls
unfolding put_cors
tls-put_cors c i = ground arith

tls-put_mirror : (s : Service) (i : Ingress) → (put_mirror s i).tls ≡ i.tls
unfolding put_mirror
tls-put_mirror s i = ground arith

waf_keeps :
    (b : Bool) (i : Ingress) → ((with_waf b i).rules ≡ i.rules) × ((with_waf b i).tls ≡ i.tls)
waf_keeps true i = (refl, refl)
waf_keeps false i = (refl, refl)

tls-put_signed :
    (endpoint : Text) (s : Service) (i : Ingress) → (put_signed endpoint s i).tls ≡ i.tls
unfolding put_signed
tls-put_signed endpoint s i = ground arith

tls-put_secured :
    (s : Service) (snippet : Text) (i : Ingress)
    → i.tls ≡ []
    → (put_secured s snippet i).tls
      ≡ (if has_certificate s then map (tls_of s) (hosts_of s) else [])
unfolding put_secured
tls-put_secured s snippet i h = tls-put_tls s _ (tls-put_cors s.cors _ ∙ h)

module _ (endpoint : Text) (s : Service) where
  rules-put_service :
      (snippet : Text) (i : Ingress)
      → is_servable s ≡ true
      → (put_service endpoint s snippet i).rules ≡ map (rule_of (paths_of s)) (hosts_of s)
  unfolding put_service
  rules-put_service snippet i h = (waf_keeps s.waf _).0 ∙ rules-put_origin s _ h

  tls-put_service :
      (snippet : Text) (i : Ingress)
      → i.tls ≡ []
      → (put_service endpoint s snippet i).tls
        ≡ (if has_certificate s then map (tls_of s) (hosts_of s) else [])
  unfolding put_service
  tls-put_service snippet i h =
      (waf_keeps s.waf _).1
      ∙ tls-put_origin s _
      ∙ tls-put_mirror s _
      ∙ tls-put_signed endpoint s _
      ∙ tls-put_secured s snippet i h

  has_snippet : is_servable s ≡ true → (t : Text) × (config_snippet s ≡ some t)
  has_snippet h = elim (Option-cases (config_snippet s)) [ inl e ↦ absurd (no_error e) | inr p ↦ p ]
    where
      no_error : config_snippet s ≡ none → ⊥
      no_error e = unfold config_snippet in ground arith

  -- The Ingress of a Service of S3, or of one with a static origin, has one rule for the domain and
  -- one for each host alias, all with the same paths: those of the spec, or `/`, each to the backend
  -- named after the Service and to the port of the first origin, or 80 for S3. Where the certificate
  -- is there in both parts, each of these hosts has a TLS entry with the Service's secret; otherwise
  -- there is none.
  pub rules-with_service :
      (name namespace : Text)
      → is_servable s ≡ true
      → ((with_service endpoint s (new_cache_ingress name namespace)).rules
          ≡ map (rule_of (paths_of s)) (hosts_of s))
        × ((with_service endpoint s (new_cache_ingress name namespace)).tls
            ≡ (if has_certificate s then map (tls_of s) (hosts_of s) else []))
  unfolding with_service
  rules-with_service name namespace h =
      let (snippet, e) = has_snippet h in
      let i = new_cache_ingress name namespace in
      (
        ground (arith, e, rules-put_service snippet i h),
        ground (arith, e, tls-put_service snippet i refl),
      )
