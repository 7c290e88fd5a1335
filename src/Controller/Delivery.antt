-- ===== src/Controller/Delivery.antt =====
-- How a certificate comes to the edge: the service controller reads the Secret that cert-manager
-- fills and passes it down with the Service, and the cache controller makes a Secret and the TLS
-- entries of an Ingress from it. base64 is a pair of parameters.
mod Tests
use edgecdnx_controller.Common.{
  ◌≡◌, refl, sym, ap, ◌∙◌, Bool, true, false, not, ◌&&◌, Option, none, some, List, [], ◌∷◌, map,
  Text, codes, text_eq, text_refl, write, arith, Bool-cases, inl, inr, if◌then◌else◌,
}
use edgecdnx_controller.Api.{Service}
use edgecdnx_controller.Builder.Certificates as Certificates
use edgecdnx_controller.Builder.Ingress.{tls_of}
use edgecdnx_controller.Builder.Ingress.Routes.{
  is_servable, has_certificate, hosts_of, rules-with_service,
}
use edgecdnx_controller.Controller.Services.{Secret}
use edgecdnx_controller.Controller.Services.Objects.{
  desired_certificate, passed_resource, with_aliases, issuer_of,
}
use edgecdnx_controller.Controller.Caches.Objects.{desired_secret, desired_ingress}

-- The resource in the namespace where Argo CD puts it.
abbrev pub received : (namespace : Text) → Service → Service
received namespace s = record s { namespace = namespace }

-- The certificate is one for the hosts that the Ingress serves.
desired_certificate-hosts_of :
    (issuer : Text) (s : Service)
    → (c : Certificates.Certificate) × (desired_certificate issuer s ≡ some c)
      × (c.dns_names ≡ hosts_of s)
unfolding desired_certificate text_eq
desired_certificate-hosts_of issuer s =
    (with_aliases s (new s), refl, of_aliases s.host_aliases refl)
  where
    new : Service → Certificates.Certificate
    new s =
        Certificates.with_issuer_ref (issuer_of issuer)
          (Certificates.new_certificate s.name s.namespace s.domain)

    of_aliases :
        (ns : List Text) → s.host_aliases ≡ ns → (with_aliases s (new s)).dns_names ≡ hosts_of s
    of_aliases [] q = ground (arith, q)
    of_aliases (n ∷ ns) q = ground (arith, q)

module _ (encode : Text → Text) (decode : Text → Option Text)
    (decode-encode : (t : Text) → decode (encode t) ≡ some t)
    (encode-filled : (t : Text) → text_eq (encode t) [] ≡ text_eq t []) where
  -- For a Service that can be served and a Secret with both parts, where decoding undoes encoding and
  -- only an empty text is encoded as one: the certificate is built; the Service that is passed down
  -- and received in any namespace carries texts that decode to the parts of the Secret; its Ingress
  -- has a TLS entry for each of the certificate's DNS names, and its Secret holds the parts.
  pub passed_resource-served :
      (endpoint issuer namespace : Text) (s : Service) (secret : Secret)
      → is_servable s ≡ true
      → text_eq secret.crt [] ≡ false
      → text_eq secret.key [] ≡ false
      → (c : Certificates.Certificate) × (desired_certificate issuer s ≡ some c)
        × (decode (received namespace (passed_resource encode (some secret) s)).certificate.crt
            ≡ some secret.crt)
        × (decode (received namespace (passed_resource encode (some secret) s)).certificate.key
            ≡ some secret.key)
        × ((desired_ingress endpoint
              (received namespace (passed_resource encode (some secret) s))).tls
            ≡ map (tls_of s) c.dns_names)
        × ((desired_secret
                (received namespace (passed_resource encode (some secret) s))
                secret.crt
                secret.key).entries
              (codes "tls.crt")
            ≡ some secret.crt)
        × ((desired_secret
                (received namespace (passed_resource encode (some secret) s))
                secret.crt
                secret.key).entries
              (codes "tls.key")
            ≡ some secret.key)
  unfolding passed_resource desired_ingress desired_secret text_eq
  passed_resource-served endpoint issuer namespace s secret servable crt key =
      let (c, e, names) = desired_certificate-hosts_of issuer s in
      let p = received namespace (passed_resource encode (some secret) s) in
      let held : has_certificate p ≡ true =
        ground (arith, crt, key, encode-filled secret.crt, encode-filled secret.key) in
      (
        c,
        e,
        decode-encode secret.crt,
        decode-encode secret.key,
        (rules-with_service endpoint p p.name p.namespace servable).1
            ∙ ap (λ b. if b then map (tls_of s) (hosts_of s) else []) held
            ∙ ap (map (tls_of s)) (sym names),
        refl,
        refl,
      )
