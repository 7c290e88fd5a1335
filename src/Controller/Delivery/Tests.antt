-- ===== src/Controller/Delivery/Tests.antt =====
-- A Service whose certificate is issued.
use edgecdnx_controller.Common.{
  ◌≡◌, refl, ap, ◌+◌, ◌-◌, Option, some, [], ◌∷◌, map, Text, codes, text_eq, arith,
}
use mathlib.Core.Path.{ap₂}
use edgecdnx_controller.Api.Samples.{shop}
use edgecdnx_controller.Api.{Service}
use edgecdnx_controller.Builder.Certificates as Certificates
use edgecdnx_controller.Builder.Ingress.{tls_of}
use edgecdnx_controller.Controller.Services.{Secret}
use edgecdnx_controller.Controller.Services.Objects.{desired_certificate, passed_resource}
use edgecdnx_controller.Controller.Caches.Objects.{desired_secret, desired_ingress}
use edgecdnx_controller.Controller.Delivery.{received, passed_resource-served}

abbrev bare : Service
bare = record shop { certificate = record { crt = []; key = [] } }

abbrev issued : Secret
issued = record { key = codes "k"; crt = codes "c" }

-- A code in the place of base64: each byte is one more.
abbrev shift : Text → Text
shift t = map (λ c. c + 1) t

abbrev unshift : Text → Option Text
unshift t = some (map (λ c. c - 1) t)

unshift-shift : (t : Text) → unshift (shift t) ≡ some t
unshift-shift t = ap some (back t)
  where
    back : (t : Text) → map (λ c. c - 1) (shift t) ≡ t
    back [] = refl
    back (c ∷ t) = ap₂ ◌∷◌ (omega arith) (back t)

shift-filled : (t : Text) → text_eq (shift t) [] ≡ text_eq t []
unfolding text_eq
shift-filled [] = refl
shift-filled (c ∷ t) = refl

passed_resource-served_example :
    (c : Certificates.Certificate) × (desired_certificate (codes "i") bare ≡ some c)
    × (unshift (received (codes "m") (passed_resource shift (some issued) bare)).certificate.crt
        ≡ some issued.crt)
    × (unshift (received (codes "m") (passed_resource shift (some issued) bare)).certificate.key
        ≡ some issued.key)
    × ((desired_ingress
          (codes "e")
          (received (codes "m") (passed_resource shift (some issued) bare))).tls
        ≡ map (tls_of bare) c.dns_names)
    × ((desired_secret
            (received (codes "m") (passed_resource shift (some issued) bare))
            issued.crt
            issued.key).entries
          (codes "tls.crt")
        ≡ some issued.crt)
    × ((desired_secret
            (received (codes "m") (passed_resource shift (some issued) bare))
            issued.crt
            issued.key).entries
          (codes "tls.key")
        ≡ some issued.key)
unfolding text_eq
passed_resource-served_example =
    passed_resource-served shift unshift unshift-shift shift-filled (codes "e") (codes "i")
      (codes "m") bare issued refl refl refl
