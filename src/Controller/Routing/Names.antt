-- ===== src/Controller/Routing/Names.antt =====
-- The names of the DNSEndpoints of a Service fit the limit of a DNS subdomain.
use edgecdnx_controller.Common.{
  ◌≡◌, ℕ, zero, suc, ◌-◌, ◌+◌, ◌≤◌, [], ◌∷◌, ◌++◌, length, Text, arith,
}
use edgecdnx_controller.Controller.Routing.Records.{
  trim_right, take_bytes, name_suffix, service_dns_endpoint_name,
}

length-trim_right : (s : Text) → length (trim_right s) ≤ length s
unfolding trim_right
length-trim_right [] = omega arith
length-trim_right (c ∷ s) = ground (arith, length-trim_right s)

length-take_bytes : (n : ℕ) (s : Text) → length (take_bytes n s) ≤ n
unfolding take_bytes
length-take_bytes n [] = omega arith
length-take_bytes zero (c ∷ s) = omega arith
length-take_bytes (suc n) (c ∷ s) = grind (arith, length-take_bytes n s)

length-append : (s t : Text) → length (s ++ t) ≡ length s + length t
length-append [] t = omega arith
length-append (c ∷ s) t = grind (arith, length-append s t)

-- When the suffix fits into 253 bytes, so does the name.
pub length-service_dns_endpoint_name :
    (digest : Text → Text) (service_name dns_name record_type : Text)
    → length (name_suffix digest dns_name record_type) ≤ 253
    → length (service_dns_endpoint_name digest service_name dns_name record_type) ≤ 253
unfolding service_dns_endpoint_name
length-service_dns_endpoint_name digest service_name dns_name record_type h =
    let suffix = name_suffix digest dns_name record_type in
    let short = trim_right (take_bytes (253 - length suffix) service_name) in
    let taken = length-take_bytes (253 - length suffix) service_name in
    let trimmed = length-trim_right (take_bytes (253 - length suffix) service_name) in
    ground (arith, taken, trimmed, length-append short suffix, length-append service_name suffix)
