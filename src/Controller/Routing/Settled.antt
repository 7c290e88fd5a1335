-- ===== src/Controller/Routing/Settled.antt =====
-- What a reconciliation of one record leaves: its DNSEndpoint is there and current.
use edgecdnx_controller.Common.{
  ◌≡◌, refl, ap, subst, ◌∙◌, Bool, true, false, not, ◌&&◌, Option, none, some, List, [], ◌∷◌, Text,
  text_eq, text_refl, text_iff, text_comm, arith, Bool-cases, Option-cases, inl, inr, filter,
}
use edgecdnx_controller.Webhook.Admission.{is_none}
use edgecdnx_controller.Controller.Routing.Records.{
  Endpoint, Service, Spec, same_option, same_project, find_endpoint, replace_endpoint,
}
use edgecdnx_controller.Controller.Routing.{
  Calls, built_spec, endpoint_name, is_current, put_built, reconcile_record,
}

-- Names that are equal are equal to the same names.
name-eq : (a b name : Text) → text_eq a b ≡ true → text_eq a name ≡ text_eq b name
name-eq a b name h = ap (λ x. text_eq x name) ((text_iff a b).0 h)

-- An update puts the endpoint in the place of the one of its name, and leaves the others.
find_replaced :
    (name : Text) (new : Endpoint) (es : List Endpoint)
    → text_eq new.name name ≡ true
    → is_none (find_endpoint name es) ≡ false
    → find_endpoint name (replace_endpoint new es) ≡ some new
find_replaced name new [] same h = ground (arith, h)
find_replaced name new (e ∷ es) same h = elim (Bool-cases (text_eq e.name new.name)) [
  | inl x ↦ ground (arith, x, same)
  | inr x ↦
      let other = name-eq name new.name e.name (text_comm name new.name ∙ same) in
      let apart : text_eq e.name name ≡ false =
        text_comm e.name name ∙ other ∙ text_comm new.name e.name ∙ x in
      ground (arith, x, apart, h, find_replaced name new es same)
]

find_kept :
    (name : Text) (new : Endpoint) (es : List Endpoint)
    → text_eq new.name name ≡ false
    → find_endpoint name (replace_endpoint new es) ≡ find_endpoint name es
find_kept name new [] other = refl
find_kept name new (e ∷ es) other = elim (Bool-cases (text_eq e.name new.name)) [
  | inl x ↦ ground (arith, x, other, name-eq e.name new.name name x, find_kept name new es other)
  | inr x ↦ ground (arith, x, find_kept name new es other)
]

find-name :
    (name : Text) (es : List Endpoint) (e : Endpoint)
    → find_endpoint name es ≡ some e
    → text_eq e.name name ≡ true
find-name name [] e h = ground (arith, h)
find-name name (o ∷ es) e h = elim (Bool-cases (text_eq o.name name)) [
  | inl x ↦
      let at : some o ≡ some e = ground (arith, x, h) in
      subst (λ y. text_eq y.name name ≡ true) (ap (λ m. elim m [ none ↦ o | some y ↦ y ]) at) x
  | inr x ↦ find-name name es e (ground (arith, x, h))
]

-- What a filter keeps is found.
pub find-filter :
    (name : Text) (p : Endpoint → Bool) (es : List Endpoint)
    → ((e : Endpoint) → text_eq e.name name ≡ true → p e ≡ true)
    → find_endpoint name (filter p es) ≡ find_endpoint name es
find-filter name p [] h = refl
find-filter name p (e ∷ es) h = elim (Bool-cases (text_eq e.name name)) [
  | inl same ↦ ground (arith, same, h e same)
  | inr other ↦ ground (arith, other, find-filter name p es h)
]

module _ (c : Calls) (s : Service) where
  -- Whether the endpoint that was found may be kept as it is.
  abbrev pub holds : Option Endpoint → (hash zone_name : Text) → Bool
  holds none hash zone_name = false
  holds (some e) hash zone_name =
      same_project s.namespace e.namespace s.project e.spec.project
      && is_current c s e hash zone_name

  -- Whether the endpoint of a name and a record type is there and current.
  abbrev pub is_settled : (zone_name dns_name record_type : Text) → List Endpoint → Bool
  is_settled zone_name dns_name record_type stored =
      let name = endpoint_name c s dns_name record_type in
      elim (c.hash name s.namespace (built_spec s dns_name record_type none)) [
        | none ↦ false
        | some hash ↦ not (c.get_fails name) && holds (find_endpoint name stored) hash zone_name
      ]

  -- A write leaves the endpoints of other names.
  put_built-keeps :
      (name hash zone_name : Text) (spec : Spec) (other : Text) (stored : List Endpoint)
      → text_eq name other ≡ false
      → find_endpoint other (put_built c s name hash zone_name spec stored).0
        ≡ find_endpoint other stored
  put_built-keeps name hash zone_name spec other stored h =
      elim (Option-cases (find_endpoint name stored)) [
        | inl e ↦ elim (Option-cases (c.set_controller s.uid none)) [
          | inl k ↦ ground (arith, e, k)
          | inr (u, k) ↦ ground (arith, e, k, h)
        ]
        | inr (o, e) ↦
            let apart = name-eq o.name name other (find-name name stored o e) ∙ h in
            elim (Option-cases (c.set_controller s.uid o.controller)) [
              | inl k ↦ ground (arith, e, k)
              | inr (u, k) ↦
                  let new : Endpoint = record {
                    name = o.name;
                    namespace = o.namespace;
                    hash = some hash;
                    controller = some u;
                    spec = spec;
                  } in
                  ground (arith, e, k, find_kept other new stored apart)
            ]
      ]

  -- A record that is reconciled leaves those with endpoints of other names.
  pub reconcile_record-keeps :
      (zone_name dns_name record_type zone_m m u : Text) (stored : List Endpoint)
      → text_eq (endpoint_name c s dns_name record_type) (endpoint_name c s m u) ≡ false
      → is_settled zone_m m u (reconcile_record c s zone_name dns_name record_type stored).0
        ≡ is_settled zone_m m u stored
  unfolding reconcile_record
  reconcile_record-keeps zone_name dns_name record_type zone_m m u stored h =
      let name = endpoint_name c s dns_name record_type in
      elim (Option-cases (c.hash name s.namespace (built_spec s dns_name record_type none))) [
        | inl e ↦ ground (arith, e)
        | inr (hash, e) ↦
            let spec = built_spec s dns_name record_type (some zone_name) in
            let kept = put_built-keeps name hash zone_name spec (endpoint_name c s m u) stored h in
            ground (arith, e, kept)
      ]

  -- SetControllerReference makes the service the controller.
  module _ (project : same_option s.project s.project ≡ true)
      (owns : (o : Option Text) (v : Text) → c.set_controller s.uid o ≡ some v → v ≡ s.uid) where
    owned :
        (o : Option Text) (v : Text) → c.set_controller s.uid o ≡ some v → text_eq v s.uid ≡ true
    owned o v h = (text_iff v s.uid).1 (owns o v h)

    put_built-holds :
        (name hash zone_name : Text) (spec : Spec) (stored : List Endpoint)
        → spec.project ≡ s.project
        → spec.zone ≡ some zone_name
        → is_none (put_built c s name hash zone_name spec stored).1 ≡ true
        → (not (c.get_fails name)
            && holds
                (find_endpoint name (put_built c s name hash zone_name spec stored).0)
                hash
                zone_name)
          ≡ true
    put_built-holds name hash zone_name spec stored p z h =
        let fits = ap (same_option s.project) p ∙ project in
        let placed = ap (λ x. same_option x (some zone_name)) z ∙ text_refl zone_name in
        elim (Option-cases (find_endpoint name stored)) [
          | inl e ↦ elim (Option-cases (c.set_controller s.uid none)) [
            | inl k ↦ ground (arith, e, k, h)
            | inr (u, k) ↦ ground (
              arith,
              e,
              k,
              h,
              text_refl name,
              text_refl s.namespace,
              text_refl hash,
              owned none u k,
              fits,
              placed,
            )
          ]
          | inr (o, e) ↦ elim (Option-cases (c.set_controller s.uid o.controller)) [
            | inl k ↦ ground (arith, e, k, h)
            | inr (u, k) ↦
                let new : Endpoint = record {
                  name = o.name;
                  namespace = o.namespace;
                  hash = some hash;
                  controller = some u;
                  spec = spec;
                } in
                let named = find-name name stored o e in
                let found = find_replaced name new stored named (ap is_none e) in
                ground (arith, e, k, h, found, text_refl hash, owned o.controller u k, fits, placed)
          ]
        ]

    -- A record that is reconciled without error is settled.
    pub reconcile_record-is_settled :
        (zone_name dns_name record_type : Text) (stored : List Endpoint)
        → is_none (reconcile_record c s zone_name dns_name record_type stored).1 ≡ true
        → is_settled zone_name dns_name record_type
            (reconcile_record c s zone_name dns_name record_type stored).0
          ≡ true
    unfolding reconcile_record
    reconcile_record-is_settled zone_name dns_name record_type stored h =
        let name = endpoint_name c s dns_name record_type in
        elim (Option-cases (c.hash name s.namespace (built_spec s dns_name record_type none))) [
          | inl e ↦ ground (arith, e, h)
          | inr (hash, e) ↦
              let spec = built_spec s dns_name record_type (some zone_name) in
              let done : is_none (put_built c s name hash zone_name spec stored).1 ≡ true =
                ground (arith, e, h) in
              ground (arith, e, put_built-holds name hash zone_name spec stored refl refl done)
        ]
