-- ===== src/Main/Scopes.antt =====
-- cmd/main.go with internal/tenancy/cache.go: what the caches of a process hold. The cache of
-- controller-runtime is a parameter: ByObject limits the kinds that it lists to their namespaces.
use edgecdnx_controller.Common.{
  ◌≡◌, refl, sym, ap, ◌∙◌, ℕ, Bool, true, false, ◌||◌, ◌==◌, Option, none, some, List, [], ◌∷◌,
  Text, text_eq, text_refl, text_iff, any, if◌then◌else◌, arith, Bool-cases, inl, inr,
}
use edgecdnx_controller.Tenancy
use edgecdnx_controller.Tenancy.{Scope, cache_objects, validate}
use edgecdnx_controller.Controller.Downstream.{Key, Reconciler, Target}
use edgecdnx_controller.Controller.Downstream.Queue.{is_in_target, new_reconciler, SetUp}
use edgecdnx_controller.Main.{Flags, scope_is_valid, mirrored_namespace}

-- The number of a kind, by which kinds are compared.
abbrev pub number : Tenancy.Kind → ℕ
number Tenancy.Kind.project = 0
number Tenancy.Kind.api_key = 1
number Tenancy.Kind.dns_endpoint = 2
number Tenancy.Kind.health_check_profile = 3
number Tenancy.Kind.location = 4
number Tenancy.Kind.prefix_list = 5
number Tenancy.Kind.service = 6
number Tenancy.Kind.zone = 7

-- The namespaces that a map such as ByObject has for a kind.
abbrev pub namespaces_of : Tenancy.Kind → List (Tenancy.Kind × List Text) → Option (List Text)
namespaces_of kind [] = none
namespaces_of kind ((k, namespaces) ∷ objects) =
    if number k == number kind then some namespaces else namespaces_of kind objects

-- Whether the cache holds objects of a kind in a namespace, by the documentation of ByObject.
abbrev pub is_held : Option (List Text) → (namespace : Text) → Bool
is_held none namespace = true
is_held (some namespaces) namespace = any (text_eq namespace) namespaces

-- Without namespaces of their own, every kind is listed with the one namespace.
namespaces_of-cache_objects :
    (kind : Tenancy.Kind) (target : Text)
    → namespaces_of kind (cache_objects (record { namespaced = false; target_namespace = target }))
      ≡ some (target ∷ [])
unfolding cache_objects
namespaces_of-cache_objects Tenancy.Kind.project target = refl
namespaces_of-cache_objects Tenancy.Kind.api_key target = refl
namespaces_of-cache_objects Tenancy.Kind.dns_endpoint target = refl
namespaces_of-cache_objects Tenancy.Kind.health_check_profile target = refl
namespaces_of-cache_objects Tenancy.Kind.location target = refl
namespaces_of-cache_objects Tenancy.Kind.prefix_list target = refl
namespaces_of-cache_objects Tenancy.Kind.service target = refl
namespaces_of-cache_objects Tenancy.Kind.zone target = refl

held-cache_objects :
    (namespaced : Bool) (target : Text) (kind : Tenancy.Kind) (namespace : Text)
    → is_held
        (namespaces_of kind
          (cache_objects (record { namespaced = namespaced; target_namespace = target })))
        namespace
      ≡ (namespaced || text_eq namespace target)
unfolding cache_objects
held-cache_objects true target kind namespace = refl
held-cache_objects false target kind namespace =
    ap (λ o. is_held o namespace) (namespaces_of-cache_objects kind target) ∙ ground arith

-- The namespace of a reconciler, or another text.
abbrev namespace_of : (otherwise : Text) → SetUp → Text
namespace_of otherwise (inl (r, n)) = r.target_namespace
namespace_of otherwise (inr e) = otherwise

made_namespace :
    (target : Target) (namespace source_id : Text) (workers : ℕ) (r : Reconciler) (n : ℕ)
    → new_reconciler (some target) true namespace source_id workers ≡ inl (r, n)
    → r.target_namespace ≡ namespace
unfolding new_reconciler
made_namespace target namespace source_id workers r n made =
    elim (Bool-cases (text_eq source_id [])) [
      | inl e ↦ sym (ap (namespace_of namespace) made) ∙ ground (arith, e)
      | inr e ↦ sym (ap (namespace_of namespace) made) ∙ ground (arith, e)
    ]

module _ (is_dns1123_label : Text → Bool) (no_empty_label : is_dns1123_label [] ≡ false)
    (is_cached : List (Tenancy.Kind × List Text) → Tenancy.Kind → Text → Bool)
    (by_object : (objects : List (Tenancy.Kind × List Text)) (kind : Tenancy.Kind)
        (namespace : Text)
      → is_cached objects kind namespace ≡ is_held (namespaces_of kind objects) namespace) where
  -- A scope that is valid and has one namespace for all names it.
  target_named :
      (s : Scope)
      → elim (validate is_dns1123_label s) [ none ↦ true | some e ↦ false ] ≡ true
      → s.namespaced ≡ false
      → text_eq s.target_namespace [] ≡ false
  unfolding validate
  target_named s valid e = elim (Bool-cases (text_eq s.target_namespace [])) [
    | inr h ↦ h
    | inl h ↦
        let label = ap is_dns1123_label ((text_iff s.target_namespace []).0 h) ∙ no_empty_label in
        ground (arith, valid, e, label)
  ]

  -- The reconciler of the role downstream mirrors the keys of exactly the objects of a kind that the
  -- upstream cache, and the manager's, hold: those of the one namespace of the scope, or all. The
  -- scope passed main's check, an empty text is no DNS label, and the cache keeps to ByObject.
  pub is_cached-is_in_target :
      (source_id : Text) (f : Flags) (target : Target) (workers : ℕ) (r : Reconciler) (n : ℕ)
      (kind : Tenancy.Kind) (k : Key)
      → scope_is_valid is_dns1123_label source_id f ≡ true
      → new_reconciler
          (some target)
          true
          (mirrored_namespace is_dns1123_label source_id f)
          source_id
          workers
        ≡ inl (r, n)
      → is_cached (cache_objects f.scope) kind k.namespace ≡ is_in_target r k
  is_cached-is_in_target source_id f target workers r n kind k valid made =
      by_object (cache_objects f.scope) kind k.namespace
      ∙ held-cache_objects f.scope.namespaced f.scope.target_namespace kind k.namespace
      ∙ elim (Bool-cases f.scope.namespaced) [
        | inl e ↦ ground (arith, e, mirrored, text_refl [])
        | inr e ↦ ground (arith, e, mirrored, target_named f.scope valid e)
      ]
    where
      namespace : Text
      namespace = mirrored_namespace is_dns1123_label source_id f

      mirrored : is_in_target r k ≡ (text_eq namespace [] || text_eq k.namespace namespace)
      mirrored =
          ap (λ x. text_eq x [] || text_eq k.namespace x)
            (made_namespace target namespace source_id workers r n made)
