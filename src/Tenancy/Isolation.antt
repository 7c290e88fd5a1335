-- ===== src/Tenancy/Isolation.antt =====
-- What the admission of an object guarantees: its project, its namespace, and its references.
use edgecdnx_controller.Common.{
  ◌≡◌, refl, sym, ◌∙◌, ap, Bool, true, false, not, ◌&&◌, Option, none, some, [], Text, text_eq,
  text_iff, all, All, All-of_all, All-mono, if◌then◌else◌, arith, Option-cases, inl, inr, and_left,
  and_right,
}
use edgecdnx_controller.Webhook.Admission.{is_none}
use edgecdnx_controller.Tenancy.{
  Scope, Kind, plain, Object, Reader, Error, validate_namespace, validate_project,
  validate_referenced, validate_member, validate_resource, project_reference, same_reference,
  same_project, decoded, allowed, answer, handle, update,
}
use edgecdnx_controller.Tenancy.References.{
  Reference, references, names_itself, resolves, body_resolves,
}

-- Whether the scope lets the namespace hold the project.
abbrev pub fits : Scope → (namespace project : Text) → Bool
fits s namespace project =
    if s.namespaced then text_eq project namespace else text_eq namespace s.target_namespace

-- A Project is admitted exactly when its name fits its namespace.
pub project_fits :
    (s : Scope) (namespace name : Text)
    → is_none (validate_project s namespace name) ≡ fits s namespace name
unfolding validate_project validate_namespace
project_fits s namespace name = ground arith

abbrev pub is_authorised : Scope → Reader → Object → Option Object → Text → Bool
is_authorised s get o old p =
    not (text_eq p [])
    && (fits s o.namespace p
        && (elim old [ none ↦ true | some b ↦ same_reference (project_reference b) (some p) ]
            && (elim (get Kind.project o.namespace p) [ none ↦ false | some q ↦ not q.deleting ]
                && (not (names_itself o.name o.body) && all (resolves get o) (references o.body)))))

referenced_fits :
    (s : Scope) (get : Reader) (o : Object) (old : Option Object) (p : Text)
    → (not (text_eq p []) && is_none (validate_referenced get o s old p))
      ≡ is_authorised s get o old p
unfolding validate_referenced
referenced_fits s get o old p =
    ground (arith, project_fits s o.namespace p, body_resolves get o o.body)

-- An object that is no Project passes exactly when it refers to a project that is not empty, the
-- scope lets its namespace hold that project, an old object has the same reference, the project is
-- there and is not being deleted, no location names itself, and every reference names an object of
-- the same namespace and project.
pub is_none-validate_member :
    (s : Scope) (get : Reader) (o : Object) (old : Option Object)
    → is_none (validate_member get o s old)
      ≡ elim (project_reference o) [ none ↦ false | some p ↦ is_authorised s get o old p ]
unfolding validate_member validate_namespace
is_none-validate_member s get o old = elim (Option-cases (project_reference o)) [
  | inl e ↦ rw e (ground arith)
  | inr (p, e) ↦ rw e (ground (arith, referenced_fits s get o old p))
]

-- A reference that resolves, spelled out.
abbrev pub Names : Reader → Object → (project : Text) → Reference → Type 0
Names get o p (kind, name) =
    (t : Object) × (get kind o.namespace name ≡ some t)
    × (t.namespace ≡ o.namespace)
    × (project_reference t ≡ some p)

same_reference-eq : (p : Text) (q : Option Text) → same_reference (some p) q ≡ true → q ≡ some p
unfolding same_reference
same_reference-eq p none h = cc
same_reference-eq p (some q) h = ap some (sym ((text_iff p q).0 h))

same_project-eq :
    (o t : Object) (p : Text)
    → project_reference o ≡ some p
    → same_project o t ≡ true
    → (t.namespace ≡ o.namespace) × (project_reference t ≡ some p)
unfolding same_project
same_project-eq o t p e h = (
  sym ((text_iff o.namespace t.namespace).0 (and_left _ _ h)),
  same_reference-eq p (project_reference t)
      (rw (← e) (and_right (text_eq o.namespace t.namespace) _ h)),
)

resolves-Names :
    (get : Reader) (o : Object) (p : Text) (r : Reference)
    → project_reference o ≡ some p
    → resolves get o r ≡ true
    → Names get o p r
unfolding resolves
resolves-Names get o p (kind, name) e h = elim (Option-cases (get kind o.namespace name)) [
  | inl g ↦ absurd (missing g)
  | inr (t, g) ↦
      let same : same_project o t ≡ true = ground arith in
      (t, g, (same_project-eq o t p e same).0, (same_project-eq o t p e same).1)
]
  where
    missing : get kind o.namespace name ≡ none → ⊥
    missing g = ground arith

-- An object that is admitted and is no Project has a project, and all that it names lies in its own
-- namespace and belongs to that project.
pub validate_member-Names :
    (s : Scope) (get : Reader) (o : Object) (old : Option Object)
    → is_none (validate_member get o s old) ≡ true
    → (p : Text) × (project_reference o ≡ some p)
      × (fits s o.namespace p ≡ true)
      × All (Names get o p) (references o.body)
validate_member-Names s get o old h =
    let h' = sym (is_none-validate_member s get o old) ∙ h in
    elim (Option-cases (project_reference o)) [
      | inl e ↦ absurd (missing e h')
      | inr (p, e) ↦
          let k : is_authorised s get o old p ≡ true = rw e at h' in
          (
            p,
            e,
            ground arith,
            All-mono (references o.body) (λ r q. resolves-Names get o p r e q)
                (All-of_all (resolves get o) (references o.body) (ground arith)),
          )
    ]
  where
    missing :
        project_reference o ≡ none
        → (elim (project_reference o) [ none ↦ false | some p ↦ is_authorised s get o old p ])
          ≡ true
        → ⊥
    missing e k = ground arith

-- The body of a Project.
abbrev pub is_project : Object → Bool
is_project o = elim o.body [ plain Kind.project ↦ true | _ ↦ false ]

resource_member :
    (s : Scope) (get : Reader) (o : Object) (old : Option Object)
    → is_project o ≡ false
    → validate_resource s get o old ≡ validate_member get o s old
unfolding validate_resource
resource_member s get o old h = ground arith

answer-allowed : (r : Option Error) → answer r ≡ allowed → is_none r ≡ true
answer-allowed none h = refl
answer-allowed (some e) h = cc

old_reference : (q : Option Text) (p : Text) → same_reference q (some p) ≡ true → q ≡ some p
unfolding same_reference
old_reference none p h = cc
old_reference (some q) p h = ap some ((text_iff q p).0 h)

-- An update that the handler allows leaves the project of an object as it was, a Project apart.
pub handle-update_project :
    (s : Scope) (get : Reader) (o old : Object)
    → is_project o ≡ false
    → handle s get update (decoded o) (decoded old) ≡ allowed
    → (p : Text) × (project_reference o ≡ some p) × (project_reference old ≡ some p)
unfolding handle
handle-update_project s get o old member h =
    let passed : is_none (validate_member get o s (some old)) ≡ true =
      answer-allowed _ (ap answer (sym (resource_member s get o (some old) member)) ∙ h) in
    let authorised = sym (is_none-validate_member s get o (some old)) ∙ passed in
    let (p, e, fit, named) = validate_member-Names s get o (some old) passed in
    let k : is_authorised s get o (some old) p ≡ true = rw e at authorised in
    (p, e, old_reference (project_reference old) p (ground arith))
