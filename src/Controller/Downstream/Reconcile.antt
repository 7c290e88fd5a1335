-- ===== src/Controller/Downstream/Reconcile.antt =====
-- internal/controller/downstream_controller.go: enqueueObject, ensureNamespace, upsert, deleteMirror
-- and reconcileKey. A call to the API server may fail before it acts.
use edgecdnx_controller.Common.{
  read, write, Bool, true, false, not, ◌&&◌, ◌||◌, Option, none, some, [], Text, text_eq,
  if◌then◌else◌,
}
use edgecdnx_controller.Controller.Downstream.{
  Object, Key, same_key, Failure, not_found, already_exists, Error, failed, Faults, Reconciler,
  find_kind, managed_label, adopted, with_meta, with_labels, clear_remote_metadata,
  set_empty_status, copy_local_status,
}

-- What the local cluster holds, and `r.namespaces`.
pub record Local (Spec Status : Type 0) : Type 0 where
  pub objects : Key → Option (Object Spec Status)
  pub has_namespace : Text → Bool
  pub known : Text → Bool

-- What the API server stores for a new object, for an update, and what a deletion leaves: nothing,
-- or an object in deletion that still has finalizers.
pub record Server (Spec Status : Type 0) : Type 0 where
  pub on_create : Object Spec Status → Object Spec Status
  pub on_update : (current desired : Object Spec Status) → Object Spec Status
  pub on_delete : Object Spec Status → Option (Object Spec Status)

-- What a call comes to: the cluster after it, and an error.
abbrev pub Outcome : (Spec Status : Type 0) → Type 0
Outcome Spec Status = Local Spec Status × Option Error

abbrev pub reject : Failure → Option Error
reject e = some (failed e)

-- `client.IgnoreNotFound` and `!apierrors.IsAlreadyExists(err)`
abbrev pub ignore_not_found : Failure → Option Error
ignore_not_found not_found = none
ignore_not_found e = reject e

abbrev pub ignore_exists : Failure → Option Error
ignore_exists already_exists = none
ignore_exists e = reject e

module _ {Spec Status : Type 0} where
  abbrev pub put_object : Key → Option (Object Spec Status) → Local Spec Status → Local Spec Status
  put_object key o l = record {
    objects = λ k. if same_key key k then o else l.objects k;
    has_namespace = l.has_namespace;
    known = l.known;
  }

  -- The namespace is there and noted.
  abbrev pub note_namespace : (created : Bool) → Text → Local Spec Status → Local Spec Status
  note_namespace created namespace l = record {
    objects = l.objects;
    has_namespace = λ n. (created && text_eq namespace n) || l.has_namespace n;
    known = λ n. text_eq namespace n || l.known n;
  }

  abbrev pub is_managed : Reconciler → Object Spec Status → Bool
  is_managed r o = text_eq (read o.labels managed_label) r.source_id

  module _ (r : Reconciler) (empty : Status) where
    -- `desired`, before the local object is read.
    abbrev pub desired : Object Spec Status → Object Spec Status
    desired source =
        let d = set_empty_status empty (clear_remote_metadata source) in
        with_labels (write d.labels managed_label r.source_id) d

    -- `desired`, as it is compared with the local object and written over it.
    abbrev pub adapted : (source current : Object Spec Status) → Object Spec Status
    adapted source current =
        copy_local_status (with_meta (adopted current.meta) (desired source)) current

  module _ (server : Server Spec Status) (faults : Faults) where
    -- `r.Local.Get` of an object.
    abbrev pub get_object :
        Key
        → Local Spec Status
        → (on_error : Failure → Outcome Spec Status)
        → (found : Object Spec Status → Outcome Spec Status) → Outcome Spec Status
    get_object key l on_error found = elim faults.get [
      | some e ↦ on_error e
      | none ↦ elim (l.objects key) [ none ↦ on_error not_found | some o ↦ found o ]
    ]

    -- `r.Local.Create`
    abbrev pub create_object : Key → Object Spec Status → Local Spec Status → Outcome Spec Status
    create_object key o l = elim faults.create [
      | some e ↦ (l, reject e)
      | none ↦ elim (l.objects key) [
        | none ↦ (put_object key (some (server.on_create o)) l, none)
        | some c ↦ (l, reject already_exists)
      ]
    ]

    -- `r.Local.Update`
    abbrev pub update_object :
        Key → (current desired : Object Spec Status) → Local Spec Status → Outcome Spec Status
    update_object key current desired l = elim faults.update [
      | some e ↦ (l, reject e)
      | none ↦ (put_object key (some (server.on_update current desired)) l, none)
    ]

    -- ensureNamespace, from `r.Local.Create` on.
    abbrev pub create_namespace : Text → Local Spec Status → Outcome Spec Status
    create_namespace namespace l = elim faults.create_namespace [
      | some e ↦ elim (ignore_exists e) [
        | some error ↦ (l, some error)
        | none ↦ (note_namespace false namespace l, none)
      ]
      | none ↦ (note_namespace true namespace l, none)
    ]

    abbrev pub get_namespace : Text → Local Spec Status → Outcome Spec Status
    get_namespace namespace l = elim faults.get_namespace [
      | some not_found ↦ create_namespace namespace l
      | some e ↦ (l, reject e)
      | none ↦
          if l.has_namespace namespace
          then (note_namespace false namespace l, none)
          else create_namespace namespace l
    ]

    unfoldable pub ensure_namespace : Text → Local Spec Status → Outcome Spec Status
    ensure_namespace namespace l =
        if text_eq namespace []
        then (l, some Error.empty_namespace)
        else if l.known namespace
        then (l, none)
        else get_namespace namespace l

    module _ (r : Reconciler) (empty : Status) where
      module _ (deep_equal : Object Spec Status → Object Spec Status → Bool) where
        -- upsert, once the local object is found.
        abbrev pub overwrite :
            Key → (source current : Object Spec Status) → Local Spec Status → Outcome Spec Status
        overwrite key source current l =
            if not (is_managed r current)
            then (l, some Error.not_managed)
            else elim current.meta.deletion_timestamp [
              | some t ↦ (l, none)
              | none ↦
                  if deep_equal current (adapted r empty source current)
                  then (l, none)
                  else update_object key current (adapted r empty source current) l
            ]

        unfoldable pub upsert :
            Key → (source : Object Spec Status) → Local Spec Status → Outcome Spec Status
        upsert key source l =
            get_object key l
              (λ e. elim e [
                | not_found ↦ create_object key (desired r empty source) l
                | e ↦ (l, reject e)
              ])
              (λ current. overwrite key source current l)

        unfoldable pub delete_mirror : Key → Local Spec Status → Outcome Spec Status
        delete_mirror key l =
            get_object key l (λ e. (l, ignore_not_found e))
              (λ current. if not (is_managed r current) then (l, none) else elim faults.delete [
                | some e ↦ (l, ignore_not_found e)
                | none ↦ (put_object key (server.on_delete current) l, none)
              ])

        -- reconcileKey; `upstream` is the object of the key in the upstream cache.
        abbrev pub reconcile_found :
            Key → Object Spec Status → Local Spec Status → Outcome Spec Status
        reconcile_found key source l =
            let (after, error) = ensure_namespace source.namespace l in
            elim error [ some e ↦ (after, some e) | none ↦ upsert key source after ]

        abbrev pub reconcile_kind :
            Key → Option (Object Spec Status) → Local Spec Status → Outcome Spec Status
        reconcile_kind key upstream l = elim faults.get_upstream [
          | some not_found ↦ delete_mirror key l
          | some e ↦ (l, reject e)
          | none ↦ elim upstream [
            | none ↦ delete_mirror key l
            | some source ↦ reconcile_found key source l
          ]
        ]

        unfoldable pub reconcile_key :
            Key → Option (Object Spec Status) → Local Spec Status → Outcome Spec Status
        reconcile_key key upstream l =
            if not (text_eq r.target_namespace []) && not (text_eq key.namespace r.target_namespace)
            then (l, none)
            else elim (find_kind key.kind r.kinds) [
              | none ↦ (l, some Error.unknown_kind)
              | some kind ↦ reconcile_kind key upstream l
            ]
