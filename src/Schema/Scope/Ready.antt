-- ===== src/Schema/Scope/Ready.antt =====
-- schema/scope.go: a new scope has its root object, and all its references are linked.
use arcaflow_plugin_sdk_go.Common.{
  ℕ, suc, Bytes, str_eq, str_eq_iff, str_eq_refl, List, [], ◌∷◌, some, lookup, insert,
  lookup-insert, get_elem?, Bool-cases, inl, inr, ◌≡◌, refl, sym, ap, ◌∙◌, subst, arith,
  some_injective, ◌==◌, ==_iff,
}
use arcaflow_plugin_sdk_go.Go.Result.{Result, ok, >>=-eq-ok, ok_injective}
use arcaflow_plugin_sdk_go.Schema.Types.{
  Schema, scope_schema, Object, object, Store, object_id, root_object,
}
use arcaflow_plugin_sdk_go.Schema.Namespace.{
  Objects, apply_object, apply_properties, set_object, apply_entries, apply_scope, self_namespace,
  validate_scope,
}
use arcaflow_plugin_sdk_go.Schema.Namespace.Linking.{apply_object-Post}
use arcaflow_plugin_sdk_go.Schema.Namespace.Scope.{
  AllResolvable, at_address-eq-ok, get_elem?-set_object_same, get_elem?-set_object_other,
  set_object-AllResolvable, validate_scope-apply_scope,
}
use arcaflow_plugin_sdk_go.Schema.Scope.{add_objects, new_scope_schema}

-- The map's entry for the ID is the address of an object with this ID.
abbrev pub Entry : Store → Objects → Bytes → Type 0
Entry st m id =
    (a : ℕ) × (lookup id m ≡ some a) × (o : Object) × (get_elem? st a ≡ some o) × (object_id o ≡ id)

-- The objects at the addresses keep their IDs.
abbrev pub KeepsIds : Store → Store → Type 0
KeepsIds st st' =
    (a : ℕ) (o : Object)
    → get_elem? st a ≡ some o
    → (o' : Object) × (get_elem? st' a ≡ some o') × (object_id o' ≡ object_id o)

add_objects-Entry :
    (st : Store) (m : Objects) (others : List ℕ) (id : Bytes) {m' : Objects}
    → add_objects st m others ≡ ok m'
    → Entry st m id
    → Entry st m' id
unfolding add_objects
add_objects-Entry st m [] id h e = subst (λ x. Entry st x id) (ok_injective h) e
add_objects-Entry st m (a ∷ others) id h e =
    let (o, found, rest) = at_address-eq-ok st a _ h in
    add_objects-Entry st (insert (object_id o) a m) others id rest (added o found)
  where
    added : (o : Object) → get_elem? st a ≡ some o → Entry st (insert (object_id o) a m) id
    added o found = elim (Bool-cases (str_eq (object_id o) id)) [
      | inl same ↦ (
        a,
        lookup-insert (object_id o) id a m ∙ rw same refl,
        o,
        found,
        (str_eq_iff (object_id o) id).0 same,
      )
      | inr differs ↦ (e.0, lookup-insert (object_id o) id a m ∙ rw differs (e.1), e.2, e.3, e.4)
    ]

apply_object-id :
    (nested : Store → Objects → Result Store) (objects : Objects) (ns : Bytes) (st : Store)
    (o : Object) (r : Store × Object)
    → apply_object nested objects ns st o ≡ ok r
    → object_id r.1 ≡ object_id o
unfolding apply_object
apply_object-id nested objects ns st (object id unenforced ps) r h =
    let (q, applied, result) = >>=-eq-ok (apply_properties nested objects ns st ps) _ h in
    ap (λ x. object_id x.1) (sym (ok_injective result))

abbrev no_references : Objects → Result (Unit {0})
no_references m = ok tt

module _ (nested : Store → Objects → Result Store) (objects : Objects) (ns : Bytes) where
  set_object-KeepsIds :
      (st : Store) (a : ℕ) (o p : Object)
      → get_elem? st a ≡ some o
      → object_id p ≡ object_id o
      → KeepsIds st (set_object a p st)
  set_object-KeepsIds st a o p found same_id b q h = elim (Bool-cases (a == b)) [
    | inl same ↦ (
      p,
      subst (λ x. get_elem? (set_object a p st) x ≡ some p) ((==_iff a b).0 same)
          (get_elem?-set_object_same a p st found),
      same_id
          ∙ ap object_id (some_injective (sym found ∙ ap (get_elem? st) ((==_iff a b).0 same) ∙ h)),
    )
    | inr differs ↦ (q, get_elem?-set_object_other a b p st (λ e. ground (arith, e)) ∙ h, refl)
  ]

  apply_entries-KeepsIds :
      (es : Objects) (st st' : Store)
      → apply_entries nested objects ns es st ≡ ok st'
      → AllResolvable ns st
      → KeepsIds st st'
  unfolding apply_entries
  apply_entries-KeepsIds [] st st' h all =
      subst (λ s. KeepsIds st s) (ok_injective h) (λ a o e. (o, e, refl))
  apply_entries-KeepsIds ((id, a) ∷ es) st st' h all =
      let (o, found, g) = at_address-eq-ok st a _ h in
      let (r, applied, rest) = >>=-eq-ok (apply_object nested objects ns st o) _ g in
      let (valid, resolvable, same) =
        apply_object-Post nested objects ns no_references st o r applied (all a o found) in
      let rest' : apply_entries nested objects ns es (set_object a r.1 st) ≡ ok st' =
        subst (λ s. apply_entries nested objects ns es (set_object a r.1 s) ≡ ok st') same rest in
      let keeps = apply_entries-KeepsIds es (set_object a r.1 st) st' rest' (
        set_object-AllResolvable nested objects ns no_references st a o r.1 found valid resolvable
          all) in
      let first =
        set_object-KeepsIds st a o r.1 found (apply_object-id nested objects ns st o r applied) in
      λ b q e.
        let (q', at_b, id_kept) = first b q e in
        let (q'', at_b', id_kept') = keeps b q' at_b in (q'', at_b', id_kept' ∙ id_kept)

-- With an entry for the root, RootObject succeeds.
root_object-Entry :
    (st st' : Store) (m : Objects) (root : Bytes)
    → Entry st m root
    → KeepsIds st st'
    → (o : Object) × (root_object st' m root ≡ ok o) × (object_id o ≡ root)
unfolding root_object
root_object-Entry st st' m root (a, entry, o, found, id) keeps =
    let (o', found', kept) = keeps a o found in
    (
      o',
      rw (entry, root_object)
          (rw (found', root_object) (rw ((str_eq_iff (object_id o') root).1 (kept ∙ id)) refl)),
      kept ∙ id,
    )

first-Entry :
    (st : Store) (a : ℕ) (o : Object)
    → get_elem? st a ≡ some o
    → Entry st ((object_id o, a) ∷ []) (object_id o)
unfolding lookup
first-Entry st a o found = (a, rw (str_eq_refl (object_id o)) refl, o, found, refl)

apply_scope-KeepsIds :
    (f : ℕ) (st st' : Store) (m : Objects)
    → apply_scope (suc f) self_namespace [] st m ≡ ok st'
    → AllResolvable self_namespace st
    → KeepsIds st st'
unfolding apply_scope str_eq
apply_scope-KeepsIds f st st' m h all =
    apply_entries-KeepsIds (λ s nested. apply_scope f self_namespace m s nested) m self_namespace m
      st st' h all

-- A scope that NewScopeSchema returns has a root object with the ID that the scope names, and ValidateReferences
-- finds every reference linked, where the objects in the store hold no scopes, and each of their
-- references is of the scope's own namespace or has its object already. This is so also where a further
-- object has the ID of the root and takes its place.
pub new_scope_schema-Ready :
    (f g : ℕ) (st st' : Store) (root : ℕ) (others : List ℕ) (s : Schema)
    → new_scope_schema (suc f) st root others ≡ ok (st', s)
    → AllResolvable self_namespace st
    → (m : Objects) × (id : Bytes) × (s ≡ scope_schema m id)
      × (o : Object) × (root_object st' m id ≡ ok o)
      × (object_id o ≡ id)
      × (validate_scope (suc g) st' m ≡ ok tt)
unfolding new_scope_schema
new_scope_schema-Ready f g st st' root others s h all =
    let (o, found, rest) = at_address-eq-ok st root _ h in
    let (m, added, rest') = >>=-eq-ok (add_objects st ((object_id o, root) ∷ []) others) _ rest in
    let (st'', applied, result) = >>=-eq-ok (apply_scope (suc f) self_namespace [] st m) _ rest' in
    let same : st'' ≡ st' = ap (λ x. x.0) (ok_injective result) in
    let applied' : apply_scope (suc f) self_namespace [] st m ≡ ok st' =
      subst (λ x. apply_scope (suc f) self_namespace [] st m ≡ ok x) same applied in
    let entry =
      add_objects-Entry st ((object_id o, root) ∷ []) others (object_id o) added
        (first-Entry st root o found) in
    let (p, is_root, id) =
      root_object-Entry st st' m (object_id o) entry
        (apply_scope-KeepsIds f st st' m applied' all) in
    (
      m,
      object_id o,
      ap (λ x. x.1) (sym (ok_injective result)),
      p,
      is_root,
      id,
      validate_scope-apply_scope f g self_namespace [] m st st' applied' all,
    )
