-- ===== src/Schema/Namespace/Scope.antt =====
-- The loops of ScopeSchema.ApplyNamespace and ScopeSchema.ValidateReferences.
use arcaflow_plugin_sdk_go.Common.{
  ℕ, zero, suc, Bytes, str_eq, [], ◌∷◌, All, none, some, get_elem?, if◌then◌else◌, Bool-cases,
  Option-cases, inl, inr, ◌≡◌, ◌≢◌, refl, sym, ap, ◌∙◌, subst, arith, some_injective, ◌==◌, ==_iff,
}
use arcaflow_plugin_sdk_go.Go.Result.{Result, ok, ◌>>◌, >>=-eq-ok, ok_injective}
use arcaflow_plugin_sdk_go.Schema.Types.{Object, Store}
use arcaflow_plugin_sdk_go.Schema.Namespace.{
  Objects, apply_object, set_object, at_address, apply_entries, apply_scope, self_namespace,
  validate_object_references, validate_entries, validate_scope,
}
use arcaflow_plugin_sdk_go.Schema.Namespace.Linking.{ResolvableObject, apply_object-Post}

get_elem?-set_object :
    (a b : ℕ) (o : Object) (st : Store)
    → get_elem? (set_object a o st) b
      ≡ (if a == b then elim (get_elem? st a) [ none ↦ none | some p ↦ some o ] else get_elem? st b)
unfolding set_object
get_elem?-set_object a b o [] = ground arith
get_elem?-set_object zero zero o (p ∷ st) = refl
get_elem?-set_object zero (suc b) o (p ∷ st) = ground arith
get_elem?-set_object (suc a) zero o (p ∷ st) = ground arith
get_elem?-set_object (suc a) (suc b) o (p ∷ st) = ground (arith, get_elem?-set_object a b o st)

pub get_elem?-set_object_same :
    (a : ℕ) (o : Object) (st : Store) {p : Object}
    → get_elem? st a ≡ some p
    → get_elem? (set_object a o st) a ≡ some o
get_elem?-set_object_same a o st h = ground (arith, get_elem?-set_object a a o st)

pub get_elem?-set_object_other :
    (a b : ℕ) (o : Object) (st : Store) → a ≢ b → get_elem? (set_object a o st) b ≡ get_elem? st b
get_elem?-set_object_other a b o st d = ground (arith, get_elem?-set_object a b o st)

pub at_address-eq-ok :
    {A : Type 0} (st : Store) (a : ℕ) (next : Object → Result A) {x : A}
    → at_address st a next ≡ ok x
    → (o : Object) × (get_elem? st a ≡ some o) × (next o ≡ ok x)
at_address-eq-ok st a next h = elim (Option-cases (get_elem? st a)) [
  | inl missing ↦ absurd (cc (rw (at_address, missing) at h))
  | inr (o, found) ↦ (o, found, rw (at_address, found) at h)
]

pub at_address-found :
    {A : Type 0} (st : Store) (a : ℕ) (next : Object → Result A) {o : Object}
    → get_elem? st a ≡ some o
    → at_address st a next ≡ next o
at_address-found st a next h = rw (at_address, h) refl

-- Every object in the store can be linked.
abbrev pub AllResolvable : Bytes → Store → Type 0
AllResolvable ns st = (a : ℕ) (o : Object) → get_elem? st a ≡ some o → ResolvableObject ns o

module _ (nested : Store → Objects → Result Store) (objects : Objects) (ns : Bytes)
    (nested_references : Objects → Result (Unit {0})) where
  -- The object at an address has all its references.
  abbrev Valid : Store → ℕ → Type 0
  Valid st a =
      (o : Object) × (get_elem? st a ≡ some o)
      × (validate_object_references nested_references o ≡ ok tt)

  -- One round of the loop.
  module _ (st : Store) (a : ℕ) (o p : Object) (found : get_elem? st a ≡ some o)
      (valid : validate_object_references nested_references p ≡ ok tt)
      (resolvable : ResolvableObject ns p) where
    set_object-Valid : Valid (set_object a p st) a
    set_object-Valid = (p, get_elem?-set_object_same a p st found, valid)

    set_object-keeps : (b : ℕ) → Valid st b → Valid (set_object a p st) b
    set_object-keeps b v = elim (Bool-cases (a == b)) [
      | inl same ↦ subst (Valid (set_object a p st)) ((==_iff a b).0 same) set_object-Valid
      | inr differs ↦ (v.0, get_elem?-set_object_other a b p st (λ e. ground (arith, e)) ∙ v.1, v.2)
    ]

    pub set_object-AllResolvable : AllResolvable ns st → AllResolvable ns (set_object a p st)
    set_object-AllResolvable all b q h = elim (Bool-cases (a == b)) [
      | inl same ↦
          let e : get_elem? (set_object a p st) b ≡ some p =
            ap (get_elem? (set_object a p st)) (sym ((==_iff a b).0 same))
            ∙ get_elem?-set_object_same a p st found in
          subst (ResolvableObject ns) (some_injective (sym e ∙ h)) resolvable
      | inr differs ↦
          all b q (sym (get_elem?-set_object_other a b p st (λ e. ground (arith, e))) ∙ h)
    ]

  apply_entries-Valid :
      (es : Objects) (st st' : Store)
      → apply_entries nested objects ns es st ≡ ok st'
      → AllResolvable ns st
      → All (λ e. Valid st' e.1) es × ((b : ℕ) → Valid st b → Valid st' b)
  unfolding apply_entries
  apply_entries-Valid [] st st' h all = (tt, λ b v. subst (λ s. Valid s b) (ok_injective h) v)
  apply_entries-Valid ((id, a) ∷ es) st st' h all =
      let (o, found, g) = at_address-eq-ok st a _ h in
      let (r, applied, rest) = >>=-eq-ok (apply_object nested objects ns st o) _ g in
      let (valid, resolvable, same) =
        apply_object-Post nested objects ns nested_references st o r applied (all a o found) in
      let rest' : apply_entries nested objects ns es (set_object a r.1 st) ≡ ok st' =
        subst (λ s. apply_entries nested objects ns es (set_object a r.1 s) ≡ ok st') same rest in
      let (valids, keeps) =
        apply_entries-Valid es (set_object a r.1 st) st' rest'
          (set_object-AllResolvable st a o r.1 found valid resolvable all) in
      (
        (keeps a (set_object-Valid st a o r.1 found valid resolvable), valids),
        λ b v. keeps b (set_object-keeps st a o r.1 found valid resolvable b v),
      )

  apply_entries-AllResolvable :
      (es : Objects) (st st' : Store)
      → apply_entries nested objects ns es st ≡ ok st'
      → AllResolvable ns st
      → AllResolvable ns st'
  unfolding apply_entries
  apply_entries-AllResolvable [] st st' h all = subst (AllResolvable ns) (ok_injective h) all
  apply_entries-AllResolvable ((id, a) ∷ es) st st' h all =
      let (o, found, g) = at_address-eq-ok st a _ h in
      let (r, applied, rest) = >>=-eq-ok (apply_object nested objects ns st o) _ g in
      let (valid, resolvable, same) =
        apply_object-Post nested objects ns nested_references st o r applied (all a o found) in
      let rest' : apply_entries nested objects ns es (set_object a r.1 st) ≡ ok st' =
        subst (λ s. apply_entries nested objects ns es (set_object a r.1 s) ≡ ok st') same rest in
      apply_entries-AllResolvable es (set_object a r.1 st) st' rest'
        (set_object-AllResolvable st a o r.1 found valid resolvable all)

  validate_entries-Valid :
      (es : Objects) (st : Store)
      → All (λ e. Valid st e.1) es
      → validate_entries nested_references st es ≡ ok tt
  unfolding validate_entries
  validate_entries-Valid [] st h = refl
  validate_entries-Valid ((id, a) ∷ es) st h =
      at_address-found st a _ h.0.1
      ∙ ap (λ r. r >> validate_entries nested_references st es) h.0.2
      ∙ validate_entries-Valid es st h.1

-- The object at an address has all its references, where `references` validates those of its scopes.
abbrev pub Linked : (references : Objects → Result (Unit {0})) → Store → ℕ → Type 0
Linked references st a =
    (o : Object) × (get_elem? st a ≡ some o) × (validate_object_references references o ≡ ok tt)

-- What ApplyNamespace of a scope does to the objects of the scope, and to all others.
pub apply_scope-Linked :
    (references : Objects → Result (Unit {0})) (f : ℕ) (ns : Bytes) (external os : Objects)
    (st st' : Store)
    → apply_scope (suc f) ns external st os ≡ ok st'
    → AllResolvable ns st
    → All (λ e. Linked references st' e.1) os
      × ((b : ℕ) → Linked references st b → Linked references st' b)
      × AllResolvable ns st'
unfolding apply_scope
apply_scope-Linked references f ns external os st st' h all =
    let objects : Objects = if str_eq ns self_namespace then os else external in
    let nested = λ (s : Store) (m : Objects). apply_scope f ns objects s m in
    let (linked, keeps) = apply_entries-Valid nested objects ns references os st st' h all in
    (linked, keeps, apply_entries-AllResolvable nested objects ns references os st st' h all)

pub validate_scope-Linked :
    (g : ℕ) (os : Objects) (st : Store)
    → All (λ e. Linked (λ nested. validate_scope g st nested) st e.1) os
    → validate_scope (suc g) st os ≡ ok tt
unfolding validate_scope
validate_scope-Linked g os st h =
    validate_entries-Valid (λ s m. ok s) [] [] (λ nested. validate_scope g st nested) os st h

-- After ApplyNamespace of a scope, ValidateReferences finds no reference without its object, where the
-- objects in the store hold no scopes, and each of their references is of the applied namespace
-- or has its object already. This holds for the scope's own namespace and for one of the caller.
pub validate_scope-apply_scope :
    (f g : ℕ) (ns : Bytes) (external os : Objects) (st st' : Store)
    → apply_scope (suc f) ns external st os ≡ ok st'
    → AllResolvable ns st
    → validate_scope (suc g) st' os ≡ ok tt
validate_scope-apply_scope f g ns external os st st' h all =
    validate_scope-Linked g os st'
      (apply_scope-Linked (λ nested. validate_scope g st' nested) f ns external os st st' h all).0
