-- ===== src/Schema/Namespace.antt =====
-- schema/ref.go, scope.go, oneof.go, object.go, property.go, list.go, map.go: ApplyNamespace, which
-- links references to objects, and ValidateReferences. The objects of a scope lie in the store.
pub mod Linking
pub mod Scope
pub mod Success
use arcaflow_plugin_sdk_go.Common.{
  ℕ, zero, suc, Bytes, codes, str_eq, Bool, true, false, not, ◌&&◌, ◌||◌, List, [], ◌∷◌, Option,
  none, some, is_some, get_elem?, lookup, if◌then◌else◌,
}
use arcaflow_plugin_sdk_go.Go.Value.{GoType, int_type, int64, string_type, type_eq}
use arcaflow_plugin_sdk_go.Go.Result.{
  Result, ok, err, panic, out_of_fuel, bad_argument, ◌>>=◌, ◌>>◌,
}
use arcaflow_plugin_sdk_go.Schema.Types.{
  Schema, list_schema, map_schema, object_schema, ref_schema, scope_schema, one_of_schema, Object,
  object, Properties, no_properties, property, Choices, no_choices, choice, KeyType, int_keys,
  string_keys, Property, Store, root_object, linked_object, reflected_type, object_properties,
}

-- The objects that a scope or a caller offers, by their IDs.
abbrev pub Objects : Type 0
Objects = List (Bytes × ℕ)

-- The store and what a method has become of its receiver.
abbrev pub Applied : Type 0 → Type 0
Applied A = Result (Store × A)

-- RefSchema.ApplyNamespace: it panics on a missing object of its namespace.
unfoldable pub link_ref : Objects → Bytes → (id namespace : Bytes) → Option ℕ → Result (Option ℕ)
link_ref objects ns id namespace link =
    if str_eq ns namespace
    then elim (lookup id objects) [ none ↦ panic | some a ↦ ok (some a) ]
    else ok link

-- Properties of the type of a choice, which is an object, a reference or a scope.
unfoldable pub choice_properties : Store → Schema → Result (List (Bytes × Property))
choice_properties store (object_schema o) = ok (object_properties o)
choice_properties store (ref_schema id ns link) = do
  o ← linked_object store link
  ok (object_properties o)
choice_properties store (scope_schema objects root) = do
  o ← root_object store objects root
  ok (object_properties o)
choice_properties store s = panic

-- The kind of a key, as a type.
abbrev pub key_type : KeyType → GoType
key_type int_keys = int_type int64
key_type string_keys = string_type

-- The switch of validateSubtypeDiscriminatorInlineFields, for one choice.
unfoldable pub check_discriminator_field :
    Store → KeyType → (inlined : Bool) → Option Property → Result (Unit {0})
unfolding type_eq
check_discriminator_field store kt inlined none = if inlined then err bad_argument else ok tt
check_discriminator_field store kt true (some p) = do
  t ← reflected_type store p.type
  if type_eq t (key_type kt) then ok tt else err bad_argument
check_discriminator_field store kt false (some p) = err bad_argument

unfoldable pub check_subtypes : Store → KeyType → Bytes → Bool → Choices → Result (Unit {0})
unfolding choice_properties check_discriminator_field
check_subtypes store kt d inlined no_choices = ok tt
check_subtypes store kt d inlined (choice k s cs) = do
  ps ← choice_properties store s
  check_discriminator_field store kt inlined (lookup d ps) >> check_subtypes store kt d inlined cs

-- `if err != nil { panic(err) }`
abbrev pub or_panic : Result (Unit {0}) → Result (Unit {0})
or_panic (err e) = panic
or_panic r = r

-- ApplyNamespace of the types; `nested` is that of a scope.
module _ (nested : Store → Objects → Result Store) (objects : Objects) (ns : Bytes) where
  unfoldable mutual
    pub apply_schema : Store → Schema → Applied Schema
    apply_schema st (list_schema s lo hi) = do
      r ← apply_schema st s
      ok (r.0, list_schema r.1 lo hi)
    apply_schema st (map_schema k v lo hi) = do
      rk ← apply_schema st k
      rv ← apply_schema rk.0 v
      ok (rv.0, map_schema rk.1 rv.1 lo hi)
    apply_schema st (object_schema o) = do r ← apply_object st o; ok (r.0, object_schema r.1)
    apply_schema st (ref_schema id namespace link) = do
      l ← link_ref objects ns id namespace link
      ok (st, ref_schema id namespace l)
    apply_schema st (scope_schema os root) = do st' ← nested st os; ok (st', scope_schema os root)
    apply_schema st (one_of_schema kt cs d inlined) = do
      r ← apply_choices st cs
      or_panic (check_subtypes r.0 kt d inlined r.1) >> ok (r.0, one_of_schema kt r.1 d inlined)
    apply_schema st s = ok (st, s)

    pub apply_object : Store → Object → Applied Object
    apply_object st (object id unenforced ps) = do
      r ← apply_properties st ps
      ok (r.0, object id unenforced r.1)

    pub apply_properties : Store → Properties → Applied Properties
    apply_properties st no_properties = ok (st, no_properties)
    apply_properties st (property id s rules ps) = do
      r ← apply_schema st s
      rs ← apply_properties r.0 ps
      ok (rs.0, property id r.1 rules rs.1)

    pub apply_choices : Store → Choices → Applied Choices
    apply_choices st no_choices = ok (st, no_choices)
    apply_choices st (choice k s cs) = do
      r ← apply_schema st s
      rs ← apply_choices r.0 cs
      ok (rs.0, choice k r.1 rs.1)

unfoldable pub set_object : ℕ → Object → Store → Store
set_object a o [] = []
set_object zero o (p ∷ st) = o ∷ st
set_object (suc a) o (p ∷ st) = p ∷ set_object a o st

-- The object at an address of a scope.
abbrev pub at_address {ℓ} : {A : Type ℓ} → Store → ℕ → (Object → Result A) → Result A
at_address st a next = elim (get_elem? st a) [ none ↦ panic | some o ↦ next o ]

abbrev pub self_namespace : Bytes
self_namespace = []

-- The loop of ScopeSchema.ApplyNamespace.
unfoldable pub apply_entries :
    (Store → Objects → Result Store) → Objects → Bytes → Objects → Store → Result Store
unfolding apply_schema set_object
apply_entries nested objects ns [] st = ok st
apply_entries nested objects ns ((id, a) ∷ es) st = at_address st a λ o. do
  r ← apply_object nested objects ns st o
  apply_entries nested objects ns es (set_object a r.1 r.0)

-- ScopeSchema.ApplyNamespace: the scope's own objects take the place of the caller's in the namespace
-- of the scope itself.
unfoldable pub apply_scope : ℕ → Bytes → Objects → Store → Objects → Result Store
unfolding apply_entries
apply_scope zero ns external st os = out_of_fuel
apply_scope (suc f) ns external st os =
    let objects = if str_eq ns self_namespace then os else external in
    apply_entries (λ st' nested. apply_scope f ns objects st' nested) objects ns os st

-- ValidateReferences of the types; `nested` is that of a scope.
module _ (nested : Objects → Result (Unit {0})) where
  unfoldable mutual
    pub validate_references : Schema → Result (Unit {0})
    validate_references (list_schema s lo hi) = validate_references s
    validate_references (map_schema k v lo hi) = validate_references k >> validate_references v
    validate_references (object_schema o) = validate_object_references o
    validate_references (ref_schema id namespace link) =
        if is_some link then ok tt else err bad_argument
    validate_references (scope_schema os root) = nested os
    validate_references (one_of_schema kt cs d inlined) = validate_choice_references cs
    validate_references s = ok tt

    pub validate_object_references : Object → Result (Unit {0})
    validate_object_references (object id unenforced ps) = validate_property_references ps

    pub validate_property_references : Properties → Result (Unit {0})
    validate_property_references no_properties = ok tt
    validate_property_references (property id s rules ps) =
        validate_references s >> validate_property_references ps

    pub validate_choice_references : Choices → Result (Unit {0})
    validate_choice_references no_choices = ok tt
    validate_choice_references (choice k s cs) =
        validate_references s >> validate_choice_references cs

-- The loop of ScopeSchema.ValidateReferences, and the method.
unfoldable pub validate_entries :
    (Objects → Result (Unit {0})) → Store → Objects → Result (Unit {0})
unfolding validate_references
validate_entries nested st [] = ok tt
validate_entries nested st ((id, a) ∷ es) =
    at_address st a λ o. validate_object_references nested o >> validate_entries nested st es

unfoldable pub validate_scope : ℕ → Store → Objects → Result (Unit {0})
unfolding validate_entries
validate_scope zero st os = out_of_fuel
validate_scope (suc f) st os = validate_entries (λ nested. validate_scope f st nested) st os
