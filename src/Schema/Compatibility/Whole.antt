-- ===== src/Schema/Compatibility/Whole.antt =====
-- ValidateCompatibility of a whole schema with another one, in all files of schema/: the calls from a type
-- to the types below it, through references and scopes. The recursion is on fuel, as in Schema.Tree.
use arcaflow_plugin_sdk_go.Common.{
  ℕ, zero, suc, ℤ, ltb_ℤ, Bytes, str_eq, Bool, true, false, not, ◌&&◌, ◌||◌, List, [], ◌∷◌, Option,
  none, some, lookup, has, get_elem?,
}
use arcaflow_plugin_sdk_go.Go.Value.{
  Value, GoType, null, str, other, any_type, regexp_type, other_type,
}
use arcaflow_plugin_sdk_go.Go.Result.{
  Result, ok, err, panic, out_of_fuel, ◌>>=◌, ◌>>◌, ensure, under, name, constraint, invalid_key,
  required, incompatible,
}
use arcaflow_plugin_sdk_go.Go.Convert.{Floats}
use arcaflow_plugin_sdk_go.Schema.Types.{
  Schema, int_schema, float_schema, string_schema, bool_schema, pattern_schema, int_enum,
  string_enum, list_schema, map_schema, any_schema, object_schema, ref_schema, scope_schema,
  one_of_schema, KeyType, int_keys, string_keys, Key, Property, Object, object, Store, choices,
  enum_values, object_id, object_properties, root_object, linked_object, reflected_type,
}
use arcaflow_plugin_sdk_go.Schema.Any.{wrapped}
use arcaflow_plugin_sdk_go.Schema.OneOf.{find_type}
use arcaflow_plugin_sdk_go.Schema.Scalar.{serialize_int_enum, serialize_string_enum}
use arcaflow_plugin_sdk_go.Schema.Tree.{compatible, error_of}
use arcaflow_plugin_sdk_go.Schema.Compatibility.{
  unsupported, exclusive, refuse_exclusive, compatible_int_schema, compatible_float_schema,
  compatible_string_schema, compatible_bool_schema, compatible_pattern_schema,
}
use arcaflow_plugin_sdk_go.Schema.Compatibility.Enums.{compatible_int_enum, compatible_string_enum}

-- A pointer to a schema, for the operations on data, to which all such pointers are alike.
abbrev pub schema_pointer : Value
schema_pointer = other 0

-- map.go: validateSchemaCompatibility, with the operations of the types of the keys and of the values
unfoldable pub compatible_map_schema :
    (keys values : Schema → Result (Unit {0})) → (lo hi : Option ℤ) → Schema → Result (Unit {0})
unfolding exclusive
compatible_map_schema keys values lo hi (map_schema k v a b) = do
  wrapped (keys k)
  wrapped (values v)
  refuse_exclusive (exclusive ltb_ℤ lo hi a b)
compatible_map_schema keys values lo hi s = unsupported

-- any.go: validateSchemaCompatibility, by the kind of the reflected type and then by the schema
unfoldable pub any_accepts : GoType → Schema → Result (Unit {0})
any_accepts any_type any_schema = ok tt
any_accepts any_type (one_of_schema kt cs d inlined) = ok tt
any_accepts any_type s = unsupported
any_accepts regexp_type s = unsupported
any_accepts other_type (object_schema o) = ok tt
any_accepts other_type s = unsupported
any_accepts t s = ok tt

unfoldable pub compatible_any_schema : Store → Schema → Result (Unit {0})
unfolding any_accepts reflected_type
compatible_any_schema store s = reflected_type store s >>= λ t. any_accepts t s

-- ConvertToObjectSchema
unfoldable pub convert_to_object : Store → Schema → Result (Option Object)
unfolding linked_object root_object
convert_to_object store (object_schema o) = ok (some o)
convert_to_object store (ref_schema id ns link) = do o ← linked_object store link; ok (some o)
convert_to_object store (scope_schema objects root) = do
  o ← root_object store objects root
  ok (some o)
convert_to_object store s = ok none

-- validateMapTypesCompatibility over the properties of another object: its first loop
unfoldable pub compare_properties :
    (Schema → Schema → Result (Unit {0}))
    → (own others : List (Bytes × Property)) → Result (Unit {0})
compare_properties type own [] = ok tt
compare_properties type own ((k, q) ∷ others) = elim (lookup k own) [
  | none ↦ err (constraint (invalid_key (str k)) [])
  | some p ↦ do under (name k) (type p.type q.type); compare_properties type own others
]

-- its second loop
unfoldable pub required_present : (own others : List (Bytes × Property)) → Result (Unit {0})
required_present [] others = ok tt
required_present ((k, p) ∷ own) others = do
  ensure (not (p.rules.required && not (has k others))) required
  required_present own others

abbrev pub id_unenforced : Object → Bool
id_unenforced (object id unenforced ps) = unenforced

-- object.go: validateSchemaCompatibility
unfoldable pub compatible_objects :
    (Schema → Schema → Result (Unit {0})) → Object → Object → Result (Unit {0})
unfolding compare_properties required_present
compatible_objects type o p = do
  ensure (id_unenforced p || id_unenforced o || str_eq (object_id p) (object_id o)) incompatible
  compare_properties type (object_properties o) (object_properties p)
  required_present (object_properties o) (object_properties p)

unfoldable pub same_key_type : KeyType → KeyType → Bool
same_key_type int_keys int_keys = true
same_key_type string_keys string_keys = true
same_key_type _ _ = false

-- oneof.go: validateSchema
unfoldable pub compare_choices :
    (Schema → Schema → Result (Unit {0})) → (own others : List (Key × Schema)) → Result (Unit {0})
unfolding find_type
compare_choices type [] others = ok tt
compare_choices type ((k, s) ∷ own) others = elim (find_type k others) [
  | none ↦ err (constraint incompatible [])
  | some t ↦ do wrapped (type s t); compare_choices type own others
]

unfoldable pub compatible_one_of_schema :
    (Schema → Schema → Result (Unit {0}))
    → KeyType
    → List (Key × Schema)
    → Bytes
    → Schema
    → Result (Unit {0})
unfolding same_key_type compare_choices
compatible_one_of_schema type kt cs d (one_of_schema kt' cs' d' inlined) = do
  ensure (same_key_type kt kt') incompatible
  ensure (str_eq d' d) incompatible
  compare_choices type cs (choices cs')
compatible_one_of_schema type kt cs d s = unsupported

-- The object that a scope gives to ScopeSchema.ValidateCompatibility, without the checks of RootObject.
unfoldable pub own_root : Store → List (Bytes × ℕ) → Bytes → Result Object
own_root store objects root = elim (lookup root objects) [
  | none ↦ panic
  | some a ↦ elim (get_elem? store a) [ none ↦ panic | some o ↦ ok o ]
]

-- What RefSchema.ValidateCompatibility and ScopeSchema.ValidateCompatibility hand on to the object of the
-- receiver, where the other schema is one of the same type.
abbrev pub handed_on : Store → (receiver given : Schema) → Result (Option Schema)
handed_on store (ref_schema id ns link) (ref_schema id' ns' none) = ok none
handed_on store (ref_schema id ns link) (ref_schema id' ns' (some a)) =
    linked_object store (some a) >>= λ o. ok (some (object_schema o))
handed_on store (scope_schema objects root) (scope_schema objects' root') =
    own_root store objects' root' >>= λ o. ok (some (object_schema o))
handed_on store r s = ok (some s)

module _ (fl : Floats) (store : Store) where
  -- Where the other schema is no object, the object takes it for data; and so does it with the nil that an
  -- unlinked reference hands on.
  unfoldable pub compatible_schema : ℕ → Schema → Schema → Result (Unit {0})
  unfolding compatible_int_schema compatible_float_schema compatible_string_schema
      compatible_bool_schema compatible_pattern_schema compatible_int_enum compatible_string_enum
      compatible_map_schema compatible_any_schema convert_to_object compatible_objects
      compatible_one_of_schema
  compatible_schema zero s t = out_of_fuel
  compatible_schema (suc f) (int_schema lo hi u) t = compatible_int_schema lo hi t
  compatible_schema (suc f) (float_schema lo hi u) t = compatible_float_schema fl lo hi t
  compatible_schema (suc f) (string_schema lo hi p) t = compatible_string_schema lo hi t
  compatible_schema (suc f) bool_schema t = compatible_bool_schema t
  compatible_schema (suc f) (pattern_schema compiles) t = compatible_pattern_schema t
  compatible_schema (suc f) (int_enum vs u) t =
      compatible_int_enum vs (error_of (serialize_int_enum fl (enum_values vs) schema_pointer)) t
  compatible_schema (suc f) (string_enum vs) t =
      compatible_string_enum vs (error_of (serialize_string_enum (enum_values vs) schema_pointer)) t
  compatible_schema (suc f) (list_schema s lo hi) (list_schema t a b) = compatible_schema f s t
  compatible_schema (suc f) (list_schema s lo hi) t = unsupported
  compatible_schema (suc f) (map_schema k e lo hi) t =
      compatible_map_schema (λ r. compatible_schema f k r) (λ r. compatible_schema f e r) lo hi t
  compatible_schema (suc f) any_schema t = compatible_any_schema store t
  compatible_schema (suc f) (object_schema o) t = convert_to_object store t >>= λ found.
      elim found [
        | none ↦ compatible fl store (suc f) (object_schema o) schema_pointer
        | some p ↦ compatible_objects (λ r s. compatible_schema f r s) o p
      ]
  compatible_schema (suc f) (ref_schema id ns link) t = linked_object store link >>= λ o.
      handed_on store (ref_schema id ns link) t >>= λ given. elim given [
        | none ↦ compatible fl store f (object_schema o) null
        | some s ↦ compatible_schema f (object_schema o) s
      ]
  compatible_schema (suc f) (scope_schema objects root) t = root_object store objects root >>= λ o.
      handed_on store (scope_schema objects root) t >>= λ given. elim given [
        | none ↦ compatible fl store f (object_schema o) null
        | some s ↦ compatible_schema f (object_schema o) s
      ]
  compatible_schema (suc f) (one_of_schema kt cs d inlined) t =
      compatible_one_of_schema (λ r s. compatible_schema f r s) kt (choices cs) d t
