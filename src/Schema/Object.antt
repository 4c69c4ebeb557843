-- ===== src/Schema/Object.antt =====
-- schema/object.go and property.go: objects that are not tied to a struct, so that their data is a
-- `map[string]any`. The operations take the operation of a property as an argument.
pub mod Interdependencies
pub mod Safety
use arcaflow_plugin_sdk_go.Common.{
  ℕ, Bytes, Bool, true, false, not, ◌&&◌, ◌||◌, List, [], ◌∷◌, any, length, Option, none, some,
  lookup, insert, has, if◌then◌else◌, ◌==◌,
}
use arcaflow_plugin_sdk_go.Go.Value.{
  Value, null, str, map, string_type, any_type, entries, of_entries, fields, of_fields,
}
use arcaflow_plugin_sdk_go.Go.Result.{
  Result, ok, err, panic, out_of_fuel, ◌>>=◌, ◌>>◌, ensure, under, name, constraint, plain,
  not_a_map, not_a_valid_type, invalid_key, required, required_because_set,
  required_because_not_set, conflicts_with, property_disabled, incompatible,
}
use arcaflow_plugin_sdk_go.Schema.Types.{Property, Rules}

-- property.go: Unserialize
unfoldable pub unserialize_property :
    (Property → Value → Result Value) → Property → Value → Result Value
unserialize_property type p v =
    if p.rules.disabled then err (constraint property_disabled []) else type p v

-- The first of the names that is set, as the loop over `RequiredIf` and `Conflicts` finds it.
unfoldable pub find_set : List (Bytes × Value) → List Bytes → Option Bytes
find_set raw [] = none
find_set raw (k ∷ ks) = let rest = find_set raw ks in if has k raw then some k else rest

abbrev pub fail_if : Option Bytes → (Bytes → Result (Unit {0})) → Result (Unit {0})
fail_if none f = ok tt
fail_if (some k) f = f k

-- The loop over `RequiredIfNot`: one of the names has to be set.
unfoldable pub one_required : List (Bytes × Value) → List Bytes → Bytes → Result (Unit {0})
unfolding find_set
one_required raw [] id = ok tt
one_required raw (k ∷ ks) id = elim (find_set raw (k ∷ ks)) [
  | some _ ↦ ok tt
  | none ↦ err (constraint (required_because_not_set (k ∷ ks)) (name id ∷ []))
]

-- validatePropertyInterdependenciesIfUnset
unfoldable pub check_unset : List (Bytes × Value) → Bytes → Rules → Result (Unit {0})
unfolding find_set one_required
check_unset raw id r = do
  if r.required then err (constraint required (name id ∷ [])) else ok tt
  fail_if (find_set raw r.required_if) λ k. err (constraint (required_because_set k) (name id ∷ []))
  one_required raw r.required_if_not id

-- validatePropertyInterdependenciesIfSet
unfoldable pub check_set : List (Bytes × Value) → Bytes → Rules → Result (Unit {0})
unfolding find_set
check_set raw id r =
    fail_if (find_set raw r.conflicts) λ k. err (constraint (conflicts_with k) (name id ∷ []))

-- validateFieldInterdependencies
unfoldable pub check_interdependencies :
    List (Bytes × Property) → List (Bytes × Value) → Result (Unit {0})
check_interdependencies [] raw = ok tt
check_interdependencies ((id, p) ∷ ps) raw = do
  if has id raw then check_set raw id p.rules else check_unset raw id p.rules
  check_interdependencies ps raw

-- convertData, the first loop: every key is the name of a property.
unfoldable pub collect_fields :
    List (Bytes × Property)
    → List (Value × Value)
    → List (Bytes × Value)
    → Result (List (Bytes × Value))
collect_fields ps [] raw = ok raw
collect_fields ps ((str k, v) ∷ es) raw = do
  ensure (has k ps) (invalid_key (str k))
  collect_fields ps es (insert k v raw)
collect_fields ps ((k, v) ∷ es) raw = err (constraint (invalid_key k) [])

-- The second loop: a property that is not set gets its default value, if it has one.
unfoldable pub add_default : Bytes → Option Value → List (Bytes × Value) → List (Bytes × Value)
add_default id none raw = raw
add_default id (some d) raw = if has id raw then raw else insert id d raw

unfoldable pub add_defaults : List (Bytes × Property) → List (Bytes × Value) → List (Bytes × Value)
unfolding add_default
add_defaults [] raw = raw
add_defaults ((id, p) ∷ ps) raw = add_defaults ps (add_default id p.rules.default_value raw)

-- The third loop: the values that are set are unserialized in place.
unfoldable pub unserialize_fields :
    (Property → Value → Result Value)
    → List (Bytes × Property)
    → List (Bytes × Value)
    → Result (List (Bytes × Value))
unserialize_fields type [] raw = ok raw
unserialize_fields type ((id, p) ∷ ps) raw = do
  raw' ← elim (lookup id raw) [
    | none ↦ ok raw
    | some d ↦ do u ← under (name id) (unserialize_property type p d); ok (insert id u raw)
  ]
  unserialize_fields type ps raw'

-- An error of the single inlined property is replaced by one that only quotes it.
abbrev pub inlined {ℓ} : {A : Type ℓ} → Result A → Result A
inlined (err e) = err plain
inlined r = r

-- The data of an object with one property may be that property's, without the map around it.
unfoldable pub unserialize_inlined :
    (Property → Value → Result Value)
    → List (Bytes × Property)
    → Value
    → Result (List (Bytes × Value))
unserialize_inlined type ((id, p) ∷ []) v = do
  u ← inlined (unserialize_property type p v)
  ok ((id, u) ∷ [])
unserialize_inlined type ps v = err (constraint not_a_map [])

-- The `rawData` of Unserialize.
unfoldable pub raw_data :
    (Property → Value → Result Value)
    → List (Bytes × Property)
    → Value
    → Result (List (Bytes × Value))
unfolding unserialize_inlined
raw_data type ps (map _ _ es) = do
  raw ← collect_fields ps (entries es) []
  unserialize_fields type ps (add_defaults ps raw)
raw_data type ps v = unserialize_inlined type ps v

unfoldable pub unserialize_object :
    (Property → Value → Result Value) → List (Bytes × Property) → Value → Result Value
unserialize_object type ps v = do
  raw ← raw_data type ps v
  check_interdependencies ps raw
  ok (of_fields raw)

-- The loop of validateMap, serializeMap and validateMapTypesCompatibility over the fields of the data.
unfoldable pub each_field {ℓ} :
    {A : Type ℓ}
    → (Property → Value → Result A)
    → List (Bytes × Property)
    → List (Bytes × Value)
    → Result (List (Bytes × A))
each_field f ps [] = ok []
each_field f ps ((k, v) ∷ raw) = elim (lookup k ps) [
  | none ↦ err (constraint (invalid_key (str k)) [])
  | some p ↦ do a ← under (name k) (f p v); rest ← each_field f ps raw; ok ((k, a) ∷ rest)
]

unfoldable pub validate_object :
    (Property → Value → Result (Unit {0})) → List (Bytes × Property) → Value → Result (Unit {0})
validate_object type ps (map string_type any_type es) = do
  check_interdependencies ps (fields (entries es))
  checked ← each_field type ps (fields (entries es))
  ok tt
validate_object type ps v = err (constraint not_a_valid_type [])

unfoldable pub serialize_object :
    (Property → Value → Result Value) → List (Bytes × Property) → Value → Result Value
serialize_object type ps (map string_type any_type es) = do
  check_interdependencies ps (fields (entries es))
  raw ← each_field type ps (fields (entries es))
  ok (of_fields raw)
serialize_object type ps v = err (constraint not_a_valid_type [])

-- property.go: ValidateCompatibility with data
unfoldable pub compatible_property :
    (Property → Value → Result (Unit {0})) → Property → Value → Result (Unit {0})
compatible_property type p v = do
  elim (type p v) [ err _ ↦ err (constraint incompatible []) | r ↦ r ]
  ensure (not p.rules.disabled) property_disabled

-- `data[k] == nil`
abbrev pub is_nil : Option Value → Bool
is_nil none = true
is_nil (some null) = true
is_nil (some v) = false

unfoldable pub check_required : List (Bytes × Property) → List (Bytes × Value) → Result (Unit {0})
check_required [] raw = ok tt
check_required ((id, p) ∷ ps) raw = do
  ensure (not (p.rules.required && is_nil (lookup id raw))) required
  check_required ps raw

-- validateMapTypesCompatibility
unfoldable pub compatible_fields :
    (Property → Value → Result (Unit {0}))
    → List (Bytes × Property)
    → List (Bytes × Value)
    → Result (Unit {0})
unfolding compatible_property check_required
compatible_fields type ps raw = do
  checked ← each_field (compatible_property type) ps raw
  check_required ps raw

-- validateRawCompatibility
unfoldable pub compatible_object :
    (Property → Value → Result (Unit {0}))
    → (Value → Result Value)
    → List (Bytes × Property)
    → Value
    → Result (Unit {0})
compatible_object type unserialize ps (map string_type any_type es) =
    compatible_fields type ps (fields (entries es))
compatible_object type unserialize ps v = elim (unserialize v) [
  | ok _ ↦ ok tt
  | err _ ↦ err (constraint not_a_valid_type [])
  | panic ↦ panic
  | out_of_fuel ↦ out_of_fuel
]
