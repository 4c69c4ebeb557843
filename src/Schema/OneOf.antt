-- ===== src/Schema/OneOf.antt =====
-- schema/oneof.go: one-of types, whose data is a map with a discriminator field. The operations take
-- those of the object types as arguments. The underlying objects are not tied to structs.
pub mod Discriminator
pub mod Safety
use arcaflow_plugin_sdk_go.Common.{
  ℤ, eqb_ℤ, Bytes, str_eq, Bool, true, false, List, [], ◌∷◌, Option, none, some, lookup, insert,
  delete, has, if◌then◌else◌,
}
use arcaflow_plugin_sdk_go.Go.Value.{
  Value, null, str, int, map, int64, string_type, any_type, entries, of_entries, fields, of_fields,
  key_eq, GoType,
}
use arcaflow_plugin_sdk_go.Go.Result.{
  Error, Result, ok, err, panic, out_of_fuel, ◌>>=◌, ◌>>◌, ensure, under, one_of, constraint, plain,
  not_a_map, not_a_valid_type, missing_discriminator, invalid_discriminator_type,
  invalid_discriminator, invalid_key, incompatible,
}
use arcaflow_plugin_sdk_go.Go.Convert.{Floats}
use arcaflow_plugin_sdk_go.Schema.Types.{
  Schema, KeyType, int_keys, string_keys, Key, int_key, string_key,
}
use arcaflow_plugin_sdk_go.Schema.Scalar.{int_input_mapper, string_input_mapper}
use arcaflow_plugin_sdk_go.Schema.Any.{wrapped}

unfoldable pub same_key : Key → Key → Bool
same_key (int_key a) (int_key b) = eqb_ℤ a b
same_key (string_key s) (string_key t) = str_eq s t
same_key _ _ = false

-- `o.TypesValue[key]`
unfoldable pub find_type : Key → List (Key × Schema) → Option Schema
unfolding same_key
find_type k [] = none
find_type k ((j, s) ∷ cs) = if same_key j k then some s else find_type k cs

abbrev pub key_value : Key → Value
key_value (int_key z) = int int64 z
key_value (string_key s) = str s

-- deleteDiscriminator
abbrev pub without_discriminator : Bool → Bytes → List (Bytes × Value) → List (Bytes × Value)
without_discriminator true d raw = raw
without_discriminator false d raw = delete d raw

-- The fields of a map all of whose keys are strings.
unfoldable pub string_fields : List (Value × Value) → Result (List (Bytes × Value))
string_fields [] = ok []
string_fields ((str k, v) ∷ es) = do rest ← string_fields es; ok ((k, v) ∷ rest)
string_fields ((k, v) ∷ es) = err (constraint (invalid_key k) [])

unfoldable pub find_entry : Bytes → List (Value × Value) → Option Value
find_entry d [] = none
find_entry d ((str k, v) ∷ es) = if str_eq k d then some v else find_entry d es
find_entry d (_ ∷ es) = find_entry d es

-- `reflect.Value.MapIndex` at a string: it panics unless the map's keys may be strings.
unfoldable pub index_string : Bytes → GoType → List (Value × Value) → Result (Option Value)
unfolding find_entry
index_string d string_type es = ok (find_entry d es)
index_string d any_type es = ok (find_entry d es)
index_string d t es = panic

abbrev pub missing_to_error {ℓ} : {A : Type ℓ} → Error → Option A → Result A
missing_to_error e none = err e
missing_to_error e (some a) = ok a

abbrev pub retyped {ℓ} : {A : Type ℓ} → Result A → Result A
retyped (err e) = err (constraint invalid_discriminator_type [])
retyped r = r

-- saveConvertTo the interface type `any`: nil has no conversion, and the panic becomes an error.
unfoldable pub save_convert : Value → Result Value
save_convert null = err (constraint not_a_valid_type [])
save_convert v = ok v

-- The discriminator goes back into the unserialized map as it was given.
unfoldable pub put_discriminator : Bytes → Value → Value → Result Value
unfolding save_convert
put_discriminator d given (map string_type any_type es) =
    ok (of_fields (insert d given (fields (entries es))))
put_discriminator d given u = save_convert u

module _ (fl : Floats) where
  -- getTypedDiscriminator
  unfoldable pub typed_discriminator : KeyType → Value → Result Key
  typed_discriminator int_keys v = do z ← retyped (int_input_mapper fl v none); ok (int_key z)
  typed_discriminator string_keys v = do s ← retyped (string_input_mapper fl v); ok (string_key s)

  -- UnserializeType
  unfoldable pub unserialize_one_of :
      (Schema → Value → Result Value)
      → KeyType
      → List (Key × Schema)
      → Bytes
      → Bool
      → Value
      → Result Value
  unfolding typed_discriminator string_fields index_string put_discriminator find_type
  unserialize_one_of type kt cs d inlined null = err plain
  unserialize_one_of type kt cs d inlined (map tk tv es) = do
    found ← index_string d tk (entries es)
    given ← missing_to_error (constraint missing_discriminator []) found
    key ← typed_discriminator kt given
    raw ← string_fields (entries es)
    s ← missing_to_error (constraint (invalid_discriminator (key_value key)) []) (find_type key cs)
    u ← type s (of_fields (without_discriminator inlined d raw))
    put_discriminator d given u
  unserialize_one_of type kt cs d inlined v = err (constraint not_a_map [])

-- The type assertion `selectedTypeID.(KeyType)`
unfoldable pub asserted_key : KeyType → Value → Option Key
asserted_key int_keys (int int64 z) = some (int_key z)
asserted_key string_keys (str s) = some (string_key s)
asserted_key kt v = none

-- `data[d]`, where a nil value counts as missing
abbrev pub non_nil : Option Value → Option Value
non_nil none = none
non_nil (some null) = none
non_nil (some v) = some v

unfoldable pub selected_id : Bytes → List (Bytes × Value) → Option Value
selected_id d raw = non_nil (lookup d raw)

-- validateMap: the object type that the discriminator selects, with which the other fields are compatible.
unfoldable pub select_type :
    (Schema → Value → Result (Unit {0}))
    → KeyType
    → List (Key × Schema)
    → Bytes
    → Bool
    → List (Bytes × Value)
    → Result (Key × Schema)
unfolding asserted_key selected_id find_type
select_type compatible kt cs d inlined raw = do
  v ← missing_to_error (constraint missing_discriminator []) (selected_id d raw)
  key ← missing_to_error (constraint invalid_discriminator_type []) (asserted_key kt v)
  s ← missing_to_error (constraint (invalid_discriminator v) []) (find_type key cs)
  wrapped (compatible s (of_fields (without_discriminator inlined d raw)))
  ok (key, s)

-- Validate, with saveConvertTo and findUnderlyingType: the data of an unstructured object is a
-- `map[string]any`, and a map of another type fails the type assertion.
unfoldable pub validate_one_of :
    (Schema → Value → Result (Unit {0}))
    → (Schema → Value → Result (Unit {0}))
    → KeyType
    → List (Key × Schema)
    → Bytes
    → Bool
    → Value
    → Result (Unit {0})
unfolding select_type
validate_one_of compatible validate kt cs d inlined (map string_type any_type es) = do
  (key, s) ← select_type compatible kt cs d inlined (fields (entries es))
  under (one_of (key_value key))
      (validate s (of_fields (without_discriminator inlined d (fields (entries es)))))
validate_one_of compatible validate kt cs d inlined (map tk tv es) = panic
validate_one_of compatible validate kt cs d inlined v = err (constraint not_a_valid_type [])

-- The result of SerializeType: `serializedData.(map[string]any)` with the key where it is missing.
unfoldable pub add_discriminator : Bytes → Key → Value → Result Value
add_discriminator d key (map string_type any_type es) = ok (
    of_fields (
      if has d (fields (entries es))
      then fields (entries es)
      else insert d (key_value key) (fields (entries es))))
add_discriminator d key v = panic

unfoldable pub serialize_one_of :
    (Schema → Value → Result (Unit {0}))
    → (Schema → Value → Result Value)
    → KeyType
    → List (Key × Schema)
    → Bytes
    → Bool
    → Value
    → Result Value
unfolding select_type add_discriminator
serialize_one_of compatible serialize kt cs d inlined (map string_type any_type es) = do
  (key, s) ← select_type compatible kt cs d inlined (fields (entries es))
  w ← serialize s (of_fields (without_discriminator inlined d (fields (entries es))))
  add_discriminator d key w
serialize_one_of compatible serialize kt cs d inlined (map tk tv es) = panic
serialize_one_of compatible serialize kt cs d inlined v = err (constraint not_a_valid_type [])

-- ValidateCompatibility with data
unfoldable pub compatible_one_of :
    (Schema → Value → Result (Unit {0}))
    → KeyType
    → List (Key × Schema)
    → Bytes
    → Bool
    → Value
    → Result (Unit {0})
unfolding select_type
compatible_one_of compatible kt cs d inlined (map string_type any_type es) =
    select_type compatible kt cs d inlined (fields (entries es)) >>= λ _. ok tt
compatible_one_of compatible kt cs d inlined (map tk tv es) = panic
compatible_one_of compatible kt cs d inlined v = err (constraint not_a_valid_type [])
