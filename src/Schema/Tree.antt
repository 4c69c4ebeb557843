-- ===== src/Schema/Tree.antt =====
-- The operations of a whole schema: the calls through the interface `Type`, from a type to the types
-- below it, and from a reference to the object it is linked to. That object may be above the
-- reference, so the recursion is on fuel; Tree/WellFormed says how much is enough.
pub mod Limits
pub mod RoundTrip
pub mod WellFormed
pub mod Safety
use arcaflow_plugin_sdk_go.Common.{ℕ, zero, suc, none, ◌∷◌, []}
use arcaflow_plugin_sdk_go.Go.Value.{Value, str}
use arcaflow_plugin_sdk_go.Go.Result.{
  Result, ok, err, panic, out_of_fuel, ◌>>=◌, ◌>>◌, constraint, not_a_valid_type,
}
use arcaflow_plugin_sdk_go.Go.Convert.{Floats}
use arcaflow_plugin_sdk_go.Schema.Types.{
  Schema, int_schema, float_schema, string_schema, bool_schema, pattern_schema, int_enum,
  string_enum, list_schema, map_schema, any_schema, object_schema, ref_schema, scope_schema,
  one_of_schema, Store, Property, choices, enum_values, object_properties, root_object,
  linked_object, reflected_type,
}
use arcaflow_plugin_sdk_go.Schema.Scalar.{
  unserialize_int, serialize_int, unserialize_float, serialize_float, unserialize_string,
  serialize_string, unserialize_bool, serialize_bool, unserialize_int_enum, serialize_int_enum,
  unserialize_string_enum, serialize_string_enum,
}
use arcaflow_plugin_sdk_go.Schema.Pattern.{unserialize_pattern, validate_pattern, serialize_pattern}
use arcaflow_plugin_sdk_go.Schema.List.{
  unserialize_list, validate_list, serialize_list, compatible_list,
}
use arcaflow_plugin_sdk_go.Schema.Map.{unserialize_map, validate_map, serialize_map, compatible_map}
use arcaflow_plugin_sdk_go.Schema.Any.{check_and_convert, compatible_any}
use arcaflow_plugin_sdk_go.Schema.Object.{
  unserialize_object, validate_object, serialize_object, compatible_object,
}
use arcaflow_plugin_sdk_go.Schema.OneOf.{
  unserialize_one_of, validate_one_of, serialize_one_of, compatible_one_of,
}

-- `_, err := f(v); return err`
abbrev pub error_of : Result Value → Result (Unit {0})
error_of r = r >>= λ _. ok tt

module _ (fl : Floats) (store : Store) where
  unfoldable pub unserialize : ℕ → Schema → Value → Result Value
  unserialize zero s v = out_of_fuel
  unserialize (suc f) (int_schema lo hi u) v = unserialize_int fl lo hi u v
  unserialize (suc f) (float_schema lo hi u) v = unserialize_float fl lo hi u v
  unserialize (suc f) (string_schema lo hi p) v = unserialize_string fl lo hi p v
  unserialize (suc f) bool_schema v = unserialize_bool v
  unserialize (suc f) (pattern_schema compiles) v = unserialize_pattern fl compiles v
  unserialize (suc f) (int_enum vs u) v = unserialize_int_enum fl (enum_values vs) u v
  unserialize (suc f) (string_enum vs) v = unserialize_string_enum fl (enum_values vs) v
  unserialize (suc f) (list_schema s lo hi) v =
      unserialize_list (reflected_type store s) (λ w. unserialize f s w) lo hi v
  unserialize (suc f) (map_schema k e lo hi) v =
      unserialize_map fl (reflected_type store k) (reflected_type store e) (λ w. unserialize f k w)
        (λ w. unserialize f e w) lo hi v
  unserialize (suc f) any_schema v = check_and_convert fl v
  unserialize (suc f) (object_schema o) v =
      unserialize_object (λ p w. unserialize f p.type w) (object_properties o) v
  unserialize (suc f) (ref_schema id ns link) v =
      linked_object store link >>= λ o. unserialize f (object_schema o) v
  unserialize (suc f) (scope_schema objects root) v =
      root_object store objects root >>= λ o. unserialize f (object_schema o) v
  unserialize (suc f) (one_of_schema kt cs d inlined) v =
      unserialize_one_of fl (λ s w. unserialize f s w) kt (choices cs) d inlined v

  -- ValidateCompatibility with data that holds no schemas.
  unfoldable pub compatible : ℕ → Schema → Value → Result (Unit {0})
  compatible zero s v = out_of_fuel
  compatible (suc f) (int_schema lo hi u) v = error_of (unserialize_int fl lo hi u v)
  compatible (suc f) (float_schema lo hi u) v = error_of (unserialize_float fl lo hi u v)
  compatible (suc f) (string_schema lo hi p) (str s) =
      error_of (unserialize_string fl lo hi p (str s))
  compatible (suc f) (string_schema lo hi p) v = err (constraint not_a_valid_type [])
  compatible (suc f) bool_schema v = error_of (unserialize_bool v)
  compatible (suc f) (pattern_schema compiles) v = validate_pattern v
  compatible (suc f) (int_enum vs u) v = error_of (serialize_int_enum fl (enum_values vs) v)
  compatible (suc f) (string_enum vs) v = error_of (serialize_string_enum (enum_values vs) v)
  compatible (suc f) (list_schema s lo hi) v = compatible_list (λ w. compatible f s w) v
  compatible (suc f) (map_schema k e lo hi) v =
      compatible_map (λ w. compatible f k w) (λ w. compatible f e w) lo hi v
  compatible (suc f) any_schema v = compatible_any fl v
  compatible (suc f) (object_schema o) v =
      compatible_object (λ p w. compatible f p.type w)
        (λ w. unserialize_object (λ p u. unserialize f p.type u) (object_properties o) w)
        (object_properties o) v
  compatible (suc f) (ref_schema id ns link) v =
      linked_object store link >>= λ o. compatible f (object_schema o) v
  compatible (suc f) (scope_schema objects root) v =
      root_object store objects root >>= λ o. compatible f (object_schema o) v
  compatible (suc f) (one_of_schema kt cs d inlined) v =
      compatible_one_of (λ s w. compatible f s w) kt (choices cs) d inlined v

  unfoldable pub validate : ℕ → Schema → Value → Result (Unit {0})
  validate zero s v = out_of_fuel
  validate (suc f) (int_schema lo hi u) v = error_of (serialize_int fl lo hi v)
  validate (suc f) (float_schema lo hi u) v = error_of (serialize_float fl lo hi v)
  validate (suc f) (string_schema lo hi p) v = error_of (serialize_string lo hi p v)
  validate (suc f) bool_schema v = error_of (serialize_bool v)
  validate (suc f) (pattern_schema compiles) v = validate_pattern v
  validate (suc f) (int_enum vs u) v = error_of (serialize_int_enum fl (enum_values vs) v)
  validate (suc f) (string_enum vs) v = error_of (serialize_string_enum (enum_values vs) v)
  validate (suc f) (list_schema s lo hi) v = validate_list (λ w. validate f s w) lo hi v
  validate (suc f) (map_schema k e lo hi) v =
      validate_map (λ w. validate f k w) (λ w. validate f e w) lo hi v
  validate (suc f) any_schema v = error_of (check_and_convert fl v)
  validate (suc f) (object_schema o) v =
      validate_object (λ p w. validate f p.type w) (object_properties o) v
  validate (suc f) (ref_schema id ns link) v =
      linked_object store link >>= λ o. validate f (object_schema o) v
  validate (suc f) (scope_schema objects root) v =
      root_object store objects root >>= λ o. validate f (object_schema o) v
  validate (suc f) (one_of_schema kt cs d inlined) v =
      validate_one_of (λ s w. compatible f s w) (λ s w. validate f s w) kt (choices cs) d inlined v

  unfoldable pub serialize : ℕ → Schema → Value → Result Value
  serialize zero s v = out_of_fuel
  serialize (suc f) (int_schema lo hi u) v = serialize_int fl lo hi v
  serialize (suc f) (float_schema lo hi u) v = serialize_float fl lo hi v
  serialize (suc f) (string_schema lo hi p) v = serialize_string lo hi p v
  serialize (suc f) bool_schema v = serialize_bool v
  serialize (suc f) (pattern_schema compiles) v = serialize_pattern v
  serialize (suc f) (int_enum vs u) v = serialize_int_enum fl (enum_values vs) v
  serialize (suc f) (string_enum vs) v = serialize_string_enum (enum_values vs) v
  serialize (suc f) (list_schema s lo hi) v =
      serialize_list (λ w. validate f s w) (λ w. serialize f s w) lo hi v
  serialize (suc f) (map_schema k e lo hi) v =
      serialize_map fl (validate_map (λ w. validate f k w) (λ w. validate f e w) lo hi)
        (λ w. serialize f k w) (λ w. serialize f e w) v
  serialize (suc f) any_schema v = check_and_convert fl v
  serialize (suc f) (object_schema o) v =
      serialize_object (λ p w. serialize f p.type w) (object_properties o) v
  serialize (suc f) (ref_schema id ns link) v =
      linked_object store link >>= λ o. serialize f (object_schema o) v
  serialize (suc f) (scope_schema objects root) v =
      root_object store objects root >>= λ o. serialize f (object_schema o) v
  serialize (suc f) (one_of_schema kt cs d inlined) v =
      serialize_one_of (λ s w. compatible f s w) (λ s w. serialize f s w) kt (choices cs) d inlined
        v
