-- ===== src/Schema/Describe/Scopes.antt =====
-- schema/schema_schema.go: the three scopes of the schema of schemas, which share their objects. An
-- object is its address in the store that the package's variables make up.
use arcaflow_plugin_sdk_go.Common.{ℕ, Bytes, Bool, List, [], ◌∷◌, ◌++◌}
use arcaflow_plugin_sdk_go.Go.Result.{Result}
use arcaflow_plugin_sdk_go.Go.Convert.{Floats}
use arcaflow_plugin_sdk_go.Schema.Types.{Schema, Object, Store, UnitsParser}
use arcaflow_plugin_sdk_go.Schema.Units.Parse.{units_parser}
use arcaflow_plugin_sdk_go.Schema.Units.Tables.{unit_characters}
use arcaflow_plugin_sdk_go.Schema.Scope.{new_scope_schema}
use arcaflow_plugin_sdk_go.Schema.Describe.Objects.{
  bool_schema_object, any_schema_object, display_object, float_object, int_enum_object, int_object,
  list_object, map_object, object_object, one_of_int_schema_object, one_of_string_schema_object,
  pattern_object, property_object, ref_object, string_enum_object, string_object, unit_object,
  units_object, scope_object,
}
use arcaflow_plugin_sdk_go.Schema.Describe.Steps.{
  step_output_object, signal_object, step_object, schema_object,
}

abbrev pub basic_addresses : List ℕ
basic_addresses = 0 ∷ 1 ∷ 2 ∷ 3 ∷ 4 ∷ 5 ∷ 6 ∷ 7 ∷ 8 ∷ 9 ∷ 10 ∷ 11 ∷ 12 ∷ 13 ∷ 14 ∷ 15 ∷ 16 ∷ 17 ∷ []

abbrev pub scope_address : ℕ
scope_address = 18

module _ (fl : Floats) (compiles : Bytes → Bool) where
  unfoldable pub characters : UnitsParser
  characters = units_parser fl unit_characters

  unfoldable pub basic_objects : List Object
  unfolding characters
  basic_objects =
      bool_schema_object
      ∷ any_schema_object
      ∷ display_object
      ∷ float_object
      ∷ int_enum_object
      ∷ int_object
      ∷ list_object
      ∷ map_object
      ∷ object_object
      ∷ one_of_int_schema_object
      ∷ one_of_string_schema_object
      ∷ pattern_object
      ∷ property_object
      ∷ ref_object
      ∷ string_enum_object
      ∷ string_object compiles characters
      ∷ unit_object
      ∷ units_object
      ∷ []

  unfoldable pub described_objects : Store
  unfolding basic_objects
  described_objects =
      basic_objects
      ++ (scope_object ∷ step_output_object ∷ signal_object ∷ step_object ∷ schema_object ∷ [])

  -- scopeScopeSchema, stepOutputSchema and schemaSchema, in the order in which the package makes them; each of
  -- them links the references of the objects it has.
  unfoldable pub scope_scope_schema : ℕ → Result (Store × Schema)
  unfolding described_objects new_scope_schema
  scope_scope_schema f = new_scope_schema f described_objects scope_address basic_addresses

  unfoldable pub step_output_schema : ℕ → Store → Result (Store × Schema)
  unfolding new_scope_schema
  step_output_schema f st = new_scope_schema f st 19 (basic_addresses ++ (scope_address ∷ []))

  unfoldable pub schema_schema : ℕ → Store → Result (Store × Schema)
  unfolding new_scope_schema
  schema_schema f st =
      new_scope_schema f st 22 (basic_addresses ++ (scope_address ∷ 19 ∷ 21 ∷ 20 ∷ []))
