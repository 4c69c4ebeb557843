-- ===== src/Schema/Pattern.antt =====
-- schema/pattern.go: the type of regular expressions. `compiles` says which texts `regexp.Compile`
-- accepts, and a `*regexp.Regexp` is its text.
pub mod Safety
use arcaflow_plugin_sdk_go.Common.{Bytes, Bool, [], if◌then◌else◌}
use arcaflow_plugin_sdk_go.Go.Value.{Value, str, regexp}
use arcaflow_plugin_sdk_go.Go.Result.{
  Result, ok, err, ◌>>=◌, constraint, invalid_pattern, not_a_valid_type,
}
use arcaflow_plugin_sdk_go.Go.Convert.{Floats}
use arcaflow_plugin_sdk_go.Schema.Scalar.{string_input_mapper}

unfoldable pub unserialize_pattern : Floats → (compiles : Bytes → Bool) → Value → Result Value
unserialize_pattern fl compiles v = do
  s ← string_input_mapper fl v
  if compiles s then ok (regexp s) else err (constraint invalid_pattern [])

unfoldable pub validate_pattern : Value → Result (Unit {0})
validate_pattern (regexp s) = ok tt
validate_pattern v = err (constraint not_a_valid_type [])

unfoldable pub serialize_pattern : Value → Result Value
serialize_pattern (regexp s) = ok (str s)
serialize_pattern v = err (constraint not_a_valid_type [])
