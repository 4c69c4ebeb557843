-- ===== src/Schema/Scalar/Text.antt =====
-- schema/int.go and string.go: integers written as text and read back.
use arcaflow_plugin_sdk_go.Common.{ℤ, IsInt64, Bytes, none, ◌≡◌, arith}
use arcaflow_plugin_sdk_go.Go.Value.{str, int, IntKind}
use arcaflow_plugin_sdk_go.Go.Result.{ok}
use arcaflow_plugin_sdk_go.Go.Convert.{Floats}
use arcaflow_plugin_sdk_go.Go.Text.RoundTrip.{parse_int-format_int}
use arcaflow_plugin_sdk_go.Schema.Scalar.{int_input_mapper, string_input_mapper}

-- An integer that an int64 can hold is mapped to a string, and the string is mapped back to the integer by
-- a schema without units.
pub int_input_mapper-string_input_mapper :
    (fl : Floats) (k : IntKind) (z : ℤ) (s : Bytes)
    → IsInt64 z
    → string_input_mapper fl (int k z) ≡ ok s
    → int_input_mapper fl (str s) none ≡ ok z
unfolding string_input_mapper int_input_mapper
int_input_mapper-string_input_mapper fl k z s h e = ground (arith, parse_int-format_int z h)
