-- ===== src/Schema/Pattern/Safety.antt =====
-- schema/pattern.go: Unserialize gives an error or a regular expression.
use arcaflow_plugin_sdk_go.Common.{Bytes, Bool, true, false, [], if◌then◌else◌, refl, inr}
use arcaflow_plugin_sdk_go.Go.Value.{Value, regexp, regexp_type}
use arcaflow_plugin_sdk_go.Go.Result.{ok, err, constraint, invalid_pattern}
use arcaflow_plugin_sdk_go.Go.Convert.{Floats}
use arcaflow_plugin_sdk_go.Schema.Pattern.{unserialize_pattern}
use arcaflow_plugin_sdk_go.Schema.Scalar.{string_input_mapper}
use arcaflow_plugin_sdk_go.Schema.Scalar.Safety.{string_input_mapper-IsSafe}
use arcaflow_plugin_sdk_go.Schema.Sound.{Sound, Sound-bind}

compiled-Sound :
    (compiles : Bool) (s : Bytes)
    → Sound regexp_type (if compiles then ok (regexp s) else err (constraint invalid_pattern []))
compiled-Sound true s = (regexp_type, refl, inr refl)
compiled-Sound false s = tt

pub unserialize_pattern-Sound :
    (fl : Floats) (compiles : Bytes → Bool) (v : Value)
    → Sound regexp_type (unserialize_pattern fl compiles v)
unfolding unserialize_pattern
unserialize_pattern-Sound fl compiles v =
    Sound-bind regexp_type (string_input_mapper fl v) _ (string_input_mapper-IsSafe fl v)
      λ s _. compiled-Sound (compiles s) s
