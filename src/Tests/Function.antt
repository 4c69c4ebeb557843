-- ===== src/Tests/Function.antt =====
-- Functions on concrete arguments.
use arcaflow_plugin_sdk_go.Common.{pos, codes, Bool, true, false, [], ◌∷◌, none, some, ◌≡◌, refl}
use arcaflow_plugin_sdk_go.Go.Value.{int, str, int64, int_type, string_type, type_eq}
use arcaflow_plugin_sdk_go.Go.Result.{ok}
use arcaflow_plugin_sdk_go.Schema.Types.{Schema, int_schema, string_schema, reflected_type}
use arcaflow_plugin_sdk_go.Schema.Function.{
  CallableFunction, Handler, value_type, error_type, value, error_value, new_callable_function,
  to_function_schema, FunctionSchema,
}
use arcaflow_plugin_sdk_go.Schema.Function.Call.{call_function, reported, assignable}
use arcaflow_plugin_sdk_go.Schema.Function.Results.{Delivers, all_conform}
use arcaflow_plugin_sdk_go.Schema.Function.Typing.{call_function-Delivers}

abbrev number : Schema
number = int_schema none none none

-- A function of an integer that reports an error.
abbrev refuse : Handler
refuse = record {
  inputs = int_type int64 ∷ [];
  outputs = value_type string_type ∷ error_type ∷ [];
  body = λ vs. some (value (str []) ∷ error_value (some (codes "refused")) ∷ []);
}

abbrev refuse_function : Bool → CallableFunction
refuse_function errors = record {
  id = codes "refuse";
  inputs = number ∷ [];
  static_output = some (string_schema none none none);
  outputs_error = errors;
  handler = refuse;
  dynamic_type_handler = none;
}

refuse_made :
    new_callable_function []
      (codes "refuse")
      (number ∷ [])
      (some (string_schema none none none))
      true
      refuse
    ≡ ok (refuse_function true)
unfolding new_callable_function reflected_type type_eq
refuse_made = refl

refuse_run :
    call_function (refuse_function true) (int int64 (pos 3) ∷ []) ≡ reported (codes "refused")
unfolding call_function type_eq
refuse_run = refl

three_assigned : assignable (int int64 (pos 3)) (int_type int64) ≡ true
unfolding assignable type_eq
three_assigned = refl

number_type : reflected_type [] number ≡ ok (int_type int64)
unfolding reflected_type
number_type = refl

refuse_conforms :
    all_conform refuse.outputs (value (str []) ∷ error_value (some (codes "refused")) ∷ []) ≡ true
unfolding all_conform type_eq
refuse_conforms = refl

call_function-Delivers_example :
    Delivers []
      (some (string_schema none none none))
      true
      (call_function (refuse_function true) (int int64 (pos 3) ∷ []))
call_function-Delivers_example =
    call_function-Delivers [] (codes "refuse") (number ∷ []) (some (string_schema none none none))
      true refuse (refuse_function true) (int int64 (pos 3) ∷ [])
      (value (str []) ∷ error_value (some (codes "refused")) ∷ []) refuse_made (tt, (tt, tt))
      ((int_type int64, number_type, three_assigned), tt) refl refuse_conforms

abbrev refuse_schema : FunctionSchema
refuse_schema = record {
  id = codes "refuse";
  inputs = number ∷ [];
  output = some (string_schema none none none);
}

refuse_schema_made : to_function_schema (refuse_function false) ≡ ok refuse_schema
unfolding to_function_schema
refuse_schema_made = refl
