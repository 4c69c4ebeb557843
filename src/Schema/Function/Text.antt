-- ===== src/Schema/Function/Text.antt =====
-- The text of a function and that of its FunctionSchema.
use arcaflow_plugin_sdk_go.Common.{
  List, Option, false, none, some, Option-cases, inl, inr, ◌≡◌, refl, sym, ap, ◌∙◌,
}
use arcaflow_plugin_sdk_go.Go.Result.{ok, err, plain, ok_injective}
use arcaflow_plugin_sdk_go.Schema.Types.{Schema}
use arcaflow_plugin_sdk_go.Schema.Function.{
  CallableFunction, FunctionSchema, to_function_schema, function_string, callable_function_string,
}

abbrev static_schema : CallableFunction → FunctionSchema
static_schema f = record { id = f.id; inputs = f.inputs; output = f.static_output }

to_function_schema_static :
    (f : CallableFunction)
    → f.dynamic_type_handler ≡ none
    → to_function_schema f ≡ ok (static_schema f)
unfolding to_function_schema
to_function_schema_static f h = rw h refl

to_function_schema_dynamic :
    (f : CallableFunction) {t : List Schema → Option Schema}
    → f.dynamic_type_handler ≡ some t
    → to_function_schema f ≡ err plain
unfolding to_function_schema
to_function_schema_dynamic f h = rw h refl

static_string :
    (f : CallableFunction)
    → f.dynamic_type_handler ≡ none
    → f.outputs_error ≡ false
    → callable_function_string f ≡ function_string (static_schema f)
unfolding function_string callable_function_string
static_string f h e = rw (h, e) refl

-- A function that may not report an error has the text of the FunctionSchema that ToFunctionSchema makes
-- of it.
pub function_string-to_function_schema :
    (f : CallableFunction) (g : FunctionSchema)
    → to_function_schema f ≡ ok g
    → f.outputs_error ≡ false
    → callable_function_string f ≡ function_string g
function_string-to_function_schema f g h e = elim (Option-cases f.dynamic_type_handler) [
  | inl static ↦
      static_string f static e
      ∙ ap function_string (ok_injective (sym (to_function_schema_static f static) ∙ h))
  | inr (type_handler, dynamic) ↦ absurd (cc (to_function_schema_dynamic f dynamic, h))
]
