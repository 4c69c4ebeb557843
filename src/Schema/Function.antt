-- ===== src/Schema/Function.antt =====
-- schema/function.go: functions whose parameters and result have a schema, around a Go function that
-- is called by reflection.
pub mod Call
pub mod Results
pub mod Typing
pub mod Text
use arcaflow_plugin_sdk_go.Common.{
  ℕ, zero, suc, ◌+◌, Bytes, codes, Bool, true, false, not, ◌&&◌, ◌||◌, List, [], ◌∷◌, ◌++◌, length,
  Option, none, some, is_some, ◌==◌, if◌then◌else◌,
}
use arcaflow_plugin_sdk_go.Go.Value.{
  Value, GoType, any_type, bool_type, string_type, other_type, type_of, type_eq,
}
use arcaflow_plugin_sdk_go.Go.Result.{Result, ok, err, plain, panic, ◌>>=◌, ◌>>◌}
use arcaflow_plugin_sdk_go.Schema.Types.{
  Schema, int_schema, float_schema, string_schema, bool_schema, pattern_schema, int_enum,
  string_enum, list_schema, map_schema, any_schema, object_schema, ref_schema, scope_schema,
  one_of_schema, int_keys, string_keys, Store, reflected_type,
}

-- The type of a Go function's result: one that a schema may reflect, the interface `error`, or another
-- type with the name "error", that of a struct or of an interface.
pub data ReturnType : Type 0 where
  value_type : GoType → ReturnType
  error_type : ReturnType
  local_error : (is_interface : Bool) → ReturnType

-- What a Go function returns: a value, an error with its text or a nil one, or a value of a type of
-- the last form, which is no error.
pub data Returned : Type 0 where
  value : Value → Returned
  error_value : Option Bytes → Returned
  local_value : (is_nil : Bool) → Returned

-- A Go function that is not variadic; `none` is a panic.
pub record Handler : Type 0 where
  pub inputs : List GoType
  pub outputs : List ReturnType
  pub body : List Value → Option (List Returned)

-- CallableFunctionSchema, without its display. A type handler's `none` is an error.
pub record CallableFunction : Type 0 where
  pub id : Bytes
  pub inputs : List Schema
  pub static_output : Option Schema
  pub outputs_error : Bool
  pub handler : Handler
  pub dynamic_type_handler : Option (List Schema → Option Schema)

-- FunctionSchema
pub record FunctionSchema : Type 0 where
  pub id : Bytes
  pub inputs : List Schema
  pub output : Option Schema

-- `t.Name() == "error"`
unfoldable pub is_error_name : ReturnType → Bool
is_error_name (value_type t) = false
is_error_name error_type = true
is_error_name (local_error i) = true

-- `t.Kind() == reflect.Interface`
unfoldable pub is_interface : ReturnType → Bool
is_interface (value_type any_type) = true
is_interface (value_type _) = false
is_interface error_type = true
is_interface (local_error i) = i

-- `expectedType == handlerType`
unfoldable pub same_type : GoType → ReturnType → Bool
unfolding type_eq
same_type t (value_type u) = type_eq t u
same_type t error_type = false
same_type t (local_error i) = false

abbrev pub require : Bool → Result (Unit {0})
require b = if b then ok tt else err plain

abbrev pub last_is_error : List ReturnType → Bool
last_is_error [] = false
last_is_error (t ∷ []) = is_error_name t
last_is_error (t ∷ u ∷ ts) = last_is_error (u ∷ ts)

abbrev pub count : Bool → ℕ
count true = 1
count false = 0

abbrev dynamic_returns : List ReturnType → Bool
dynamic_returns (t ∷ u ∷ []) = is_error_name u && is_interface t
dynamic_returns _ = false

module _ (store : Store) where
  -- validateInputTypeCompatibility: the loop
  unfoldable pub check_input_types : List Schema → List GoType → Result (Unit {0})
  check_input_types [] ts = ok tt
  check_input_types (s ∷ ss) [] = panic
  check_input_types (s ∷ ss) (t ∷ ts) = do
    expected ← reflected_type store s
    require (type_eq expected t) >> check_input_types ss ts

  unfoldable pub validate_input_type_compatibility : List Schema → Handler → Result (Unit {0})
  unfolding check_input_types
  validate_input_type_compatibility inputs h =
      if length inputs == length h.inputs then check_input_types inputs h.inputs else err plain

  -- The last check of validateTypedReturnFunc, of the first result.
  unfoldable pub check_output_type : Option Schema → List ReturnType → Result (Unit {0})
  unfolding same_type
  check_output_type none ts = ok tt
  check_output_type (some s) ts = do
    expected ← reflected_type store s
    require (elim ts [ [] ↦ false | t ∷ us ↦ same_type expected t ])

  -- validateTypedReturnFunc
  unfoldable pub validate_typed_return_func : Handler → Bool → Option Schema → Result (Unit {0})
  unfolding is_error_name check_output_type
  validate_typed_return_func h error_expected output =
      require (count (is_some output) + count error_expected == length h.outputs)
      >> require (not error_expected || last_is_error h.outputs)
      >> check_output_type output h.outputs

  -- NewCallableFunction
  unfoldable pub new_callable_function :
      Bytes → List Schema → Option Schema → Bool → Handler → Result CallableFunction
  unfolding validate_input_type_compatibility validate_typed_return_func
  new_callable_function id inputs output outputs_error h =
      validate_input_type_compatibility inputs h
      >> validate_typed_return_func h outputs_error output
      >> ok (record {
        id = id;
        inputs = inputs;
        static_output = output;
        outputs_error = outputs_error;
        handler = h;
        dynamic_type_handler = none;
      })

  -- NewDynamicCallableFunction
  unfoldable pub new_dynamic_callable_function :
      Bytes → List Schema → Handler → (List Schema → Option Schema) → Result CallableFunction
  unfolding validate_input_type_compatibility is_error_name is_interface
  new_dynamic_callable_function id inputs h type_handler =
      validate_input_type_compatibility inputs h
      >> require (dynamic_returns h.outputs)
      >> ok (record {
        id = id;
        inputs = inputs;
        static_output = none;
        outputs_error = true;
        handler = h;
        dynamic_type_handler = some type_handler;
      })

-- Output: the type, and whether the handler may report an error.
unfoldable pub function_output : CallableFunction → List Schema → Result (Option Schema × Bool)
function_output f given = elim f.dynamic_type_handler [
  | none ↦ ok (f.static_output, f.outputs_error)
  | some type_handler ↦ elim (type_handler given) [
    | none ↦ err plain
    | some s ↦ ok (some s, f.outputs_error)
  ]
]

-- ToFunctionSchema
unfoldable pub to_function_schema : CallableFunction → Result FunctionSchema
to_function_schema f = elim f.dynamic_type_handler [
  | none ↦ ok (record { id = f.id; inputs = f.inputs; output = f.static_output })
  | some type_handler ↦ err plain
]

-- schema/types.go: the type IDs
unfoldable pub type_id : Schema → Bytes
type_id (int_schema lo hi u) = codes "integer"
type_id (float_schema lo hi u) = codes "float"
type_id (string_schema lo hi p) = codes "string"
type_id bool_schema = codes "bool"
type_id (pattern_schema compiles) = codes "pattern"
type_id (int_enum vs u) = codes "enum_integer"
type_id (string_enum vs) = codes "enum_string"
type_id (list_schema s lo hi) = codes "list"
type_id (map_schema k v lo hi) = codes "map"
type_id any_schema = codes "any"
type_id (object_schema o) = codes "object"
type_id (ref_schema id ns link) = codes "ref"
type_id (scope_schema objects root) = codes "scope"
type_id (one_of_schema int_keys cs d inlined) = codes "one_of_int"
type_id (one_of_schema string_keys cs d inlined) = codes "one_of_string"

-- ParameterTypeNames, joined by ", "
unfoldable pub parameter_list : List Schema → Bytes
unfolding type_id
parameter_list [] = []
parameter_list (s ∷ []) = type_id s
parameter_list (s ∷ t ∷ ss) = type_id s ++ codes ", " ++ parameter_list (t ∷ ss)

-- getReturnTypeString
unfoldable pub return_type_string : Option Schema → Bool → Bytes
unfolding type_id
return_type_string (some s) true = codes "(" ++ type_id s ++ codes ", error)"
return_type_string (some s) false = type_id s
return_type_string none true = codes "error"
return_type_string none false = codes "void"

-- FunctionSchema.String
unfoldable pub function_string : FunctionSchema → Bytes
unfolding parameter_list return_type_string
function_string f =
    f.id ++ codes "(" ++ parameter_list f.inputs ++ codes ") " ++ return_type_string f.output false

-- CallableFunctionSchema.String
unfoldable pub callable_function_string : CallableFunction → Bytes
unfolding parameter_list return_type_string
callable_function_string f =
    f.id ++ codes "(" ++ parameter_list f.inputs ++ codes ") " ++ elim f.dynamic_type_handler [
      | none ↦ return_type_string f.static_output f.outputs_error
      | some type_handler ↦ codes "(dynamic, error)"
    ]
