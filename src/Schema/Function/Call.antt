-- ===== src/Schema/Function/Call.antt =====
-- schema/function.go: CallableFunctionSchema.Call.
use arcaflow_plugin_sdk_go.Common.{
  Bytes, Bool, true, false, ◌&&◌, ◌||◌, List, [], ◌∷◌, length, none, some, is_some, ◌==◌,
  if◌then◌else◌,
}
use arcaflow_plugin_sdk_go.Go.Value.{Value, null, slice, map, GoType, any_type, type_of, type_eq}
use arcaflow_plugin_sdk_go.Schema.Function.{
  ReturnType, value_type, local_error, Returned, value, error_value, local_value, Handler,
  CallableFunction,
}

-- What Call returns: nothing, a result, an error that the function reports, or an error for a wrong
-- call or an unexpected return.
pub data Called : Type 0 where
  nothing : Called
  result : Returned → Called
  reported : Bytes → Called
  misuse : Called
  panicked : Called

-- reflect's Call takes an argument whose type is the parameter's, or any but nil for an interface.
unfoldable pub assignable : Value → GoType → Bool
unfolding type_eq
assignable v any_type = is_some (type_of v)
assignable v t = elim (type_of v) [ none ↦ false | some s ↦ type_eq s t ]

unfoldable pub all_assignable : List Value → List GoType → Bool
unfolding assignable
all_assignable [] [] = true
all_assignable (v ∷ vs) (t ∷ ts) = assignable v t && all_assignable vs ts
all_assignable _ _ = false

-- The value at the place of the error: a nil one, an error, or no error. IsNil panics on the kinds
-- that have no nil; a slice or a map at this place is taken for one that is not nil.
pub data Checked : Type 0 where
  no_error not_an_error nil_panics : Checked
  an_error : Bytes → Checked

unfoldable pub check_error : ReturnType → Returned → Checked
check_error t (error_value none) = no_error
check_error t (error_value (some e)) = an_error e
check_error (value_type any_type) (value null) = no_error
check_error (value_type any_type) (value v) = not_an_error
check_error t (value (slice u vs)) = not_an_error
check_error t (value (map k u es)) = not_an_error
check_error t (value v) = nil_panics
check_error (local_error true) (local_value true) = no_error
check_error (local_error true) (local_value false) = not_an_error
check_error t (local_value n) = nil_panics

abbrev pub after_check : Checked → Called → Called
after_check no_error c = c
after_check (an_error e) c = reported e
after_check not_an_error c = misuse
after_check nil_panics c = panicked

-- The switch over the number of results: `expected` is whether there is an output type.
unfoldable pub take_results : (expected : Bool) → List ReturnType → List Returned → Called
unfolding check_error
take_results false ts [] = nothing
take_results true ts (r ∷ []) = result r
take_results false (t ∷ ts) (r ∷ []) = after_check (check_error t r) nothing
take_results true (t ∷ u ∷ ts) (r ∷ e ∷ []) = after_check (check_error u e) (result r)
take_results _ _ _ = misuse

unfoldable pub call_handler : Handler → Bool → List Value → Called
unfolding all_assignable take_results
call_handler h expected arguments =
    if all_assignable arguments h.inputs
    then elim (h.body arguments) [ none ↦ panicked | some rs ↦ take_results expected h.outputs rs ]
    else panicked

-- Call
unfoldable pub call_function : CallableFunction → List Value → Called
unfolding call_handler
call_function f arguments =
    if length arguments == length f.handler.inputs
    then call_handler f.handler (is_some f.static_output || is_some f.dynamic_type_handler)
        arguments
    else misuse
