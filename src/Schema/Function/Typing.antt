-- ===== src/Schema/Function/Typing.antt =====
-- A function that NewCallableFunction accepts has the type that its schema says.
use arcaflow_plugin_sdk_go.Common.{
  suc, ◌+◌, Bytes, Bool, true, false, not, ◌||◌, List, [], ◌∷◌, All, length, Option, none, some,
  is_some, ◌==◌, if◌then◌else◌, ◌≡◌, refl, sym, ap, ◌∙◌, subst, arith, ==_iff,
}
use arcaflow_plugin_sdk_go.Go.Value.{Value}
use arcaflow_plugin_sdk_go.Go.Result.{Result, ok, err, plain, ◌>>◌, >>-eq-ok, ok_injective}
use arcaflow_plugin_sdk_go.Schema.Types.{Schema, Store}
use arcaflow_plugin_sdk_go.Schema.Function.{
  Returned, Handler, CallableFunction, require, check_input_types,
  validate_input_type_compatibility, check_output_type, validate_typed_return_func,
  new_callable_function, count, last_is_error,
}
use arcaflow_plugin_sdk_go.Schema.Function.Call.{
  all_assignable, take_results, call_handler, call_function,
}
use arcaflow_plugin_sdk_go.Schema.Function.Results.{
  all_conform, PlainError, Fitting, Delivers, require-eq-ok, all_assignable-Fitting,
  take_results-Delivers,
}

length-Fitting :
    (store : Store) (ss : List Schema) (vs : List Value)
    → Fitting store ss vs
    → length vs ≡ length ss
length-Fitting store [] [] f = refl
length-Fitting store [] (v ∷ vs) f = absurd f
length-Fitting store (s ∷ ss) [] f = absurd f
length-Fitting store (s ∷ ss) (v ∷ vs) f = ap suc (length-Fitting store ss vs (f.1))

guarded-eq-ok :
    (b : Bool) (m : Result (Unit {0}))
    → (if b then m else err plain) ≡ ok tt
    → (b ≡ true) × (m ≡ ok tt)
guarded-eq-ok true m h = (refl, h)
guarded-eq-ok false m h = cc

or_false : (b : Bool) → (b || false) ≡ b
or_false b = ground arith

-- The function that NewCallableFunction makes.
abbrev made_of : Bytes → List Schema → Option Schema → Bool → Handler → CallableFunction
made_of id inputs out errors h = record {
  id = id;
  inputs = inputs;
  static_output = out;
  outputs_error = errors;
  handler = h;
  dynamic_type_handler = none;
}

module _ (store : Store) (id : Bytes) (inputs : List Schema) (out : Option Schema) (errors : Bool)
    (h : Handler) where
  -- What NewCallableFunction has checked of a function that it returns.
  new_callable_function-checks :
      (f : CallableFunction)
      → new_callable_function store id inputs out errors h ≡ ok f
      → (validate_input_type_compatibility store inputs h ≡ ok tt)
        × (validate_typed_return_func store h errors out ≡ ok tt)
        × (made_of id inputs out errors h ≡ f)
  unfolding new_callable_function
  new_callable_function-checks f e =
      let both =
        >>-eq-ok
          (validate_input_type_compatibility store inputs h
            >> validate_typed_return_func store h errors out)
          (ok (made_of id inputs out errors h)) e in
      let checks =
        >>-eq-ok (validate_input_type_compatibility store inputs h)
          (validate_typed_return_func store h errors out) (both.0) in
      (checks.0, checks.1, ok_injective (both.1))

  inputs_checked :
      validate_input_type_compatibility store inputs h ≡ ok tt
      → ((length inputs == length h.inputs) ≡ true)
        × (check_input_types store inputs h.inputs ≡ ok tt)
  unfolding validate_input_type_compatibility
  inputs_checked e =
      guarded-eq-ok (length inputs == length h.inputs) (check_input_types store inputs h.inputs) e

  outputs_checked :
      validate_typed_return_func store h errors out ≡ ok tt
      → ((count (is_some out) + count errors == length h.outputs) ≡ true)
        × ((not errors || last_is_error h.outputs) ≡ true)
        × (check_output_type store out h.outputs ≡ ok tt)
  unfolding validate_typed_return_func
  outputs_checked e =
      let counts = count (is_some out) + count errors == length h.outputs in
      let last = not errors || last_is_error h.outputs in
      let rest = check_output_type store out h.outputs in
      let both = >>-eq-ok (require counts >> require last) rest e in
      let checks = >>-eq-ok (require counts) (require last) (both.0) in
      (require-eq-ok counts (checks.0), require-eq-ok last (checks.1), both.1)

  call_function-made_of :
      (vs : List Value) {rs : List Returned}
      → (length vs == length h.inputs) ≡ true
      → all_assignable vs h.inputs ≡ true
      → h.body vs ≡ some rs
      → call_function (made_of id inputs out errors h) vs ≡ take_results (is_some out) h.outputs rs
  unfolding call_function call_handler
  call_function-made_of vs e a b = rw (e, a, b, or_false (is_some out)) refl

-- A function that NewCallableFunction accepts delivers what its schema says: called with a value of the
-- reflected type for each input, it gives a result of the output's reflected type, nothing where the
-- schema has no output, or an error that the function reports, the latter only where the schema
-- allows errors. It is never a wrong call, and the reflection does not panic. The Go function returns,
-- with results of its types, none of which is a type of the program's own with the name "error".
pub call_function-Delivers :
    (store : Store) (id : Bytes) (inputs : List Schema) (out : Option Schema) (errors : Bool)
    (h : Handler) (f : CallableFunction) (vs : List Value) (rs : List Returned)
    → new_callable_function store id inputs out errors h ≡ ok f
    → All PlainError h.outputs
    → Fitting store inputs vs
    → h.body vs ≡ some rs
    → all_conform h.outputs rs ≡ true
    → Delivers store out errors (call_function f vs)
call_function-Delivers store id inputs out errors h f vs rs made plain_errors fitting returned
      conforming =
    let checks = new_callable_function-checks store id inputs out errors h f made in
    let ins = inputs_checked store id inputs out errors h (checks.0) in
    let outs = outputs_checked store id inputs out errors h (checks.1) in
    let same : length inputs ≡ length h.inputs =
      (==_iff (length inputs) (length h.inputs)).0 (ins.0) in
    let given : length vs ≡ length h.inputs = length-Fitting store inputs vs fitting ∙ same in
    let assigned = all_assignable-Fitting store inputs h.inputs vs same (ins.1) fitting in
    let called =
      call_function-made_of store id inputs out errors h vs
        ((==_iff (length vs) (length h.inputs)).1 given) assigned returned in
    subst (λ g. Delivers store out errors (call_function g vs)) (checks.2)
      (subst (Delivers store out errors) (sym called) (
        take_results-Delivers store out errors h.outputs rs (outs.0) (outs.1) (outs.2) plain_errors
          conforming))
