-- ===== src/Step.antt =====
-- schema/step.go and schema.go: the call of a step, and the data that a step shares with its signals. The
-- handler and the initializer are the plugin's code, and so are arguments; a panic in a step or in a
-- schema ends the call.
pub mod Calls
pub mod Described
pub mod Linked
pub mod Schemas
pub mod Signals
use arcaflow_plugin_sdk_go.Common.{
  ℕ, suc, Bytes, List, [], ◌∷◌, Option, none, some, lookup, insert, Bool, if◌then◌else◌,
}
use arcaflow_plugin_sdk_go.Go.Value.{Value}
use arcaflow_plugin_sdk_go.Go.Result.{Result, ok, err, panic, out_of_fuel, Error}

-- The operations of a scope that a call uses.
pub record Scope : Type 0 where
  pub unserialize : Value → Result Value
  pub validate : Value → Result (Unit {0})
  pub serialize : Value → Result Value

-- CallableSignalSchema: its data schema, and whether the assertions `stepData.(StepData)` and
-- `input.(InputType)` hold, which its type parameters decide.
pub record CallableSignal (D : Type 0) : Type 0 where
  pub schema : Scope
  pub accepts_data : D → Bool
  pub accepts_input : Value → Bool

-- CallableStepSchema, with the data of the running steps and the number of calls of its initializer.
pub record CallableStep (D : Type 0) : Type 0 where
  pub input : Scope
  pub outputs : List (Bytes × Scope)
  pub initializer : ℕ → D
  -- whether the assertion `input.(InputType)` holds
  pub accepts_input : Value → Bool
  pub handler : D → Value → Bytes × Value
  pub signal_handlers : List (Bytes × CallableSignal D)

pub record StepState (D : Type 0) : Type 0 where
  pub step_data : List (Bytes × D)
  pub initialized : ℕ

-- The errors BadArgumentError, InvalidInputError and InvalidOutputError, and the error that Validate returns
-- for an output.
pub data CallError : Type 0 where
  bad_argument : Bytes → CallError
  invalid_input : Error → CallError
  undeclared_output : Bytes → CallError
  invalid_output : Error → CallError
  refused_output : Error → CallError

pub data CallResult (A : Type 0) : Type 0 where
  done : A → CallResult A
  fails : CallError → CallResult A
  stops : CallResult A

-- Go on with the value of an operation of a scope, whose error becomes one of the call.
abbrev pub try : {A B : Type 0} → (Error → CallError) → Result A → (A → CallResult B) → CallResult B
try wrap (ok a) next = next a
try wrap (err e) next = fails (wrap e)
try wrap panic next = stops
try wrap out_of_fuel next = stops

-- Go on where a type assertion holds, and panic where it does not.
abbrev pub asserted : {A : Type 0} → Bool → CallResult A → CallResult A
asserted holds next = if holds then next else stops

abbrev pub check_output : Bytes → Value → Option Scope → CallResult (Bytes × Value)
check_output id w none = fails (undeclared_output id)
check_output id w (some o) = try refused_output (o.validate w) λ checked. done (id, w)

abbrev pub serialize_output : Option Scope → Bytes × Value → CallResult (Bytes × Value)
serialize_output none out = stops
serialize_output (some o) out = try invalid_output (o.serialize out.1) λ w. done (out.0, w)

abbrev pub after_call :
    List (Bytes × Scope) → CallResult (Bytes × Value) → CallResult (Bytes × Value)
after_call outputs (done out) = serialize_output (lookup out.0 outputs) out
after_call outputs (fails e) = fails e
after_call outputs stops = stops

module _ {D : Type 0} where
  abbrev pub found_or_new : CallableStep D → Bytes → Option D → StepState D → D × StepState D
  found_or_new step run (some d) s = (d, s)
  found_or_new step run none s = (
    step.initializer s.initialized,
    record {
      step_data = insert run (step.initializer s.initialized) s.step_data;
      initialized = suc s.initialized;
    },
  )

  unfoldable pub setup_step_data : CallableStep D → Bytes → StepState D → D × StepState D
  setup_step_data step run s = found_or_new step run (lookup run s.step_data) s

  -- Call: the result of the call and the state after it.
  unfoldable pub call : CallableStep D → Bytes → Value → StepState D → CallResult (Bytes × Value)
  unfolding setup_step_data
  call step run v s = try invalid_input (step.input.validate v) λ checked.
      let out = step.handler (setup_step_data step run s).0 v in
      asserted (step.accepts_input v) (check_output out.0 out.1 (lookup out.0 step.outputs))

  abbrev pub call_found :
      Option (CallableStep D) → Bytes → Bytes → Value → StepState D → CallResult (Bytes × Value)
  unfolding call
  call_found none run id v s = fails (bad_argument id)
  call_found (some step) run id v s =
      try invalid_input (step.input.unserialize v) λ u. after_call step.outputs (call step run u s)

  -- CallStep
  unfoldable pub call_step :
      List (Bytes × CallableStep D)
      → Bytes
      → Bytes
      → Value
      → StepState D
      → CallResult (Bytes × Value)
  unfolding call
  call_step steps run id v s = call_found (lookup id steps) run id v s
