-- ===== src/Step/Schemas.antt =====
-- schema/step.go, signal.go, step_output.go and schema.go: what a plugin's schema says of its steps, and
-- the links that a received schema is given. A scope is its objects, by their addresses, and the ID of its
-- root. Displays are left out.
use arcaflow_plugin_sdk_go.Common.{ℕ, Bytes, Bool, List, [], ◌∷◌, map, insert}
use arcaflow_plugin_sdk_go.Go.Result.{Result, ok, ◌>>=◌}
use arcaflow_plugin_sdk_go.Schema.Types.{Store}
use arcaflow_plugin_sdk_go.Schema.Namespace.{Objects, apply_scope, self_namespace}

pub record ScopeSchema : Type 0 where
  pub objects : Objects
  pub root : Bytes

pub record StepOutputSchema : Type 0 where
  pub schema : ScopeSchema
  pub error : Bool

pub record SignalSchema : Type 0 where
  pub id : Bytes
  pub data_schema : ScopeSchema

pub record StepSchema : Type 0 where
  pub id : Bytes
  pub input : ScopeSchema
  pub outputs : List (Bytes × StepOutputSchema)
  pub signal_handlers : List (Bytes × SignalSchema)
  pub signal_emitters : List (Bytes × SignalSchema)

-- CallableSignalSchema and CallableStepSchema, without what they call.
pub record CallableSignalSchema : Type 0 where
  pub id : Bytes
  pub input : ScopeSchema

pub record CallableStepSchema : Type 0 where
  pub id : Bytes
  pub input : ScopeSchema
  pub outputs : List (Bytes × StepOutputSchema)
  pub signal_handlers : List (Bytes × CallableSignalSchema)
  pub signal_emitters : List (Bytes × SignalSchema)

abbrev pub on_values : {A B : Type 0} → (A → B) → Bytes × A → Bytes × B
on_values f e = (e.0, f e.1)

abbrev pub to_signal_schema : CallableSignalSchema → SignalSchema
to_signal_schema s = record { id = s.id; data_schema = s.input }

-- NewCallableStep: a step without signals.
abbrev pub new_callable_step :
    Bytes → ScopeSchema → List (Bytes × StepOutputSchema) → CallableStepSchema
new_callable_step id input outputs = record {
  id = id;
  input = input;
  outputs = outputs;
  signal_handlers = [];
  signal_emitters = [];
}

unfoldable pub to_step_schema : CallableStepSchema → StepSchema
to_step_schema s = record {
  id = s.id;
  input = s.input;
  outputs = s.outputs;
  signal_handlers = map (on_values to_signal_schema) s.signal_handlers;
  signal_emitters = s.signal_emitters;
}

-- NewCallableSchema: the loop, from the map of the steps before.
unfoldable pub add_steps :
    List (Bytes × CallableStepSchema) → List CallableStepSchema → List (Bytes × CallableStepSchema)
add_steps m [] = m
add_steps m (s ∷ steps) = add_steps (insert s.id s m) steps

abbrev pub new_callable_schema : List CallableStepSchema → List (Bytes × CallableStepSchema)
unfolding add_steps
new_callable_schema steps = add_steps [] steps

-- The loop of SelfSerialize.
abbrev pub step_schemas : List (Bytes × CallableStepSchema) → List (Bytes × StepSchema)
unfolding to_step_schema
step_schemas steps = map (on_values to_step_schema) steps

-- The loops of SchemaSchema.applyNamespace.
unfoldable pub apply_outputs : ℕ → List (Bytes × StepOutputSchema) → Store → Result Store
unfolding apply_scope
apply_outputs f [] st = ok st
apply_outputs f ((k, o) ∷ outputs) st = do
  st' ← apply_scope f self_namespace [] st o.schema.objects
  apply_outputs f outputs st'

unfoldable pub apply_namespace : ℕ → List (Bytes × StepSchema) → Store → Result Store
unfolding apply_outputs apply_scope
apply_namespace f [] st = ok st
apply_namespace f ((k, s) ∷ steps) st = do
  st' ← apply_scope f self_namespace [] st s.input.objects
  st'' ← apply_outputs f s.outputs st'
  apply_namespace f steps st''
