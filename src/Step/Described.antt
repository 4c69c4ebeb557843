-- ===== src/Step/Described.antt =====
-- schema/schema.go: the steps that a schema describes and links.
use arcaflow_plugin_sdk_go.Common.{
  ℕ, Bytes, str_eq, str_eq_iff, Bool-cases, inl, inr, List, [], ◌∷◌, ◌++◌, map, some, insert,
  lookup, ◌≡◌, ◌≢◌, All, refl, ap, ◌∙◌, arith, lookup-insert,
}
use mathlib.Core.Option
use arcaflow_plugin_sdk_go.Go.Result.{◌>>=◌}
use arcaflow_plugin_sdk_go.Schema.Types.{Store}
use arcaflow_plugin_sdk_go.Schema.Namespace.{apply_scope, self_namespace}
use arcaflow_plugin_sdk_go.Step.Schemas.{
  StepSchema, CallableStepSchema, on_values, to_step_schema, add_steps, new_callable_schema,
  step_schemas, apply_outputs, apply_namespace,
}

lookup-on_values :
    {A B : Type 0} (f : A → B) (id : Bytes) (m : List (Bytes × A))
    → lookup id (map (on_values f) m) ≡ Option.map f (lookup id m)
unfolding lookup
lookup-on_values f id [] = refl
lookup-on_values f id ((k, a) ∷ m) = elim (Bool-cases (str_eq k id)) [
  | inl e ↦ rw e refl
  | inr e ↦ rw e (lookup-on_values f id m)
]

add_steps-kept :
    (id : Bytes) (s : CallableStepSchema) (m : List (Bytes × CallableStepSchema))
    (steps : List CallableStepSchema)
    → All (λ t. t.id ≢ id) steps
    → lookup id m ≡ some s
    → lookup id (add_steps m steps) ≡ some s
unfolding add_steps
add_steps-kept id s m [] d h = h
add_steps-kept id s m (t ∷ steps) d h =
    add_steps-kept id s (insert t.id t m) steps d.1
      (ground (arith, lookup-insert t.id id t m, str_eq_iff t.id id, d.0, h))

added-last :
    (s : CallableStepSchema) (m : List (Bytes × CallableStepSchema))
    (before behind : List CallableStepSchema)
    → All (λ t. t.id ≢ s.id) behind
    → lookup s.id (add_steps m (before ++ (s ∷ behind))) ≡ some s
unfolding add_steps
added-last s m [] behind d =
    add_steps-kept s.id s (insert s.id s m) behind d
      (lookup-insert s.id s.id s m ∙ ground (arith, str_eq_iff s.id s.id))
added-last s m (t ∷ before) behind d = added-last s (insert t.id t m) before behind d

-- Under a step's ID, CallStep finds the last step that NewCallableSchema was given with this ID, and SelfSerialize
-- describes the same one.
described-last :
    (s : CallableStepSchema) (before behind : List CallableStepSchema)
    → All (λ t. t.id ≢ s.id) behind
    → let steps = new_callable_schema (before ++ (s ∷ behind)) in
      (lookup s.id steps ≡ some s) × (lookup s.id (step_schemas steps) ≡ some (to_step_schema s))
unfolding add_steps to_step_schema lookup
described-last s before behind d =
    let found = added-last s [] before behind d in
    (
      found,
      lookup-on_values to_step_schema s.id (add_steps [] (before ++ (s ∷ behind)))
          ∙ ap (Option.map to_step_schema) found,
    )

abbrev without_signals : StepSchema → StepSchema
without_signals s = record s { signal_handlers = []; signal_emitters = [] }

-- The schemas of signals have no part in applyNamespace, so that it leaves their references as they are.
apply_namespace-without_signals :
    (f : ℕ) (steps : List (Bytes × StepSchema)) (st : Store)
    → apply_namespace f (map (on_values without_signals) steps) st ≡ apply_namespace f steps st
unfolding apply_namespace
apply_namespace-without_signals f [] st = refl
apply_namespace-without_signals f ((k, s) ∷ steps) st = λ i.
    apply_scope f self_namespace [] st s.input.objects >>= λ st'.
    apply_outputs f s.outputs st' >>= λ st''. apply_namespace-without_signals f steps st'' i
