-- ===== src/Step/Linked.antt =====
-- schema/schema.go, applyNamespace: which references of a received schema have their objects.
use arcaflow_plugin_sdk_go.Common.{ℕ, suc, Bytes, List, [], ◌∷◌, All, ◌≡◌, subst}
use arcaflow_plugin_sdk_go.Go.Result.{Result, ok, >>=-eq-ok, ok_injective}
use arcaflow_plugin_sdk_go.Schema.Types.{Store}
use arcaflow_plugin_sdk_go.Schema.Namespace.{Objects, apply_scope, validate_scope, self_namespace}
use arcaflow_plugin_sdk_go.Schema.Namespace.Scope.{
  AllResolvable, Linked, apply_scope-Linked, validate_scope-Linked,
}
use arcaflow_plugin_sdk_go.Step.Schemas.{
  ScopeSchema, StepOutputSchema, StepSchema, apply_outputs, apply_namespace,
}

All-mono :
    {A : Type 0} (P Q : A → Type 0) (xs : List A) → ((x : A) → P x → Q x) → All P xs → All Q xs
All-mono P Q [] keeps h = tt
All-mono P Q (x ∷ xs) keeps h = (keeps x h.0, All-mono P Q xs keeps h.1)

module _ (references : Objects → Result (Unit {0})) where
  abbrev LinkedScope : Store → ScopeSchema → Type 0
  LinkedScope st s = All (λ e. Linked references st e.1) s.objects

  abbrev LinkedStep : Store → StepSchema → Type 0
  LinkedStep st s = LinkedScope st s.input × All (λ o. LinkedScope st o.1.schema) s.outputs

  abbrev Keeps : Store → Store → Type 0
  Keeps st st' = (b : ℕ) → Linked references st b → Linked references st' b

  scope-kept :
      (st st' : Store) (s : ScopeSchema) → Keeps st st' → LinkedScope st s → LinkedScope st' s
  scope-kept st st' s keeps =
      All-mono (λ e. Linked references st e.1) (λ e. Linked references st' e.1) s.objects
        (λ e. keeps e.1)

  outputs-kept :
      (st st' : Store) (outputs : List (Bytes × StepOutputSchema))
      → Keeps st st'
      → All (λ o. LinkedScope st o.1.schema) outputs
      → All (λ o. LinkedScope st' o.1.schema) outputs
  outputs-kept st st' outputs keeps =
      All-mono (λ o. LinkedScope st o.1.schema) (λ o. LinkedScope st' o.1.schema) outputs
        (λ o. scope-kept st st' o.1.schema keeps)

  apply_outputs-Linked :
      (f : ℕ) (outputs : List (Bytes × StepOutputSchema)) (st st' : Store)
      → apply_outputs (suc f) outputs st ≡ ok st'
      → AllResolvable self_namespace st
      → All (λ o. LinkedScope st' o.1.schema) outputs
        × Keeps st st'
        × AllResolvable self_namespace st'
  unfolding apply_outputs
  apply_outputs-Linked f [] st st' h all = (
    tt,
    subst (Keeps st) (ok_injective h) (λ b l. l),
    subst (AllResolvable self_namespace) (ok_injective h) all,
  )
  apply_outputs-Linked f ((k, o) ∷ outputs) st st' h all =
      let (mid, applied, rest) =
        >>=-eq-ok (apply_scope (suc f) self_namespace [] st o.schema.objects) _ h in
      let (linked, keeps, resolvable) =
        apply_scope-Linked references f self_namespace [] o.schema.objects st mid applied all in
      let (others, kept, resolvable') = apply_outputs-Linked f outputs mid st' rest resolvable in
      ((scope-kept mid st' o.schema kept linked, others), (λ b l. kept b (keeps b l)), resolvable')

  apply_namespace-Linked :
      (f : ℕ) (steps : List (Bytes × StepSchema)) (st st' : Store)
      → apply_namespace (suc f) steps st ≡ ok st'
      → AllResolvable self_namespace st
      → All (λ s. LinkedStep st' s.1) steps × Keeps st st'
  unfolding apply_namespace
  apply_namespace-Linked f [] st st' h all = (tt, subst (Keeps st) (ok_injective h) (λ b l. l))
  apply_namespace-Linked f ((k, s) ∷ steps) st st' h all =
      let (mid, applied, rest) =
        >>=-eq-ok (apply_scope (suc f) self_namespace [] st s.input.objects) _ h in
      let (mid', applied', rest') = >>=-eq-ok (apply_outputs (suc f) s.outputs mid) _ rest in
      let (linked, keeps, resolvable) =
        apply_scope-Linked references f self_namespace [] s.input.objects st mid applied all in
      let (outs, keeps', resolvable') =
        apply_outputs-Linked f s.outputs mid mid' applied' resolvable in
      let (others, kept) = apply_namespace-Linked f steps mid' st' rest' resolvable' in
      (
        (
          (
            scope-kept mid' st' s.input kept (scope-kept mid mid' s.input keeps' linked),
            outputs-kept mid' st' s.outputs kept outs,
          ),
          others,
        ),
        λ b l. kept b (keeps' b (keeps b l)),
      )

-- ValidateReferences of the step's input and of each output succeeds.
abbrev pub ValidStep : ℕ → Store → StepSchema → Type 0
ValidStep g st s =
    (validate_scope g st s.input.objects ≡ ok tt)
    × All (λ o. validate_scope g st o.1.schema.objects ≡ ok tt) s.outputs

-- After applyNamespace of a received schema, ValidateReferences of the input and of the outputs of every step
-- succeeds, where the objects in the store hold no scopes, and each of their references is of the scope's own namespace or has
-- its object already.
pub apply_namespace-ValidStep :
    (f g : ℕ) (steps : List (Bytes × StepSchema)) (st st' : Store)
    → apply_namespace (suc f) steps st ≡ ok st'
    → AllResolvable self_namespace st
    → All (λ s. ValidStep (suc g) st' s.1) steps
apply_namespace-ValidStep f g steps st st' h all =
    let references = λ (nested : Objects). validate_scope g st' nested in
    All-mono (λ s. LinkedStep references st' s.1) (λ s. ValidStep (suc g) st' s.1) steps
      (λ s linked. (
        validate_scope-Linked g s.1.input.objects st' linked.0,
        All-mono (λ o. LinkedScope references st' o.1.schema)
            (λ o. validate_scope (suc g) st' o.1.schema.objects ≡ ok tt) s.1.outputs
            (λ o. validate_scope-Linked g o.1.schema.objects st') linked.1,
      ))
      (apply_namespace-Linked references f steps st st' h all).0
