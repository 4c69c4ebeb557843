-- ===== src/Step/Calls.antt =====
-- schema/step.go and schema.go: what a successful call has checked, and the data that a run keeps.
use arcaflow_plugin_sdk_go.Common.{
  Bytes, str_eq_iff, Bool, true, false, List, Option, none, some, ◌≡◌, refl, ap, sym, subst, ◌∙◌,
  arith, lookup, lookup-insert,
}
use arcaflow_plugin_sdk_go.Go.Value.{Value}
use arcaflow_plugin_sdk_go.Go.Result.{Result, ok, err, panic, out_of_fuel, Error}
use arcaflow_plugin_sdk_go.Step.{
  Scope, CallableStep, StepState, CallError, CallResult, done, fails, stops, try, setup_step_data,
  found_or_new, asserted, check_output, call, serialize_output, after_call, call_found, call_step,
  refused_output, invalid_output, invalid_input,
}

pub try-done :
    {A B : Type 0} (wrap : Error → CallError) (r : Result A) (next : A → CallResult B) (b : B)
    → try wrap r next ≡ done b
    → (a : A) × (r ≡ ok a) × (next a ≡ done b)
try-done wrap (ok a) next b h = (a, refl, h)
try-done wrap (err e) next b h = cc
try-done wrap panic next b h = cc
try-done wrap out_of_fuel next b h = cc

pub done_injective : {A : Type 0} {a b : A} → done a ≡ done b → a ≡ b
done_injective e = cc

pub asserted-done :
    {A : Type 0} (holds : Bool) (next : CallResult A) (a : A)
    → asserted holds next ≡ done a
    → (holds ≡ true) × (next ≡ done a)
asserted-done true next a h = (refl, h)
asserted-done false next a h = cc

output-done :
    (o : Option Scope) (id : Bytes) (x : Value) (out : Bytes × Value)
    → check_output id x o ≡ done out
    → (scope : Scope) × (o ≡ some scope) × (scope.validate x ≡ ok tt) × ((id, x) ≡ out)
output-done none id x out h = cc
output-done (some scope) id x out h =
    let (u, v, k) = try-done refused_output (scope.validate x) _ out h in
    (scope, refl, v, done_injective k)

serialized-done :
    (scope : Scope) (out : Bytes × Value) (id : Bytes) (w : Value)
    → serialize_output (some scope) out ≡ done (id, w)
    → (scope.serialize out.1 ≡ ok w) × (out.0 ≡ id)
serialized-done scope out id w h =
    let (x, e, k) = try-done invalid_output (scope.serialize out.1) _ (id, w) h in
    (e ∙ ap (λ p. ok p.1) (done_injective k), ap (λ p. p.0) (done_injective k))

after-done :
    (outputs : List (Bytes × Scope)) (r : CallResult (Bytes × Value)) (b : Bytes × Value)
    → after_call outputs r ≡ done b
    → (out : Bytes × Value) × (r ≡ done out)
      × (serialize_output (lookup out.0 outputs) out ≡ done b)
after-done outputs (done out) b h = (out, refl, h)
after-done outputs (fails e) b h = cc
after-done outputs stops b h = cc

module _ {D : Type 0} where
  found-kept :
      (step : CallableStep D) (run other : Bytes) (o : Option D) (d : D) (s : StepState D)
      → lookup other s.step_data ≡ o
      → lookup run s.step_data ≡ some d
      → lookup run (found_or_new step other o s).1.step_data ≡ some d
  found-kept step run other (some e) d s l h = h
  found-kept step run other none d s l h = ground (
    arith,
    l,
    h,
    lookup-insert other run (step.initializer s.initialized) s.step_data,
    str_eq_iff other run,
  )

  found-stored :
      (step : CallableStep D) (run : Bytes) (o : Option D) (s : StepState D)
      → lookup run s.step_data ≡ o
      → lookup run (found_or_new step run o s).1.step_data ≡ some (found_or_new step run o s).0
  found-stored step run (some e) s l = l
  found-stored step run none s l = ground (
    arith,
    lookup-insert run run (step.initializer s.initialized) s.step_data,
    str_eq_iff run run,
  )

  -- The step of a run and all its signals get the same data: what the first of them set up stays the
  -- run's, whatever other run is set up in between.
  pub setup_step_data-shared :
      (step : CallableStep D) (run other : Bytes) (s : StepState D)
      → let first = setup_step_data step run s in
        let between = setup_step_data step other first.1 in
        setup_step_data step run between.1 ≡ (first.0, between.1)
  unfolding setup_step_data
  setup_step_data-shared step run other s =
      let first = found_or_new step run (lookup run s.step_data) s in
      let stored = found-stored step run (lookup run s.step_data) s refl in
      let kept =
        found-kept step run other (lookup other first.1.step_data) first.0 first.1 refl stored in
      ap
        (λ o.
          found_or_new step run o
            (found_or_new step other (lookup other first.1.step_data) first.1).1)
        kept

  call-done :
      (step : CallableStep D) (run : Bytes) (u : Value) (s : StepState D) (out : Bytes × Value)
      → call step run u s ≡ done out
      → (scope : Scope) × (step.input.validate u ≡ ok tt)
        × (step.accepts_input u ≡ true)
        × (step.handler (setup_step_data step run s).0 u ≡ out)
        × (lookup out.0 step.outputs ≡ some scope)
        × (scope.validate out.1 ≡ ok tt)
  unfolding call
  call-done step run u s out h =
      let (t, v, k) = try-done invalid_input (step.input.validate u) _ out h in
      let made = step.handler (setup_step_data step run s).0 u in
      let checked = check_output made.0 made.1 (lookup made.0 step.outputs) in
      let (fits, l) = asserted-done (step.accepts_input u) checked out k in
      let (scope, d, a, e) = output-done (lookup made.0 step.outputs) made.0 made.1 out l in
      (
        scope,
        v,
        fits,
        e,
        sym (ap (λ o. lookup o.0 step.outputs) e) ∙ d,
        sym (ap (λ o. scope.validate o.1) e) ∙ a,
      )

  -- The call unserialized and validated its input, which has the handler's type; the output was returned by the handler
  -- for the run's data, has a declared ID, was validated, and was serialized by its schema.
  pub record Succeeds (step : CallableStep D) (run : Bytes) (v : Value) (s : StepState D)
      (id : Bytes) (w : Value) : Type 0 where
    pub argument : Value
    pub result : Value
    pub scope : Scope
    pub unserialized : step.input.unserialize v ≡ ok argument
    pub validated : step.input.validate argument ≡ ok tt
    pub asserts : step.accepts_input argument ≡ true
    pub handled : step.handler (setup_step_data step run s).0 argument ≡ (id, result)
    pub declared : lookup id step.outputs ≡ some scope
    pub accepted : scope.validate result ≡ ok tt
    pub serialized : scope.serialize result ≡ ok w

  succeeded :
      (step : CallableStep D) (run id : Bytes) (v u w : Value) (s : StepState D)
      (out : Bytes × Value)
      → step.input.unserialize v ≡ ok u
      → call step run u s ≡ done out
      → serialize_output (lookup out.0 step.outputs) out ≡ done (id, w)
      → Succeeds step run v s id w
  succeeded step run id v u w s out e c k =
      let (scope, valid, fits, made, declared, accepted) = call-done step run u s out c in
      let (serialized, same) =
        serialized-done scope out id w
          (subst (λ o. serialize_output o out ≡ done (id, w)) declared k) in
      record {
        argument = u;
        result = out.1;
        scope = scope;
        unserialized = e;
        validated = valid;
        asserts = fits;
        handled = made ∙ ap (λ i. (i, out.1)) same;
        declared = sym (ap (λ i. lookup i step.outputs) same) ∙ declared;
        accepted = accepted;
        serialized = serialized;
      }

  -- Where CallStep of a known step returns an output, the input was unserialized and validated and has the
  -- handler's type, and the output
  -- was returned by the handler for the run's data, has a declared ID, was validated by the
  -- schema of that ID, and was serialized by it.
  pub call_step-Succeeds :
      (steps : List (Bytes × CallableStep D)) (step : CallableStep D) (run step_id id : Bytes)
      (v w : Value) (s : StepState D)
      → lookup step_id steps ≡ some step
      → call_step steps run step_id v s ≡ done (id, w)
      → Succeeds step run v s id w
  unfolding call_step
  call_step-Succeeds steps step run step_id id v w s e h =
      let found = subst (λ o. call_found o run step_id v s ≡ done (id, w)) e h in
      let (u, eu, k) = try-done invalid_input (step.input.unserialize v) _ (id, w) found in
      let (out, c, z) = after-done step.outputs (call step run u s) (id, w) k in
      succeeded step run id v u w s out eu c z
