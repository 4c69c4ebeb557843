-- ===== src/Step/Signals.antt =====
-- schema/schema.go, step.go and signal.go: CallSignal. What a call delivers is the data and the input with
-- which the signal's handler is called.
use arcaflow_plugin_sdk_go.Common.{
  Bytes, true, ◌&&◌, &&-eq-true, List, Option, none, some, lookup, ◌≡◌, refl, sym, ap, ◌∙◌, subst,
  ◌↔◌,
}
use arcaflow_plugin_sdk_go.Go.Value.{Value}
use arcaflow_plugin_sdk_go.Go.Result.{Result, ok, err, panic, out_of_fuel}
use arcaflow_plugin_sdk_go.Step.{
  CallableSignal, asserted, CallableStep, StepState, CallResult, done, fails, stops, try,
  bad_argument, invalid_input, setup_step_data,
}
use arcaflow_plugin_sdk_go.Step.Calls.{
  setup_step_data-shared, try-done, asserted-done, done_injective,
}

module _ {D : Type 0} where
  -- CallableSignalSchema.Call
  unfoldable pub call_signal_handler : CallableSignal D → D → Value → CallResult (D × Value)
  call_signal_handler signal d u =
      try invalid_input (signal.schema.validate u)
        λ checked. asserted (signal.accepts_data d && signal.accepts_input u) (done (d, u))

  -- CallableStepSchema.CallSignal, with the state after it. Nothing is added to the wait group that it
  -- waits for, so that it does not wait.
  unfoldable pub signal_step :
      CallableStep D
      → CallableSignal D
      → Bytes
      → Value
      → StepState D
      → CallResult (D × Value) × StepState D
  unfolding call_signal_handler setup_step_data
  signal_step step signal run u s =
      let set_up = setup_step_data step run s in (call_signal_handler signal set_up.0 u, set_up.1)

  abbrev pub unserialized_signal :
      CallableStep D
      → CallableSignal D
      → Bytes
      → Result Value
      → StepState D
      → CallResult (D × Value) × StepState D
  unserialized_signal step signal run (ok u) s = signal_step step signal run u s
  unserialized_signal step signal run (err e) s = (fails (invalid_input e), s)
  unserialized_signal step signal run panic s = (stops, s)
  unserialized_signal step signal run out_of_fuel s = (stops, s)

  -- The data schema of an unknown signal is read through a nil pointer.
  abbrev pub found_signal :
      CallableStep D
      → Option (CallableSignal D)
      → Bytes
      → Value
      → StepState D
      → CallResult (D × Value) × StepState D
  found_signal step none run v s = (stops, s)
  found_signal step (some signal) run v s =
      unserialized_signal step signal run (signal.schema.unserialize v) s

  abbrev pub signal_found :
      Option (CallableStep D)
      → Bytes
      → Bytes
      → Bytes
      → Value
      → StepState D
      → CallResult (D × Value) × StepState D
  signal_found none run id signal_id v s = (fails (bad_argument id), s)
  signal_found (some step) run id signal_id v s =
      found_signal step (lookup signal_id step.signal_handlers) run v s

  -- CallableSchema.CallSignal
  unfoldable pub call_signal :
      List (Bytes × CallableStep D)
      → Bytes
      → Bytes
      → Bytes
      → Value
      → StepState D
      → CallResult (D × Value) × StepState D
  unfolding signal_step
  call_signal steps run id signal_id v s = signal_found (lookup id steps) run id signal_id v s

  -- The handler of a signal is called with unserialized and validated input, and with the data that the step
  -- of this run gets, also where another run is set up in between.
  abbrev pub SignalDelivered :
      List (Bytes × CallableStep D)
      → Bytes
      → Bytes
      → Bytes
      → Value
      → StepState D
      → D × Value
      → StepState D
      → Type 0
  SignalDelivered steps run id signal_id v s out s' =
      (step : CallableStep D) × (signal : CallableSignal D) × (lookup id steps ≡ some step)
      × (lookup signal_id step.signal_handlers ≡ some signal)
      × (signal.schema.unserialize v ≡ ok out.1)
      × (signal.schema.validate out.1 ≡ ok tt)
      × (signal.accepts_data out.0 ≡ true)
      × (signal.accepts_input out.1 ≡ true)
      × (setup_step_data step run s ≡ (out.0, s'))
      × ((other : Bytes)
          → let between = setup_step_data step other s' in
            setup_step_data step run between.1 ≡ (out.0, between.1))

  call_signal_handler-done :
      (signal : CallableSignal D) (d : D) (u : Value) (out : D × Value)
      → call_signal_handler signal d u ≡ done out
      → (signal.schema.validate u ≡ ok tt)
        × (signal.accepts_data d ≡ true)
        × (signal.accepts_input u ≡ true)
        × ((d, u) ≡ out)
  unfolding call_signal_handler
  call_signal_handler-done signal d u out h =
      let (checked, valid, g) = try-done invalid_input (signal.schema.validate u) _ out h in
      let (holds, same) =
        asserted-done (signal.accepts_data d && signal.accepts_input u) (done (d, u)) out g in
      let both = &&-eq-true (signal.accepts_data d) (signal.accepts_input u) holds in
      (valid, both.0, both.1, done_injective same)

  unserialized-done :
      (step : CallableStep D) (signal : CallableSignal D) (run : Bytes) (r : Result Value)
      (s : StepState D) (out : D × Value) (s' : StepState D)
      → unserialized_signal step signal run r s ≡ (done out, s')
      → (u : Value) × (r ≡ ok u) × (signal_step step signal run u s ≡ (done out, s'))
  unserialized-done step signal run (ok u) s out s' h = (u, refl, h)
  unserialized-done step signal run (err e) s out s' h = cc (ap (λ p. p.0) h)
  unserialized-done step signal run panic s out s' h = cc (ap (λ p. p.0) h)
  unserialized-done step signal run out_of_fuel s out s' h = cc (ap (λ p. p.0) h)

  signal_step-done :
      (step : CallableStep D) (signal : CallableSignal D) (run : Bytes) (u : Value)
      (s : StepState D) (out : D × Value) (s' : StepState D)
      → signal_step step signal run u s ≡ (done out, s')
      → (u ≡ out.1)
        × (signal.schema.validate u ≡ ok tt)
        × (setup_step_data step run s ≡ (out.0, s'))
        × (signal.accepts_data out.0 ≡ true)
        × (signal.accepts_input u ≡ true)
  unfolding signal_step
  signal_step-done step signal run u s out s' h =
      let set_up = setup_step_data step run s in
      let called = call_signal_handler-done signal set_up.0 u out (ap (λ p. p.0) h) in
      (
        ap (λ p. p.1) called.3,
        called.0,
        ap (λ d. (d, set_up.1)) (ap (λ p. p.0) called.3) ∙ ap (λ x. (out.0, x)) (ap (λ p. p.1) h),
        ap (λ p. signal.accepts_data p.0) (sym called.3) ∙ called.1,
        called.2,
      )

  -- What was set up stays that of the run.
  shared_after :
      (step : CallableStep D) (run : Bytes) (s : StepState D) (d : D) (s' : StepState D)
      → setup_step_data step run s ≡ (d, s')
      → (other : Bytes)
      → let between = setup_step_data step other s' in
        setup_step_data step run between.1 ≡ (d, between.1)
  shared_after step run s d s' h other =
      subst
        (λ (first : D × StepState D).
          let between = setup_step_data step other first.1 in
          setup_step_data step run between.1 ≡ (first.0, between.1))
        h (setup_step_data-shared step run other s)

  found-done :
      (step : CallableStep D) (o : Option (CallableSignal D)) (run : Bytes) (v : Value)
      (s : StepState D) (out : D × Value) (s' : StepState D)
      → found_signal step o run v s ≡ (done out, s')
      → (signal : CallableSignal D) × (o ≡ some signal)
        × (unserialized_signal step signal run (signal.schema.unserialize v) s ≡ (done out, s'))
  found-done step none run v s out s' h = cc (ap (λ p. p.0) h)
  found-done step (some signal) run v s out s' h = (signal, refl, h)

  signal_found-done :
      (o : Option (CallableStep D)) (run id signal_id : Bytes) (v : Value) (s : StepState D)
      (out : D × Value) (s' : StepState D)
      → signal_found o run id signal_id v s ≡ (done out, s')
      → (step : CallableStep D) × (o ≡ some step)
        × (found_signal step (lookup signal_id step.signal_handlers) run v s ≡ (done out, s'))
  signal_found-done none run id signal_id v s out s' h = cc (ap (λ p. p.0) h)
  signal_found-done (some step) run id signal_id v s out s' h = (step, refl, h)

  delivered :
      (steps : List (Bytes × CallableStep D)) (run id signal_id : Bytes) (v : Value)
      (s : StepState D) (out : D × Value) (s' : StepState D)
      → call_signal steps run id signal_id v s ≡ (done out, s')
      → SignalDelivered steps run id signal_id v s out s'
  unfolding call_signal
  delivered steps run id signal_id v s out s' h =
      let (step, known, g) = signal_found-done (lookup id steps) run id signal_id v s out s' h in
      let (signal, handled, f) =
        found-done step (lookup signal_id step.signal_handlers) run v s out s' g in
      let (u, read, e) =
        unserialized-done step signal run (signal.schema.unserialize v) s out s' f in
      let (same, valid, set_up, data_fits, input_fits) =
        signal_step-done step signal run u s out s' e in
      (
        step,
        signal,
        known,
        handled,
        read ∙ ap ok same,
        ap signal.schema.validate (sym same) ∙ valid,
        data_fits,
        ap signal.accepts_input (sym same) ∙ input_fits,
        set_up,
        shared_after step run s out.0 s' set_up,
      )

  called :
      (steps : List (Bytes × CallableStep D)) (run id signal_id : Bytes) (v : Value)
      (s : StepState D) (out : D × Value) (s' : StepState D)
      → SignalDelivered steps run id signal_id v s out s'
      → call_signal steps run id signal_id v s ≡ (done out, s')
  unfolding call_signal signal_step call_signal_handler
  called steps run id signal_id v s out s'
        (step, signal, known, handled, read, valid, data_fits, input_fits, set_up, shared) =
      ap (λ o. signal_found o run id signal_id v s) known
      ∙ ap (λ o. found_signal step o run v s) handled
      ∙ ap (λ r. unserialized_signal step signal run r s) read
      ∙ ap (λ (p : D × StepState D). (call_signal_handler signal p.0 out.1, p.1)) set_up
      ∙ ap
          (λ r. (
            try invalid_input r (λ checked.
                asserted (signal.accepts_data out.0 && signal.accepts_input out.1) (done out)),
            s',
          ))
          valid
      ∙ ap (λ b. (asserted (b && signal.accepts_input out.1) (done out), s')) data_fits
      ∙ ap (λ b. (asserted b (done out), s')) input_fits

-- CallSignal calls the signal's handler exactly where the step and the signal are known and the input is
-- unserialized and then validated by the signal's schema, and both have the types that the handler
-- asserts. The handler gets that input, and the data that
-- the step of the run gets, also after the set-up of any other run.
pub call_signal_iff :
    {D : Type 0} (steps : List (Bytes × CallableStep D)) (run id signal_id : Bytes) (v : Value)
    (s : StepState D) (out : D × Value) (s' : StepState D)
    → (call_signal steps run id signal_id v s ≡ (done out, s'))
      ↔ SignalDelivered steps run id signal_id v s out s'
call_signal_iff steps run id signal_id v s out s' =
    (delivered steps run id signal_id v s out s', called steps run id signal_id v s out s')
