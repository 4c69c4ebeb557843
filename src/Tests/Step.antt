-- ===== src/Tests/Step.antt =====
-- A call of a concrete step.
use arcaflow_plugin_sdk_go.Common.{
  Bool, true, false, ◌↔◌, ℕ, Bytes, codes, str_eq, lookup, insert, List, [], ◌∷◌, none, some, ◌≡◌,
  refl, pos,
}
use arcaflow_plugin_sdk_go.Go.Value.{Value, str}
use arcaflow_plugin_sdk_go.Schema.Scalar.{
  unserialize_string, serialize_string, string_input_mapper, check_string, as_string,
}
use arcaflow_plugin_sdk_go.Schema.Tree.{error_of}
use arcaflow_plugin_sdk_go.Step.Signals.{
  call_signal, call_signal_handler, SignalDelivered, call_signal_iff,
}
use arcaflow_plugin_sdk_go.Step.{
  Scope, CallableStep, StepState, done, setup_step_data, call, call_step,
}
use arcaflow_plugin_sdk_go.Step.Schemas.{
  ScopeSchema, CallableStepSchema, new_callable_step, new_callable_schema, add_steps,
}
use arcaflow_plugin_sdk_go.Step.Calls.{Succeeds, call_step-Succeeds}
use arcaflow_plugin_sdk_go.Tests.Samples.{floats}

-- The operations of a string of at least one byte.
abbrev text_scope : Scope
text_scope = record {
  unserialize = λ v. unserialize_string floats (some (pos 1)) none none v;
  validate = λ v. error_of (serialize_string (some (pos 1)) none none v);
  serialize = λ v. serialize_string (some (pos 1)) none none v;
}

-- The handlers take strings.
abbrev is_text : Value → Bool
is_text (str s) = true
is_text _ = false

abbrev echo : CallableStep ℕ
echo = record {
  input = text_scope;
  outputs = (codes "success", text_scope) ∷ [];
  initializer = λ n. n;
  accepts_input = is_text;
  handler = λ n v. (codes "success", v);
  signal_handlers =
      (
        codes "cancel",
        record { schema = text_scope; accepts_data = λ n. true; accepts_input = is_text },
      )
      ∷ [];
}

abbrev no_data : StepState ℕ
no_data = record { step_data = []; initialized = 0 }

abbrev steps : List (Bytes × CallableStep ℕ)
steps = (codes "echo", echo) ∷ []

echo_found : lookup (codes "echo") steps ≡ some echo
unfolding lookup str_eq
echo_found = refl

echo_run :
    call_step steps (codes "run-1") (codes "echo") (str (codes "hello")) no_data
    ≡ done (codes "success", str (codes "hello"))
unfolding call_step call setup_step_data lookup str_eq insert unserialize_string serialize_string
    string_input_mapper check_string as_string
echo_run = refl

call_step-Succeeds_example :
    Succeeds echo
      (codes "run-1")
      (str (codes "hello"))
      no_data
      (codes "success")
      (str (codes "hello"))
call_step-Succeeds_example =
    call_step-Succeeds steps echo (codes "run-1") (codes "echo") (codes "success")
      (str (codes "hello")) (str (codes "hello")) no_data echo_found echo_run

-- A signal comes before its step, and sets up the data.
abbrev after_signal : StepState ℕ
after_signal = record { step_data = (codes "run-1", 0) ∷ []; initialized = 1 }

signal_run :
    call_signal steps (codes "run-1") (codes "echo") (codes "cancel") (str (codes "now")) no_data
    ≡ (done (0, str (codes "now")), after_signal)
unfolding call_signal call_signal_handler setup_step_data lookup str_eq insert unserialize_string
    serialize_string string_input_mapper check_string as_string
signal_run = refl

call_signal_iff_example :
    (call_signal steps (codes "run-1") (codes "echo") (codes "cancel") (str (codes "now")) no_data
      ≡ (done (0, str (codes "now")), after_signal))
    ↔ SignalDelivered steps
        (codes "run-1")
        (codes "echo")
        (codes "cancel")
        (str (codes "now"))
        no_data
        (0, str (codes "now"))
        after_signal
call_signal_iff_example =
    call_signal_iff steps (codes "run-1") (codes "echo") (codes "cancel") (str (codes "now"))
      no_data (0, str (codes "now")) after_signal

abbrev empty_scope : ScopeSchema
empty_scope = record { objects = []; root = [] }

abbrev step_of : Bytes → CallableStepSchema
step_of id = new_callable_step id empty_scope []

-- Of two steps with one ID, the later one is kept.
later_kept :
    new_callable_schema (step_of (codes "a") ∷ step_of (codes "b") ∷ step_of (codes "a") ∷ [])
    ≡ (codes "a", step_of (codes "a")) ∷ (codes "b", step_of (codes "b")) ∷ []
unfolding add_steps insert str_eq
later_kept = refl
