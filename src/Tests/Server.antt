-- ===== src/Tests/Server.antt =====
-- The server's session on concrete messages.
use arcaflow_plugin_sdk_go.Common.{
  Bytes, codes, Bool, true, false, [], ◌∷◌, ◌++◌, map, any, none, some, ◌≡◌, refl,
}
use arcaflow_plugin_sdk_go.Go.Value.{null}
use arcaflow_plugin_sdk_go.Atp.Protocol.{
  Decoder, DecodedRuntimeMessage, WorkStartMessage, SignalMessage, RuntimeMessage,
}
use arcaflow_plugin_sdk_go.Atp.Server.{
  Session, ServerError, ServerErrorText, server_error, report, failed, step_failed, read_failed,
  run_atp_read_loop, step_task,
}
use arcaflow_plugin_sdk_go.Atp.Server.Dispatch.{
  NoneFatal, says_done, up_to_done, run_atp_read_loop-NoneFatal,
}
use arcaflow_plugin_sdk_go.Atp.Server.Running.{
  Server, new_server, begin_run, send_initial_messages, end_run, with_session, read_turn, begin,
  ServerSteps, stay, then_step, end_task, step_ends,
}
use arcaflow_plugin_sdk_go.Atp.Server.Order.{undecoded-reported}
use arcaflow_plugin_sdk_go.Atp.Server.Late.{late_failure-crashes}

abbrev decoder : Decoder
decoder = record {
  work_start = λ b. some (record { step_id = b; config = null });
  work_done = λ b. none;
  signal = λ b. some (record { signal_id = b; signal_data = null });
  error_message = λ b. record { error = b; step_fatal = true; server_fatal = true };
}

abbrev pub new_session : Session
new_session = record {
  running_steps = [];
  work_done_channel = [];
  tasks = [];
  stdin_closed = false;
  run_done = false;
  output = [];
}

abbrev no_text : ServerErrorText → Bytes
no_text t = []

abbrev always : RuntimeMessage → Bool
always m = true

abbrev step_error : ServerError
step_error = server_error (codes "run-1") step_failed true false

abbrev fatal : ServerError
fatal = server_error [] read_failed true true

abbrev unknown_message : DecodedRuntimeMessage
unknown_message = record { message_id = 9; run_id = []; raw_message_data = [] }

abbrev done_message : DecodedRuntimeMessage
done_message = record { message_id = 4; run_id = []; raw_message_data = [] }

run_atp_read_loop-NoneFatal_example :
    NoneFatal
      (run_atp_read_loop decoder true
        (map some (unknown_message ∷ done_message ∷ unknown_message ∷ []))
        new_session).0
    × ((run_atp_read_loop decoder true
          (map some (unknown_message ∷ done_message ∷ unknown_message ∷ []))
          new_session).1
        ≡ any says_done (unknown_message ∷ done_message ∷ unknown_message ∷ []))
    × (run_atp_read_loop decoder true
          (map some (unknown_message ∷ done_message ∷ unknown_message ∷ []))
          new_session
        ≡ run_atp_read_loop decoder true
            (map some (up_to_done (unknown_message ∷ done_message ∷ unknown_message ∷ [])))
            new_session)
run_atp_read_loop-NoneFatal_example =
    run_atp_read_loop-NoneFatal decoder (unknown_message ∷ done_message ∷ unknown_message ∷ [])
      new_session tt

abbrev work : WorkStartMessage
work = record { step_id = codes "step"; config = null }

abbrev stop : SignalMessage
stop = record { signal_id = codes "stop"; signal_data = null }

abbrev greeted : Server
unfolding begin_run send_initial_messages
greeted = begin_run (send_initial_messages (some null) true true) new_server

greeting : ServerSteps decoder no_text new_server greeted
unfolding begin_run send_initial_messages
greeting = then_step new_server greeted stay (begin (some null) true true new_server refl refl)

undecoded-reported_example :
    read_turn decoder true none greeted
    ≡ end_run
        (with_session (report (server_error [] read_failed true true) greeted.session) greeted)
unfolding begin_run send_initial_messages
undecoded-reported_example = undecoded-reported decoder no_text true greeted greeting refl

abbrev start_message : DecodedRuntimeMessage
start_message = record { message_id = 1; run_id = codes "run-1"; raw_message_data = codes "step" }

late_failure-crashes_example :
    let running = read_turn decoder true (some start_message) greeted in
    let over = read_turn decoder true (some done_message) running in
    let early =
      end_task _ (step_ends (codes "run-1") work failed) (greeted.session.tasks ++ []) running in
    let late =
      end_task _ (step_ends (codes "run-1") work failed) (greeted.session.tasks ++ []) over in
    ServerSteps decoder no_text greeted early
    × (early.crashed ≡ false)
    × ServerSteps decoder no_text greeted late
    × (late.crashed ≡ true)
unfolding begin_run send_initial_messages
late_failure-crashes_example =
    late_failure-crashes decoder no_text true (codes "run-1") work start_message done_message
      (step_ends (codes "run-1") work failed) greeted refl refl refl refl refl refl refl refl refl

abbrev running_step : Server
running_step = read_turn decoder true (some start_message) greeted

abbrev left : Server
left = read_turn decoder true (some done_message) running_step

abbrev panicked : Server
panicked = end_task (step_task (codes "run-1") work) (step_ends (codes "run-1") work failed) [] left
