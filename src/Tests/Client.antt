-- ===== src/Tests/Client.antt =====
-- The client on concrete messages.
use arcaflow_plugin_sdk_go.Common.{
  ◌∷◌, str_eq, insert, pos, Bytes, codes, true, false, [], none, some, ◌≡◌, refl, lookup,
}
use arcaflow_plugin_sdk_go.Go.Value.{null}
use arcaflow_plugin_sdk_go.Go.Result.{ok, IsSafe}
use arcaflow_plugin_sdk_go.Atp.Protocol.{Decoder, DecodedRuntimeMessage}
use arcaflow_plugin_sdk_go.Atp.Client.{
  handle_error_message, handle_error, send_error_to_all, send_to, send_execution_result, close,
  close_channel, work_done_result, start_loop, Client, idle, leaving, prepare_result_channels,
  read_message, leave_loop, get_result_v2, error_result, sent_error,
}
use arcaflow_plugin_sdk_go.Atp.Client.Completion.{work_done-completes}
use arcaflow_plugin_sdk_go.Atp.Client.Broadcast.{all_with}
use arcaflow_plugin_sdk_go.Atp.Client.Events.{receive, prepare, closing, Good}
use arcaflow_plugin_sdk_go.Atp.Client.Lost.{LaterSteps}
use arcaflow_plugin_sdk_go.Atp.Client.Reachability.{
  Reachable, new, after, Reachable-Good, Reachable-IsSafe, server_fatal-settles, lost_run,
}
use arcaflow_plugin_sdk_go.Atp.Client.Spec.{SpecStep, view}
use arcaflow_plugin_sdk_go.Atp.Client.Refinement.{label, Step-refines}

-- A decoder that reads every message as empty, and every error as fatal for the server.
abbrev pub decoder : Decoder
decoder = record {
  work_start = λ b. some (record { step_id = b; config = null });
  work_done =
      λ b. some (record { step_id = b; output_id = b; output_data = null; debug_logs = [] });
  signal = λ b. some (record { signal_id = b; signal_data = null });
  error_message = λ b. record { error = b; step_fatal = true; server_fatal = true };
}

abbrev pub new_client : Client
new_client = record {
  atp_version = pos 3;
  result_entries = [];
  signal_channels = [];
  read_loop_running = false;
  done = false;
  loop = idle;
  sent_signals = [];
  closed_channels = [];
  output = [];
}

abbrev run : Bytes
run = codes "run-1"

-- After the start of a run without a channel for its signals.
abbrev started : Client
started = (prepare_result_channels run none new_client).1

started-Reachable : Reachable decoder started
started-Reachable =
    after new_client started (new new_client refl refl refl refl) (prepare run none new_client tt)

abbrev fatal_error : DecodedRuntimeMessage
fatal_error = record { message_id = 5; run_id = []; raw_message_data = codes "boom" }

Reachable-Good_example : Good started
Reachable-Good_example = Reachable-Good decoder started started-Reachable

Reachable-IsSafe_example : IsSafe (read_message decoder (some fatal_error) started)
Reachable-IsSafe_example = Reachable-IsSafe decoder started (some fatal_error) started-Reachable

server_fatal-settles_example :
    (c' : Client) × (read_message decoder (some fatal_error) started ≡ ok c')
    × (c'.loop ≡ leaving)
    × (c'.result_entries
        ≡ all_with
            (error_result (
              sent_error []
                (record { error = codes "boom"; step_fatal = true; server_fatal = true })))
            started.result_entries)
server_fatal-settles_example =
    server_fatal-settles decoder started fatal_error started-Reachable refl refl

-- The read loop has received an error that is fatal for the server, and is about to leave.
abbrev about_to_leave : Client
about_to_leave = record started {
  result_entries =
      (
        run,
        some (
            error_result (
              sent_error []
                (record { error = codes "boom"; step_fatal = true; server_fatal = true }))),
      )
      ∷ [];
  loop = leaving;
}

fatal_read : read_message decoder (some fatal_error) started ≡ ok about_to_leave
unfolding read_message handle_error_message handle_error send_error_to_all send_to
    send_execution_result close_channel lookup insert str_eq prepare_result_channels start_loop
fatal_read = refl

about_to_leave-Reachable : Reachable decoder about_to_leave
unfolding prepare_result_channels start_loop lookup
about_to_leave-Reachable =
    after started about_to_leave started-Reachable
      (receive (some fatal_error) started about_to_leave refl fatal_read)

no_entry : lookup (codes "run-2") about_to_leave.result_entries ≡ none
unfolding lookup str_eq
no_entry = refl

-- The run that comes too late, after the read loop has left, and after Close.
abbrev alone : Client
alone = leave_loop (prepare_result_channels (codes "run-2") none about_to_leave).1

lost_run_example :
    ((prepare_result_channels (codes "run-2") none about_to_leave).0 ≡ none)
    × ((prepare_result_channels (codes "run-2") none about_to_leave).1.loop ≡ leaving)
    × ((close true alone).loop ≡ idle)
    × (lookup (codes "run-2") (close true alone).result_entries ≡ some none)
    × (get_result_v2 (codes "run-2") (close true alone) ≡ none)
lost_run_example =
    lost_run decoder (codes "run-2") none about_to_leave (close true alone) about_to_leave-Reachable
      refl no_entry
      (LaterSteps.then_step alone (close true alone) LaterSteps.stay (closing true alone) refl)

abbrev done_message : DecodedRuntimeMessage
done_message = record { message_id = 2; run_id = run; raw_message_data = codes "success" }

run_pending : lookup run started.result_entries ≡ some none
unfolding prepare_result_channels lookup insert start_loop str_eq
run_pending = refl

work_done-completes_example :
    (c' : Client) × (c'' : Client) × (read_message decoder (some done_message) started ≡ ok c')
    × (get_result_v2 run c' ≡ some (work_done_result (decoder.work_done (codes "success")), c''))
    × (lookup run c''.result_entries ≡ none)
work_done-completes_example =
    work_done-completes decoder started done_message started-Reachable refl run_pending

-- A second run starts while the first one waits.
Step-refines_example :
    SpecStep
      (label {dec = decoder} (prepare (codes "run-2") none started tt))
      (view started)
      (view (prepare_result_channels (codes "run-2") none started).1)
Step-refines_example =
    Step-refines decoder started (prepare_result_channels (codes "run-2") none started).1
      started-Reachable (prepare (codes "run-2") none started tt)
