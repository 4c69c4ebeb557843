-- ===== src/Tests/Link.antt =====
-- One session of the client and the server.
use arcaflow_plugin_sdk_go.Common.{
  pos, Bytes, codes, true, false, List, [], ◌∷◌, ◌++◌, map, some, inr, ◌↔◌, ◌≡◌, refl, lookup,
  insert,
}
use arcaflow_plugin_sdk_go.Go.Value.{null}
use arcaflow_plugin_sdk_go.Atp.Protocol.{
  Input, HelloMessage, MessageData, work_start, work_done, signal, client_done, error_message,
}
use arcaflow_plugin_sdk_go.Atp.Client.Session.{
  read_schema, start_message, signal_message, WriteEvent, signal_given, signals_closed, write_loop,
  work_start_of,
}
use arcaflow_plugin_sdk_go.Atp.Client.Start.{Readable, read_schema_iff}
use arcaflow_plugin_sdk_go.Atp.Server.{
  run_atp_read_loop, step_task, server_error, signal_of_unknown_run,
}
use arcaflow_plugin_sdk_go.Atp.Link.{arrives, signal_tasks, execute-started, early_signal-lost}
use arcaflow_plugin_sdk_go.Tests.Client.{decoder, new_client}
use arcaflow_plugin_sdk_go.Tests.Server.{new_session}

-- The part of a message that the decoder of the tests keeps.
abbrev encode : MessageData → Bytes
encode (work_start m) = m.step_id
encode (work_done m) = m.output_id
encode (signal m) = m.signal_id
encode client_done = []
encode (error_message m) = m.error

abbrev step : Input
step = record { run_id = codes "run-1"; id = codes "wait"; input_data = null }

abbrev stop : Input
stop = record { run_id = codes "run-1"; id = codes "stop"; input_data = null }

abbrev given : List WriteEvent
given = signal_given stop ∷ signals_closed ∷ []

execute-started_example :
    run_atp_read_loop decoder true
      (arrives encode (start_message step) ∷ map (arrives encode) (write_loop (λ m. true) given).0)
      new_session
    ≡ (
      record new_session {
        running_steps = insert step.run_id step.id [];
        tasks = [] ++ (step_task step.run_id (work_start_of step) ∷ signal_tasks step.id given);
      },
      false,
    )
execute-started_example =
    execute-started decoder encode true step given new_session refl refl refl (refl, refl, refl, tt)

early_signal-lost_example :
    run_atp_read_loop decoder true
      (arrives encode (signal_message stop) ∷ arrives encode (start_message step) ∷ [])
      new_session
    ≡ (
      record new_session {
        running_steps = insert step.run_id step.id [];
        tasks = [] ++ (step_task step.run_id (work_start_of step) ∷ []);
        work_done_channel = [] ++ (server_error stop.run_id signal_of_unknown_run false false ∷ []);
      },
      false,
    )
unfolding lookup
early_signal-lost_example =
    early_signal-lost decoder encode true step stop new_session refl refl refl refl refl refl

abbrev hello : HelloMessage
hello = record { version = pos 3; schema = null }

read_schema_iff_example :
    ((read_schema (λ v. some v) true (some hello) new_client).0 ≡ inr null)
    ↔ Readable (λ v. some v) true (some hello) null
read_schema_iff_example = read_schema_iff (λ v. some v) true (some hello) new_client null
