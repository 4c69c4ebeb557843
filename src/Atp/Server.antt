-- ===== src/Atp/Server.antt =====
-- atp/server.go: the session of a plugin's server. The session records what is sent on the channel
-- workDone, which goroutines are started, and what is written to the client; a goroutine's work is an
-- operation of its own. What a step returns, and whether writing and closing work, are arguments.
pub mod Delivery
pub mod Dispatch
pub mod Late
pub mod Order
pub mod Running
pub mod Runs
use arcaflow_plugin_sdk_go.Common.{
  ℕ, Bytes, Bool, true, false, not, ◌||◌, List, [], ◌∷◌, ◌++◌, Option, none, some, lookup, insert,
  if◌then◌else◌, ◌==◌,
}
use arcaflow_plugin_sdk_go.Go.Value.{Value}
use arcaflow_plugin_sdk_go.Atp.Protocol.{
  WorkStartMessage, SignalMessage, DecodedRuntimeMessage, RuntimeMessage, Decoder, work_done,
  error_message, message_type_work_start, message_type_work_done, message_type_signal,
  message_type_client_done, message_type_error,
}

-- The texts of the errors, by their format strings.
pub data ServerErrorText : Type 0 where
  initial_messages_failed : ServerErrorText
  read_failed : ServerErrorText
  work_start_not_decoded : ServerErrorText
  signal_not_decoded : ServerErrorText
  stdin_not_closed : ServerErrorText
  unknown_message_id : ℕ → ServerErrorText
  missing_run_or_step_id : ServerErrorText
  signal_without_run_id : ServerErrorText
  signal_of_unknown_run : ServerErrorText
  signal_failed : ServerErrorText
  step_failed : ServerErrorText
  step_panicked : ServerErrorText

pub record ServerError : Type 0 where
  pub run_id : Bytes
  pub text : ServerErrorText
  pub step_fatal : Bool
  pub server_fatal : Bool

-- A goroutine that the session starts.
pub data Task : Type 0 where
  step_task : Bytes → WorkStartMessage → Task
  signal_task : (run step : Bytes) → SignalMessage → Task

-- atpServerSession
pub record Session : Type 0 where
  pub running_steps : List (Bytes × Bytes)
  pub work_done_channel : List ServerError
  pub tasks : List Task
  pub stdin_closed : Bool
  pub run_done : Bool
  pub output : List RuntimeMessage

abbrev pub report : ServerError → Session → Session
report e s = record s { work_done_channel = s.work_done_channel ++ (e ∷ []) }

abbrev pub server_error : Bytes → ServerErrorText → Bool → Bool → ServerError
server_error run t step server = record {
  run_id = run;
  text = t;
  step_fatal = step;
  server_fatal = server;
}

abbrev pub is_empty : Bytes → Bool
is_empty [] = true
is_empty (b ∷ s) = false

unfoldable pub handle_work_start_message : Bytes → WorkStartMessage → Session → Session
handle_work_start_message run m s =
    if is_empty run || is_empty m.step_id
    then report (server_error [] missing_run_or_step_id true false) s
    else record s {
      running_steps = insert run m.step_id s.running_steps;
      tasks = s.tasks ++ (step_task run m ∷ []);
    }

abbrev pub start_signal : Bytes → Option Bytes → SignalMessage → Session → Session
start_signal run none m s = report (server_error run signal_of_unknown_run false false) s
start_signal run (some step) m s = record s { tasks = s.tasks ++ (signal_task run step m ∷ []) }

unfoldable pub handle_signal_message : Bytes → SignalMessage → Session → Session
handle_signal_message run m s =
    if is_empty run
    then report (server_error [] signal_without_run_id false false) s
    else start_signal run (lookup run s.running_steps) m s

module _ (dec : Decoder) (close_works : Bool) where
  abbrev pub on_work_start : Bytes → Option WorkStartMessage → Session → Session
  unfolding handle_work_start_message
  on_work_start run none s = report (server_error run work_start_not_decoded true false) s
  on_work_start run (some m) s = handle_work_start_message run m s

  abbrev pub on_signal : Bytes → Option SignalMessage → Session → Session
  unfolding handle_signal_message
  on_signal run none s = report (server_error run signal_not_decoded false false) s
  on_signal run (some m) s = handle_signal_message run m s

  abbrev pub on_client_done : Session → Session
  on_client_done s =
      let closed = record s { stdin_closed = close_works } in
      if close_works then closed else report (server_error [] stdin_not_closed true true) closed

  -- Whether the loop ends, and the session.
  unfoldable pub on_runtime_message_received : DecodedRuntimeMessage → Session → Bool × Session
  unfolding handle_work_start_message handle_signal_message
  on_runtime_message_received m s =
      if m.message_id == message_type_work_start
      then (false, on_work_start m.run_id (dec.work_start m.raw_message_data) s)
      else if m.message_id == message_type_signal
      then (false, on_signal m.run_id (dec.signal m.raw_message_data) s)
      else if m.message_id == message_type_client_done
      then (true, on_client_done s)
      else (false, report (server_error [] (unknown_message_id m.message_id) false false) s)

  -- runATPReadLoop on the messages that arrive, where `none` cannot be decoded. At the end of the list
  -- the loop waits for more. The second result says whether it returned.
  unfoldable pub run_atp_read_loop : List (Option DecodedRuntimeMessage) → Session → Session × Bool
  unfolding on_runtime_message_received
  run_atp_read_loop [] s = (s, false)
  run_atp_read_loop (none ∷ ms) s =
      (if s.run_done then s else report (server_error [] read_failed true true) s, true)
  run_atp_read_loop (some m ∷ ms) s =
      let rest = run_atp_read_loop ms (on_runtime_message_received m s).1 in
      if (on_runtime_message_received m s).0
      then ((on_runtime_message_received m s).1, true)
      else rest

-- What CallStep does: return an output, return an error, or panic.
pub data StepOutcome : Type 0 where
  returned : (output_id : Bytes) (output_data : Value) → StepOutcome
  failed panicked : StepOutcome

abbrev pub write : RuntimeMessage → Session → Session
write m s = record s { output = s.output ++ (m ∷ []) }

abbrev pub work_done_message : Bytes → WorkStartMessage → Bytes → Value → RuntimeMessage
work_done_message run req id data' = record {
  message_id = message_type_work_done;
  run_id = run;
  message_data =
      work_done
        (record { step_id = req.step_id; output_id = id; output_data = data'; debug_logs = [] });
}

unfoldable pub run_step : Bytes → WorkStartMessage → StepOutcome → Session → Session
run_step run req (returned id data') s = write (work_done_message run req id data') s
run_step run req failed s = report (server_error run step_failed true false) s
run_step run req panicked s = report (server_error run step_panicked true false) s

-- The goroutine of handleSignalMessage, where CallSignal returns an error or does not.
unfoldable pub run_signal : Bytes → Bool → Session → Session
run_signal run fails s = if fails then report (server_error run signal_failed false false) s else s

-- errorSent.Err.Error(), which the model leaves open.
module _ (text_of : ServerErrorText → Bytes) where
  abbrev pub to_message : ServerError → RuntimeMessage
  to_message e = record {
    message_id = message_type_error;
    run_id = e.run_id;
    message_data = error_message (record {
      error = text_of e.text;
      step_fatal = e.step_fatal;
      server_fatal = e.server_fatal;
    });
  }

  -- handleClosure on what it receives: an error of workDone, or `none` for the end of the context; the
  -- end of the list is the closed channel. The errors returned, the messages sent, and whether it
  -- closed stdin.
  unfoldable pub handle_closure :
      (send_works : RuntimeMessage → Bool) (close_works : Bool)
      → List (Option ServerError)
      → List ServerError × List RuntimeMessage × Bool
  handle_closure sends closes [] = ([], [], false)
  handle_closure sends closes (none ∷ es) = ([], [], false)
  handle_closure sends closes (some e ∷ es) =
      let rest = handle_closure sends closes es in
      if not (sends (to_message e)) || e.server_fatal
      then (
        if closes then e ∷ [] else e ∷ server_error e.run_id stdin_not_closed true true ∷ [],
        to_message e ∷ [],
        closes,
      )
      else (e ∷ rest.0, to_message e ∷ rest.1, rest.2)
