-- ===== src/Atp/Server/Running.antt =====
-- atp/server.go, RunATPServer: the goroutine of run, the goroutines of steps and signals, and handleClosure, in any order.
-- Each step of the relation is what one of them does up to its next exchange with the others. The channel
-- workDone holds any number of errors here, so that no sender waits.
use arcaflow_plugin_sdk_go.Common.{
  Bool, true, false, not, ◌||◌, ◌&&◌, List, [], ◌∷◌, ◌++◌, Option, none, some, ◌≡◌, pos,
  if◌then◌else◌,
}
use arcaflow_plugin_sdk_go.Common.{ℤ, Bytes}
use arcaflow_plugin_sdk_go.Go.Value.{Value}
use arcaflow_plugin_sdk_go.Atp.Protocol.{
  HelloMessage, WorkStartMessage, SignalMessage, DecodedRuntimeMessage, RuntimeMessage, Decoder,
}
use arcaflow_plugin_sdk_go.Atp.Server.{
  Session, ServerError, ServerErrorText, Task, step_task, signal_task, StepOutcome, returned,
  failed, panicked, server_error, report, initial_messages_failed, stdin_not_closed,
  on_runtime_message_received, run_step, run_signal, to_message, write, read_failed,
}

abbrev pub protocol_version : ℤ
protocol_version = pos 3

-- sendInitialMessagesToClient: the message that it sends, unless the schema cannot be serialized, the start
-- cannot be decoded, or the message cannot be sent.
unfoldable pub send_initial_messages :
    (schema : Option Value) (start_decoded encodes : Bool) → Option HelloMessage
send_initial_messages none start_decoded encodes = none
send_initial_messages (some v) start_decoded encodes =
    if start_decoded
    then (if encodes then some (record { version = protocol_version; schema = v }) else none)
    else none

-- What run is doing. At its end it has closed workDone.
pub data Phase : Type 0 where
  starting looping ended : Phase

-- The session, with the goroutines of steps and signals that have not ended as its tasks, and the errors
-- that workDone holds; what run does; whether handleClosure still receives, and its errors; whether the
-- process has panicked.
pub record Server : Type 0 where
  pub session : Session
  pub phase : Phase
  pub hello : Option HelloMessage
  pub receiving : Bool
  pub errors : List ServerError
  pub crashed : Bool

-- initializeATPServerSession and the start of RunATPServer
abbrev pub new_server : Server
new_server = record {
  session = record {
    running_steps = [];
    work_done_channel = [];
    tasks = [];
    stdin_closed = false;
    run_done = false;
    output = [];
  };
  phase = starting;
  hello = none;
  receiving = true;
  errors = [];
  crashed = false;
}

abbrev pub with_session : Session → Server → Server
with_session s v = record v { session = s }

-- The deferred function of run.
unfoldable pub end_run : Server → Server
end_run v = record v { session = record v.session { run_done = true }; phase = ended }

-- run, up to its loop.
unfoldable pub begin_run : Option HelloMessage → Server → Server
unfolding end_run
begin_run none v =
    end_run (with_session (report (server_error [] initial_messages_failed true true) v.session) v)
begin_run (some m) v = record v { phase = looping; hello = some m }

-- What the goroutine of a task has to say: the step's outcome, or whether CallSignal fails.
pub data TaskEnd : Task → Type 0 where
  step_ends : (run : Bytes) (m : WorkStartMessage) → StepOutcome → TaskEnd (step_task run m)
  signal_ends :
      (run step : Bytes) (m : SignalMessage) (fails : Bool) → TaskEnd (signal_task run step m)

-- Whether the goroutine sends an error on workDone.
abbrev pub reports : (t : Task) → TaskEnd t → Bool
reports _ (step_ends run m (returned id data')) = false
reports _ (step_ends run m failed) = true
reports _ (step_ends run m panicked) = true
reports _ (signal_ends run step m fails) = fails

abbrev pub run_task : (t : Task) → TaskEnd t → Session → Session
unfolding run_step run_signal
run_task _ (step_ends run m o) s = run_step run m o s
run_task _ (signal_ends run step m fails) s = run_signal run fails s

abbrev pub is_closed : Phase → Bool
is_closed starting = false
is_closed looping = false
is_closed ended = true

-- The goroutine of a task ends. Sending on a closed channel panics, and nothing recovers: the function that
-- runStep defers sends on the channel again.
unfoldable pub end_task : (t : Task) → TaskEnd t → List Task → Server → Server
unfolding run_step run_signal
end_task t o others v =
    let left = record v.session { tasks = others } in
    if is_closed v.phase && reports t o
    then record v { crashed = true }
    else with_session (run_task t o left) v

module _ (dec : Decoder) (close_works : Bool) where
  -- One turn of runATPReadLoop, and the end of run where it returns.
  unfoldable pub read_turn : Option DecodedRuntimeMessage → Server → Server
  unfolding on_runtime_message_received end_run
  read_turn none v = end_run (
      with_session
        (if v.session.run_done
          then v.session
          else report (server_error [] read_failed true true) v.session)
        v)
  read_turn (some m) v =
      let next = with_session (on_runtime_message_received dec close_works m v.session).1 v in
      if (on_runtime_message_received dec close_works m v.session).0 then end_run next else next

  -- The turns of runATPReadLoop on the messages that arrive, until run has ended.
  unfoldable pub read_turns : List (Option DecodedRuntimeMessage) → Server → Server
  unfolding read_turn
  read_turns [] v = v
  read_turns (m ∷ ms) v =
      let next = read_turn m v in
      let rest = read_turns ms next in if is_closed next.phase then next else rest

module _ (text_of : ServerErrorText → Bytes) (send_works : RuntimeMessage → Bool)
    (close_works : Bool) where
  -- One turn of handleClosure, where it receives an error and `rest` is left in the channel.
  unfoldable pub closure_turn : ServerError → List ServerError → Server → Server
  closure_turn e rest v =
      let sent = send_works (to_message text_of e) in
      let kept = record v.session { work_done_channel = rest } in
      let written = if sent then write (to_message text_of e) kept else kept in
      if not sent || e.server_fatal
      then (if close_works
          then record v {
            session = record written { stdin_closed = true };
            receiving = false;
            errors = v.errors ++ (e ∷ []);
          }
          else record v {
            session = written;
            receiving = false;
            errors = v.errors ++ (e ∷ server_error e.run_id stdin_not_closed true true ∷ []);
          })
      else record v { session = written; errors = v.errors ++ (e ∷ []) }

module _ (dec : Decoder) (text_of : ServerErrorText → Bytes) where
  pub data ServerStep : Server → Server → Type 0 where
    begin :
        (schema : Option Value) (start_decoded encodes : Bool) (v : Server)
        → v.crashed ≡ false
        → v.phase ≡ starting
        → ServerStep v (begin_run (send_initial_messages schema start_decoded encodes) v)
    read :
        (closes : Bool) (m : Option DecodedRuntimeMessage) (v : Server)
        → v.crashed ≡ false
        → v.phase ≡ looping
        → ServerStep v (read_turn dec closes m v)
    end :
        (before : List Task) (t : Task) (behind : List Task) (o : TaskEnd t) (v : Server)
        → v.crashed ≡ false
        → v.session.tasks ≡ before ++ (t ∷ behind)
        → ServerStep v (end_task t o (before ++ behind) v)
    receive :
        (sends : RuntimeMessage → Bool) (closes : Bool) (e : ServerError) (rest : List ServerError)
        (v : Server)
        → v.crashed ≡ false
        → v.receiving ≡ true
        → v.session.work_done_channel ≡ e ∷ rest
        → ServerStep v (closure_turn text_of sends closes e rest v)
    -- handleClosure finds the channel closed, or the context at its end.
    stop_receiving :
        (v : Server)
        → v.crashed ≡ false
        → v.receiving ≡ true
        → ServerStep v (record v { receiving = false })

  -- Any number of steps.
  pub data ServerSteps (v : Server) : Server → Type 0 where
    stay : ServerSteps v v
    then_step : (w x : Server) → ServerSteps v w → ServerStep w x → ServerSteps v x
