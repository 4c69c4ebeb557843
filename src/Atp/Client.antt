-- ===== src/Atp/Client.antt =====
-- atp/client.go: the client's table of running steps. The mutex makes each operation below one step;
-- log output, the blocking of channels and the time limits are left out. A channel is a number, and
-- the state records what was sent on each and which ones were closed.
pub mod Broadcast
pub mod Table
pub mod Spec
pub mod Turn
pub mod Refinement
pub mod Events
pub mod Prepare
pub mod Preservation
pub mod Lost
pub mod Reachability
pub mod Closing
pub mod Completion
pub mod Session
pub mod Start
use arcaflow_plugin_sdk_go.Common.{
  ℕ, ℤ, pos, eqb_ℤ, ltb_ℤ, not, Bytes, codes, str_eq, Bool, true, false, ◌||◌, ◌&&◌, List, [], ◌∷◌,
  any, Option, none, some, lookup, insert, delete, has, if◌then◌else◌, ◌==◌, is_some,
}
use arcaflow_plugin_sdk_go.Go.Value.{Value, null}
use arcaflow_plugin_sdk_go.Go.Result.{Result, ok, err, panic, ◌>>=◌}
use arcaflow_plugin_sdk_go.Atp.Protocol.{
  Input, WorkDoneMessage, SignalMessage, ErrorMessage, DecodedRuntimeMessage, Decoder, to_input,
  message_type_work_done, message_type_signal, message_type_error, RuntimeMessage,
  message_type_client_done, client_done,
}

-- The errors in a result, with their texts left out.
pub data ClientError : Type 0 where
  blank_run_id : ClientError
  duplicate_run_id : Bytes → ClientError
  no_result_entry : Bytes → ClientError
  read_failed : ClientError
  work_done_not_decoded : ClientError
  sent_error : Bytes → ErrorMessage → ClientError
  missing_run_id : ErrorMessage → ClientError
  unsupported_version : ℤ → ClientError
  start_not_written hello_not_read invalid_schema work_start_not_written : ClientError

pub record ExecutionResult : Type 0 where
  pub output_id : Bytes
  pub output_data : Value
  pub error : Option ClientError

-- NewErrorExecutionResult
abbrev pub error_result : ClientError → ExecutionResult
error_result e = record { output_id = []; output_data = null; error = some e }

-- Where the goroutine of the read loop stands, if there is one: in front of Decode, in front of
-- hasEntriesRemaining, or in front of its deferred function.
pub data Loop : Type 0 where
  idle reading checking leaving : Loop

-- An entry of runningStepResultEntries is the result in it, where nil is `none`.
pub record Client : Type 0 where
  pub atp_version : ℤ
  pub result_entries : List (Bytes × Option ExecutionResult)
  pub signal_channels : List (Bytes × ℕ)
  pub read_loop_running : Bool
  pub done : Bool
  pub loop : Loop
  pub sent_signals : List (ℕ × Input)
  pub closed_channels : List ℕ
  pub output : List RuntimeMessage

unfoldable pub member : ℕ → List ℕ → Bool
member n [] = false
member n (m ∷ ms) = (m == n) || member n ms

abbrev pub supported_server_versions : List ℤ
supported_server_versions = pos 1 ∷ pos 3 ∷ []

unfoldable pub validate_version : ℤ → Option ClientError
validate_version v =
    if any (λ w. eqb_ℤ v w) supported_server_versions then none else some (unsupported_version v)

-- Closing a closed channel panics.
unfoldable pub close_channel : Bytes → Option ℕ → Client → Result Client
close_channel run none c = ok c
close_channel run (some ch) c =
    if member ch c.closed_channels
    then panic
    else ok (record c {
      signal_channels = delete run c.signal_channels;
      closed_channels = ch ∷ c.closed_channels;
    })

abbrev pub set_result :
    Bytes
    → ExecutionResult
    → List (Bytes × Option ExecutionResult)
    → List (Bytes × Option ExecutionResult)
set_result run r entries = if has run entries then insert run (some r) entries else entries

unfoldable pub send_execution_result : Bytes → ExecutionResult → Client → Result Client
unfolding close_channel
send_execution_result run r c =
    close_channel run (lookup run c.signal_channels)
      (record c { result_entries = set_result run r c.result_entries })

abbrev pub keys {ℓ} : {V : Type ℓ} → List (Bytes × V) → List Bytes
keys [] = []
keys ((k, v) ∷ m) = k ∷ keys m

unfoldable pub send_to : List Bytes → ExecutionResult → Client → Result Client
send_to [] r c = ok c
send_to (run ∷ runs) r c = do c' ← send_execution_result run r c; send_to runs r c'

unfoldable pub send_error_to_all : ClientError → Client → Result Client
unfolding send_to
send_error_to_all e c = send_to (keys c.result_entries) (error_result e) c

-- processWorkDone
abbrev pub process_work_done : WorkDoneMessage → ExecutionResult
process_work_done m = record { output_id = m.output_id; output_data = m.output_data; error = none }

abbrev pub work_done_result : Option WorkDoneMessage → ExecutionResult
work_done_result none = error_result work_done_not_decoded
work_done_result (some m) = process_work_done m

-- Sending on a closed channel panics.
abbrev pub send_signal : Option ℕ → Input → Client → Result Client
send_signal none s c = ok c
send_signal (some ch) s c =
    if member ch c.closed_channels
    then panic
    else ok (record c { sent_signals = (ch, s) ∷ c.sent_signals })

abbrev pub deliver_signal : Option SignalMessage → Bytes → Client → Result Client
deliver_signal none run c = ok c
deliver_signal (some s) run c = send_signal (lookup run c.signal_channels) (to_input s run) c

abbrev pub is_empty : Bytes → Bool
is_empty [] = true
is_empty (b ∷ s) = false

abbrev pub flagged : Bool → Result Client → Result (Bool × Client)
flagged fatal r = r >>= λ c'. ok (fatal, c')

-- Whether the error is fatal, and the state after it.
unfoldable pub handle_error : Bytes → ErrorMessage → Client → Result (Bool × Client)
unfolding send_error_to_all send_execution_result
handle_error run m c =
    if m.server_fatal
    then flagged true (send_error_to_all (sent_error run m) c)
    else if m.step_fatal
    then flagged false (
        if is_empty run
        then send_error_to_all (missing_run_id m) c
        else send_execution_result run (error_result (sent_error run m)) c)
    else ok (false, c)

-- hasEntriesRemaining
unfoldable pub has_entries_remaining : List (Bytes × Option ExecutionResult) → Bool
has_entries_remaining [] = false
has_entries_remaining ((run, none) ∷ es) = true
has_entries_remaining ((run, some r) ∷ es) = has_entries_remaining es

abbrev pub goto : Loop → Client → Client
goto l c = record c { loop = l }

module _ (dec : Decoder) where
  unfoldable pub handle_work_done : DecodedRuntimeMessage → Client → Result Client
  unfolding send_execution_result
  handle_work_done m c =
      send_execution_result m.run_id (work_done_result (dec.work_done m.raw_message_data)) c

  unfoldable pub handle_signal : DecodedRuntimeMessage → Client → Result Client
  handle_signal m c = deliver_signal (dec.signal m.raw_message_data) m.run_id c

  -- handleErrorMessage
  unfoldable pub handle_error_message : DecodedRuntimeMessage → Client → Result (Bool × Client)
  unfolding handle_error
  handle_error_message m c = handle_error m.run_id (dec.error_message m.raw_message_data) c

  -- executeReadLoop, one turn up to hasEntriesRemaining. A message that cannot be decoded is `none`;
  -- a decoded one is what Decode leaves in the variable that the turns share.
  unfoldable pub read_message : Option DecodedRuntimeMessage → Client → Result Client
  unfolding send_error_to_all handle_work_done handle_signal handle_error_message
  read_message none c = send_error_to_all read_failed c >>= λ c'. ok (goto leaving c')
  read_message (some m) c =
      if m.message_id == message_type_work_done
      then (handle_work_done m c >>= λ c'. ok (goto checking c'))
      else if m.message_id == message_type_signal
      then (handle_signal m c >>= λ c'. ok (goto checking c'))
      else if m.message_id == message_type_error
      then (handle_error_message m c >>= λ fc. ok (goto (if fc.0 then leaving else checking) fc.1))
      else ok (goto checking c)

-- The condition at the end of a turn.
unfoldable pub check_entries : Client → Client
check_entries c = goto (if has_entries_remaining c.result_entries then reading else leaving) c

-- The deferred function of executeReadLoop.
unfoldable pub leave_loop : Client → Client
leave_loop c = record c { read_loop_running = false; loop = idle }

abbrev pub add_channel : Bytes → Option ℕ → List (Bytes × ℕ) → List (Bytes × ℕ)
add_channel run none cs = cs
add_channel run (some ch) cs = insert run ch cs

-- `if !c.readLoopRunning`
unfoldable pub start_loop : Client → Client
start_loop c =
    if c.read_loop_running then c else record c { read_loop_running = true; loop = reading }

-- prepareResultChannels: the error, if there is one, and the state.
unfoldable pub prepare_result_channels : Bytes → Option ℕ → Client → Option ClientError × Client
unfolding start_loop
prepare_result_channels run emitted c =
    if has run c.result_entries then (some (duplicate_run_id run), c) else (
      none,
      start_loop (record c {
        result_entries = insert run none c.result_entries;
        signal_channels = add_channel run emitted c.signal_channels;
      }),
    )

-- getResultV2: `none` while it waits for the condition, else the result and the state.
abbrev pub take_result :
    Bytes → Option (Option ExecutionResult) → Client → Option (ExecutionResult × Client)
take_result run none c = some (error_result (no_result_entry run), c)
take_result run (some none) c = none
take_result run (some (some r)) c =
    some (r, record c { result_entries = delete run c.result_entries })

unfoldable pub get_result_v2 : Bytes → Client → Option (ExecutionResult × Client)
get_result_v2 run c = take_result run (lookup run c.result_entries) c

abbrev pub done_message : RuntimeMessage
done_message = record {
  message_id = message_type_client_done;
  run_id = [];
  message_data = client_done;
}

-- Close, up to its wait for the goroutines, where `writes` says whether the message can be sent.
unfoldable pub close : (writes : Bool) → Client → Client
close writes c =
    if c.done
    then c
    else if ltb_ℤ (pos 1) c.atp_version && writes
    then record c { done = true; output = done_message ∷ c.output }
    else record c { done = true }
