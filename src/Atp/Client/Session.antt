-- ===== src/Atp/Client/Session.antt =====
-- atp/client.go: ReadSchema, the start of Execute up to its wait for a result, the protocol's first
-- version, and executeWriteLoop. Whether encoding works is an argument, and so is what is decoded.
use arcaflow_plugin_sdk_go.Common.{
  ℕ, pos, ltb_ℤ, not, ◌||◌, Bool, true, false, List, [], ◌∷◌, Option, none, some, ◌⊎◌, inl, inr,
  if◌then◌else◌,
}
use arcaflow_plugin_sdk_go.Go.Value.{Value}
use arcaflow_plugin_sdk_go.Atp.Protocol.{
  Input, HelloMessage, WorkStartMessage, WorkDoneMessage, SignalMessage, RuntimeMessage, work_start,
  signal, message_type_work_start, message_type_signal,
}
use arcaflow_plugin_sdk_go.Atp.Client.{
  Client, ClientError, ExecutionResult, error_result, process_work_done, prepare_result_channels,
  validate_version, is_empty, blank_run_id, start_not_written, hello_not_read, invalid_schema,
  work_start_not_written, read_failed,
}

-- What the client encodes: nil at the start, a bare message in the first version of the protocol.
pub data Sent : Type 0 where
  start_output : Sent
  bare_work_start : WorkStartMessage → Sent
  runtime_message : RuntimeMessage → Sent

abbrev pub checked_schema {ℓ} : {S : Type ℓ} → Option S → Client → (ClientError ⊎ S) × Client
checked_schema none c = (inl invalid_schema, c)
checked_schema (some s) c = (inr s, c)

abbrev pub checked_version {ℓ} :
    {S : Type ℓ}
    → (Value → Option S)
    → HelloMessage
    → Option ClientError
    → Client
    → (ClientError ⊎ S) × Client
checked_version unserialize m (some e) c = (inl e, c)
checked_version unserialize m none c =
    checked_schema (unserialize m.schema) (record c { atp_version = m.version })

-- ReadSchema, where `unserialize` is schema.UnserializeSchema and a message that cannot be decoded is `none`.
unfoldable pub read_schema {ℓ} :
    {S : Type ℓ}
    → (Value → Option S)
    → (writes : Bool) → Option HelloMessage
    → Client
    → (ClientError ⊎ S) × Client
unfolding validate_version
read_schema unserialize false hello c = (inl start_not_written, c)
read_schema unserialize true none c = (inl hello_not_read, c)
read_schema unserialize true (some m) c =
    checked_version unserialize m (validate_version m.version) c

abbrev pub work_start_of : Input → WorkStartMessage
work_start_of step = record { step_id = step.id; config = step.input_data }

abbrev pub start_message : Input → RuntimeMessage
start_message step = record {
  message_id = message_type_work_start;
  run_id = step.run_id;
  message_data = work_start (work_start_of step);
}

abbrev pub has_runtime_messages : Client → Bool
has_runtime_messages c = ltb_ℤ (pos 1) c.atp_version

abbrev pub prepared : Input → Option ℕ → Client → Option ClientError × Client
unfolding prepare_result_channels
prepared step emitted c =
    if has_runtime_messages c then prepare_result_channels step.run_id emitted c else (none, c)

abbrev pub work_start_message : Input → Client → Sent
work_start_message step c =
    if has_runtime_messages c
    then runtime_message (start_message step)
    else bare_work_start (work_start_of step)

abbrev pub after_prepare :
    Bool → Option ClientError → Input → Client → Option ClientError × Client × List Sent
after_prepare writes (some e) step c = (some e, c, [])
after_prepare true none step c = (none, c, work_start_message step c ∷ [])
after_prepare false none step c = (some work_start_not_written, c, [])

-- Execute up to getResult: the error that it returns at once, the state, and what it sent.
unfoldable pub start_execute :
    (writes : Bool) → Input → Option ℕ → Client → Option ClientError × Client × List Sent
unfolding prepare_result_channels
start_execute writes step emitted c =
    if is_empty step.run_id
    then (some blank_run_id, c, [])
    else after_prepare writes (prepared step emitted c).0 step (prepared step emitted c).1

-- getResultV1
unfoldable pub get_result_v1 : Option WorkDoneMessage → ExecutionResult
get_result_v1 none = error_result read_failed
get_result_v1 (some m) = process_work_done m

-- What the select of executeWriteLoop finds: a signal, the closed channel, or the end of the context.
pub data WriteEvent : Type 0 where
  signal_given : Input → WriteEvent
  signals_closed context_done : WriteEvent

abbrev pub signal_of : Input → SignalMessage
signal_of i = record { signal_id = i.id; signal_data = i.input_data }

abbrev pub signal_message : Input → RuntimeMessage
signal_message i = record {
  message_id = message_type_signal;
  run_id = i.run_id;
  message_data = signal (signal_of i);
}

-- executeWriteLoop behind its test of `done`: the messages sent, and whether it returned. At the end of the
-- list it waits.
unfoldable pub write_loop :
    (writes : RuntimeMessage → Bool) → List WriteEvent → List RuntimeMessage × Bool
write_loop writes [] = ([], false)
write_loop writes (signals_closed ∷ es) = ([], true)
write_loop writes (context_done ∷ es) = ([], true)
write_loop writes (signal_given i ∷ es) =
    let rest = write_loop writes es in
    let invalid = is_empty i.id || is_empty i.run_id in
    if invalid || not (writes (signal_message i))
    then ([], true)
    else (signal_message i ∷ rest.0, rest.1)

unfoldable pub execute_write_loop :
    (writes : RuntimeMessage → Bool) → List WriteEvent → Client → List RuntimeMessage × Bool
unfolding write_loop
execute_write_loop writes es c = if c.done then ([], true) else write_loop writes es

-- What Close does in the end: it returns nil or an error, or panics, since the goroutines have not ended after five
-- seconds.
pub data Closed : Type 0 where
  closed done_not_written deadlocked : Closed

-- The result of Close, where `in_time` says whether the read loop and the write loops end in time. Where nothing
-- fails it waits for them without a limit.
unfoldable pub close_result : (writes in_time : Bool) → Client → Closed
close_result writes in_time c =
    if c.done || not (has_runtime_messages c) || writes
    then closed
    else if in_time
    then done_not_written
    else deadlocked
