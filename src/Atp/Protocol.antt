-- ===== src/Atp/Protocol.antt =====
-- atp/protocol.go: the messages. Their CBOR coding is the package cbor's, so that a decoder is a
-- parameter of the client and of the server.
use arcaflow_plugin_sdk_go.Common.{ℕ, ℤ, Bytes, Bool, Option}
use arcaflow_plugin_sdk_go.Go.Value.{Value}

-- schema.Input
pub record Input : Type 0 where
  pub run_id : Bytes
  pub id : Bytes
  pub input_data : Value

pub record HelloMessage : Type 0 where
  pub version : ℤ
  pub schema : Value

pub record WorkStartMessage : Type 0 where
  pub step_id : Bytes
  pub config : Value

pub record WorkDoneMessage : Type 0 where
  pub step_id : Bytes
  pub output_id : Bytes
  pub output_data : Value
  pub debug_logs : Bytes

pub record SignalMessage : Type 0 where
  pub signal_id : Bytes
  pub signal_data : Value

pub record ErrorMessage : Type 0 where
  pub error : Bytes
  pub step_fatal : Bool
  pub server_fatal : Bool

abbrev pub message_type_work_start : ℕ
message_type_work_start = 1

abbrev pub message_type_work_done : ℕ
message_type_work_done = 2

abbrev pub message_type_signal : ℕ
message_type_signal = 3

abbrev pub message_type_client_done : ℕ
message_type_client_done = 4

abbrev pub message_type_error : ℕ
message_type_error = 5

pub record DecodedRuntimeMessage : Type 0 where
  pub message_id : ℕ
  pub run_id : Bytes
  pub raw_message_data : Bytes

-- What a side sends: a RuntimeMessage with the message in it.
pub data MessageData : Type 0 where
  work_start : WorkStartMessage → MessageData
  work_done : WorkDoneMessage → MessageData
  signal : SignalMessage → MessageData
  client_done : MessageData
  error_message : ErrorMessage → MessageData

pub record RuntimeMessage : Type 0 where
  pub message_id : ℕ
  pub run_id : Bytes
  pub message_data : MessageData

-- cbor.Unmarshal of each message; `none` is an error. The client uses an error message even where
-- decoding failed, so that `error_message` is what is then in the struct.
pub record Decoder : Type 0 where
  pub work_start : Bytes → Option WorkStartMessage
  pub work_done : Bytes → Option WorkDoneMessage
  pub signal : Bytes → Option SignalMessage
  pub error_message : Bytes → ErrorMessage

abbrev pub to_input : SignalMessage → Bytes → Input
to_input s run_id = record { run_id = run_id; id = s.signal_id; input_data = s.signal_data }
