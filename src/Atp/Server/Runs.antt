-- ===== src/Atp/Server/Runs.antt =====
-- atp/server.go, runningSteps: which step a signal of a run reaches.
use arcaflow_plugin_sdk_go.Common.{Bytes, ◌≡◌, ◌≢◌}
use arcaflow_plugin_sdk_go.Atp.Protocol.{DecodedRuntimeMessage, Decoder, message_type_work_start}

module _ (dec : Decoder) where
  -- A message other than the start of the run with this ID.
  abbrev pub NoStartOf : Bytes → DecodedRuntimeMessage → Type 0
  NoStartOf run m = m.message_id ≡ message_type_work_start → m.run_id ≢ run
