-- ===== src/Atp/Client/Completion.antt =====
-- atp/client.go: from the message that a step is done to the result that Execute returns.
use arcaflow_plugin_sdk_go.Common.{
  Bytes, str_eq_iff, List, Option, none, some, ◌≡◌, ap, ◌∙◌, arith, lookup, delete, lookup-insert,
  lookup-delete,
}
use arcaflow_plugin_sdk_go.Go.Result.{ok}
use arcaflow_plugin_sdk_go.Atp.Protocol.{DecodedRuntimeMessage, Decoder, message_type_work_done}
use arcaflow_plugin_sdk_go.Atp.Client.{
  Client, ExecutionResult, checking, goto, handle_work_done, read_message, get_result_v2,
  take_result, set_result, work_done_result,
}
use arcaflow_plugin_sdk_go.Atp.Client.Table.{send_execution_result-Kept}
use arcaflow_plugin_sdk_go.Atp.Client.Reachability.{Reachable, Reachable-Good}

lookup-set_result-same :
    (run : Bytes) (r : ExecutionResult) (es : List (Bytes × Option ExecutionResult))
    → lookup run es ≡ some none
    → lookup run (set_result run r es) ≡ some (some r)
lookup-set_result-same run r es h =
    ground (arith, lookup-insert run run (some r) es, str_eq_iff run run)

lookup-deleted :
    (run : Bytes) (es : List (Bytes × Option ExecutionResult)) → lookup run (delete run es) ≡ none
lookup-deleted run es = ground (arith, lookup-delete run run es, str_eq_iff run run)

taken :
    (run : Bytes) (r : ExecutionResult) (c : Client)
    → lookup run c.result_entries ≡ some (some r)
    → get_result_v2 run c ≡ some (r, record c { result_entries = delete run c.result_entries })
unfolding get_result_v2
taken run r c h = ap (λ o. take_result run o c) h

read-work_done :
    (dec : Decoder) (m : DecodedRuntimeMessage) (c d : Client)
    → m.message_id ≡ message_type_work_done
    → handle_work_done dec m c ≡ ok d
    → read_message dec (some m) c ≡ ok (goto checking d)
unfolding read_message
read-work_done dec m c d i h = ground (arith, i, h)

-- In a reachable client with a running step, the message that the step is done makes the read loop store its
-- output, or the error of its decoding, so that Execute then returns this result and removes the
-- step from the table.
pub work_done-completes :
    (dec : Decoder) (c : Client) (m : DecodedRuntimeMessage)
    → Reachable dec c
    → m.message_id ≡ message_type_work_done
    → lookup m.run_id c.result_entries ≡ some none
    → (c' : Client) × (c'' : Client) × (read_message dec (some m) c ≡ ok c')
      × (get_result_v2 m.run_id c'
          ≡ some (work_done_result (dec.work_done m.raw_message_data), c''))
      × (lookup m.run_id c''.result_entries ≡ none)
unfolding handle_work_done
work_done-completes dec c m h i e =
    let r = work_done_result (dec.work_done m.raw_message_data) in
    let (d, sent, k) = send_execution_result-Kept m.run_id r c (Reachable-Good dec c h).table in
    let stored =
      ap (lookup m.run_id) k.entries_are ∙ lookup-set_result-same m.run_id r c.result_entries e in
    (
      goto checking d,
      record d { loop = checking; result_entries = delete m.run_id d.result_entries },
      read-work_done dec m c d i sent,
      taken m.run_id r (goto checking d) stored,
      lookup-deleted m.run_id d.result_entries,
    )
