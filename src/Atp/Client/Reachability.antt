-- ===== src/Atp/Client/Reachability.antt =====
-- atp/client.go: the states that a new client reaches by interleavings of Execute, Close and the read
-- loop, and what holds in them.
use arcaflow_plugin_sdk_go.Common.{
  none_not_some, ℕ, Bytes, str_eq_iff, Bool, true, false, ap, ◌∙◌, if◌then◌else◌, [], Option, none,
  some, ◌≡◌, refl, arith, subst, sym, lookup, lookup-insert,
}
use arcaflow_plugin_sdk_go.Go.Result.{ok, IsSafe}
use arcaflow_plugin_sdk_go.Atp.Protocol.{DecodedRuntimeMessage, Decoder, message_type_error}
use arcaflow_plugin_sdk_go.Atp.Client.{
  Client, idle, leaving, prepare_result_channels, start_loop, read_message, leave_loop,
  get_result_v2, goto, handle_error_message, handle_error, error_result, read_failed, sent_error,
}
use arcaflow_plugin_sdk_go.Atp.Client.Turn.{is_idle, read_message-Turn}
use arcaflow_plugin_sdk_go.Atp.Client.Table.{Distinct}
use arcaflow_plugin_sdk_go.Atp.Client.Broadcast.{all_with, send_error_to_all-Kept}
use arcaflow_plugin_sdk_go.Atp.Client.Events.{Step, Good}
use arcaflow_plugin_sdk_go.Atp.Client.Preservation.{Step-Good}
use arcaflow_plugin_sdk_go.Atp.Client.Lost.{Lost, LaterSteps, LaterSteps-Lost, get_result_v2-Lost}

-- The states that a new client reaches.
pub data Reachable (dec : Decoder) : Client → Type 0 where
  new :
      (c : Client)
      → c.result_entries ≡ []
      → c.signal_channels ≡ []
      → c.loop ≡ idle
      → c.read_loop_running ≡ false
      → Reachable dec c
  after : (c c' : Client) → Reachable dec c → Step dec c c' → Reachable dec c'

new-Good :
    (c : Client)
    → c.result_entries ≡ []
    → c.signal_channels ≡ []
    → c.loop ≡ idle
    → c.read_loop_running ≡ false
    → Good c
unfolding lookup
new-Good c e s l r = record {
  table = record {
    distinct = subst Distinct (sym e) tt;
    opened = λ run ch h. elim (none_not_some (rw s at h)) [ ];
    owned = λ run other ch h i. elim (none_not_some (rw s at h)) [ ];
    pending = λ run ch h. elim (none_not_some (rw s at h)) [ ];
  };
  flag = rw (l, r) refl;
}

-- In every state that a new client reaches by any interleaving of Execute, Close and the read loop, where
-- each Execute is given an open signal channel that no other run has, or none, the
-- table is well formed: no two running steps share a signal channel, an open channel belongs to a step
-- without a result, and the flag tells whether there is a read loop.
pub Reachable-Good : (dec : Decoder) (c : Client) → Reachable dec c → Good c
Reachable-Good dec c (new _ e s l r) = new-Good c e s l r
Reachable-Good dec c' (after c _ h s) = Step-Good dec c c' s (Reachable-Good dec c h)

-- In a state that a new client reaches, the read loop handles any next message, decodable or not,
-- without a panic of its channels.
pub Reachable-IsSafe :
    (dec : Decoder) (c : Client) (m : Option DecodedRuntimeMessage)
    → Reachable dec c
    → IsSafe (read_message dec m c)
Reachable-IsSafe dec c m h =
    let (d, read, wf, running, settled, busy) =
      read_message-Turn dec m c (Reachable-Good dec c h).table in
    subst IsSafe (sym read) tt

-- Where a reachable client cannot decode the next message, the read loop leaves, and its error is the
-- result of every running step.
pub undecoded-settles :
    (dec : Decoder) (c : Client)
    → Reachable dec c
    → (c' : Client) × (read_message dec none c ≡ ok c')
      × (c'.loop ≡ leaving)
      × (c'.result_entries ≡ all_with (error_result read_failed) c.result_entries)
unfolding read_message
undecoded-settles dec c h =
    let (d, sent, k) = send_error_to_all-Kept read_failed c (Reachable-Good dec c h).table in
    (goto leaving d, rw sent, refl, k.entries_are)

-- An error message that is fatal for the server ends the read loop of a reachable client, and is the
-- result of every running step.
pub server_fatal-settles :
    (dec : Decoder) (c : Client) (m : DecodedRuntimeMessage)
    → Reachable dec c
    → m.message_id ≡ message_type_error
    → (dec.error_message m.raw_message_data).server_fatal ≡ true
    → (c' : Client) × (read_message dec (some m) c ≡ ok c')
      × (c'.loop ≡ leaving)
      × (c'.result_entries
          ≡ all_with
              (error_result (sent_error m.run_id (dec.error_message m.raw_message_data)))
              c.result_entries)
unfolding read_message handle_error_message handle_error
server_fatal-settles dec c m h i f =
    let e = sent_error m.run_id (dec.error_message m.raw_message_data) in
    let (d, sent, k) = send_error_to_all-Kept e c (Reachable-Good dec c h).table in
    (goto leaving d, ground (arith, i, f, sent), refl, k.entries_are)

busy-flag : (b : Bool) → (if b then false else true) ≡ false → b ≡ true
busy-flag true f = refl
busy-flag false f = cc

-- The race between Execute and a read loop that is about to leave. In a state that a new client reaches, where
-- the loop has found no entry remaining but has not yet reset its flag, the start of Execute with a new run succeeds
-- and leaves the loop about to leave. After the loop has left, and until another Execute starts, whatever else the
-- client does, there is no loop, the run has an entry without a result, and Execute does not return.
pub lost_run :
    (dec : Decoder) (run : Bytes) (ch : Option ℕ) (c later : Client)
    → Reachable dec c
    → c.loop ≡ leaving
    → lookup run c.result_entries ≡ none
    → LaterSteps dec (leave_loop (prepare_result_channels run ch c).1) later
    → ((prepare_result_channels run ch c).0 ≡ none)
      × ((prepare_result_channels run ch c).1.loop ≡ leaving)
      × (later.loop ≡ idle)
      × (lookup run later.result_entries ≡ some none)
      × (get_result_v2 run later ≡ none)
unfolding leave_loop prepare_result_channels start_loop
lost_run dec run ch c later h l e steps =
    let r : c.read_loop_running ≡ true =
      busy-flag (c.read_loop_running) (sym (Good.flag (Reachable-Good dec c h)) ∙ ap is_idle l) in
    let lost : Lost run (leave_loop (prepare_result_channels run ch c).1) = record {
      no_loop = refl;
      waits = ground (arith, e, r, lookup-insert run run none c.result_entries, str_eq_iff run run);
    } in
    let still = LaterSteps-Lost dec run _ later lost steps in
    (
      ground (arith, e),
      ground (arith, e, r, l),
      still.no_loop,
      still.waits,
      get_result_v2-Lost run later still,
    )
