-- ===== src/Atp/Client/Events.antt =====
-- atp/client.go: the interleavings of Execute, Close and the read loop. Each step is what happens under
-- one hold of the mutex, so that a run of the client is a sequence of steps.
use arcaflow_plugin_sdk_go.Common.{
  ℕ, Bytes, Bool, true, false, Option, none, some, ◌≡◌, ◌≢◌, lookup, if◌then◌else◌,
}
use arcaflow_plugin_sdk_go.Go.Result.{ok}
use arcaflow_plugin_sdk_go.Atp.Protocol.{DecodedRuntimeMessage, Decoder}
use arcaflow_plugin_sdk_go.Atp.Client.{
  Client, ExecutionResult, reading, checking, leaving, member, prepare_result_channels,
  read_message, check_entries, leave_loop, get_result_v2, close,
}
use arcaflow_plugin_sdk_go.Atp.Client.Turn.{is_idle}
use arcaflow_plugin_sdk_go.Atp.Client.Table.{WellFormed}

-- The caller of Execute gives a channel for signals that is open and that no other run has.
abbrev pub FreshChannel : Option ℕ → Client → Type 0
FreshChannel none c = Unit
FreshChannel (some ch) c =
    (member ch c.closed_channels ≡ false) × ((run : Bytes) → lookup run c.signal_channels ≢ some ch)

module _ (dec : Decoder) where
  pub data Step : Client → Client → Type 0 where
    -- Execute, up to the start of waiting
    prepare :
        (run : Bytes) (ch : Option ℕ) (c : Client)
        → FreshChannel ch c
        → Step c (prepare_result_channels run ch c).1
    -- executeReadLoop: a message arrives or cannot be read; the end of the turn; the deferred function
    receive :
        (m : Option DecodedRuntimeMessage) (c c' : Client)
        → c.loop ≡ reading
        → read_message dec m c ≡ ok c'
        → Step c c'
    check : (c : Client) → c.loop ≡ checking → Step c (check_entries c)
    leave : (c : Client) → c.loop ≡ leaving → Step c (leave_loop c)
    -- Execute returns
    collect :
        (run : Bytes) (r : ExecutionResult) (c c' : Client)
        → get_result_v2 run c ≡ some (r, c')
        → Step c c'
    closing : (writes : Bool) (c : Client) → Step c (close writes c)

-- The table is well formed, and the flag says whether there is a read loop.
pub record Good (c : Client) : Type 0 where
  pub table : WellFormed c
  pub flag : is_idle c.loop ≡ (if c.read_loop_running then false else true)
