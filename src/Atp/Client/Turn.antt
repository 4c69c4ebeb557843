-- ===== src/Atp/Client/Turn.antt =====
-- atp/client.go: what the handlers of the read loop keep, and one turn of it.
use arcaflow_plugin_sdk_go.Common.{
  ℕ, Bytes, Bool, true, false, ◌∷◌, Option, none, some, ◌≡◌, refl, lookup, if◌then◌else◌, List,
  subst, sym,
}
use arcaflow_plugin_sdk_go.Go.Result.{Result, ok, ◌>>=◌}
use arcaflow_plugin_sdk_go.Atp.Protocol.{
  DecodedRuntimeMessage, Decoder, ErrorMessage, SignalMessage, Input, to_input,
}
use arcaflow_plugin_sdk_go.Atp.Client.{
  Client, ExecutionResult, ClientError, Loop, idle, checking, leaving, read_message, goto,
  handle_work_done, handle_signal, handle_error_message, handle_error, send_error_to_all,
  send_execution_result, deliver_signal, flagged, send_signal, error_result, read_failed,
  work_done_result, is_empty, sent_error, missing_run_id,
}
use arcaflow_plugin_sdk_go.Atp.Client.Table.{WellFormed, send_execution_result-Kept}
use arcaflow_plugin_sdk_go.Atp.Client.Broadcast.{send_error_to_all-Kept}
use arcaflow_plugin_sdk_go.Atp.Client.Spec.{
  Settles, view, Settles-refl, set_result-Settles, all_with-Settles,
}

abbrev pub is_idle : Loop → Bool
is_idle idle = true
is_idle l = false

pub goto-WellFormed : (l : Loop) (c : Client) → WellFormed c → WellFormed (goto l c)
goto-WellFormed l c wf = record {
  distinct = wf.distinct;
  opened = wf.opened;
  owned = wf.owned;
  pending = wf.pending;
}

-- No run starts or is returned between the two states.
abbrev pub SettlesAll : Client → Client → Type 0
SettlesAll c c' = (run : Bytes) → Settles (view c run) (view c' run)

unchanged : (c : Client) → SettlesAll c c
unchanged c run = Settles-refl (view c run)

-- A handler's result: it did not panic, and it kept the table and the flag.
abbrev pub Handled : Result Client → Client → Type 0
Handled r c =
    (c' : Client) × (r ≡ ok c')
    × WellFormed c'
    × (c'.read_loop_running ≡ c.read_loop_running)
    × SettlesAll c c'

-- The same for a turn of the read loop, which is not over after it.
abbrev pub Turn : Result Client → Client → Type 0
Turn r c =
    (c' : Client) × (r ≡ ok c')
    × WellFormed c'
    × (c'.read_loop_running ≡ c.read_loop_running)
    × SettlesAll c c'
    × (is_idle c'.loop ≡ false)

Turn-goto :
    (l : Loop) (r : Result Client) (c : Client)
    → is_idle l ≡ false
    → Handled r c
    → Turn (r >>= λ c'. ok (goto l c')) c
Turn-goto l r c e (d, sent, wf, running, settled) =
    (goto l d, rw sent, goto-WellFormed l d wf, running, settled, e)

Turn-if :
    (b : Bool) (x y : Result Client) (c : Client)
    → Turn x c
    → Turn y c
    → Turn (if b then x else y) c
Turn-if true x y c h k = h
Turn-if false x y c h k = k

entries_settle :
    (c d : Client) {es : List (Bytes × Option ExecutionResult)}
    → d.result_entries ≡ es
    → ((run : Bytes) → Settles (view c run) (lookup run es))
    → SettlesAll c d
entries_settle c d e h run = subst (λ m. Settles (view c run) (lookup run m)) (sym e) (h run)

Handled-result :
    (run : Bytes) (r : ExecutionResult) (c : Client)
    → WellFormed c
    → Handled (send_execution_result run r c) c
Handled-result run r c wf =
    let (d, sent, k) = send_execution_result-Kept run r c wf in
    (
      d,
      sent,
      k.well_formed,
      k.same_running,
      entries_settle c d k.entries_are (set_result-Settles run r c.result_entries),
    )

Handled-all : (e : ClientError) (c : Client) → WellFormed c → Handled (send_error_to_all e c) c
Handled-all e c wf =
    let (d, sent, k) = send_error_to_all-Kept e c wf in
    (
      d,
      sent,
      k.well_formed,
      k.same_running,
      entries_settle c d k.entries_are (all_with-Settles (error_result e) c.result_entries),
    )

Handled-send :
    (o : Option ℕ) (run : Bytes) (i : Input) (c : Client)
    → lookup run c.signal_channels ≡ o
    → WellFormed c
    → Handled (send_signal o i c) c
Handled-send none run i c e wf = (c, refl, wf, refl, unchanged c)
Handled-send (some ch) run i c e wf = (
  record c { sent_signals = (ch, i) ∷ c.sent_signals },
  rw (wf.opened run ch e),
  record { distinct = wf.distinct; opened = wf.opened; owned = wf.owned; pending = wf.pending },
  refl,
  unchanged c,
)

Handled-signal :
    (s : Option SignalMessage) (run : Bytes) (c : Client)
    → WellFormed c
    → Handled (deliver_signal s run c) c
Handled-signal none run c wf = (c, refl, wf, refl, unchanged c)
Handled-signal (some s) run c wf =
    Handled-send (lookup run c.signal_channels) run (to_input s run) c refl wf

abbrev after_error : Result (Bool × Client) → Result Client
after_error r = r >>= λ fc. ok (goto (if fc.0 then leaving else checking) fc.1)

Turn-flagged :
    (b : Bool) (r : Result Client) (c : Client) → Handled r c → Turn (after_error (flagged b r)) c
Turn-flagged true r c (d, sent, wf, running, settled) =
    (goto leaving d, rw sent, goto-WellFormed leaving d wf, running, settled, refl)
Turn-flagged false r c (d, sent, wf, running, settled) =
    (goto checking d, rw sent, goto-WellFormed checking d wf, running, settled, refl)

Turn-branch :
    (b : Bool) (x y : Result (Bool × Client)) (c : Client)
    → Turn (after_error x) c
    → Turn (after_error y) c
    → Turn (after_error (if b then x else y)) c
Turn-branch true x y c h k = h
Turn-branch false x y c h k = k

Handled-if :
    (b : Bool) (x y : Result Client) (c : Client)
    → Handled x c
    → Handled y c
    → Handled (if b then x else y) c
Handled-if true x y c h k = h
Handled-if false x y c h k = k

Turn-handle_error :
    (run : Bytes) (m : ErrorMessage) (c : Client)
    → WellFormed c
    → Turn (after_error (handle_error run m c)) c
unfolding handle_error
Turn-handle_error run m c wf =
    Turn-branch m.server_fatal _ _ c (Turn-flagged true _ c (Handled-all (sent_error run m) c wf)) (
      Turn-branch m.step_fatal _ _ c
        (Turn-flagged false _ c (
          Handled-if (is_empty run) _ _ c (Handled-all (missing_run_id m) c wf)
            (Handled-result run (error_result (sent_error run m)) c wf)))
        (Turn-flagged false (ok c) c (c, refl, wf, refl, unchanged c)))

-- One turn of executeReadLoop never panics: it sends no signal on a closed channel and closes no
-- channel twice, whatever message arrives. It keeps the table well formed.
pub read_message-Turn :
    (dec : Decoder) (m : Option DecodedRuntimeMessage) (c : Client)
    → WellFormed c
    → Turn (read_message dec m c) c
unfolding read_message handle_work_done handle_signal handle_error_message
read_message-Turn dec none c wf = Turn-goto leaving _ c refl (Handled-all read_failed c wf)
read_message-Turn dec (some m) c wf =
    Turn-if _ _ _ c
      (Turn-goto checking _ c refl
        (Handled-result m.run_id (work_done_result (dec.work_done m.raw_message_data)) c wf))
      (Turn-if _ _ _ c
        (Turn-goto checking _ c refl (Handled-signal (dec.signal m.raw_message_data) m.run_id c wf))
        (Turn-if _ _ _ c (Turn-handle_error m.run_id (dec.error_message m.raw_message_data) c wf)
          (goto checking c, refl, goto-WellFormed checking c wf, refl, unchanged c, refl)))
