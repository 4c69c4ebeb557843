-- ===== src/Atp/Link.antt =====
-- atp/client.go and atp/server.go: what the client sends for one Execute, received by the server's read loop.
use arcaflow_plugin_sdk_go.Common.{
  Bytes, str_eq_refl, Bool, true, false, List, [], ◌∷◌, ◌++◌, append_assoc, append_nil, map, Option,
  none, some, lookup, insert, lookup-insert, ◌≡◌, refl, sym, ap, ◌∙◌,
}
use arcaflow_plugin_sdk_go.Atp.Protocol.{
  Input, WorkStartMessage, SignalMessage, MessageData, work_start, signal, RuntimeMessage,
  DecodedRuntimeMessage, Decoder,
}
use arcaflow_plugin_sdk_go.Atp.Client.{is_empty}
use arcaflow_plugin_sdk_go.Atp.Client.Session.{
  WriteEvent, signal_given, signals_closed, context_done, write_loop, signal_of, signal_message,
  start_message, work_start_of,
}
use arcaflow_plugin_sdk_go.Atp.Server.{
  Session, Task, step_task, signal_task, on_runtime_message_received, run_atp_read_loop,
  handle_signal_message, handle_work_start_message, server_error, signal_of_unknown_run,
}

-- The message as the decoder gives it to the server, where `encode` is the coding of the message in it.
abbrev pub arrives : (MessageData → Bytes) → RuntimeMessage → Option DecodedRuntimeMessage
arrives encode m = some (record {
  message_id = m.message_id;
  run_id = m.run_id;
  raw_message_data = encode m.message_data;
})

-- Decoding gives back the message that was encoded.
abbrev pub DecodesSignal : Decoder → (MessageData → Bytes) → SignalMessage → Type 0
DecodesSignal dec encode m = dec.signal (encode (signal m)) ≡ some m

abbrev pub DecodesStart : Decoder → (MessageData → Bytes) → WorkStartMessage → Type 0
DecodesStart dec encode m = dec.work_start (encode (work_start m)) ≡ some m

-- The signals, up to the end of the channel or of the context, with the step's ID.
abbrev pub signal_tasks : (step : Bytes) → List WriteEvent → List Task
signal_tasks step [] = []
signal_tasks step (signal_given i ∷ es) =
    signal_task i.run_id step (signal_of i) ∷ signal_tasks step es
signal_tasks step (signals_closed ∷ es) = []
signal_tasks step (context_done ∷ es) = []

abbrev pub with_tasks : Session → List Task → Session
with_tasks s ts = record s { tasks = s.tasks ++ ts }

module _ (dec : Decoder) (encode : MessageData → Bytes) where
  -- Each signal is for the run, has an ID and is decoded.
  abbrev pub AllFor : (run : Bytes) → List WriteEvent → Type 0
  AllFor run [] = Unit
  AllFor run (signal_given i ∷ es) =
      (i.run_id ≡ run)
      × (is_empty i.id ≡ false)
      × DecodesSignal dec encode (signal_of i)
      × AllFor run es
  AllFor run (signals_closed ∷ es) = Unit
  AllFor run (context_done ∷ es) = Unit

module _ (dec : Decoder) (encode : MessageData → Bytes) (closes : Bool) where
  received_signal :
      (run step : Bytes) (i : Input) (s : Session)
      → i.run_id ≡ run
      → is_empty run ≡ false
      → lookup run s.running_steps ≡ some step
      → handle_signal_message i.run_id (signal_of i) s
        ≡ with_tasks s (signal_task i.run_id step (signal_of i) ∷ [])
  unfolding handle_signal_message
  received_signal run step i s e n h = rw (e, n, h) refl

  received :
      (run step : Bytes) (i : Input) (s : Session)
      → i.run_id ≡ run
      → is_empty run ≡ false
      → lookup run s.running_steps ≡ some step
      → DecodesSignal dec encode (signal_of i)
      → (ms : List (Option DecodedRuntimeMessage))
      → run_atp_read_loop dec closes (arrives encode (signal_message i) ∷ ms) s
        ≡ run_atp_read_loop dec closes ms
            (with_tasks s (signal_task i.run_id step (signal_of i) ∷ []))
  unfolding run_atp_read_loop on_runtime_message_received
  received run step i s e n h d ms =
      rw d (ap (run_atp_read_loop dec closes ms) (received_signal run step i s e n h))

  no_tasks : (s : Session) → s ≡ with_tasks s []
  no_tasks s = ap (λ ts. record s { tasks = ts }) (sym (append_nil s.tasks))

  more_tasks :
      (s : Session) (t : Task) (ts : List Task)
      → with_tasks (with_tasks s (t ∷ [])) ts ≡ with_tasks s (t ∷ ts)
  more_tasks s t ts = ap (λ l. record s { tasks = l }) (append_assoc s.tasks (t ∷ []) ts)

  sent_first :
      (run : Bytes) (i : Input) (es : List WriteEvent)
      → i.run_id ≡ run
      → is_empty run ≡ false
      → is_empty i.id ≡ false
      → (write_loop (λ m. true) (signal_given i ∷ es)).0
        ≡ signal_message i ∷ (write_loop (λ m. true) es).0
  unfolding write_loop
  sent_first run i es e n k = rw (k, e, n) refl

  pub signals-started :
      (run step : Bytes) (es : List WriteEvent) (s : Session)
      → is_empty run ≡ false
      → lookup run s.running_steps ≡ some step
      → AllFor dec encode run es
      → run_atp_read_loop dec closes (map (arrives encode) (write_loop (λ m. true) es).0) s
        ≡ (with_tasks s (signal_tasks step es), false)
  unfolding write_loop run_atp_read_loop
  signals-started run step [] s n h a = ap (λ x. (x, false)) (no_tasks s)
  signals-started run step (signals_closed ∷ es) s n h a = ap (λ x. (x, false)) (no_tasks s)
  signals-started run step (context_done ∷ es) s n h a = ap (λ x. (x, false)) (no_tasks s)
  signals-started run step (signal_given i ∷ es) s n h a =
      let t = signal_task i.run_id step (signal_of i) in
      ap (λ ms. run_atp_read_loop dec closes (map (arrives encode) ms) s)
        (sent_first run i es a.0 n a.1)
      ∙ received run step i s a.0 n h a.2 (map (arrives encode) (write_loop (λ m. true) es).0)
      ∙ signals-started run step es (with_tasks s (t ∷ [])) n h a.3
      ∙ ap (λ x. (x, false)) (more_tasks s t (signal_tasks step es))

  abbrev pub started : Input → Session → Session
  started i s = record s {
    running_steps = insert i.run_id i.id s.running_steps;
    tasks = s.tasks ++ (step_task i.run_id (work_start_of i) ∷ []);
  }

  received_start :
      (i : Input) (s : Session) (ms : List (Option DecodedRuntimeMessage))
      → DecodesStart dec encode (work_start_of i)
      → is_empty i.run_id ≡ false
      → is_empty i.id ≡ false
      → run_atp_read_loop dec closes (arrives encode (start_message i) ∷ ms) s
        ≡ run_atp_read_loop dec closes ms (started i s)
  unfolding run_atp_read_loop on_runtime_message_received handle_work_start_message
  received_start i s ms d n k = rw d (rw (n, k) refl)

  -- Where the message that starts the step arrives before the signals of its run, the server starts the step and,
  -- for each signal in order, its handler with the step's ID, up to the end of the signals or of the
  -- context, reports no error, and goes on reading; the run and the step have IDs, and so has each signal,
  -- and decoding gives back these messages.
  pub execute-started :
      (i : Input) (es : List WriteEvent) (s : Session)
      → DecodesStart dec encode (work_start_of i)
      → is_empty i.run_id ≡ false
      → is_empty i.id ≡ false
      → AllFor dec encode i.run_id es
      → run_atp_read_loop dec closes
          (arrives encode (start_message i) ∷ map (arrives encode) (write_loop (λ m. true) es).0)
          s
        ≡ (
          record s {
            running_steps = insert i.run_id i.id s.running_steps;
            tasks = s.tasks ++ (step_task i.run_id (work_start_of i) ∷ signal_tasks i.id es);
          },
          false,
        )
  execute-started i es s d n k a =
      received_start i s _ d n k
      ∙ signals-started i.run_id i.id es (started i s) n
          (lookup-insert i.run_id i.run_id i.id s.running_steps ∙ rw (str_eq_refl i.run_id) refl) a
      ∙ ap
          (λ l.
            (record s { running_steps = insert i.run_id i.id s.running_steps; tasks = l }, false))
          (append_assoc s.tasks (step_task i.run_id (work_start_of i) ∷ []) (signal_tasks i.id es))

  -- A signal that arrives before the message that starts its run is lost: the server reports that the run is
  -- unknown, and starts the step without the signal's handler.
  pub early_signal-lost :
      (i j : Input) (s : Session)
      → DecodesStart dec encode (work_start_of i)
      → DecodesSignal dec encode (signal_of j)
      → is_empty i.run_id ≡ false
      → is_empty i.id ≡ false
      → j.run_id ≡ i.run_id
      → lookup i.run_id s.running_steps ≡ none
      → run_atp_read_loop dec closes
          (arrives encode (signal_message j) ∷ arrives encode (start_message i) ∷ [])
          s
        ≡ (
          record s {
            running_steps = insert i.run_id i.id s.running_steps;
            tasks = s.tasks ++ (step_task i.run_id (work_start_of i) ∷ []);
            work_done_channel =
                s.work_done_channel
                ++ (server_error j.run_id signal_of_unknown_run false false ∷ []);
          },
          false,
        )
  unfolding run_atp_read_loop on_runtime_message_received handle_signal_message
      handle_work_start_message
  early_signal-lost i j s d g n k e h = rw (g, d, e) (rw (n, h) (rw k refl))
