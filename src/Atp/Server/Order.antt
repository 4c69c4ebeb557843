-- ===== src/Atp/Server/Order.antt =====
-- atp/server.go, RunATPServer: what run finds in runDoneChannel, in every order of the goroutines.
use arcaflow_plugin_sdk_go.Common.{
  Bytes, Bool, true, false, ◌||◌, ◌&&◌, List, [], ◌++◌, Option, none, some, ◌≡◌, refl, Bool-cases,
  inl, inr, if◌then◌else◌, ◌==◌, lookup, ap, ◌∙◌,
}
use arcaflow_plugin_sdk_go.Atp.Protocol.{
  HelloMessage, WorkStartMessage, SignalMessage, DecodedRuntimeMessage, RuntimeMessage, Decoder,
  message_type_work_start, message_type_signal, message_type_client_done,
}
use arcaflow_plugin_sdk_go.Atp.Server.{
  Session, ServerError, to_message, ServerErrorText, Task, is_empty, server_error, report,
  read_failed, returned, failed, panicked, on_work_start, on_signal, on_client_done, start_signal,
  on_runtime_message_received, handle_work_start_message, handle_signal_message, run_step,
  run_signal,
}
use arcaflow_plugin_sdk_go.Atp.Server.Running.{
  Server, starting, looping, is_closed, new_server, with_session, end_run, begin_run,
  send_initial_messages, TaskEnd, step_ends, signal_ends, reports, run_task, end_task, read_turn,
  closure_turn, ServerStep, begin, read, end, receive, stop_receiving, ServerSteps, stay, then_step,
}

run_done-if :
    (b d : Bool) (x y : Session)
    → x.run_done ≡ d
    → y.run_done ≡ d
    → (if b then x else y).run_done ≡ d
run_done-if true d x y h k = h
run_done-if false d x y h k = k

run_done-if_pair :
    (b d : Bool) (x y : Bool × Session)
    → x.1.run_done ≡ d
    → y.1.run_done ≡ d
    → (if b then x else y).1.run_done ≡ d
run_done-if_pair true d x y h k = h
run_done-if_pair false d x y h k = k

start_signal-run_done :
    (run : Bytes) (o : Option Bytes) (m : SignalMessage) (s : Session)
    → (start_signal run o m s).run_done ≡ s.run_done
start_signal-run_done run none m s = refl
start_signal-run_done run (some step) m s = refl

module _ (dec : Decoder) (closes : Bool) where
  on_work_start-run_done :
      (run : Bytes) (o : Option WorkStartMessage) (s : Session)
      → (on_work_start dec closes run o s).run_done ≡ s.run_done
  unfolding on_work_start handle_work_start_message
  on_work_start-run_done run none s = refl
  on_work_start-run_done run (some m) s =
      run_done-if (is_empty run || is_empty m.step_id) s.run_done _ _ refl refl

  on_signal-run_done :
      (run : Bytes) (o : Option SignalMessage) (s : Session)
      → (on_signal dec closes run o s).run_done ≡ s.run_done
  unfolding on_signal handle_signal_message
  on_signal-run_done run none s = refl
  on_signal-run_done run (some m) s =
      run_done-if (is_empty run) s.run_done _ _ refl
        (start_signal-run_done run (lookup run s.running_steps) m s)

  on_client_done-run_done : (s : Session) → (on_client_done dec closes s).run_done ≡ s.run_done
  on_client_done-run_done s = run_done-if closes s.run_done _ _ refl refl

  on_message-run_done :
      (m : DecodedRuntimeMessage) (s : Session)
      → (on_runtime_message_received dec closes m s).1.run_done ≡ s.run_done
  unfolding on_runtime_message_received
  on_message-run_done m s =
      run_done-if_pair (m.message_id == message_type_work_start) s.run_done _ _
        (on_work_start-run_done m.run_id (dec.work_start m.raw_message_data) s)
        (run_done-if_pair (m.message_id == message_type_signal) s.run_done _ _
          (on_signal-run_done m.run_id (dec.signal m.raw_message_data) s)
          (run_done-if_pair (m.message_id == message_type_client_done) s.run_done _ _
            (on_client_done-run_done s) refl))

run_task-run_done :
    (t : Task) (o : TaskEnd t) (s : Session) → (run_task t o s).run_done ≡ s.run_done
unfolding run_step run_signal
run_task-run_done _ (step_ends run m (returned id data')) s = refl
run_task-run_done _ (step_ends run m failed) s = refl
run_task-run_done _ (step_ends run m panicked) s = refl
run_task-run_done _ (signal_ends run step m fails) s = run_done-if fails s.run_done _ _ refl refl

-- The channel runDoneChannel holds a value exactly where run has ended.
abbrev pub Orderly : Server → Type 0
Orderly v = v.session.run_done ≡ is_closed v.phase

Orderly-if : (b : Bool) (v w : Server) → Orderly v → Orderly w → Orderly (if b then v else w)
Orderly-if true v w h k = h
Orderly-if false v w h k = k

module _ (dec : Decoder) (closes : Bool) where
  read_turn-Orderly :
      (m : Option DecodedRuntimeMessage) (v : Server)
      → Orderly v
      → Orderly (read_turn dec closes m v)
  unfolding read_turn end_run
  read_turn-Orderly none v h = refl
  read_turn-Orderly (some m) v h =
      let next = with_session (on_runtime_message_received dec closes m v.session).1 v in
      Orderly-if (on_runtime_message_received dec closes m v.session).0 (end_run next) next refl
        (on_message-run_done dec closes m v.session ∙ h)

begin_run-Orderly :
    (o : Option HelloMessage) (v : Server)
    → v.phase ≡ starting
    → Orderly v
    → Orderly (begin_run o v)
unfolding begin_run end_run
begin_run-Orderly none v p h = refl
begin_run-Orderly (some m) v p h = h ∙ ap is_closed p

end_task-Orderly :
    (t : Task) (o : TaskEnd t) (others : List Task) (v : Server)
    → Orderly v
    → Orderly (end_task t o others v)
unfolding end_task
end_task-Orderly t o others v h =
    let left = record v.session { tasks = others } in
    Orderly-if (is_closed v.phase && reports t o) (record v { crashed = true })
      (with_session (run_task t o left) v) h (run_task-run_done t o left ∙ h)

module _ (dec : Decoder) (text_of : ServerErrorText → Bytes) where
  closure_turn-Orderly :
      (sends : RuntimeMessage → Bool) (closes : Bool) (e : ServerError) (rest : List ServerError)
      (v : Server)
      → Orderly v
      → Orderly (closure_turn text_of sends closes e rest v)
  unfolding closure_turn
  closure_turn-Orderly sends closes e rest v h = elim (Bool-cases (sends (to_message text_of e))) [
    | inl s ↦ elim (Bool-cases e.server_fatal) [
      | inl f ↦ elim (Bool-cases closes) [ inl c ↦ rw (s, f, c) h | inr c ↦ rw (s, f, c) h ]
      | inr f ↦ rw (s, f) h
    ]
    | inr s ↦ elim (Bool-cases closes) [ inl c ↦ rw (s, c) h | inr c ↦ rw (s, c) h ]
  ]

  ServerStep-Orderly : (v w : Server) → ServerStep dec text_of v w → Orderly v → Orderly w
  ServerStep-Orderly _ _ (begin schema start encodes v c p) h =
      begin_run-Orderly (send_initial_messages schema start encodes) v p h
  ServerStep-Orderly _ _ (read closes m v c p) h = read_turn-Orderly dec closes m v h
  ServerStep-Orderly _ _ (end before t behind o v c l) h =
      end_task-Orderly t o (before ++ behind) v h
  ServerStep-Orderly _ _ (receive sends closes e rest v c r l) h =
      closure_turn-Orderly sends closes e rest v h
  ServerStep-Orderly _ _ (stop_receiving v c r) h = h

  pub ServerSteps-Orderly : (v w : Server) → ServerSteps dec text_of v w → Orderly v → Orderly w
  ServerSteps-Orderly v _ stay h = h
  ServerSteps-Orderly v _ (then_step w x s t) h =
      ServerStep-Orderly w x t (ServerSteps-Orderly v w s h)

  -- In every state of the server in which run is in its loop, a message that cannot be decoded is reported
  -- as fatal for the server and ends run: the loop never finds in runDoneChannel that run is done.
  pub undecoded-reported :
      (closes : Bool) (v : Server)
      → ServerSteps dec text_of new_server v
      → v.phase ≡ looping
      → read_turn dec closes none v
        ≡ end_run (with_session (report (server_error [] read_failed true true) v.session) v)
  unfolding read_turn
  undecoded-reported closes v s p =
      rw (ServerSteps-Orderly new_server v s refl ∙ ap is_closed p) refl
