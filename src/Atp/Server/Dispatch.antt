-- ===== src/Atp/Server/Dispatch.antt =====
-- atp/server.go: what the read loop starts and reports.
use arcaflow_plugin_sdk_go.Common.{
  Bytes, Bool, true, false, List, [], ◌∷◌, ◌++◌, map, any, All, Option, none, some, ◌≡◌, refl,
  arith, lookup, Bool-cases, inl, inr, if◌then◌else◌, ◌==◌, ◌||◌,
}
use arcaflow_plugin_sdk_go.Atp.Protocol.{
  WorkStartMessage, SignalMessage, DecodedRuntimeMessage, Decoder, message_type_work_start,
  message_type_signal, message_type_client_done,
}
use arcaflow_plugin_sdk_go.Atp.Server.{
  Session, ServerError, handle_work_start_message, handle_signal_message,
  on_runtime_message_received, run_atp_read_loop, on_work_start, on_signal, on_client_done,
  unknown_message_id, report, server_error, is_empty, start_signal,
}

-- No error on the channel workDone is fatal for the server.
abbrev pub NoneFatal : Session → Type 0
NoneFatal s = All (λ e. e.server_fatal ≡ false) s.work_done_channel

All-append :
    {A : Type 0} (P : A → Type 0) (xs : List A) (x : A) → All P xs → P x → All P (xs ++ (x ∷ []))
All-append P [] x h p = (p, tt)
All-append P (y ∷ ys) x h p = (h.0, All-append P ys x h.1 p)

report-NoneFatal :
    (e : ServerError) (s : Session) → e.server_fatal ≡ false → NoneFatal s → NoneFatal (report e s)
report-NoneFatal e s f h = All-append (λ d. d.server_fatal ≡ false) s.work_done_channel e h f

NoneFatal-if :
    (b : Bool) (x y : Session) → NoneFatal x → NoneFatal y → NoneFatal (if b then x else y)
NoneFatal-if true x y h k = h
NoneFatal-if false x y h k = k

NoneFatal-if_pair :
    (b : Bool) (x y : Bool × Session)
    → NoneFatal x.1
    → NoneFatal y.1
    → NoneFatal (if b then x else y).1
NoneFatal-if_pair true x y h k = h
NoneFatal-if_pair false x y h k = k

start_signal-NoneFatal :
    (run : Bytes) (o : Option Bytes) (m : SignalMessage) (s : Session)
    → NoneFatal s
    → NoneFatal (start_signal run o m s)
start_signal-NoneFatal run none m s h = report-NoneFatal _ s refl h
start_signal-NoneFatal run (some step) m s h = h

abbrev pub says_done : DecodedRuntimeMessage → Bool
says_done m = m.message_id == message_type_client_done

-- The messages up to the first that says that the client is done, and this one.
abbrev pub up_to_done : List DecodedRuntimeMessage → List DecodedRuntimeMessage
up_to_done [] = []
up_to_done (m ∷ ms) = m ∷ (if says_done m then [] else up_to_done ms)

rest_dropped :
    (b d : Bool) (x : Session × Bool) (f : List DecodedRuntimeMessage → Session × Bool)
    (ms ns : List DecodedRuntimeMessage)
    → b ≡ d
    → f ms ≡ f ns
    → (if b then x else f ms) ≡ (if b then x else f (if d then [] else ns))
rest_dropped true d x f ms ns e h = refl
rest_dropped false true x f ms ns e h = cc
rest_dropped false false x f ms ns e h = h

module _ (dec : Decoder) where
  on_work_start-NoneFatal :
      (run : Bytes) (o : Option WorkStartMessage) (s : Session)
      → NoneFatal s
      → NoneFatal (on_work_start dec true run o s)
  unfolding on_work_start handle_work_start_message
  on_work_start-NoneFatal run none s h = report-NoneFatal _ s refl h
  on_work_start-NoneFatal run (some m) s h =
      NoneFatal-if (is_empty run || is_empty m.step_id) _ _ (report-NoneFatal _ s refl h) h

  on_signal-NoneFatal :
      (run : Bytes) (o : Option SignalMessage) (s : Session)
      → NoneFatal s
      → NoneFatal (on_signal dec true run o s)
  unfolding on_signal handle_signal_message
  on_signal-NoneFatal run none s h = report-NoneFatal _ s refl h
  on_signal-NoneFatal run (some m) s h =
      NoneFatal-if (is_empty run) _ _ (report-NoneFatal _ s refl h)
        (start_signal-NoneFatal run (lookup run s.running_steps) m s h)

  -- Where closing stdin works, no message that can be decoded as a runtime message, whatever is in it,
  -- makes the session report an error that is fatal for the server.
  pub on_runtime_message_received-NoneFatal :
      (m : DecodedRuntimeMessage) (s : Session)
      → NoneFatal s
      → NoneFatal (on_runtime_message_received dec true m s).1
  unfolding on_runtime_message_received
  on_runtime_message_received-NoneFatal m s h =
      let started : Bool × Session =
        (false, on_work_start dec true m.run_id (dec.work_start m.raw_message_data) s) in
      let signalled : Bool × Session =
        (false, on_signal dec true m.run_id (dec.signal m.raw_message_data) s) in
      let done : Bool × Session = (true, on_client_done dec true s) in
      let unknown : Bool × Session =
        (false, report (server_error [] (unknown_message_id m.message_id) false false) s) in
      let last : Bool × Session =
        if m.message_id == message_type_client_done then done else unknown in
      NoneFatal-if_pair (m.message_id == message_type_work_start) started
        (if m.message_id == message_type_signal then signalled else last)
        (on_work_start-NoneFatal m.run_id (dec.work_start m.raw_message_data) s h)
        (NoneFatal-if_pair (m.message_id == message_type_signal) signalled last
          (on_signal-NoneFatal m.run_id (dec.signal m.raw_message_data) s h)
          (NoneFatal-if_pair (m.message_id == message_type_client_done) done unknown h
            (report-NoneFatal _ s refl h)))

  on_runtime_message_received-done :
      (m : DecodedRuntimeMessage) (s : Session)
      → (on_runtime_message_received dec true m s).0 ≡ says_done m
  unfolding on_runtime_message_received
  on_runtime_message_received-done m s = ground arith

  run_atp_read_loop-safe :
      (ms : List DecodedRuntimeMessage) (s : Session)
      → NoneFatal s
      → NoneFatal (run_atp_read_loop dec true (map some ms) s).0
        × ((run_atp_read_loop dec true (map some ms) s).1 ≡ any says_done ms)
  unfolding run_atp_read_loop
  run_atp_read_loop-safe [] s h = (h, refl)
  run_atp_read_loop-safe (m ∷ ms) s h =
      let next = (on_runtime_message_received dec true m s).1 in
      let kept = on_runtime_message_received-NoneFatal m s h in
      elim (Bool-cases (on_runtime_message_received dec true m s).0) [
        | inl e ↦ rw e (kept, ground (arith, e, on_runtime_message_received-done m s))
        | inr e ↦
            let (safe, ends) = run_atp_read_loop-safe ms next kept in
            rw e (safe, ground (arith, e, on_runtime_message_received-done m s, ends))
      ]

  run_atp_read_loop-up_to_done :
      (ms : List DecodedRuntimeMessage) (s : Session)
      → run_atp_read_loop dec true (map some ms) s
        ≡ run_atp_read_loop dec true (map some (up_to_done ms)) s
  unfolding run_atp_read_loop
  run_atp_read_loop-up_to_done [] s = refl
  run_atp_read_loop-up_to_done (m ∷ ms) s =
      let next = (on_runtime_message_received dec true m s).1 in
      rest_dropped (on_runtime_message_received dec true m s).0 (says_done m) (next, true)
        (λ l. run_atp_read_loop dec true (map some l) next) ms (up_to_done ms)
        (on_runtime_message_received-done m s) (run_atp_read_loop-up_to_done ms next)

  -- Where closing stdin works, the read loop ends on messages that can be decoded as runtime messages exactly at the first
  -- that says that the client is done: it leaves what it leaves on the messages up to that one, it returns exactly where
  -- there is one, and it reports no error that is fatal for the server.
  pub run_atp_read_loop-NoneFatal :
      (ms : List DecodedRuntimeMessage) (s : Session)
      → NoneFatal s
      → NoneFatal (run_atp_read_loop dec true (map some ms) s).0
        × ((run_atp_read_loop dec true (map some ms) s).1 ≡ any says_done ms)
        × (run_atp_read_loop dec true (map some ms) s
            ≡ run_atp_read_loop dec true (map some (up_to_done ms)) s)
  run_atp_read_loop-NoneFatal ms s h =
      let (safe, ends) = run_atp_read_loop-safe ms s h in
      (safe, ends, run_atp_read_loop-up_to_done ms s)
