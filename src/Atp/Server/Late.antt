-- ===== src/Atp/Server/Late.antt =====
-- atp/server.go, RunATPServer: the goroutines of steps and signals that outlive the read loop.
use arcaflow_plugin_sdk_go.Common.{
  Bytes, Bool, true, false, List, [], ◌∷◌, ◌++◌, Option, none, some, ◌≡◌, refl, insert, Bool-cases,
  inl, inr, if◌then◌else◌, ap, ◌∙◌,
}
use arcaflow_plugin_sdk_go.Atp.Protocol.{WorkStartMessage, DecodedRuntimeMessage, Decoder}
use arcaflow_plugin_sdk_go.Atp.Server.{
  ServerErrorText, Task, step_task, is_empty, on_runtime_message_received, run_atp_read_loop,
  handle_work_start_message,
}
use arcaflow_plugin_sdk_go.Atp.Server.Running.{
  Server, looping, ended, is_closed, with_session, end_run, TaskEnd, reports, end_task, read_turn,
  read_turns, read, end, ServerSteps, stay, then_step,
}

module _ (dec : Decoder) (closes : Bool) where
  -- The turns of the read loop, one at a time, from a state in which run is in its loop, leave what the whole loop leaves,
  -- and end run exactly where it returns.
  pub read_turns-run_atp_read_loop :
      (ms : List (Option DecodedRuntimeMessage)) (v : Server)
      → v.phase ≡ looping
      → let done = run_atp_read_loop dec closes ms v.session in
        read_turns dec closes ms v
        ≡ (if done.1 then end_run (with_session done.0 v) else with_session done.0 v)
  unfolding read_turns run_atp_read_loop read_turn end_run
  read_turns-run_atp_read_loop [] v p = refl
  read_turns-run_atp_read_loop (none ∷ ms) v p = refl
  read_turns-run_atp_read_loop (some m ∷ ms) v p =
      let next = with_session (on_runtime_message_received dec closes m v.session).1 v in
      elim (Bool-cases (on_runtime_message_received dec closes m v.session).0) [
        | inl e ↦ rw e refl
        | inr e ↦ rw (e, ap is_closed p) (read_turns-run_atp_read_loop ms next p)
      ]

-- The process has panicked only if run has ended.
abbrev Timely : Server → Type 0
Timely v = v.crashed ≡ true → v.phase ≡ ended

module _ (dec : Decoder) (text_of : ServerErrorText → Bytes) where
  start_turn :
      (closes : Bool) (run : Bytes) (m : WorkStartMessage) (start : DecodedRuntimeMessage)
      (v : Server)
      → start.message_id ≡ 1
      → start.run_id ≡ run
      → dec.work_start start.raw_message_data ≡ some m
      → is_empty run ≡ false
      → is_empty m.step_id ≡ false
      → read_turn dec closes (some start) v
        ≡ with_session
            (record v.session {
              running_steps = insert run m.step_id v.session.running_steps;
              tasks = v.session.tasks ++ (step_task run m ∷ []);
            })
            v
  unfolding read_turn on_runtime_message_received handle_work_start_message
  start_turn closes run m start v e r d n k = rw (e, r, d) (rw (n, k) refl)

  done_turn :
      (closes : Bool) (done : DecodedRuntimeMessage) (v : Server)
      → done.message_id ≡ 4
      → ((read_turn dec closes (some done) v).phase ≡ ended)
        × ((read_turn dec closes (some done) v).session.tasks ≡ v.session.tasks)
        × ((read_turn dec closes (some done) v).crashed ≡ v.crashed)
  unfolding read_turn on_runtime_message_received end_run
  done_turn true done v f = rw f (refl, refl, refl)
  done_turn false done v f = rw f (refl, refl, refl)

  late_end :
      (t : Task) (o : TaskEnd t) (others : List Task) (v : Server)
      → v.phase ≡ ended
      → reports t o ≡ true
      → (end_task t o others v).crashed ≡ true
  unfolding end_task
  late_end t o others v p l = rw (p, l) refl

  early_end :
      (t : Task) (o : TaskEnd t) (others : List Task) (v : Server)
      → v.phase ≡ looping
      → (end_task t o others v).crashed ≡ v.crashed
  unfolding end_task
  early_end t o others v p = rw (ap is_closed p) refl

  -- Where run is in its loop, a step is started, and then the client says that it is done. If the step fails or panics
  -- before the second message is handled, the process does not panic; if it does so behind it, with the same goroutines
  -- running, the process panics. Both are steps that the server can take.
  pub late_failure-crashes :
      (closes : Bool) (run : Bytes) (m : WorkStartMessage) (start done : DecodedRuntimeMessage)
      (o : TaskEnd (step_task run m)) (v : Server)
      → v.phase ≡ looping
      → v.crashed ≡ false
      → start.message_id ≡ 1
      → start.run_id ≡ run
      → dec.work_start start.raw_message_data ≡ some m
      → is_empty run ≡ false
      → is_empty m.step_id ≡ false
      → done.message_id ≡ 4
      → reports (step_task run m) o ≡ true
      → let running = read_turn dec closes (some start) v in
        let over = read_turn dec closes (some done) running in
        let early = end_task (step_task run m) o (v.session.tasks ++ []) running in
        let late = end_task (step_task run m) o (v.session.tasks ++ []) over in
        ServerSteps dec text_of v early
        × (early.crashed ≡ false)
        × ServerSteps dec text_of v late
        × (late.crashed ≡ true)
  late_failure-crashes closes run m start done o v p c e r d n k f l =
      let first = start_turn closes run m start v e r d n k in
      let second = read_turn dec closes (some start) v in
      let third = read_turn dec closes (some done) second in
      let (over, same, alive) = done_turn closes done second f in
      let alive_second : second.crashed ≡ false = ap (λ w. w.crashed) first ∙ c in
      let looping_second : second.phase ≡ looping = ap (λ w. w.phase) first ∙ p in
      let running = ap (λ w. w.session.tasks) first in
      let started : ServerSteps dec text_of v second =
        then_step v _ stay (read closes (some start) v c p) in
      let others = v.session.tasks ++ [] in
      (
        then_step second _ started
            (end v.session.tasks (step_task run m) [] o second alive_second running),
        early_end (step_task run m) o others second looping_second ∙ alive_second,
        then_step third _
            (then_step second _ started
              (read closes (some done) second alive_second looping_second))
            (end v.session.tasks (step_task run m) [] o third (alive ∙ alive_second)
              (same ∙ running)),
        late_end (step_task run m) o others third over l,
      )
