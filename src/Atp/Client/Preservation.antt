-- ===== src/Atp/Client/Preservation.antt =====
-- atp/client.go: every step of the client keeps the table well formed.
use arcaflow_plugin_sdk_go.Common.{
  some_injective, none_not_some, pos, ltb_ℤ, Bytes, str_eq_iff, Bool, true, false, ◌∷◌, Option,
  none, some, ◌≡◌, refl, arith, subst, sym, ap, ◌∙◌, lookup, delete, lookup-delete, if◌then◌else◌,
  ◌&&◌,
}
use arcaflow_plugin_sdk_go.Go.Result.{ok_injective, ok}
use arcaflow_plugin_sdk_go.Atp.Protocol.{DecodedRuntimeMessage, Decoder}
use arcaflow_plugin_sdk_go.Atp.Client.{
  Client, ExecutionResult, Loop, idle, reading, checking, leaving, done_message, read_message,
  check_entries, leave_loop, take_result, get_result_v2, close, has_entries_remaining,
}
use arcaflow_plugin_sdk_go.Atp.Client.Turn.{is_idle, read_message-Turn}
use arcaflow_plugin_sdk_go.Atp.Client.Table.{WellFormed, Distinct-delete}
use arcaflow_plugin_sdk_go.Atp.Client.Events.{
  Step, prepare, receive, check, leave, collect, closing, Good,
}
use arcaflow_plugin_sdk_go.Atp.Client.Prepare.{Good-if, relabel, prepare-Good}

collected-WellFormed :
    (run : Bytes) (r : ExecutionResult) (c : Client)
    → lookup run c.result_entries ≡ some (some r)
    → WellFormed c
    → WellFormed (record c { result_entries = delete run c.result_entries })
collected-WellFormed run r c e wf = record {
  distinct = Distinct-delete run c.result_entries wf.distinct;
  opened = wf.opened;
  owned = wf.owned;
  pending = λ other k l.
      let p = wf.pending other k l in
      ground (arith, p, e, lookup-delete run other c.result_entries, str_eq_iff run other);
}

take-Good :
    (run : Bytes) (o : Option (Option ExecutionResult)) (r : ExecutionResult) (c c' : Client)
    → lookup run c.result_entries ≡ o
    → Good c
    → take_result run o c ≡ some (r, c')
    → Good c'
take-Good run none r c c' e g h = subst Good (ap (λ p. p.1) (some_injective h)) g
take-Good run (some none) r c c' e g h = elim (none_not_some h) [ ]
take-Good run (some (some q)) r c c' e g h =
    subst Good (ap (λ p. p.1) (some_injective h))
      (record { table = collected-WellFormed run q c e g.table; flag = g.flag })

collect-Good :
    (run : Bytes) (r : ExecutionResult) (c c' : Client)
    → Good c
    → get_result_v2 run c ≡ some (r, c')
    → Good c'
unfolding get_result_v2
collect-Good run r c c' g h = take-Good run (lookup run c.result_entries) r c c' refl g h

busy-flag :
    (b : Bool) (l : Loop) (running : Bool)
    → l ≡ checking
    → is_idle l ≡ (if running then false else true)
    → is_idle (if b then reading else leaving) ≡ (if running then false else true)
busy-flag true l running e h = sym (ap is_idle e) ∙ h
busy-flag false l running e h = sym (ap is_idle e) ∙ h

check-Good : (c : Client) → c.loop ≡ checking → Good c → Good (check_entries c)
unfolding check_entries
check-Good c e g =
    relabel c c.read_loop_running c.done
      (if has_entries_remaining c.result_entries then reading else leaving) c.output g.table
      (busy-flag _ c.loop c.read_loop_running e g.flag)

leave-Good : (c : Client) → Good c → Good (leave_loop c)
unfolding leave_loop
leave-Good c g = relabel c false c.done idle c.output g.table refl

close-Good : (writes : Bool) (c : Client) → Good c → Good (close writes c)
unfolding close
close-Good writes c g =
    Good-if c.done _ _ (λ e. g)
      λ e.
        Good-if (ltb_ℤ (pos 1) c.atp_version && writes) _ _
          (λ v. relabel c c.read_loop_running true c.loop (done_message ∷ c.output) g.table g.flag)
          (λ v. relabel c c.read_loop_running true c.loop c.output g.table g.flag)

receive-Good :
    (dec : Decoder) (m : Option DecodedRuntimeMessage) (c c' : Client)
    → c.loop ≡ reading
    → read_message dec m c ≡ ok c'
    → Good c
    → Good c'
receive-Good dec m c c' e h g =
    let (d, read, wf, running, settled, busy) = read_message-Turn dec m c g.table in
    subst Good (ok_injective (sym read ∙ h)) (record {
      table = wf;
      flag = busy ∙ sym (ap is_idle e) ∙ g.flag ∙ ap (λ b. if b then false else true) (sym running);
    })

-- Every step of the client keeps the table well formed, and the flag true exactly while there is a
-- read loop.
pub Step-Good : (dec : Decoder) (c c' : Client) → Step dec c c' → Good c → Good c'
Step-Good dec c c' (prepare run ch _ fresh) g = prepare-Good run ch c fresh g
Step-Good dec c c' (receive m _ _ e h) g = receive-Good dec m c c' e h g
Step-Good dec c c' (check _ e) g = check-Good c e g
Step-Good dec c c' (leave _ e) g = leave-Good c g
Step-Good dec c c' (collect run r _ _ h) g = collect-Good run r c c' g h
Step-Good dec c c' (closing writes _) g = close-Good writes c g
