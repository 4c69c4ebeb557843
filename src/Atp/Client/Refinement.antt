-- ===== src/Atp/Client/Refinement.antt =====
-- atp/client.go: the client does what its specification allows.
use arcaflow_plugin_sdk_go.Common.{
  Bytes, str_eq_iff, Bool, true, false, pos, ltb_ℤ, List, Option, none, some, none_not_some,
  some_injective, ◌≡◌, refl, sym, ap, ◌∙◌, arith, subst, lookup, insert, delete, has, is_some,
  lookup-insert, lookup-delete, Bool-cases, inl, inr, if◌then◌else◌, ◌&&◌, ℕ,
}
use arcaflow_plugin_sdk_go.Go.Result.{ok_injective}
use arcaflow_plugin_sdk_go.Atp.Protocol.{Decoder}
use arcaflow_plugin_sdk_go.Atp.Client.{
  Client, ExecutionResult, prepare_result_channels, start_loop, check_entries, leave_loop, close,
  get_result_v2, take_result, add_channel,
}
use arcaflow_plugin_sdk_go.Atp.Client.Spec.{
  SpecStep, starts, settles, returns, Label, starting, returning, internal, refuses, misses,
  has→known, view, Settles, Settles-refl,
}
use arcaflow_plugin_sdk_go.Atp.Client.Turn.{read_message-Turn}
use arcaflow_plugin_sdk_go.Atp.Client.Events.{
  Step, prepare, receive, check, leave, collect, closing,
}
use arcaflow_plugin_sdk_go.Atp.Client.Reachability.{Reachable, Reachable-Good}

-- A state with the same entries.
same_entries :
    (c d : Client) → d.result_entries ≡ c.result_entries → SpecStep internal (view c) (view d)
same_entries c d e =
    settles
      λ run. subst (λ es. Settles (view c run) (lookup run es)) (sym e) (Settles-refl (view c run))

not_known : (o : Option (Option ExecutionResult)) → is_some o ≡ false → o ≡ none
not_known none h = refl
not_known (some p) h = cc

entries-if :
    (b : Bool) (x y : Client) {es : List (Bytes × Option ExecutionResult)}
    → x.result_entries ≡ es
    → y.result_entries ≡ es
    → (if b then x else y).result_entries ≡ es
entries-if true x y h k = h
entries-if false x y h k = k

start_loop-entries : (c : Client) → (start_loop c).result_entries ≡ c.result_entries
unfolding start_loop
start_loop-entries c = entries-if c.read_loop_running _ _ refl refl

inserted :
    (run : Bytes) (c d : Client)
    → lookup run c.result_entries ≡ none
    → d.result_entries ≡ insert run none c.result_entries
    → SpecStep (starting run) (view c) (view d)
inserted run c d e h =
    starts run e
      (ap (lookup run) h
        ∙ ground (arith, lookup-insert run run none c.result_entries, str_eq_iff run run))
      λ other differs.
        ap (lookup other) h
        ∙ ground (arith, lookup-insert run other none c.result_entries, str_eq_iff run other)

prepare-refines :
    (run : Bytes) (ch : Option ℕ) (c : Client)
    → SpecStep (starting run) (view c) (view (prepare_result_channels run ch c).1)
unfolding prepare_result_channels
prepare-refines run ch c = elim (Bool-cases (has run c.result_entries)) [
  | inl known ↦
      let entry = has→known (lookup run c.result_entries) known in
      rw known (refuses run entry.0 entry.1 (λ other. refl))
  | inr unknown ↦
      let added : Client = record c {
        result_entries = insert run none c.result_entries;
        signal_channels = add_channel run ch c.signal_channels;
      } in
      rw unknown (
        inserted run c (start_loop added) (not_known (lookup run c.result_entries) unknown)
          (start_loop-entries added))
]

collect-refines :
    (run : Bytes) (o : Option (Option ExecutionResult)) (r : ExecutionResult) (c c' : Client)
    → lookup run c.result_entries ≡ o
    → take_result run o c ≡ some (r, c')
    → SpecStep (returning run r) (view c) (view c')
collect-refines run none r c c' e h =
    let entries = ap (λ p. p.1.result_entries) (sym (some_injective h)) in
    subst (λ q. SpecStep (returning run q) (view c) (view c')) (ap (λ p. p.0) (some_injective h))
      (misses run e (λ other. ap (lookup other) entries))
collect-refines run (some none) r c c' e h = elim (none_not_some h) [ ]
collect-refines run (some (some q)) r c c' e h =
    let same : c'.result_entries ≡ delete run c.result_entries =
      ap (λ p. p.1.result_entries) (sym (some_injective h)) in
    subst (λ x. SpecStep (returning run x) (view c) (view c')) (ap (λ p. p.0) (some_injective h))
      (returns run q e
        (ap (lookup run) same
          ∙ ground (arith, lookup-delete run run c.result_entries, str_eq_iff run run))
        λ other differs.
          ap (lookup other) same
          ∙ ground (arith, lookup-delete run other c.result_entries, str_eq_iff run other))

close-refines : (writes : Bool) (c : Client) → (close writes c).result_entries ≡ c.result_entries
unfolding close
close-refines writes c =
    entries-if c.done _ _ refl (entries-if (ltb_ℤ (pos 1) c.atp_version && writes) _ _ refl refl)

unfoldable pub label : {dec : Decoder} {c c' : Client} → Step dec c c' → Label
label (prepare run ch c fresh) = starting run
label (receive m c c' e h) = internal
label (check c e) = internal
label (leave c e) = internal
label (collect run r c c' h) = returning run r
label (closing writes c) = internal

-- The client refines its specification: from a state that a new client reaches, each step changes the
-- status of the runs as the specification allows. The start of Execute adds a waiting run, or nothing
-- where the run is known; its end removes the run with the result that it returns, or says that the
-- run is not known; a message, the read loop's end or Close neither adds nor removes a run,
-- and takes no result away.
pub Step-refines :
    (dec : Decoder) (c c' : Client)
    → Reachable dec c
    → (s : Step dec c c') → SpecStep (label s) (view c) (view c')
unfolding check_entries leave_loop get_result_v2 label
Step-refines dec c c' h (prepare run ch _ fresh) = prepare-refines run ch c
Step-refines dec c c' h (receive m _ _ e read) =
    let (d, done, wf, running, settled, busy) =
      read_message-Turn dec m c (Reachable-Good dec c h).table in
    subst (λ x. SpecStep internal (view c) (view x)) (ok_injective (sym done ∙ read))
      (settles settled)
Step-refines dec c c' h (check _ e) = same_entries c c' refl
Step-refines dec c c' h (leave _ e) = same_entries c c' refl
Step-refines dec c c' h (collect run r _ _ g) =
    collect-refines run (lookup run c.result_entries) r c c' refl g
Step-refines dec c c' h (closing writes _) =
    same_entries c (close writes c) (close-refines writes c)
