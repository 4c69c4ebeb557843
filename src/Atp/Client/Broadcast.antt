-- ===== src/Atp/Client/Broadcast.antt =====
-- atp/client.go, sendErrorToAll: what it stores, and that the table keeps its form.
use arcaflow_plugin_sdk_go.Common.{
  Bytes, str_eq_iff, false, List, [], ◌∷◌, Option, some, ◌≡◌, refl, ◌≢◌, arith, ap, ◌∙◌, lookup,
  insert, has,
}
use arcaflow_plugin_sdk_go.Go.Result.{ok}
use arcaflow_plugin_sdk_go.Atp.Client.{
  Client, ExecutionResult, ClientError, send_to, send_error_to_all, set_result, keys,
  has_entries_remaining, error_result,
}
use arcaflow_plugin_sdk_go.Atp.Client.Table.{Distinct, Kept, WellFormed, send_execution_result-Kept}

abbrev pub set_results :
    List Bytes
    → ExecutionResult
    → List (Bytes × Option ExecutionResult)
    → List (Bytes × Option ExecutionResult)
set_results [] r es = es
set_results (run ∷ runs) r es = set_results runs r (set_result run r es)

send_to-Kept :
    (runs : List Bytes) (r : ExecutionResult) (c : Client)
    → WellFormed c
    → (c' : Client) × (send_to runs r c ≡ ok c') × Kept c c' (set_results runs r c.result_entries)
unfolding send_to
send_to-Kept [] r c wf =
    (c, refl, record { well_formed = wf; entries_are = refl; same_running = refl })
send_to-Kept (run ∷ runs) r c wf =
    let (d, sent, k) = send_execution_result-Kept run r c wf in
    let (c', rest, k') = send_to-Kept runs r d k.well_formed in
    (
      c',
      rw sent rest,
      record {
        well_formed = k'.well_formed;
        entries_are = k'.entries_are ∙ ap (set_results runs r) k.entries_are;
        same_running = k'.same_running ∙ k.same_running;
      },
    )

-- The entries with a result for the first of them.
set_result-first :
    (run : Bytes) (r : ExecutionResult) (o : Option ExecutionResult)
    (es : List (Bytes × Option ExecutionResult))
    → set_result run r ((run, o) ∷ es) ≡ (run, some r) ∷ es
unfolding lookup insert
set_result-first run r o es = ground (arith, str_eq_iff run run)

set_result-rest :
    (run k : Bytes) (r : ExecutionResult) (o : Option ExecutionResult)
    (es : List (Bytes × Option ExecutionResult))
    → k ≢ run
    → set_result run r ((k, o) ∷ es) ≡ (k, o) ∷ set_result run r es
unfolding lookup insert
set_result-rest run k r o es d = ground (arith, str_eq_iff k run)

set_results-rest :
    (k : Bytes) (r : ExecutionResult) (o : Option ExecutionResult)
    (ms es : List (Bytes × Option ExecutionResult))
    → has k ms ≡ false
    → set_results (keys ms) r ((k, o) ∷ es) ≡ (k, o) ∷ set_results (keys ms) r es
unfolding lookup
set_results-rest k r o [] es h = refl
set_results-rest k r o ((j, p) ∷ ms) es h =
    let d : k ≢ j = ground (arith, str_eq_iff j k) in
    ap (set_results (keys ms) r) (set_result-rest j k r o es d)
    ∙ set_results-rest k r o ms (set_result j r es) (ground arith)

-- Every entry with this result.
abbrev pub all_with :
    ExecutionResult → List (Bytes × Option ExecutionResult) → List (Bytes × Option ExecutionResult)
all_with r [] = []
all_with r ((k, o) ∷ es) = (k, some r) ∷ all_with r es

set_results-all :
    (r : ExecutionResult) (es : List (Bytes × Option ExecutionResult))
    → Distinct es
    → set_results (keys es) r es ≡ all_with r es
set_results-all r [] h = refl
set_results-all r ((k, o) ∷ es) h =
    ap (set_results (keys es) r) (set_result-first k r o es)
    ∙ set_results-rest k r (some r) es es h.0
    ∙ ap (λ x. (k, some r) ∷ x) (set_results-all r es h.1)

-- sendErrorToAll neither panics nor breaks a well-formed table, and it leaves its error as the result
-- of every running step.
pub send_error_to_all-Kept :
    (e : ClientError) (c : Client)
    → WellFormed c
    → (c' : Client) × (send_error_to_all e c ≡ ok c')
      × Kept c c' (all_with (error_result e) c.result_entries)
unfolding send_error_to_all
send_error_to_all-Kept e c wf =
    let (c', sent, k) = send_to-Kept (keys c.result_entries) (error_result e) c wf in
    (
      c',
      sent,
      record {
        well_formed = k.well_formed;
        entries_are = k.entries_are ∙ set_results-all (error_result e) c.result_entries wf.distinct;
        same_running = k.same_running;
      },
    )

pub has_entries_remaining-all_with :
    (r : ExecutionResult) (es : List (Bytes × Option ExecutionResult))
    → has_entries_remaining (all_with r es) ≡ false
unfolding has_entries_remaining
has_entries_remaining-all_with r [] = refl
has_entries_remaining-all_with r ((k, o) ∷ es) = has_entries_remaining-all_with r es
