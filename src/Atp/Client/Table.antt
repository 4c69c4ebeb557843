-- ===== src/Atp/Client/Table.antt =====
-- atp/client.go: what the operations on the table of running steps keep, and what they send.
use arcaflow_plugin_sdk_go.Common.{
  none_not_some, ℕ, Bytes, str_eq, str_eq_iff, false, List, [], ◌∷◌, Option, none, some, ◌≡◌, refl,
  ◌≢◌, arith, subst, sym, ap, ◌∙◌, lookup, insert, delete, has, lookup-insert, lookup-delete,
  Bool-cases, inl, inr,
}
use arcaflow_plugin_sdk_go.Go.Result.{ok}
use arcaflow_plugin_sdk_go.Atp.Client.{
  Client, ExecutionResult, member, close_channel, send_execution_result, set_result,
}

abbrev pub Distinct : List (Bytes × Option ExecutionResult) → Type 0
Distinct [] = Unit
Distinct ((k, o) ∷ es) = (has k es ≡ false) × Distinct es

-- The keys of the table are distinct, as a map's are. Each open channel belongs to one running step, which has no result yet.
pub record WellFormed (c : Client) : Type 0 where
  pub distinct : Distinct c.result_entries
  pub opened :
      (run : Bytes) (ch : ℕ)
      → lookup run c.signal_channels ≡ some ch
      → member ch c.closed_channels ≡ false
  pub owned :
      (run other : Bytes) (ch : ℕ)
      → lookup run c.signal_channels ≡ some ch
      → lookup other c.signal_channels ≡ some ch
      → run ≡ other
  pub pending :
      (run : Bytes) (ch : ℕ)
      → lookup run c.signal_channels ≡ some ch
      → lookup run c.result_entries ≡ some none

lookup-set_result :
    (run other : Bytes) (r : ExecutionResult) (es : List (Bytes × Option ExecutionResult))
    → run ≢ other
    → lookup other (set_result run r es) ≡ lookup other es
lookup-set_result run other r es d =
    ground (arith, lookup-insert run other (some r) es, str_eq_iff run other)

pub Distinct-insert :
    (run : Bytes) (o : Option ExecutionResult) (es : List (Bytes × Option ExecutionResult))
    → Distinct es
    → Distinct (insert run o es)
unfolding insert lookup
Distinct-insert run o [] h = (refl, tt)
Distinct-insert run o ((k, p) ∷ es) h = elim (Bool-cases (str_eq k run)) [
  | inl e ↦ rw e (subst (λ x. has x es ≡ false) ((str_eq_iff k run).0 e) h.0, h.1)
  | inr e ↦ rw e (
    ground (arith, lookup-insert run k o es, str_eq_iff run k, str_eq_iff k run),
    Distinct-insert run o es h.1,
  )
]

pub Distinct-delete :
    (run : Bytes) (es : List (Bytes × Option ExecutionResult))
    → Distinct es
    → Distinct (delete run es)
unfolding delete lookup
Distinct-delete run [] h = tt
Distinct-delete run ((k, p) ∷ es) h = elim (Bool-cases (str_eq k run)) [
  | inl e ↦ rw e (Distinct-delete run es h.1)
  | inr e ↦ rw e (ground (arith, lookup-delete run k es), Distinct-delete run es h.1)
]

Distinct-set_result :
    (run : Bytes) (r : ExecutionResult) (es : List (Bytes × Option ExecutionResult))
    → Distinct es
    → Distinct (set_result run r es)
Distinct-set_result run r es h = elim (Bool-cases (has run es)) [
  | inl e ↦ rw e (Distinct-insert run (some r) es h)
  | inr e ↦ rw e h
]

closed_member :
    (ch other : ℕ) (closed : List ℕ)
    → ch ≢ other
    → member other closed ≡ false
    → member other (ch ∷ closed) ≡ false
unfolding member
closed_member ch other closed d h = ground arith

deleted :
    {V : Type 0} (run other : Bytes) (m : List (Bytes × V)) (v : V)
    → lookup other (delete run m) ≡ some v
    → (run ≢ other) × (lookup other m ≡ some v)
deleted run other m v h = ground (arith, lookup-delete run other m, str_eq_iff run other)

-- What the results of `c` and the state after it have in common.
pub record Kept (c c' : Client) (es : List (Bytes × Option ExecutionResult)) : Type 0 where
  pub well_formed : WellFormed c'
  pub entries_are : c'.result_entries ≡ es
  pub same_running : c'.read_loop_running ≡ c.read_loop_running

close_channel-Kept :
    (run : Bytes) (r : ExecutionResult) (o : Option ℕ) (c : Client)
    → lookup run c.signal_channels ≡ o
    → WellFormed c
    → let es = set_result run r c.result_entries in
      (c' : Client) × (close_channel run o (record c { result_entries = es }) ≡ ok c')
      × Kept c c' es
unfolding close_channel
close_channel-Kept run r none c e wf = (
  record c { result_entries = set_result run r c.result_entries },
  refl,
  record {
    well_formed = record {
      distinct = Distinct-set_result run r c.result_entries wf.distinct;
      opened = wf.opened;
      owned = wf.owned;
      pending = λ other ch h.
          lookup-set_result run other r c.result_entries
            (λ p. none_not_some (sym e ∙ ap (λ x. lookup x c.signal_channels) p ∙ h))
          ∙ wf.pending other ch h;
    };
    entries_are = refl;
    same_running = refl;
  },
)
close_channel-Kept run r (some ch) c e wf = (
  record c {
    result_entries = set_result run r c.result_entries;
    signal_channels = delete run c.signal_channels;
    closed_channels = ch ∷ c.closed_channels;
  },
  rw (wf.opened run ch e),
  record {
    well_formed = record {
      distinct = Distinct-set_result run r c.result_entries wf.distinct;
      opened = λ other k h.
          let (d, l) = deleted run other c.signal_channels k h in
          closed_member ch k c.closed_channels
            (λ p.
              d (wf.owned run other k (subst (λ x. lookup run c.signal_channels ≡ some x) p e) l))
            (wf.opened other k l);
      owned = λ a b k h i.
          wf.owned a b k (deleted run a c.signal_channels k h).1
            (deleted run b c.signal_channels k i).1;
      pending = λ other k h.
          let (d, l) = deleted run other c.signal_channels k h in
          lookup-set_result run other r c.result_entries d ∙ wf.pending other k l;
    };
    entries_are = refl;
    same_running = refl;
  },
)

-- Sending a result neither panics nor breaks the table; it touches the entry of its run only.
pub send_execution_result-Kept :
    (run : Bytes) (r : ExecutionResult) (c : Client)
    → WellFormed c
    → (c' : Client) × (send_execution_result run r c ≡ ok c')
      × Kept c c' (set_result run r c.result_entries)
unfolding send_execution_result
send_execution_result-Kept run r c wf =
    close_channel-Kept run r (lookup run c.signal_channels) c refl wf
