-- ===== src/Atp/Client/Prepare.antt =====
-- atp/client.go: the start of Execute keeps the table well formed.
use arcaflow_plugin_sdk_go.Common.{
  some_injective, ℕ, Bytes, str_eq_iff, Bool, true, false, List, Option, none, some, ◌≡◌, refl, ◌≢◌,
  ◌⊎◌, arith, subst, sym, ◌∙◌, lookup, insert, has, lookup-insert, Bool-cases, inl, inr,
  if◌then◌else◌,
}
use arcaflow_plugin_sdk_go.Atp.Protocol.{RuntimeMessage}
use arcaflow_plugin_sdk_go.Atp.Client.{
  Client, ExecutionResult, Loop, reading, member, add_channel, prepare_result_channels, start_loop,
}
use arcaflow_plugin_sdk_go.Atp.Client.Turn.{is_idle}
use arcaflow_plugin_sdk_go.Atp.Client.Table.{WellFormed, Distinct-insert}
use arcaflow_plugin_sdk_go.Atp.Client.Events.{FreshChannel, Good}

added :
    (run other : Bytes) (ch : Option ℕ) (k : ℕ) (cs : List (Bytes × ℕ))
    → lookup other (add_channel run ch cs) ≡ some k
    → ((run ≡ other) × (ch ≡ some k)) ⊎ (lookup other cs ≡ some k)
added run other none k cs h = inr h
added run other (some ch) k cs h =
    ground (arith, lookup-insert run other ch cs, str_eq_iff run other)

fresh-opened :
    (ch : Option ℕ) (k : ℕ) (c : Client)
    → FreshChannel ch c
    → ch ≡ some k
    → member k c.closed_channels ≡ false
fresh-opened none k c f e = cc
fresh-opened (some j) k c f e =
    subst (λ x. member x c.closed_channels ≡ false) (some_injective e) f.0

fresh-unowned :
    (ch : Option ℕ) (k : ℕ) (run : Bytes) (c : Client)
    → FreshChannel ch c
    → ch ≡ some k
    → lookup run c.signal_channels ≢ some k
fresh-unowned none k run c f e = cc
fresh-unowned (some j) k run c f e = λ h. f.1 run (h ∙ sym e)

lookup-inserted :
    (run other : Bytes) (es : List (Bytes × Option ExecutionResult))
    → (run ≡ other) ⊎ (lookup other es ≡ some none)
    → lookup other (insert run none es) ≡ some none
lookup-inserted run other es h =
    ground (arith, lookup-insert run other none es, str_eq_iff run other)

module _ (run : Bytes) (ch : Option ℕ) (c : Client) (fresh : FreshChannel ch c)
    (wf : WellFormed c) where
  added-opened :
      (other : Bytes) (k : ℕ)
      → lookup other (add_channel run ch c.signal_channels) ≡ some k
      → member k c.closed_channels ≡ false
  added-opened other k h = elim (added run other ch k c.signal_channels h) [
    | inl a ↦ fresh-opened ch k c fresh a.1
    | inr l ↦ wf.opened other k l
  ]

  added-owned :
      (a b : Bytes) (k : ℕ)
      → lookup a (add_channel run ch c.signal_channels) ≡ some k
      → lookup b (add_channel run ch c.signal_channels) ≡ some k
      → a ≡ b
  added-owned a b k h i = elim (added run a ch k c.signal_channels h) [
    | inl x ↦ elim (added run b ch k c.signal_channels i) [
      | inl y ↦ sym x.0 ∙ y.0
      | inr y ↦ elim (fresh-unowned ch k b c fresh x.1 y) [ ]
    ]
    | inr x ↦ elim (added run b ch k c.signal_channels i) [
      | inl y ↦ elim (fresh-unowned ch k a c fresh y.1 x) [ ]
      | inr y ↦ wf.owned a b k x y
    ]
  ]

  added-pending :
      (other : Bytes) (k : ℕ)
      → lookup other (add_channel run ch c.signal_channels) ≡ some k
      → lookup other (insert run none c.result_entries) ≡ some none
  added-pending other k h = elim (added run other ch k c.signal_channels h) [
    | inl a ↦ lookup-inserted run other c.result_entries (inl a.0)
    | inr l ↦ lookup-inserted run other c.result_entries (inr (wf.pending other k l))
  ]

  prepared-WellFormed : WellFormed (record c {
    result_entries = insert run none c.result_entries;
    signal_channels = add_channel run ch c.signal_channels;
  })
  prepared-WellFormed = record {
    distinct = Distinct-insert run none c.result_entries wf.distinct;
    opened = added-opened;
    owned = added-owned;
    pending = added-pending;
  }

pub Good-if :
    (b : Bool) (x y : Client)
    → (b ≡ true → Good x)
    → (b ≡ false → Good y)
    → Good (if b then x else y)
Good-if true x y h k = h refl
Good-if false x y h k = k refl

-- A state with the same table.
abbrev pub with_same_table : Client → Bool → Bool → Loop → List RuntimeMessage → Client
with_same_table c running done l out = record c {
  read_loop_running = running;
  done = done;
  loop = l;
  output = out;
}

pub relabel :
    (c : Client) (running done : Bool) (l : Loop) (out : List RuntimeMessage)
    → WellFormed c
    → is_idle l ≡ (if running then false else true)
    → Good (with_same_table c running done l out)
relabel c running done l out wf e = record {
  table = record {
    distinct = wf.distinct;
    opened = wf.opened;
    owned = wf.owned;
    pending = wf.pending;
  };
  flag = e;
}

start_loop-Good :
    (c : Client)
    → WellFormed c
    → is_idle c.loop ≡ (if c.read_loop_running then false else true)
    → Good (start_loop c)
unfolding start_loop
start_loop-Good c wf e =
    Good-if c.read_loop_running _ _ (λ r. record { table = wf; flag = e })
      (λ r. relabel c true c.done reading c.output wf refl)

pub prepare-Good :
    (run : Bytes) (ch : Option ℕ) (c : Client)
    → FreshChannel ch c
    → Good c
    → Good (prepare_result_channels run ch c).1
unfolding prepare_result_channels
prepare-Good run ch c fresh g = elim (Bool-cases (has run c.result_entries)) [
  | inl e ↦ rw e g
  | inr e ↦ rw e (start_loop-Good _ (prepared-WellFormed run ch c fresh g.table) g.flag)
]
