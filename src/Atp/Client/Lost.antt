-- ===== src/Atp/Client/Lost.antt =====
-- atp/client.go: a run that waits for its result in Execute while no read loop is running.
use arcaflow_plugin_sdk_go.Common.{
  none_not_some, Bytes, str_eq_iff, Bool, true, false, ap, ◌∙◌, if◌then◌else◌, ◌&&◌, pos, ltb_ℤ,
  Option, none, some, some_injective, ◌≡◌, refl, arith, subst, sym, lookup, lookup-delete,
}
use arcaflow_plugin_sdk_go.Atp.Protocol.{Decoder}
use arcaflow_plugin_sdk_go.Atp.Client.{
  Client, Loop, idle, ExecutionResult, get_result_v2, take_result, close,
}
use arcaflow_plugin_sdk_go.Atp.Client.Events.{
  Step, prepare, receive, check, leave, collect, closing,
}

-- The run has an entry without a result, and there is no read loop to give it one.
pub record Lost (run : Bytes) (c : Client) : Type 0 where
  pub no_loop : c.loop ≡ idle
  pub waits : lookup run c.result_entries ≡ some none

-- Whether a step of the client is the start of an Execute.
abbrev pub is_start : {dec : Decoder} {c c' : Client} → Step dec c c' → Bool
is_start (prepare run ch c fresh) = true
is_start (receive m c c' e h) = false
is_start (check c e) = false
is_start (leave c e) = false
is_start (collect run r c c' h) = false
is_start (closing writes c) = false

-- What the client does until the next start of an Execute.
pub data LaterSteps (dec : Decoder) (c : Client) : Client → Type 0 where
  stay : LaterSteps dec c c
  then_step :
      (v w : Client)
      → LaterSteps dec c v
      → (s : Step dec v w) → is_start s ≡ false
      → LaterSteps dec c w

Lost-if :
    {run : Bytes} (b : Bool) (c d : Client)
    → Lost run c
    → Lost run d
    → Lost run (if b then c else d)
Lost-if true c d h k = h
Lost-if false c d h k = k

taken-Lost :
    (run other : Bytes) (o : Option (Option ExecutionResult)) (r : ExecutionResult) (c c' : Client)
    → lookup other c.result_entries ≡ o
    → Lost run c
    → take_result other o c ≡ some (r, c')
    → Lost run c'
taken-Lost run other none r c c' e l h = subst (Lost run) (ap (λ p. p.1) (some_injective h)) l
taken-Lost run other (some none) r c c' e l h = elim (none_not_some h) [ ]
taken-Lost run other (some (some q)) r c c' e l h =
    subst (Lost run) (ap (λ p. p.1) (some_injective h)) (record {
      no_loop = l.no_loop;
      waits =
          ground
            (arith, l.waits, e, lookup-delete other run c.result_entries, str_eq_iff other run);
    })

close-Lost : (run : Bytes) (writes : Bool) (c : Client) → Lost run c → Lost run (close writes c)
unfolding close
close-Lost run writes c l = Lost-if c.done _ _ l (
    Lost-if (ltb_ℤ (pos 1) c.atp_version && writes) _ _
      (record { no_loop = l.no_loop; waits = l.waits })
      (record { no_loop = l.no_loop; waits = l.waits }))

Step-Lost :
    (dec : Decoder) (run : Bytes) (c c' : Client) (s : Step dec c c')
    → is_start s ≡ false
    → Lost run c
    → Lost run c'
unfolding get_result_v2
Step-Lost dec run _ _ (prepare other ch c fresh) n l = cc
Step-Lost dec run c c' (receive m _ _ e h) n l = absurd (reads (sym l.no_loop ∙ e))
  where
    reads : idle ≡ Loop.reading → ⊥
    reads e = cc
Step-Lost dec run c _ (check _ e) n l = absurd (checks (sym l.no_loop ∙ e))
  where
    checks : idle ≡ Loop.checking → ⊥
    checks e = cc
Step-Lost dec run c _ (leave _ e) n l = absurd (leaves (sym l.no_loop ∙ e))
  where
    leaves : idle ≡ Loop.leaving → ⊥
    leaves e = cc
Step-Lost dec run c c' (collect other r _ _ h) n l =
    taken-Lost run other (lookup other c.result_entries) r c c' refl l h
Step-Lost dec run c _ (closing writes _) n l = close-Lost run writes c l

-- A lost run stays lost until an Execute starts.
pub LaterSteps-Lost :
    (dec : Decoder) (run : Bytes) (c w : Client) → Lost run c → LaterSteps dec c w → Lost run w
LaterSteps-Lost dec run c _ l stay = l
LaterSteps-Lost dec run c w l (then_step v _ vs s n) =
    Step-Lost dec run v w s n (LaterSteps-Lost dec run c v l vs)

-- Execute of a lost run does not return.
pub get_result_v2-Lost : (run : Bytes) (c : Client) → Lost run c → get_result_v2 run c ≡ none
unfolding get_result_v2
get_result_v2-Lost run c l = ap (λ o. take_result run o c) l.waits
