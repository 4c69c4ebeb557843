-- ===== src/Atp/Client/Spec.antt =====
-- atp/client.go: what the client promises for its runs, without channels, flags and the read loop. A
-- run is unknown, waits for its result, or has one until Execute returns it.
use arcaflow_plugin_sdk_go.Common.{
  Bytes, str_eq, str_eq_iff, true, List, [], ◌∷◌, Option, none, some, ◌≡◌, ◌≢◌, refl, sym, ◌∙◌,
  subst, lookup, insert, has, lookup-insert, Bool-cases, inl, inr, if◌then◌else◌, is_some,
}
use arcaflow_plugin_sdk_go.Atp.Client.{
  Client, ExecutionResult, set_result, error_result, no_result_entry,
}
use arcaflow_plugin_sdk_go.Atp.Client.Broadcast.{all_with}

-- The status of each run.
abbrev pub Spec : Type 0
Spec = Bytes → Option (Option ExecutionResult)

-- Of one run, while no Execute starts or returns it: an unknown run stays unknown, a waiting one waits
-- or gets a result, and one with a result has a result.
abbrev pub Settles : Option (Option ExecutionResult) → Option (Option ExecutionResult) → Type 0
Settles none o = o ≡ none
Settles (some none) o = (r : Option ExecutionResult) × (o ≡ some r)
Settles (some (some r)) o = (q : ExecutionResult) × (o ≡ some (some q))

-- What can be seen of a step: an Execute starts, or returns a result; all else is internal.
pub data Label : Type 0 where
  starting : Bytes → Label
  returning : Bytes → ExecutionResult → Label
  internal : Label

pub data SpecStep : Label → Spec → Spec → Type 0 where
  starts :
      {s t : Spec} (run : Bytes)
      → s run ≡ none
      → t run ≡ some none
      → ((other : Bytes) → run ≢ other → t other ≡ s other)
      → SpecStep (starting run) s t
  -- the run is known already
  refuses :
      {s t : Spec} (run : Bytes) (known : Option ExecutionResult)
      → s run ≡ some known
      → ((other : Bytes) → t other ≡ s other)
      → SpecStep (starting run) s t
  settles : {s t : Spec} → ((run : Bytes) → Settles (s run) (t run)) → SpecStep internal s t
  returns :
      {s t : Spec} (run : Bytes) (r : ExecutionResult)
      → s run ≡ some (some r)
      → t run ≡ none
      → ((other : Bytes) → run ≢ other → t other ≡ s other)
      → SpecStep (returning run r) s t
  -- the run is not known
  misses :
      {s t : Spec} (run : Bytes)
      → s run ≡ none
      → ((other : Bytes) → t other ≡ s other)
      → SpecStep (returning run (error_result (no_result_entry run))) s t

abbrev pub view : Client → Spec
view c = λ run. lookup run c.result_entries

pub Settles-refl : (o : Option (Option ExecutionResult)) → Settles o o
Settles-refl none = refl
Settles-refl (some none) = (none, refl)
Settles-refl (some (some r)) = (r, refl)

Settles-known :
    (o : Option (Option ExecutionResult)) (r : ExecutionResult)
    → (p : Option ExecutionResult) × (o ≡ some p)
    → Settles o (some (some r))
Settles-known none r (p, e) = cc
Settles-known (some none) r h = (some r, refl)
Settles-known (some (some q)) r h = (r, refl)

pub has→known :
    (o : Option (Option ExecutionResult))
    → is_some o ≡ true
    → (p : Option ExecutionResult) × (o ≡ some p)
has→known none h = cc
has→known (some p) h = (p, refl)

-- An entry whose run is not this one, or which is known.
Settles-if :
    (run other : Bytes) (o p : Option (Option ExecutionResult)) (r : ExecutionResult)
    → o ≡ (if str_eq run other then some (some r) else p)
    → (str_eq run other ≡ true → (q : Option ExecutionResult) × (p ≡ some q))
    → Settles p o
Settles-if run other o p r e h = elim (Bool-cases (str_eq run other)) [
  | inl same ↦ subst (Settles p) (sym (e ∙ rw same refl)) (Settles-known p r (h same))
  | inr differs ↦ subst (Settles p) (sym (e ∙ rw differs refl)) (Settles-refl p)
]

pub set_result-Settles :
    (run : Bytes) (r : ExecutionResult) (es : List (Bytes × Option ExecutionResult)) (other : Bytes)
    → Settles (lookup other es) (lookup other (set_result run r es))
set_result-Settles run r es other = elim (Bool-cases (has run es)) [
  | inl known ↦ rw known (
      Settles-if run other (lookup other (insert run (some r) es)) (lookup other es) r
        (lookup-insert run other (some r) es)
        (λ same.
          subst (λ k. (q : Option ExecutionResult) × (lookup k es ≡ some q))
            ((str_eq_iff run other).0 same) (has→known (lookup run es) known)))
  | inr unknown ↦ rw unknown (Settles-refl (lookup other es))
]

pub all_with-Settles :
    (r : ExecutionResult) (es : List (Bytes × Option ExecutionResult)) (other : Bytes)
    → Settles (lookup other es) (lookup other (all_with r es))
unfolding lookup
all_with-Settles r [] other = refl
all_with-Settles r ((k, o) ∷ es) other = elim (Bool-cases (str_eq k other)) [
  | inl same ↦ rw same (Settles-known (some o) r (o, refl))
  | inr differs ↦ rw differs (all_with-Settles r es other)
]
