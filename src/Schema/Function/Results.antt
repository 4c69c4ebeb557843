-- ===== src/Schema/Function/Results.antt =====
-- schema/function.go: the values that a Go function of a type takes and returns, and what a call makes of
-- them.
use arcaflow_plugin_sdk_go.Common.{
  ◌+◌, Bool, true, false, not, ◌&&◌, ◌||◌, List, [], ◌∷◌, All, length, Option, none, some, is_some,
  ◌==◌, &&-eq-true, ◌≡◌, refl, sym, ◌∙◌, arith,
}
use arcaflow_plugin_sdk_go.Go.Value.{Value, GoType, any_type, type_of, type_eq, type_eq→eq}
use arcaflow_plugin_sdk_go.Go.Result.{ok, ◌>>◌, >>=-eq-ok, ok_injective}
use arcaflow_plugin_sdk_go.Schema.Types.{Schema, Store, reflected_type}
use arcaflow_plugin_sdk_go.Schema.Function.{
  ReturnType, value_type, error_type, local_error, Returned, value, error_value, local_value,
  is_error_name, same_type, require, check_input_types, check_output_type, count, last_is_error,
}
use arcaflow_plugin_sdk_go.Schema.Function.Call.{
  Called, nothing, result, reported, misuse, panicked, assignable, after_check, all_assignable,
  check_error, take_results,
}

-- A returned value of this type, as Go's type checker has it. An interface holds anything.
unfoldable pub conforms : ReturnType → Returned → Bool
unfolding type_eq
conforms (value_type any_type) r = true
conforms (value_type t) (value v) = elim (type_of v) [ none ↦ false | some s ↦ type_eq s t ]
conforms (value_type t) r = false
conforms error_type (error_value e) = true
conforms error_type r = false
conforms (local_error i) (local_value n) = true
conforms (local_error i) r = false

unfoldable pub all_conform : List ReturnType → List Returned → Bool
unfolding conforms
all_conform [] [] = true
all_conform (t ∷ ts) (r ∷ rs) = conforms t r && all_conform ts rs
all_conform _ _ = false

-- No result has a type of the program's own with the name "error".
abbrev pub PlainError : ReturnType → Type 0
PlainError (local_error i) = ⊥
PlainError t = Unit

-- A value for each input, of the type that the input's schema reflects.
abbrev pub Fitting : Store → List Schema → List Value → Type 0
Fitting store [] [] = Unit
Fitting store (s ∷ ss) (v ∷ vs) =
    ((t : GoType) × (reflected_type store s ≡ ok t) × (assignable v t ≡ true)) × Fitting store ss vs
Fitting store _ _ = ⊥

-- What a call may give: a result of the output's reflected type, nothing where there is no output, and
-- an error of the function's only where the schema allows one.
unfoldable pub Delivers : Store → Option Schema → Bool → Called → Type 0
unfolding conforms
Delivers store output errors nothing = output ≡ none
Delivers store output errors (result r) =
    (s : Schema) × (t : GoType) × (output ≡ some s)
    × (reflected_type store s ≡ ok t)
    × (conforms (value_type t) r ≡ true)
Delivers store output errors (reported e) = errors ≡ true
Delivers store output errors misuse = ⊥
Delivers store output errors panicked = ⊥

pub require-eq-ok : (b : Bool) → require b ≡ ok tt → b ≡ true
require-eq-ok true h = refl
require-eq-ok false h = cc

module _ (store : Store) where
  pub all_assignable-Fitting :
      (ss : List Schema) (ts : List GoType) (vs : List Value)
      → length ss ≡ length ts
      → check_input_types store ss ts ≡ ok tt
      → Fitting store ss vs
      → all_assignable vs ts ≡ true
  unfolding check_input_types all_assignable
  all_assignable-Fitting [] [] [] e h f = refl
  all_assignable-Fitting [] [] (v ∷ vs) e h f = absurd f
  all_assignable-Fitting [] (t ∷ ts) vs e h f = absurd (omega (arith, e))
  all_assignable-Fitting (s ∷ ss) [] vs e h f = absurd (omega (arith, e))
  all_assignable-Fitting (s ∷ ss) (t ∷ ts) [] e h f = absurd f
  all_assignable-Fitting (s ∷ ss) (t ∷ ts) (v ∷ vs) e h ((u, reflects, assigned), f) =
      let first =
        >>=-eq-ok (reflected_type store s)
          (λ expected. require (type_eq expected t) >> check_input_types store ss ts) h in
      let second =
        >>=-eq-ok (require (type_eq (first.0) t)) (λ x. check_input_types store ss ts) (first.2) in
      let same : u ≡ t =
        ok_injective (sym reflects ∙ first.1)
        ∙ type_eq→eq (first.0) t (require-eq-ok (type_eq (first.0) t) (second.1)) in
      rw (sym same, assigned) (all_assignable-Fitting ss ts vs (omega (arith, e)) (second.2) f)

  output_place :
      (s : Schema) (errors : Bool) (t : ReturnType) (ts : List ReturnType) (r : Returned)
      → check_output_type store (some s) (t ∷ ts) ≡ ok tt
      → conforms t r ≡ true
      → Delivers store (some s) errors (result r)
  unfolding check_output_type same_type Delivers
  output_place s errors t ts r h c =
      let first =
        >>=-eq-ok (reflected_type store s) (λ expected. require (same_type expected t)) h in
      (
        s,
        first.0,
        refl,
        first.1,
        same_place (first.0) t (require-eq-ok (same_type (first.0) t) (first.2)) c,
      )
    where
      same_place :
          (u : GoType) (t : ReturnType)
          → same_type u t ≡ true
          → conforms t r ≡ true
          → conforms (value_type u) r ≡ true
      same_place u (value_type v) e c = rw (type_eq→eq u v e) c
      same_place u error_type e c = cc
      same_place u (local_error i) e c = cc

  error_place :
      (out : Option Schema) (u : ReturnType) (e : Returned) (c : Called)
      → is_error_name u ≡ true
      → PlainError u
      → conforms u e ≡ true
      → Delivers store out true c
      → Delivers store out true (after_check (check_error u e) c)
  unfolding is_error_name conforms check_error Delivers
  error_place out (value_type t) e c h p k d = cc
  error_place out (local_error i) e c h p k d = absurd p
  error_place out error_type (error_value none) c h p k d = d
  error_place out error_type (error_value (some e)) c h p k d = refl
  error_place out error_type (value v) c h p k d = cc
  error_place out error_type (local_value n) c h p k d = cc

  pub take_results-Delivers :
      (out : Option Schema) (errors : Bool) (ts : List ReturnType) (rs : List Returned)
      → (count (is_some out) + count errors == length ts) ≡ true
      → (not errors || last_is_error ts) ≡ true
      → check_output_type store out ts ≡ ok tt
      → All PlainError ts
      → all_conform ts rs ≡ true
      → Delivers store out errors (take_results (is_some out) ts rs)
  unfolding take_results all_conform
  take_results-Delivers none false [] [] n l o p c = unfold Delivers in refl
  take_results-Delivers none true (t ∷ []) (r ∷ []) n l o p c =
      error_place none t r nothing l (p.0) ((&&-eq-true (conforms t r) true c).0)
        (unfold Delivers in refl)
  take_results-Delivers (some s) false (t ∷ []) (r ∷ []) n l o p c =
      output_place s false t [] r o ((&&-eq-true (conforms t r) true c).0)
  take_results-Delivers (some s) true (t ∷ u ∷ []) (r ∷ e ∷ []) n l o p c =
      let both = &&-eq-true (conforms t r) (conforms u e && true) c in
      error_place (some s) u e (result r) l (p.1.0) ((&&-eq-true (conforms u e) true (both.1)).0)
        (output_place s true t (u ∷ []) r o (both.0))
  take_results-Delivers none false [] (r ∷ rs) n l o p c = cc
  take_results-Delivers none false (t ∷ ts) rs n l o p c = ground arith
  take_results-Delivers none true [] rs n l o p c = cc
  take_results-Delivers none true (t ∷ []) [] n l o p c = cc
  take_results-Delivers none true (t ∷ []) (r ∷ e ∷ rs) n l o p c =
      cc ((&&-eq-true (conforms t r) false c).1)
  take_results-Delivers none true (t ∷ u ∷ ts) rs n l o p c = ground arith
  take_results-Delivers (some s) false [] rs n l o p c = cc
  take_results-Delivers (some s) false (t ∷ []) [] n l o p c = cc
  take_results-Delivers (some s) false (t ∷ []) (r ∷ e ∷ rs) n l o p c =
      cc ((&&-eq-true (conforms t r) false c).1)
  take_results-Delivers (some s) false (t ∷ u ∷ ts) rs n l o p c = ground arith
  take_results-Delivers (some s) true [] rs n l o p c = cc
  take_results-Delivers (some s) true (t ∷ []) rs n l o p c = cc
  take_results-Delivers (some s) true (t ∷ u ∷ []) [] n l o p c = cc
  take_results-Delivers (some s) true (t ∷ u ∷ []) (r ∷ []) n l o p c =
      cc ((&&-eq-true (conforms t r) false c).1)
  take_results-Delivers (some s) true (t ∷ u ∷ []) (r ∷ e ∷ x ∷ rs) n l o p c = ground arith
  take_results-Delivers (some s) true (t ∷ u ∷ v ∷ ts) rs n l o p c = ground arith
