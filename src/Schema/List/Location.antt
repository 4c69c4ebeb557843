-- ===== src/Schema/List/Location.antt =====
-- schema/list.go and map.go: where the error of a list says that it arose.
use arcaflow_plugin_sdk_go.Common.{
  some_injective, ℕ, zero, suc, ◌+◌, ◌<◌, List, [], ◌∷◌, some, get_elem?, ◌≡◌, refl, ◌⊎◌, inl, inr,
  arith, ap, ◌∙◌, sym,
}
use arcaflow_plugin_sdk_go.Go.Value.{Value}
use arcaflow_plugin_sdk_go.Go.Result.{
  Result, ok, err, panic, out_of_fuel, ◌>>=◌, index, Error, add_segment,
}
use arcaflow_plugin_sdk_go.Schema.List.{each_item}

at_first :
    (i : ℕ) (d e : Error) → e ≡ add_segment d (index i) → e ≡ add_segment d (index (i + zero))
at_first i d e h = h ∙ ap (λ n. add_segment d (index n)) (omega arith)

module _ {A : Type 0} where
  Result-cases :
      (r : Result A)
      → ((a : A) × (r ≡ ok a)) ⊎ ((e : Error) × (r ≡ err e)) ⊎ (r ≡ panic) ⊎ (r ≡ out_of_fuel)
  Result-cases (ok a) = inl (a, refl)
  Result-cases (err e) = inr (inl (e, refl))
  Result-cases panic = inr (inr (inl refl))
  Result-cases out_of_fuel = inr (inr (inr refl))

  rest-eq-err :
      (r : Result (List A)) (a : A) (e : Error) → (r >>= λ ws. ok (a ∷ ws)) ≡ err e → r ≡ err e
  rest-eq-err (ok ws) a e h = cc
  rest-eq-err (err d) a e h = cc
  rest-eq-err panic a e h = cc
  rest-eq-err out_of_fuel a e h = cc

  -- The item at `j` is the first that fails, and `e` is its error under the index `i + j`.
  pub record FirstFailure (f : Value → Result A) (i : ℕ) (vs : List Value) (e : Error)
      : Type 0 where
    pub position : ℕ
    pub item : Value
    pub cause : Error
    pub found : get_elem? vs position ≡ some item
    pub fails : f item ≡ err cause
    pub located : e ≡ add_segment cause (index (i + position))
    pub earlier :
        (m : ℕ) (u : Value) → m < position → get_elem? vs m ≡ some u → (a : A) × (f u ≡ ok a)

  err_injective : {d e : Error} → Path (Result (List A)) (err d) (err e) → d ≡ e
  err_injective h = cc

  later :
      (f : Value → Result A) (i : ℕ) (v : Value) (vs : List Value) (e : Error) (a : A)
      → f v ≡ ok a
      → FirstFailure f (suc i) vs e
      → FirstFailure f i (v ∷ vs) e
  later f i v vs e a r ff = record {
    position = suc ff.position;
    item = ff.item;
    cause = ff.cause;
    found = ff.found;
    fails = ff.fails;
    located = ff.located ∙ ap (λ n. add_segment ff.cause (index n)) (omega arith);
    earlier = before;
  }
    where
      before :
          (m : ℕ) (u : Value)
          → m < suc ff.position
          → get_elem? (v ∷ vs) m ≡ some u
          → (b : A) × (f u ≡ ok b)
      before zero u lt g = (a, ap f (sym (some_injective g)) ∙ r)
      before (suc m) u lt g = ff.earlier m u (omega arith) g

  -- Where a list operation fails on an item, the error is that of the first failing item, with the item's index
  -- in front of its path, and all items before it succeed.
  pub each_item-FirstFailure :
      (f : Value → Result A) (i : ℕ) (vs : List Value) (e : Error)
      → each_item f i vs ≡ err e
      → FirstFailure f i vs e
  unfolding each_item
  each_item-FirstFailure f i [] e h = absurd (cc)
  each_item-FirstFailure f i (v ∷ vs) e h = elim (Result-cases (f v)) [
    | inl (a, r) ↦
        later f i v vs e a r
          (each_item-FirstFailure f (suc i) vs e (rest-eq-err _ a e (rw (each_item, r) at h)))
    | inr (inl (d, r)) ↦ record {
      position = zero;
      item = v;
      cause = d;
      found = refl;
      fails = r;
      located = at_first i d e (sym (err_injective (rw (each_item, r) at h)));
      earlier = λ m u lt. absurd (omega arith);
    }
    | inr (inr (inl r)) ↦ absurd (cc)
    | inr (inr (inr r)) ↦ absurd (cc)
  ]
