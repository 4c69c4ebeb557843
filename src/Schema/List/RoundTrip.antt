-- ===== src/Schema/List/RoundTrip.antt =====
-- schema/list.go: the validation of an unserialized list.
use arcaflow_plugin_sdk_go.Common.{
  ℕ, suc, ℤ, List, [], ◌∷◌, length, Option, none, some, ◌≡◌, refl, ap, ◌∙◌, subst, arith,
}
use arcaflow_plugin_sdk_go.Go.Value.{Value, slice, items, of_items, GoType, type_of}
use arcaflow_plugin_sdk_go.Go.Result.{
  Result, ok, >>=-eq-ok, under-eq-ok, ok_injective, under, index,
}
use arcaflow_plugin_sdk_go.Schema.List.{
  each_item, unserialize_item, unserialize_list, validate_list, check_length, assign, place,
}

items-of_items : (ws : List Value) → items (of_items ws) ≡ ws
items-of_items [] = refl
items-of_items (w ∷ ws) = ap (λ x. w ∷ x) (items-of_items ws)

place-eq-ok : (t : GoType) (o : Option GoType) (w u : Value) → place t o w ≡ ok u → w ≡ u
place-eq-ok t none w u h = cc
place-eq-ok t (some s) w u h = ground arith

unserialize_item-eq-ok :
    (t : GoType) (item : Value → Result Value) (v u : Value)
    → unserialize_item t item v ≡ ok u
    → item v ≡ ok u
unfolding unserialize_item assign
unserialize_item-eq-ok t item v u h =
    let (w, e, k) = >>=-eq-ok (item v) _ h in e ∙ ap ok (place-eq-ok t (type_of w) w u k)

module _ (f : Value → Result Value) (g : Value → Result (Unit {0}))
    (valid : (v u : Value) → f v ≡ ok u → g u ≡ ok tt) where
  abbrev Accepted : ℕ → List Value → List Value → Type 0
  Accepted i vs ws = (length ws ≡ length vs) × ((us : List (Unit {0})) × (each_item g i ws ≡ ok us))

  Accepted-cons :
      (i : ℕ) (v w : Value) (vs ws : List Value)
      → f v ≡ ok w
      → Accepted (suc i) vs ws
      → Accepted i (v ∷ vs) (w ∷ ws)
  unfolding each_item
  Accepted-cons i v w vs ws e (n, (us, r)) = (ap suc n, (tt ∷ us, rw (valid v w e, r) refl))

  each_item-valid : (i : ℕ) (vs ws : List Value) → each_item f i vs ≡ ok ws → Accepted i vs ws
  unfolding each_item
  each_item-valid i [] ws h = subst (Accepted i []) (ok_injective h) (refl, ([], refl))
  each_item-valid i (v ∷ vs) ws h =
      let (w, e, k) = >>=-eq-ok (under (index i) (f v)) _ h in
      let (rest, e', k') = >>=-eq-ok (each_item f (suc i) vs) _ k in
      subst (Accepted i (v ∷ vs)) (ok_injective k') (
        Accepted-cons i v w vs rest (under-eq-ok (index i) (f v) e)
          (each_item-valid (suc i) vs rest e'))

checked-list :
    (validate : Value → Result (Unit {0})) (lo hi : Option ℤ) (t : GoType) (vs ws : List Value)
    → check_length lo hi (length vs) ≡ ok tt
    → (length ws ≡ length vs) × ((us : List (Unit {0})) × (each_item validate 0 ws ≡ ok us))
    → validate_list validate lo hi (slice t (of_items ws)) ≡ ok tt
unfolding validate_list
checked-list validate lo hi t vs ws c (n, (us, r)) = rw (items-of_items ws, n, c, r) refl

-- Where the item type's Unserialize gives only values that its Validate accepts, the list that
-- Unserialize makes of any data is accepted by the Validate of the list, bounds included.
pub validate_list-unserialize_list :
    (type : Result GoType) (item : Value → Result Value) (validate : Value → Result (Unit {0}))
    (lo hi : Option ℤ) (v w : Value)
    → ((x u : Value) → item x ≡ ok u → validate u ≡ ok tt)
    → unserialize_list type item lo hi v ≡ ok w
    → validate_list validate lo hi w ≡ ok tt
unfolding unserialize_list validate_list
validate_list-unserialize_list type item validate lo hi (slice t vs) w valid h =
    let (u, c, k) = >>=-eq-ok (check_length lo hi (length (items vs))) _ h in
    let (item_type, e, k') = >>=-eq-ok type _ k in
    let (ws, r, q) = >>=-eq-ok (each_item (unserialize_item item_type item) 0 (items vs)) _ k' in
    subst (λ x. validate_list validate lo hi x ≡ ok tt) (ok_injective q)
      (checked-list validate lo hi item_type (items vs) ws c (
        each_item-valid (unserialize_item item_type item) validate
          (λ x y i. valid x y (unserialize_item-eq-ok item_type item x y i)) 0 (items vs) ws r))
validate_list-unserialize_list type item validate lo hi v w valid h = cc
