-- ===== src/Schema/List.antt =====
-- schema/list.go: lists. The operations take the operation of the item type as an argument.
pub mod Location
pub mod RoundTrip
pub mod Safety
use arcaflow_plugin_sdk_go.Common.{
  ℕ, suc, ℤ, pos, ltb_ℤ, not, ◌||◌, Bool, true, false, List, [], ◌∷◌, length, Option, none, some,
  if◌then◌else◌,
}
use arcaflow_plugin_sdk_go.Go.Value.{
  Value, slice, GoType, any_type, slice_type, type_of, type_eq, items, of_items,
}
use arcaflow_plugin_sdk_go.Go.Result.{
  Result, ok, err, panic, ◌>>=◌, ◌>>◌, ensure, under, index, constraint, not_a_slice, too_few_items,
  too_many_items,
}
use arcaflow_plugin_sdk_go.Schema.Scalar.{within, bound}

-- `v.Set(reflect.ValueOf(w))` at a place of the type: it panics where the types differ.
abbrev is_any : GoType → Bool
is_any any_type = true
is_any t = false

abbrev pub place : GoType → Option GoType → Value → Result Value
place t none w = panic
place t (some u) w = if is_any t || type_eq t u then ok w else panic

unfoldable pub assign : GoType → Value → Result Value
assign t w = place t (type_of w) w

-- The bounds on the number of items, also of a map's.
unfoldable pub check_length : Option ℤ → Option ℤ → ℕ → Result (Unit {0})
check_length lo hi n = do
  ensure (within (λ b. not (ltb_ℤ (pos n) b)) lo) (too_few_items (bound lo))
  ensure (within (λ b. not (ltb_ℤ b (pos n))) hi) (too_many_items (bound hi))

-- The loops over the items from index `i` on: the first error ends the loop.
unfoldable pub each_item {ℓ} : {A : Type ℓ} → (Value → Result A) → ℕ → List Value → Result (List A)
each_item f i [] = ok []
each_item f i (v ∷ vs) = do w ← under (index i) (f v); ws ← each_item f (suc i) vs; ok (w ∷ ws)

unfoldable pub unserialize_item : GoType → (Value → Result Value) → Value → Result Value
unserialize_item t item v = do w ← item v; assign t w

unfoldable pub unserialize_list :
    Result GoType → (Value → Result Value) → Option ℤ → Option ℤ → Value → Result Value
unfolding unserialize_item
unserialize_list type item lo hi (slice _ vs) = do
  check_length lo hi (length (items vs))
  t ← type
  ws ← each_item (unserialize_item t item) 0 (items vs)
  ok (slice t (of_items ws))
unserialize_list type item lo hi v = err (constraint not_a_slice [])

unfoldable pub validate_list :
    (Value → Result (Unit {0})) → Option ℤ → Option ℤ → Value → Result (Unit {0})
validate_list item lo hi (slice _ vs) = do
  check_length lo hi (length (items vs))
  checked ← each_item item 0 (items vs)
  ok tt
validate_list item lo hi v = err (constraint not_a_slice [])

-- `Serialize` validates the whole list first.
unfoldable pub serialize_list :
    (Value → Result (Unit {0}))
    → (Value → Result Value)
    → Option ℤ
    → Option ℤ
    → Value
    → Result Value
unfolding validate_list
serialize_list validate item lo hi (slice t vs) = do
  validate_list validate lo hi (slice t vs)
  ws ← each_item item 0 (items vs)
  ok (slice any_type (of_items ws))
serialize_list validate item lo hi v = err (constraint not_a_slice [])

-- ValidateCompatibility with data: the bounds are not looked at.
unfoldable pub compatible_list : (Value → Result (Unit {0})) → Value → Result (Unit {0})
compatible_list item (slice _ vs) = do checked ← each_item item 0 (items vs); ok tt
compatible_list item v = err (constraint not_a_slice [])
