-- ===== src/Schema/Map.antt =====
-- schema/map.go: maps. The operations take those of the key and the value type as arguments.
pub mod Safety
use arcaflow_plugin_sdk_go.Common.{
  ℕ, ℤ, Bool, true, false, List, [], ◌∷◌, length, Option, none, some, if◌then◌else◌,
}
use arcaflow_plugin_sdk_go.Go.Value.{
  Value, null, map, GoType, any_type, map_type, entries, of_entries, key_eq, set_entry,
}
use arcaflow_plugin_sdk_go.Go.Result.{
  Result, ok, err, panic, ◌>>=◌, ◌>>◌, under, key_of, value_of, constraint, not_a_map,
}
use arcaflow_plugin_sdk_go.Go.Convert.{Floats}
use arcaflow_plugin_sdk_go.Schema.Types.{map_of}
use arcaflow_plugin_sdk_go.Schema.List.{assign, check_length}

-- The loops over the entries: the key first, then the value.
unfoldable pub each_entry {ℓ κ} :
    {A : Type ℓ} {B : Type κ}
    → (Value → Result A)
    → (Value → Result B)
    → List (Value × Value)
    → Result (List (A × B))
each_entry f g [] = ok []
each_entry f g ((k, v) ∷ es) = do
  a ← under (key_of k) (f k)
  b ← under (value_of k) (g v)
  rest ← each_entry f g es
  ok ((a, b) ∷ rest)

module _ (fl : Floats) where
  -- The entries written one after the other into an empty map.
  unfoldable pub build_map : List (Value × Value) → List (Value × Value) → List (Value × Value)
  build_map done [] = done
  build_map done ((k, v) ∷ es) = build_map (set_entry fl.eq k v done) es

  unfoldable pub unserialize_map :
      Result GoType
      → Result GoType
      → (Value → Result Value)
      → (Value → Result Value)
      → Option ℤ
      → Option ℤ
      → Value
      → Result Value
  unserialize_map key_type elem_type key elem lo hi (map _ _ es) = do
    check_length lo hi (length (entries es))
    tk ← key_type
    tv ← elem_type
    t ← map_of tk tv
    ws ← each_entry (λ k. key k >>= assign tk) (λ v. elem v >>= assign tv) (entries es)
    ok (map tk tv (of_entries (build_map [] ws)))
  unserialize_map key_type elem_type key elem lo hi v = err (constraint not_a_map [])

unfoldable pub validate_map :
    (Value → Result (Unit {0}))
    → (Value → Result (Unit {0}))
    → Option ℤ
    → Option ℤ
    → Value
    → Result (Unit {0})
validate_map key elem lo hi (map _ _ es) = do
  check_length lo hi (length (entries es))
  checked ← each_entry key elem (entries es)
  ok tt
validate_map key elem lo hi v = err (constraint not_a_map [])

-- `Serialize` validates the whole map first; the result is a `map[any]any`.
module _ (fl : Floats) where
  unfoldable pub serialize_map :
      (Value → Result (Unit {0}))
      → (Value → Result Value)
      → (Value → Result Value)
      → Value
      → Result Value
  serialize_map validate key elem (map tk tv es) = do
    validate (map tk tv es)
    ws ← each_entry key elem (entries es)
    ok (map any_type any_type (of_entries (build_map fl [] ws)))
  serialize_map validate key elem v = validate v >>= λ _. err (constraint not_a_map [])

-- ValidateCompatibility with data makes the checks of `validate_map`, by the compatibility of keys and
-- values.
unfoldable pub compatible_map :
    (Value → Result (Unit {0}))
    → (Value → Result (Unit {0}))
    → Option ℤ
    → Option ℤ
    → Value
    → Result (Unit {0})
unfolding validate_map
compatible_map key elem lo hi v = validate_map key elem lo hi v
