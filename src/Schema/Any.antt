-- ===== src/Schema/Any.antt =====
-- schema/any.go: the wildcard type.
pub mod Safety
use arcaflow_plugin_sdk_go.Common.{
  ℕ, suc, ℤ, Bytes, Bool, true, false, ◌&&◌, List, [], ◌∷◌, Option, none, some, ◌==◌, if◌then◌else◌,
}
use arcaflow_plugin_sdk_go.Go.Value.{
  Value, null, bool, str, int, float32, float64, slice, map, regexp, other, int64, GoType, any_type,
  string_type, int_type, slice_type, map_type, Items, no_items, item, Entries, no_entries, entry,
  items, of_items, entries, of_entries, set_entry, IntKind, int_kind_code,
}
use arcaflow_plugin_sdk_go.Go.Result.{
  Result, ok, err, panic, out_of_fuel, ◌>>=◌, ◌>>◌, ensure, under, index, key_of, value_of,
  constraint, not_a_valid_type, incompatible, mismatched_kinds,
}
use arcaflow_plugin_sdk_go.Go.Convert.{Floats}
use arcaflow_plugin_sdk_go.Schema.Scalar.{int_input_mapper, float_input_mapper}

module _ (fl : Floats) where
  -- checkAndConvert: every integer becomes an int64, every float a float64, every list a `[]any` and
  -- every map a `map[any]any`. It is `Unserialize` and `Serialize`, and `Validate` by its error.
  unfoldable mutual
    unfolding int_input_mapper float_input_mapper

    pub check_and_convert : Value → Result Value
    check_and_convert (int k z) = do i ← int_input_mapper fl (int k z) none; ok (int int64 i)
    check_and_convert (float32 x) = do y ← float_input_mapper fl (float32 x) none; ok (float64 y)
    check_and_convert (float64 x) = ok (float64 x)
    check_and_convert (str s) = ok (str s)
    check_and_convert (bool b) = ok (bool b)
    check_and_convert (slice t vs) = do ws ← convert_items 0 vs; ok (slice any_type (of_items ws))
    check_and_convert (map tk tv es) = do
      ws ← convert_entries [] es
      ok (map any_type any_type (of_entries ws))
    check_and_convert null = err (constraint not_a_valid_type [])
    check_and_convert (regexp s) = err (constraint not_a_valid_type [])
    check_and_convert (other n) = err (constraint not_a_valid_type [])

    convert_items : ℕ → Items → Result (List Value)
    convert_items i no_items = ok []
    convert_items i (item v vs) = do
      w ← under (index i) (check_and_convert v)
      ws ← convert_items (suc i) vs
      ok (w ∷ ws)

    -- The entries of the result so far come first.
    convert_entries : List (Value × Value) → Entries → Result (List (Value × Value))
    convert_entries done no_entries = ok done
    convert_entries done (entry k v es) = do
      key ← under (key_of k) (check_and_convert k)
      value ← under (value_of key) (check_and_convert v)
      convert_entries (set_entry fl.eq key value done) es

-- reflect.Kind, numbered.
unfoldable pub kind : Value → ℕ
kind null = 0
kind (bool b) = 1
kind (str s) = 2
kind (float32 x) = 3
kind (float64 x) = 4
kind (slice t vs) = 5
kind (map tk tv es) = 6
kind (regexp s) = 7
kind (other n) = 7
kind (int k z) = suc (suc (suc (suc (suc (suc (suc (suc (int_kind_code k))))))))

-- The keys of a `map[any]any` are all strings or all int64.
unfoldable pub is_any_key : Value → Bool
is_any_key (str s) = true
is_any_key (int int64 z) = true
is_any_key _ = false

-- The items of a `[]any` are of the first one's kind.
unfoldable pub check_same_kind : Value → List Value → Result (Unit {0})
unfolding kind
check_same_kind first [] = ok tt
check_same_kind first (v ∷ vs) = do
  ensure (kind first == kind v) mismatched_kinds
  check_same_kind first vs

-- An error is wrapped into a new ConstraintError, without a path.
abbrev pub wrapped {ℓ} : {A : Type ℓ} → Result A → Result A
wrapped (err e) = err (constraint incompatible [])
wrapped r = r

-- The kind that the keys must have: that of the first key.
abbrev pub first_kind : Option ℕ → Value → ℕ
first_kind none k = kind k
first_kind (some n) k = n

module _ (fl : Floats) where
  -- ValidateCompatibility with data, validateAnyMap and validateAnyList.
  unfoldable mutual
    unfolding check_and_convert check_same_kind is_any_key

    pub compatible_any : Value → Result (Unit {0})
    compatible_any (map string_type any_type es) = compatible_values es
    compatible_any (map (int_type int64) any_type es) = compatible_values es
    compatible_any (map any_type any_type es) = compatible_entries none es
    compatible_any (slice any_type no_items) = ok tt
    compatible_any (slice any_type (item v vs)) = do
      compatible_items (item v vs)
      check_same_kind v (items vs)
    compatible_any v = check_and_convert fl v >>= λ _. ok tt

    compatible_items : Items → Result (Unit {0})
    compatible_items no_items = ok tt
    compatible_items (item v vs) = wrapped (compatible_any v) >> compatible_items vs

    compatible_values : Entries → Result (Unit {0})
    compatible_values no_entries = ok tt
    compatible_values (entry k v es) = wrapped (compatible_any v) >> compatible_values es

    compatible_entries : Option ℕ → Entries → Result (Unit {0})
    compatible_entries first no_entries = ok tt
    compatible_entries first (entry k v es) = do
      ensure (is_any_key k) mismatched_kinds
      ensure (first_kind first k == kind k) mismatched_kinds
      wrapped (compatible_any v)
      compatible_entries (some (first_kind first k)) es
