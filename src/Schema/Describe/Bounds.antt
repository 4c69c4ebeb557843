-- ===== src/Schema/Describe/Bounds.antt =====
-- schema/schema_schema.go: the bounds that the description of a schema may have.
use arcaflow_plugin_sdk_go.Common.{
  ℕ, suc, ℤ, negsuc, pos, Bytes, codes, str_eq, [], ◌∷◌, none, some, lookup, insert, ◌≡◌, refl,
  arith,
}
use arcaflow_plugin_sdk_go.Go.Value.{Value, int, int64, of_fields}
use arcaflow_plugin_sdk_go.Go.Result.{err, constraint, at_least, name}
use arcaflow_plugin_sdk_go.Go.Convert.{Floats}
use arcaflow_plugin_sdk_go.Schema.Types.{object_schema, Store}
use arcaflow_plugin_sdk_go.Schema.Object.{
  unserialize_object, raw_data, collect_fields, unserialize_fields, add_defaults,
  unserialize_property,
}
use arcaflow_plugin_sdk_go.Schema.Scalar.{unserialize_int, int_input_mapper, check_int}
use arcaflow_plugin_sdk_go.Schema.Tree.{unserialize}
use arcaflow_plugin_sdk_go.Schema.Describe.Objects.{int_object}

-- The description of an integer schema with this bound.
abbrev pub bounded : (bound : Bytes) → ℤ → Value
bounded bound z = of_fields ((bound, int int64 z) ∷ [])

below_zero :
    (n : ℕ) → check_int (some (pos 0)) none (negsuc n) ≡ err (constraint (at_least (pos 0)) [])
unfolding check_int
below_zero n = ground arith

module _ (fl : Floats) (store : Store) where
  -- The object that describes integer schemas refuses a negative lower bound, and a negative upper bound,
  -- whatever the store and with any fuel from 2 on, although an IntSchema may have such bounds.
  pub negative_bound-refused :
      (f n : ℕ)
      → (unserialize fl store
            (suc (suc f))
            (object_schema int_object)
            (bounded (codes "min") (negsuc n))
          ≡ err (constraint (at_least (pos 0)) (name (codes "min") ∷ [])))
        × (unserialize fl store
              (suc (suc f))
              (object_schema int_object)
              (bounded (codes "max") (negsuc n))
            ≡ err (constraint (at_least (pos 0)) (name (codes "max") ∷ [])))
  unfolding unserialize unserialize_object raw_data collect_fields lookup str_eq unserialize_fields
      add_defaults insert unserialize_property unserialize_int int_input_mapper
  negative_bound-refused f n = (rw (below_zero n) refl, rw (below_zero n) refl)
