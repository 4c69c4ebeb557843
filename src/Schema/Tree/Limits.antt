-- ===== src/Schema/Tree/Limits.antt =====
-- schema/*.go: data for which the operations do not return a value or an error.
use arcaflow_plugin_sdk_go.Common.{
  ℕ, zero, suc, Bytes, Bool, true, false, List, [], ◌∷◌, some, get_elem?, ◌≡◌, refl, arith,
}
use arcaflow_plugin_sdk_go.Go.Value.{Value, null, map}
use arcaflow_plugin_sdk_go.Go.Result.{Result, ok, err, panic, out_of_fuel}
use arcaflow_plugin_sdk_go.Go.Convert.{
  Floats, convert_int64, convert_float64, convert_string, convert_bool,
}
use arcaflow_plugin_sdk_go.Schema.Types.{
  Schema, int_schema, float_schema, string_schema, bool_schema, pattern_schema, int_enum,
  string_enum, object_schema, ref_schema, list_schema, map_schema, any_schema, scope_schema,
  one_of_schema, Object, object, no_properties, property, Rules, Property, Store, linked_object,
}
use arcaflow_plugin_sdk_go.Schema.Object.{
  raw_data, unserialize_inlined, unserialize_object, unserialize_property,
}
use arcaflow_plugin_sdk_go.Schema.Scalar.{
  unserialize_int, serialize_int, unserialize_float, serialize_float, unserialize_string,
  serialize_string, unserialize_bool, serialize_bool, unserialize_int_enum, serialize_int_enum,
  unserialize_string_enum, serialize_string_enum, as_int, as_float, as_string, as_bool,
  int_input_mapper, float_input_mapper, string_input_mapper,
}
use arcaflow_plugin_sdk_go.Schema.Tree.RoundTrip.{IsScalar}
use arcaflow_plugin_sdk_go.Schema.Tree.{unserialize, validate, serialize}

abbrev pub is_map : Value → Bool
is_map (map tk tv es) = true
is_map v = false

raw_data-inlined :
    (type : Property → Value → Result Value) (ps : List (Bytes × Property)) (v : Value)
    → is_map v ≡ false
    → raw_data type ps v ≡ unserialize_inlined type ps v
unfolding raw_data
raw_data-inlined type ps (map tk tv es) h = cc
raw_data-inlined type ps v h = refl

unserialize_property-fuel :
    (type : Property → Value → Result Value) (p : Property) (v : Value)
    → p.rules.disabled ≡ false
    → type p v ≡ out_of_fuel
    → unserialize_property type p v ≡ out_of_fuel
unfolding unserialize_property
unserialize_property-fuel type p v d e = ground (arith, d, e)

unserialize_inlined-fuel :
    (type : Property → Value → Result Value) (name : Bytes) (p : Property) (v : Value)
    → p.rules.disabled ≡ false
    → type p v ≡ out_of_fuel
    → unserialize_inlined type ((name, p) ∷ []) v ≡ out_of_fuel
unfolding unserialize_inlined
unserialize_inlined-fuel type name p v d e = rw (unserialize_property-fuel type p v d e)

unserialize_object-fuel :
    (type : Property → Value → Result Value) (name : Bytes) (p : Property) (v : Value)
    → is_map v ≡ false
    → p.rules.disabled ≡ false
    → type p v ≡ out_of_fuel
    → unserialize_object type ((name, p) ∷ []) v ≡ out_of_fuel
unfolding unserialize_object
unserialize_object-fuel type name p v m d e =
    rw (raw_data-inlined type ((name, p) ∷ []) v m, unserialize_inlined-fuel type name p v d e)

linked_object-stored :
    (store : Store) (a : ℕ) (o : Object)
    → get_elem? store a ≡ some o
    → linked_object store (some a) ≡ ok o
unfolding linked_object
linked_object-stored store a o e = rw (linked_object, e)

module _ (fl : Floats) (store : Store) where
  -- Unserialize does not return for an object with one property, not disabled, that refers to the object
  -- itself, where the data is not a map: no amount of fuel is enough.
  pub self_reference-diverges :
      (f a : ℕ) (id ns name : Bytes) (unenforced : Bool) (r : Rules) (v : Value)
      → get_elem? store a
        ≡ some (object id unenforced (property name (ref_schema id ns (some a)) r no_properties))
      → r.disabled ≡ false
      → is_map v ≡ false
      → unserialize fl store f
          (object_schema
            (object id unenforced (property name (ref_schema id ns (some a)) r no_properties)))
          v
        ≡ out_of_fuel
  unfolding unserialize
  self_reference-diverges zero a id ns name unenforced r v e d m = refl
  self_reference-diverges (suc zero) a id ns name unenforced r v e d m =
      unserialize_object-fuel _ name _ v m d refl
  self_reference-diverges (suc (suc f)) a id ns name unenforced r v e d m =
      unserialize_object-fuel _ name _ v m d (
        rw (linked_object-stored store a _ e)
          (self_reference-diverges f a id ns name unenforced r v e d m))

  abbrev IsError : Result Value → Type 0
  IsError (err e) = Unit
  IsError r = ⊥

  -- On nil, the Unserialize of a scalar type returns an error, but its Validate and Serialize panic.
  null-panics :
      (f : ℕ) (s : Schema)
      → IsScalar s
      → IsError (unserialize fl store (suc f) s null)
        × (validate fl store (suc f) s null ≡ panic)
        × (serialize fl store (suc f) s null ≡ panic)
  unfolding unserialize validate serialize unserialize_int serialize_int unserialize_float
      serialize_float unserialize_string serialize_string unserialize_bool serialize_bool
      unserialize_int_enum serialize_int_enum unserialize_string_enum serialize_string_enum as_int
      as_float as_string as_bool int_input_mapper float_input_mapper string_input_mapper
      convert_int64 convert_float64 convert_string convert_bool
  null-panics f (int_schema lo hi u) h = (tt, refl, refl)
  null-panics f (float_schema lo hi u) h = (tt, refl, refl)
  null-panics f (string_schema lo hi p) h = (tt, refl, refl)
  null-panics f bool_schema h = (tt, refl, refl)
  null-panics f (int_enum vs u) h = (tt, refl, refl)
  null-panics f (string_enum vs) h = (tt, refl, refl)
  null-panics f (pattern_schema compiles) h = elim h [ ]
  null-panics f (list_schema s lo hi) h = elim h [ ]
  null-panics f (map_schema k v lo hi) h = elim h [ ]
  null-panics f any_schema h = elim h [ ]
  null-panics f (object_schema o) h = elim h [ ]
  null-panics f (ref_schema id ns link) h = elim h [ ]
  null-panics f (scope_schema objects root) h = elim h [ ]
  null-panics f (one_of_schema kt cs d inlined) h = elim h [ ]
