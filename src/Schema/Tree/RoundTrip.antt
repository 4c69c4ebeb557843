-- ===== src/Schema/Tree/RoundTrip.antt =====
-- schema/*.go: what Serialize and Validate make of an unserialized value.
use arcaflow_plugin_sdk_go.Common.{ℕ, suc, ◌≡◌, ap}
use arcaflow_plugin_sdk_go.Go.Value.{Value}
use arcaflow_plugin_sdk_go.Go.Result.{Result, ok}
use arcaflow_plugin_sdk_go.Go.Convert.{Floats}
use arcaflow_plugin_sdk_go.Schema.Types.{
  Schema, int_schema, float_schema, string_schema, bool_schema, pattern_schema, int_enum,
  string_enum, list_schema, map_schema, any_schema, object_schema, ref_schema, scope_schema,
  one_of_schema, Store, enum_values,
}
use arcaflow_plugin_sdk_go.Schema.Scalar.Exactness.{
  serialize_int-unserialize_int, serialize_float-unserialize_float,
  serialize_string-unserialize_string, serialize_bool-unserialize_bool,
  serialize_int_enum-unserialize_int_enum, serialize_string_enum-unserialize_string_enum,
}
use arcaflow_plugin_sdk_go.Schema.Tree.{unserialize, validate, serialize, error_of}

abbrev pub IsScalar : Schema → Type 0
IsScalar (int_schema lo hi u) = Unit
IsScalar (float_schema lo hi u) = Unit
IsScalar (string_schema lo hi p) = Unit
IsScalar bool_schema = Unit
IsScalar (int_enum vs u) = Unit
IsScalar (string_enum vs) = Unit
IsScalar s = ⊥

both : {r : Result Value} {w : Value} → r ≡ ok w → (r ≡ ok w) × (error_of r ≡ ok tt)
both e = (e, ap error_of e)

-- What a scalar type unserializes any data to is accepted by its Validate, and serialized to itself.
pub serialize-unserialize :
    (fl : Floats) (store : Store) (f : ℕ) (s : Schema) (v w : Value)
    → IsScalar s
    → unserialize fl store (suc f) s v ≡ ok w
    → (serialize fl store (suc f) s w ≡ ok w) × (validate fl store (suc f) s w ≡ ok tt)
unfolding unserialize serialize validate
serialize-unserialize fl store f (int_schema lo hi u) v w h e =
    both (serialize_int-unserialize_int fl lo hi u v w e)
serialize-unserialize fl store f (float_schema lo hi u) v w h e =
    both (serialize_float-unserialize_float fl lo hi u v w e)
serialize-unserialize fl store f (string_schema lo hi p) v w h e =
    both (serialize_string-unserialize_string fl lo hi p v w e)
serialize-unserialize fl store f bool_schema v w h e = both (serialize_bool-unserialize_bool v w e)
serialize-unserialize fl store f (int_enum vs u) v w h e =
    both (serialize_int_enum-unserialize_int_enum fl (enum_values vs) u v w e)
serialize-unserialize fl store f (string_enum vs) v w h e =
    both (serialize_string_enum-unserialize_string_enum fl (enum_values vs) v w e)
serialize-unserialize fl store f (pattern_schema compiles) v w h e = elim h [ ]
serialize-unserialize fl store f (list_schema s lo hi) v w h e = elim h [ ]
serialize-unserialize fl store f (map_schema k x lo hi) v w h e = elim h [ ]
serialize-unserialize fl store f any_schema v w h e = elim h [ ]
serialize-unserialize fl store f (object_schema o) v w h e = elim h [ ]
serialize-unserialize fl store f (ref_schema id ns link) v w h e = elim h [ ]
serialize-unserialize fl store f (scope_schema objects root) v w h e = elim h [ ]
serialize-unserialize fl store f (one_of_schema kt cs d inlined) v w h e = elim h [ ]
