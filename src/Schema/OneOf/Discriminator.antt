-- ===== src/Schema/OneOf/Discriminator.antt =====
-- schema/oneof.go: the discriminator in what UnserializeType returns.
use arcaflow_plugin_sdk_go.Common.{
  Bytes, str_eq_iff, Bool, List, [], ◌∷◌, none, some, ◌≡◌, refl, ◌≢◌, arith, subst, insert,
  lookup-insert, ap, ◌∙◌, sym,
}
use arcaflow_plugin_sdk_go.Go.Value.{
  Value, null, map, entries, of_entries, field_entries, fields, of_fields, GoType, Entries,
}
use arcaflow_plugin_sdk_go.Go.Result.{
  ok_injective, Result, ok, err, >>=-eq-ok, constraint, invalid_discriminator,
  invalid_discriminator_type,
}
use arcaflow_plugin_sdk_go.Go.Convert.{Floats}
use arcaflow_plugin_sdk_go.Schema.Object.{raw_data, check_interdependencies, unserialize_object}
use arcaflow_plugin_sdk_go.Schema.Types.{Schema, Property, KeyType, Key}
use arcaflow_plugin_sdk_go.Schema.OneOf.{
  asserted_key, selected_id, select_type, validate_one_of, put_discriminator, unserialize_one_of,
  non_nil, missing_to_error, typed_discriminator, without_discriminator, find_type, index_string,
  string_fields, key_value,
}

fields-of_fields :
    (raw : List (Bytes × Value)) → fields (entries (of_entries (field_entries raw))) ≡ raw
fields-of_fields [] = refl
fields-of_fields ((k, v) ∷ raw) = ap (λ r. (k, v) ∷ r) (fields-of_fields raw)

non_nil-some : (v : Value) → v ≢ null → non_nil (some v) ≡ some v
non_nil-some null h = absurd (h refl)
non_nil-some v h = refl

selected_id-insert :
    (d : Bytes) (given : Value) (raw : List (Bytes × Value))
    → given ≢ null
    → selected_id d (insert d given raw) ≡ some given
unfolding selected_id
selected_id-insert d given raw h =
    ground (arith, lookup-insert d d given raw, str_eq_iff d d, non_nil-some given h)

-- Whatever the map that the chosen type unserialized to, validation looks at the discriminator as it was given.
validate-put :
    (compatible validate : Schema → Value → Result (Unit {0})) (kt : KeyType)
    (cs : List (Key × Schema)) (d : Bytes) (inlined : Bool) (given : Value)
    (raw : List (Bytes × Value))
    → given ≢ null
    → asserted_key kt given ≡ none
    → validate_one_of compatible validate kt cs d inlined (of_fields (insert d given raw))
      ≡ err (constraint invalid_discriminator_type [])
unfolding validate_one_of select_type
validate-put compatible validate kt cs d inlined given raw h a =
    rw (fields-of_fields (insert d given raw), selected_id-insert d given raw h, a)

put-of_fields :
    (d : Bytes) (given : Value) (raw : List (Bytes × Value))
    → put_discriminator d given (of_fields raw) ≡ ok (of_fields (insert d given raw))
unfolding put_discriminator
put-of_fields d given raw = ap (λ r. ok (of_fields (insert d given r))) (fields-of_fields raw)

-- The values of an unstructured object are `map[string]any`.
pub unserialize_object-of_fields :
    (type : Property → Value → Result Value) (ps : List (Bytes × Property)) (x u : Value)
    → unserialize_object type ps x ≡ ok u
    → (raw : List (Bytes × Value)) × (u ≡ of_fields raw)
unfolding unserialize_object
unserialize_object-of_fields type ps x u h =
    let (raw, e1, h1) = >>=-eq-ok (raw_data type ps x) _ h in
    let (t, e2, h2) = >>=-eq-ok (check_interdependencies ps raw) _ h1 in
    (raw, sym (ok_injective h2))

-- What UnserializeType returns for a discriminator given as another type than the key's (a uint64, or a
-- number for a string key) is refused by Validate: the result holds the discriminator as it was
-- given, and Validate asserts that it has the key's type. The chosen type is one whose values are
-- `map[string]any`.
pub redecoded_discriminator :
    (fl : Floats) (type : Schema → Value → Result Value)
    (compatible validate : Schema → Value → Result (Unit {0})) (kt : KeyType)
    (cs : List (Key × Schema)) (d : Bytes) (inlined : Bool) (tk tv : GoType) (es : Entries)
    (given w : Value)
    → ((s : Schema) (x u : Value)
        → type s x ≡ ok u
        → (raw : List (Bytes × Value)) × (u ≡ of_fields raw))
    → index_string d tk (entries es) ≡ ok (some given)
    → given ≢ null
    → asserted_key kt given ≡ none
    → unserialize_one_of fl type kt cs d inlined (map tk tv es) ≡ ok w
    → validate_one_of compatible validate kt cs d inlined w
      ≡ err (constraint invalid_discriminator_type [])
unfolding unserialize_one_of
redecoded_discriminator fl type compatible validate kt cs d inlined tk tv es given w maps i n a h =
    let (key, e1, h1) =
      >>=-eq-ok (typed_discriminator fl kt given) _ (rw (unserialize_one_of, i) at h) in
    let (raw, e2, h2) = >>=-eq-ok (string_fields (entries es)) _ h1 in
    let (s, e3, h3) =
      >>=-eq-ok
        (missing_to_error (constraint (invalid_discriminator (key_value key)) [])
          (find_type key cs))
        _ h2 in
    let (u, e4, h4) = >>=-eq-ok (type s (of_fields (without_discriminator inlined d raw))) _ h3 in
    let (m, q) = maps s _ u e4 in
    let put = sym (put-of_fields d given m) ∙ sym (ap (put_discriminator d given) q) ∙ h4 in
    subst
      (λ x.
        validate_one_of compatible validate kt cs d inlined x
        ≡ err (constraint invalid_discriminator_type []))
      (ok_injective put) (validate-put compatible validate kt cs d inlined given m n a)
