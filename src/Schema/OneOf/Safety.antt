-- ===== src/Schema/OneOf/Safety.antt =====
-- schema/oneof.go: unserialization of a one-of type does not panic on data with string keys.
use arcaflow_plugin_sdk_go.Common.{
  Bytes, str_eq, Bool, true, false, List, [], ◌∷◌, All, Option, none, some, ◌≡◌, refl, inl, inr,
  delete, subst, Option-cases, Bool-cases,
}
use arcaflow_plugin_sdk_go.Go.Value.{
  Value, null, str, map, GoType, any_type, string_type, string_map, entries, of_fields,
  field_entries, of_entries,
}
use arcaflow_plugin_sdk_go.Go.Result.{
  Result, ok, err, panic, out_of_fuel, ◌>>=◌, IsSafe, Error, constraint, missing_discriminator,
  invalid_discriminator, >>=-eq-ok,
}
use arcaflow_plugin_sdk_go.Go.Convert.{Floats}
use arcaflow_plugin_sdk_go.Schema.Types.{Schema, KeyType, int_keys, string_keys, Key}
use arcaflow_plugin_sdk_go.Schema.Scalar.{int_input_mapper, string_input_mapper}
use arcaflow_plugin_sdk_go.Schema.Scalar.Safety.{
  int_input_mapper-IsSafe, string_input_mapper-IsSafe,
}
use arcaflow_plugin_sdk_go.Schema.OneOf.{
  key_value, find_type, without_discriminator, string_fields, index_string, missing_to_error,
  retyped, save_convert, put_discriminator, typed_discriminator, unserialize_one_of,
}
use arcaflow_plugin_sdk_go.Schema.Sound.{
  Sound, Sound-bind, IsSafe-bind, StringKeyed, StringKeyedEntries, HoldsString, KeyedEntry,
  All-KeyedEntry,
}

missing_to_error-IsSafe {ℓ} :
    {A : Type ℓ} (e : Error) (o : Option A) → IsSafe (missing_to_error e o)
missing_to_error-IsSafe e none = tt
missing_to_error-IsSafe e (some a) = tt

retyped-IsSafe {ℓ} : {A : Type ℓ} (r : Result A) → IsSafe r → IsSafe (retyped r)
retyped-IsSafe (ok a) h = tt
retyped-IsSafe (err e) h = tt
retyped-IsSafe panic h = elim h [ ]
retyped-IsSafe out_of_fuel h = elim h [ ]

typed_discriminator-IsSafe :
    (fl : Floats) (kt : KeyType) (v : Value) → IsSafe (typed_discriminator fl kt v)
unfolding typed_discriminator
typed_discriminator-IsSafe fl int_keys v =
    IsSafe-bind (retyped (int_input_mapper fl v none)) _
      (retyped-IsSafe _ (int_input_mapper-IsSafe fl v none tt)) λ z _. tt
typed_discriminator-IsSafe fl string_keys v =
    IsSafe-bind (retyped (string_input_mapper fl v)) _
      (retyped-IsSafe _ (string_input_mapper-IsSafe fl v)) λ s _. tt

index_string-IsSafe :
    (d : Bytes) (t : GoType) (es : List (Value × Value))
    → HoldsString t
    → IsSafe (index_string d t es)
unfolding index_string
index_string-IsSafe d string_type es h = tt
index_string-IsSafe d any_type es h = tt
index_string-IsSafe d _ es h = elim h [ ]

string_fields-IsSafe : (es : List (Value × Value)) → IsSafe (string_fields es)
unfolding string_fields
string_fields-IsSafe [] = tt
string_fields-IsSafe ((str k, v) ∷ es) =
    IsSafe-bind (string_fields es) _ (string_fields-IsSafe es) λ rest _. tt
string_fields-IsSafe ((_, v) ∷ es) = tt

abbrev KeyedField : Bytes × Value → Type 0
KeyedField e = StringKeyed e.1

string_fields-KeyedField :
    (es : List (Value × Value)) (raw : List (Bytes × Value))
    → All KeyedEntry es
    → string_fields es ≡ ok raw
    → All KeyedField raw
unfolding string_fields
string_fields-KeyedField [] raw h e =
    let none_left : [] ≡ raw = cc in subst (All KeyedField) none_left tt
string_fields-KeyedField ((str k, v) ∷ es) raw h e =
    let (rest, er, same) = >>=-eq-ok (string_fields es) _ e in
    let whole : (k, v) ∷ rest ≡ raw = cc in
    subst (All KeyedField) whole (h.0.1, string_fields-KeyedField es rest h.1 er)
string_fields-KeyedField ((_, v) ∷ es) raw h e = cc

delete-KeyedField :
    (d : Bytes) (raw : List (Bytes × Value)) → All KeyedField raw → All KeyedField (delete d raw)
unfolding delete
delete-KeyedField d [] h = tt
delete-KeyedField d ((k, v) ∷ raw) h = elim (Bool-cases (str_eq k d)) [
  | inl same ↦ rw same (delete-KeyedField d raw h.1)
  | inr differ ↦ rw differ (h.0, delete-KeyedField d raw h.1)
]

without_discriminator-KeyedField :
    (inlined : Bool) (d : Bytes) (raw : List (Bytes × Value))
    → All KeyedField raw
    → All KeyedField (without_discriminator inlined d raw)
without_discriminator-KeyedField true d raw h = h
without_discriminator-KeyedField false d raw h = delete-KeyedField d raw h

field_entries-StringKeyed :
    (raw : List (Bytes × Value))
    → All KeyedField raw
    → StringKeyedEntries (of_entries (field_entries raw))
unfolding StringKeyed
field_entries-StringKeyed [] h = tt
field_entries-StringKeyed ((k, v) ∷ raw) h = (tt, h.0, field_entries-StringKeyed raw h.1)

of_fields-StringKeyed :
    (raw : List (Bytes × Value)) → All KeyedField raw → StringKeyed (of_fields raw)
unfolding StringKeyed
of_fields-StringKeyed raw h = (tt, field_entries-StringKeyed raw h)

save_convert-Sound : (v : Value) → Sound any_type (save_convert v)
unfolding save_convert
save_convert-Sound null = tt
save_convert-Sound v = (_, refl, inl refl)

put_discriminator-Sound :
    (d : Bytes) (given u : Value) → Sound any_type (put_discriminator d given u)
unfolding put_discriminator
put_discriminator-Sound d given (map string_type any_type es) = (string_map, refl, inl refl)
put_discriminator-Sound d given u = save_convert-Sound u

-- A one-of type is safe on data with string keys if every object type that a key selects is safe on it.
pub unserialize_one_of-Sound :
    (fl : Floats) (type : Schema → Value → Result Value) (kt : KeyType) (cs : List (Key × Schema))
    (d : Bytes) (inlined : Bool) (v : Value)
    → ((key : Key) (s : Schema)
        → find_type key cs ≡ some s
        → (w : Value) → StringKeyed w
        → IsSafe (type s w))
    → StringKeyed v
    → Sound any_type (unserialize_one_of fl type kt cs d inlined v)
unfolding unserialize_one_of StringKeyed
unserialize_one_of-Sound fl type kt cs d inlined (map tk tv es) safe keyed =
    Sound-bind any_type (index_string d tk (entries es)) _
      (index_string-IsSafe d tk (entries es) keyed.0)
      λ found _.
        Sound-bind any_type (missing_to_error (constraint missing_discriminator []) found) _
          (missing_to_error-IsSafe (constraint missing_discriminator []) found)
          λ given _.
            Sound-bind any_type (typed_discriminator fl kt given) _
              (typed_discriminator-IsSafe fl kt given)
              λ key _.
                Sound-bind any_type (string_fields (entries es)) _
                  (string_fields-IsSafe (entries es))
                  λ raw read.
                    after_key given key raw
                      (string_fields-KeyedField (entries es) raw (All-KeyedEntry es keyed.1) read)
  where
    after_key :
        (given : Value) (key : Key) (raw : List (Bytes × Value))
        → All KeyedField raw
        → Sound any_type (
            missing_to_error
              (constraint (invalid_discriminator (key_value key)) [])
              (find_type key cs)
            >>= λ s. type s (of_fields (without_discriminator inlined d raw)) >>= λ u.
                put_discriminator d given u)
    after_key given key raw h = elim (Option-cases (find_type key cs)) [
      | inl missing ↦ rw missing tt
      | inr (s, found) ↦ rw found (
          Sound-bind any_type (type s (of_fields (without_discriminator inlined d raw))) _
            (safe key s found (of_fields (without_discriminator inlined d raw)) (
              of_fields-StringKeyed (without_discriminator inlined d raw)
                (without_discriminator-KeyedField inlined d raw h)))
            λ u _. put_discriminator-Sound d given u)
    ]
unserialize_one_of-Sound fl type kt cs d inlined _ safe keyed = tt
