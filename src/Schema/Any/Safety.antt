-- ===== src/Schema/Any/Safety.antt =====
-- schema/any.go: checkAndConvert returns an error or a value, whatever the data.
use arcaflow_plugin_sdk_go.Common.{ℕ, suc, List, [], none, refl, inl}
use arcaflow_plugin_sdk_go.Go.Value.{
  Value, null, bool, str, int, float32, float64, slice, map, regexp, other, int64, any_type,
  string_type, bool_type, float64_type, int_type, slice_type, map_type, Items, no_items, item,
  Entries, no_entries, entry, set_entry,
}
use arcaflow_plugin_sdk_go.Go.Result.{ok, IsSafe, under, index, key_of, value_of}
use arcaflow_plugin_sdk_go.Go.Convert.{Floats}
use arcaflow_plugin_sdk_go.Schema.Scalar.{int_input_mapper, float_input_mapper}
use arcaflow_plugin_sdk_go.Schema.Scalar.Safety.{int_input_mapper-IsSafe, float_input_mapper-IsSafe}
use arcaflow_plugin_sdk_go.Schema.Any.{check_and_convert, convert_items, convert_entries}
use arcaflow_plugin_sdk_go.Schema.Sound.{Sound, Sound-IsSafe, Sound-bind, IsSafe-bind, IsSafe-under}

module _ (fl : Floats) where
  mutual
    unfolding check_and_convert

    convert-Sound : (v : Value) → Sound any_type (check_and_convert fl v)
    convert-Sound (int k z) =
        Sound-bind any_type (int_input_mapper fl (int k z) none) (λ i. ok (int int64 i))
          (int_input_mapper-IsSafe fl (int k z) none tt) λ i _. (int_type int64, refl, inl refl)
    convert-Sound (float32 x) =
        Sound-bind any_type (float_input_mapper fl (float32 x) none) (λ y. ok (float64 y))
          (float_input_mapper-IsSafe fl (float32 x) none tt) λ y _. (float64_type, refl, inl refl)
    convert-Sound (float64 x) = (float64_type, refl, inl refl)
    convert-Sound (str s) = (string_type, refl, inl refl)
    convert-Sound (bool b) = (bool_type, refl, inl refl)
    convert-Sound (slice t vs) =
        Sound-bind any_type (convert_items fl 0 vs) _ (convert_items-IsSafe 0 vs)
          λ ws _. (slice_type any_type, refl, inl refl)
    convert-Sound (map tk tv es) =
        Sound-bind any_type (convert_entries fl [] es) _ (convert_entries-IsSafe [] es)
          λ ws _. (map_type any_type any_type, refl, inl refl)
    convert-Sound null = tt
    convert-Sound (regexp s) = tt
    convert-Sound (other n) = tt

    convert_items-IsSafe : (i : ℕ) (vs : Items) → IsSafe (convert_items fl i vs)
    convert_items-IsSafe i no_items = tt
    convert_items-IsSafe i (item v vs) =
        IsSafe-bind (under (index i) (check_and_convert fl v)) _
          (IsSafe-under (index i) (check_and_convert fl v)
            (Sound-IsSafe any_type (check_and_convert fl v) (convert-Sound v)))
          λ w _.
            IsSafe-bind (convert_items fl (suc i) vs) _ (convert_items-IsSafe (suc i) vs) λ ws _. tt

    convert_entries-IsSafe :
        (done : List (Value × Value)) (es : Entries) → IsSafe (convert_entries fl done es)
    convert_entries-IsSafe done no_entries = tt
    convert_entries-IsSafe done (entry k v es) =
        IsSafe-bind (under (key_of k) (check_and_convert fl k)) _
          (IsSafe-under (key_of k) (check_and_convert fl k)
            (Sound-IsSafe any_type (check_and_convert fl k) (convert-Sound k)))
          λ a _.
            IsSafe-bind (under (value_of a) (check_and_convert fl v)) _
              (IsSafe-under (value_of a) (check_and_convert fl v)
                (Sound-IsSafe any_type (check_and_convert fl v) (convert-Sound v)))
              λ b _. convert_entries-IsSafe (set_entry fl.eq a b done) es

  pub check_and_convert-Sound : (v : Value) → Sound any_type (check_and_convert fl v)
  check_and_convert-Sound v = convert-Sound v
