-- ===== src/Tests/Schema.antt =====
-- The schema types on concrete data.
use arcaflow_plugin_sdk_go.Common.{
  ap, ◌<◌, pos, negsuc, Bytes, codes, true, false, List, [], ◌∷◌, none, some, lookup, str_eq,
  insert, delete, wrap_int64, ◌≡◌, refl, ◌≢◌, ◌↔◌, arith,
}
use arcaflow_plugin_sdk_go.Go.Value.{
  Value, type_eq, str, map, slice, null, string_type, any_type, int, int64, uint64, string_map,
  of_fields, of_items, Entries, entry, no_entries, entries,
}
use arcaflow_plugin_sdk_go.Go.Result.{
  Result, ok, err, index, out_of_fuel, constraint, invalid_discriminator_type, too_short,
}
use arcaflow_plugin_sdk_go.Go.Text.{format_int, parse_int}
use arcaflow_plugin_sdk_go.Schema.Types.{
  Schema, Object, bool_schema, object_schema, ref_schema, object, property, no_properties, Property,
  reflected_type, root_object, int_keys, int_key, Key,
}
use arcaflow_plugin_sdk_go.Schema.Scalar.{
  serialize_string, unserialize_int, int_input_mapper, string_input_mapper, check_int, check_string,
  unserialize_string, unserialize_bool,
}
use arcaflow_plugin_sdk_go.Schema.Scalar.Exactness.{serialize_string-unserialize_string}
use arcaflow_plugin_sdk_go.Schema.List.{
  validate_list, each_item, unserialize_list, check_length, assign, unserialize_item,
}
use arcaflow_plugin_sdk_go.Schema.List.RoundTrip.{validate_list-unserialize_list}
use arcaflow_plugin_sdk_go.Schema.List.Location.{FirstFailure, each_item-FirstFailure}
use arcaflow_plugin_sdk_go.Schema.Object.{
  check_interdependencies, unserialize_object, raw_data, collect_fields, unserialize_fields,
  add_defaults, unserialize_property, check_set,
}
use arcaflow_plugin_sdk_go.Schema.Object.Interdependencies.{
  RespectsAll, check_interdependencies_iff,
}
use arcaflow_plugin_sdk_go.Schema.OneOf.{
  unserialize_one_of, validate_one_of, index_string, find_entry, asserted_key,
}
use arcaflow_plugin_sdk_go.Schema.OneOf.Discriminator.{
  redecoded_discriminator, unserialize_object-of_fields,
}
use arcaflow_plugin_sdk_go.Schema.Sound.{Sound, StringKeyed}
use arcaflow_plugin_sdk_go.Schema.Tree.{error_of, unserialize, compatible, validate, serialize}
use arcaflow_plugin_sdk_go.Schema.Tree.WellFormed.{depth, Linked}
use arcaflow_plugin_sdk_go.Schema.Tree.Safety.{unserialize-Sound}
use arcaflow_plugin_sdk_go.Schema.Tree.RoundTrip.{serialize-unserialize}
use arcaflow_plugin_sdk_go.Schema.Tree.Limits.{self_reference-diverges}
use arcaflow_plugin_sdk_go.Tests.Samples.{
  floats, rules, node, nodes, node_scope, node_data, node_rank, nodes-WellFormed,
}

node_scope-Linked : Linked nodes node_scope
unfolding Linked root_object lookup str_eq
node_scope-Linked = (node, refl)

node_scope-depth : depth node_rank node_scope < 4
unfolding depth lookup str_eq
node_scope-depth = omega arith

node_data-StringKeyed : StringKeyed node_data
unfolding StringKeyed
node_data-StringKeyed = (tt, (tt, tt, (tt, (tt, tt), tt)))

node_scope_type : reflected_type nodes node_scope ≡ ok string_map
unfolding reflected_type root_object lookup str_eq
node_scope_type = refl

unserialize-Sound_example : Sound string_map (unserialize floats nodes 4 node_scope node_data)
unserialize-Sound_example =
    unserialize-Sound floats nodes node_rank nodes-WellFormed 4 node_scope node_data string_map
      node_scope-depth node_scope-Linked node_data-StringKeyed node_scope_type

-- Two properties in conflict.
abbrev conflicting : List (Bytes × Property)
conflicting =
    (codes "a", record { type = bool_schema; rules = rules true [] })
    ∷ (codes "b", record { type = bool_schema; rules = rules false (codes "a" ∷ []) })
    ∷ []

abbrev both_set : List (Bytes × Value)
both_set = (codes "a", Value.bool true) ∷ (codes "b", Value.bool true) ∷ []

check_interdependencies_iff_example :
    (check_interdependencies conflicting both_set ≡ ok tt) ↔ RespectsAll both_set conflicting
check_interdependencies_iff_example = check_interdependencies_iff conflicting both_set

node_run :
    unserialize floats nodes 4 node_scope node_data
    ≡ ok (
        of_fields (
          (codes "size", int int64 (pos 3))
          ∷ (codes "tags", slice string_type (of_items (str (codes "a") ∷ [])))
          ∷ []))
unfolding unserialize root_object lookup str_eq insert unserialize_object raw_data collect_fields
    unserialize_fields add_defaults unserialize_property unserialize_int int_input_mapper parse_int
    check_int unserialize_list check_length reflected_type each_item unserialize_string
    string_input_mapper check_string assign unserialize_item check_interdependencies check_set
    type_eq
node_run = refl

minus_twelve : string_input_mapper floats (int int64 (negsuc 11)) ≡ ok (codes "-12")
unfolding string_input_mapper format_int
minus_twelve = refl

bool_run : unserialize floats [] 1 bool_schema (str (codes "YES")) ≡ ok (Value.bool true)
unfolding unserialize unserialize_bool lookup str_eq
bool_run = refl

serialize-unserialize_example :
    (serialize floats [] 1 bool_schema (Value.bool true) ≡ ok (Value.bool true))
    × (validate floats [] 1 bool_schema (Value.bool true) ≡ ok tt)
serialize-unserialize_example =
    serialize-unserialize floats [] 0 bool_schema (str (codes "YES")) (Value.bool true) tt bool_run

abbrev non_empty : Value → Result Value
non_empty v = unserialize_string floats (some (pos 1)) none none v

second_fails :
    each_item non_empty 0 (str (codes "a") ∷ str [] ∷ [])
    ≡ err (constraint (too_short (pos 1)) (index 1 ∷ []))
unfolding each_item unserialize_string string_input_mapper check_string
second_fails = refl

each_item-FirstFailure_example :
    FirstFailure non_empty 0
      (str (codes "a") ∷ str [] ∷ [])
      (constraint (too_short (pos 1)) (index 1 ∷ []))
each_item-FirstFailure_example =
    each_item-FirstFailure non_empty 0 (str (codes "a") ∷ str [] ∷ [])
      (constraint (too_short (pos 1)) (index 1 ∷ [])) second_fails

abbrev loop_object : Object
loop_object =
    object (codes "loop") false (
      property (codes "next") (ref_schema (codes "loop") [] (some 0)) (rules false [])
        no_properties)

self_reference-diverges_example :
    unserialize floats (loop_object ∷ []) 9 (object_schema loop_object) (str (codes "x"))
    ≡ out_of_fuel
self_reference-diverges_example =
    self_reference-diverges floats (loop_object ∷ []) 9 0 (codes "loop") [] (codes "next") false
      (rules false []) (str (codes "x")) refl refl refl

-- A one-of type with the key 1, and a discriminator given as a uint64.
abbrev empty_object : Schema
empty_object = object_schema (object (codes "empty") false no_properties)

abbrev one_choice : List (Key × Schema)
one_choice = (int_key (pos 1), empty_object) ∷ []

abbrev unserialize_empty : Schema → Value → Result Value
unserialize_empty s v = unserialize_object (λ p w. unserialize floats [] 1 p.type w) [] v

abbrev given_entries : Entries
given_entries = entry (str (codes "kind")) (int uint64 (pos 1)) no_entries

given_found :
    index_string (codes "kind") string_type (entries given_entries) ≡ ok (some (int uint64 (pos 1)))
unfolding index_string find_entry str_eq
given_found = refl

given_not_nil : int uint64 (pos 1) ≢ null
given_not_nil e = cc

given_not_key : asserted_key int_keys (int uint64 (pos 1)) ≡ none
unfolding asserted_key
given_not_key = refl

given_unserialized :
    unserialize_one_of floats unserialize_empty int_keys one_choice
      (codes "kind")
      false
      (map string_type any_type given_entries)
    ≡ ok (of_fields ((codes "kind", int uint64 (pos 1)) ∷ []))
unfolding unserialize_one_of unserialize_object str_eq int_input_mapper wrap_int64 raw_data
    collect_fields delete unserialize_fields check_interdependencies insert add_defaults
given_unserialized = refl

redecoded_discriminator_example :
    validate_one_of
      (λ s v. compatible floats [] 2 s v)
      (λ s v. validate floats [] 2 s v)
      int_keys
      one_choice
      (codes "kind")
      false
      (of_fields ((codes "kind", int uint64 (pos 1)) ∷ []))
    ≡ err (constraint invalid_discriminator_type [])
redecoded_discriminator_example =
    redecoded_discriminator floats unserialize_empty (λ s v. compatible floats [] 2 s v)
      (λ s v. validate floats [] 2 s v) int_keys one_choice (codes "kind") false string_type
      any_type given_entries (int uint64 (pos 1))
      (of_fields ((codes "kind", int uint64 (pos 1)) ∷ []))
      (λ s x u. unserialize_object-of_fields (λ p w. unserialize floats [] 1 p.type w) [] x u)
      given_found given_not_nil given_not_key given_unserialized

abbrev valid_string : Value → Result (Unit {0})
valid_string v = error_of (serialize_string (some (pos 1)) none none v)

non_empty-valid : (v w : Value) → non_empty v ≡ ok w → valid_string w ≡ ok tt
non_empty-valid v w e =
    ap error_of (serialize_string-unserialize_string floats (some (pos 1)) none none v w e)

abbrev two_names : Value
two_names = slice any_type (of_items (str (codes "a") ∷ str (codes "b") ∷ []))

abbrev two_strings : Value
two_strings = slice string_type (of_items (str (codes "a") ∷ str (codes "b") ∷ []))

two_names_run :
    unserialize_list (ok string_type) non_empty (some (pos 2)) none two_names ≡ ok two_strings
unfolding unserialize_list check_length each_item unserialize_item unserialize_string
    string_input_mapper check_string assign type_eq
two_names_run = refl

validate_list-unserialize_list_example :
    validate_list valid_string (some (pos 2)) none two_strings ≡ ok tt
validate_list-unserialize_list_example =
    validate_list-unserialize_list (ok string_type) non_empty valid_string (some (pos 2)) none
      two_names two_strings non_empty-valid two_names_run
