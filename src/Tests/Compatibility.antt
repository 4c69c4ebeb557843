-- ===== src/Tests/Compatibility.antt =====
-- The compatibility of schemas with concrete bounds.
use arcaflow_plugin_sdk_go.Common.{
  pos, none, some, ◌≡◌, ◌↔◌, arith, ℕ, zero, suc, ◌<◌, codes, [], ◌∷◌, All, refl, lookup, str_eq,
  get_elem?, subst, some_injective,
}
use arcaflow_plugin_sdk_go.Go.Result.{ok, err, panic, constraint, incompatible}
use arcaflow_plugin_sdk_go.Schema.Types.{
  int_schema, float_schema, string_schema, int_enum, string_enum, object_schema, object_properties,
  root_object, Object,
}
use arcaflow_plugin_sdk_go.Schema.Tree.WellFormed.{depth}
use arcaflow_plugin_sdk_go.Schema.Compatibility.{
  compatible_int_schema, compatible_string_schema, compatible_float_schema,
}
use arcaflow_plugin_sdk_go.Schema.Compatibility.Bounds.{half_bounded-panics}
use arcaflow_plugin_sdk_go.Schema.Compatibility.Enums.{
  compatible_int_enum, compatible_string_enum, same_int, same_string,
}
use arcaflow_plugin_sdk_go.Schema.Compatibility.EnumNames.{KnownUpToUnnamed, compatible_enum_iff}
use arcaflow_plugin_sdk_go.Schema.Compatibility.Objects.{
  SameId, Accepted, Present, compatible_objects_iff,
}
use arcaflow_plugin_sdk_go.Schema.Compatibility.Whole.{compatible_schema}
use arcaflow_plugin_sdk_go.Schema.Compatibility.Reflexive.{
  Comparable, ComparableObject, ComparableStore, compatible_schema_self,
}
use arcaflow_plugin_sdk_go.Tests.Samples.{
  floats, node, nodes, node_scope, node_rank, nodes-WellFormed,
}

half_bounded-panics_example :
    (compatible_int_schema (some (pos 1)) none (int_schema none (some (pos 9)) none) ≡ panic)
    × (compatible_int_schema none (some (pos 9)) (int_schema (some (pos 1)) none none) ≡ panic)
    × (compatible_string_schema (some (pos 1)) none (string_schema none (some (pos 9)) none)
        ≡ panic)
    × (compatible_string_schema none (some (pos 9)) (string_schema (some (pos 1)) none none)
        ≡ panic)
    × (compatible_float_schema floats (some 1) none (float_schema none (some 9) none) ≡ panic)
    × (compatible_float_schema floats none (some 9) (float_schema (some 1) none none) ≡ panic)
half_bounded-panics_example = half_bounded-panics floats (pos 1) (pos 9) 1 9 none none

-- An enum of one value without a name accepts an enum with that value first, whatever comes behind it, but not
-- the same values in another order.
enum_order :
    (compatible_int_enum
        ((pos 1, none) ∷ [])
        (ok tt)
        (int_enum ((pos 1, none) ∷ (pos 2, none) ∷ []) none)
      ≡ ok tt)
    × (compatible_int_enum
          ((pos 1, none) ∷ [])
          (ok tt)
          (int_enum ((pos 2, none) ∷ (pos 1, none) ∷ []) none)
        ≡ err (constraint incompatible []))
unfolding compatible_int_enum
enum_order = (refl, refl)

compatible_enum_iff_example :
    ((compatible_int_enum
          ((pos 1, some (codes "one")) ∷ [])
          (ok tt)
          (int_enum ((pos 1, some (codes "one")) ∷ (pos 2, none) ∷ []) none)
        ≡ ok tt)
      ↔ KnownUpToUnnamed same_int
          ((pos 1, some (codes "one")) ∷ [])
          ((pos 1, some (codes "one")) ∷ (pos 2, none) ∷ []))
    × ((compatible_string_enum
            ((codes "a", none) ∷ [])
            (ok tt)
            (string_enum ((codes "a", none) ∷ (codes "b", none) ∷ []))
          ≡ ok tt)
        ↔ KnownUpToUnnamed same_string
            ((codes "a", none) ∷ [])
            ((codes "a", none) ∷ (codes "b", none) ∷ []))
compatible_enum_iff_example =
    compatible_enum_iff ((pos 1, some (codes "one")) ∷ [])
      ((pos 1, some (codes "one")) ∷ (pos 2, none) ∷ []) ((codes "a", none) ∷ [])
      ((codes "a", none) ∷ (codes "b", none) ∷ []) none (ok tt)

compatible_objects_iff_example :
    (compatible_schema floats nodes 3 (object_schema node) (object_schema node) ≡ ok tt) ↔ (
      SameId node node
      × All
          (Accepted (λ r s. compatible_schema floats nodes 2 r s) (object_properties node))
          (object_properties node)
      × All (Present (object_properties node)) (object_properties node))
compatible_objects_iff_example = compatible_objects_iff floats nodes 2 node node

node-Comparable : ComparableObject floats nodes node
unfolding Comparable lookup str_eq
node-Comparable = (tt, refl, (tt, refl, tt))

Comparable-at : (a : ℕ) (o : Object) → get_elem? nodes a ≡ some o → ComparableObject floats nodes o
Comparable-at zero o e = subst (ComparableObject floats nodes) (some_injective e) node-Comparable
Comparable-at (suc a) o e = absurd (cc)

nodes-Comparable : ComparableStore floats nodes node_rank
nodes-Comparable = record { comparable = Comparable-at; ranked = nodes-WellFormed.ranked }

node_scope-Comparable : Comparable floats nodes node_scope
unfolding Comparable root_object lookup str_eq
node_scope-Comparable = (node, refl)

node_scope-below : depth node_rank node_scope < 4
unfolding depth lookup str_eq
node_scope-below = omega arith

compatible_schema_self_example : compatible_schema floats nodes 4 node_scope node_scope ≡ ok tt
compatible_schema_self_example =
    compatible_schema_self floats nodes node_rank nodes-Comparable 4 node_scope
      node_scope-Comparable node_scope-below
