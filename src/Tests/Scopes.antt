-- ===== src/Tests/Scopes.antt =====
-- The construction of scopes, and the schema of schemas.
use arcaflow_plugin_sdk_go.Common.{
  pos, negsuc, codes, Bytes, true, [], ◌∷◌, none, lookup, str_eq, ◌≡◌, ◌↔◌, refl,
}
use arcaflow_plugin_sdk_go.Go.Result.{ok, err, constraint, at_least, name}
use arcaflow_plugin_sdk_go.Schema.Types.{
  bool_schema, string_enum, map_schema, object_schema, scope_schema, Object, object_id, root_object,
}
use arcaflow_plugin_sdk_go.Schema.Function.{type_id}
use arcaflow_plugin_sdk_go.Schema.Tree.{unserialize}
use arcaflow_plugin_sdk_go.Schema.Namespace.{Objects, link_ref, validate_scope}
use arcaflow_plugin_sdk_go.Schema.Scope.{new_scope_schema, new_map_schema}
use arcaflow_plugin_sdk_go.Schema.Scope.Ready.{new_scope_schema-Ready}
use arcaflow_plugin_sdk_go.Schema.Describe.Types.{map_key_type, value_type}
use arcaflow_plugin_sdk_go.Schema.Describe.Objects.{int_object}
use arcaflow_plugin_sdk_go.Schema.Describe.Coverage.{
  Described, MayBeKey, Offers, HasKeyDescription, Described-types,
}
use arcaflow_plugin_sdk_go.Schema.Describe.Bounds.{bounded, negative_bound-refused}
use arcaflow_plugin_sdk_go.Tests.Samples.{floats}
use arcaflow_plugin_sdk_go.Tests.Namespace.{loose_store, tied_store, tree_objects, loose-Resolvable}

new_tree :
    new_scope_schema 1 loose_store 0 [] ≡ ok (tied_store, scope_schema tree_objects (codes "tree"))
unfolding new_scope_schema link_ref lookup str_eq
new_tree = refl

new_scope_schema-Ready_example :
    (m : Objects) × (id : Bytes) × (scope_schema tree_objects (codes "tree") ≡ scope_schema m id)
    × (o : Object) × (root_object tied_store m id ≡ ok o)
    × (object_id o ≡ id)
    × (validate_scope 1 tied_store m ≡ ok tt)
new_scope_schema-Ready_example =
    new_scope_schema-Ready 0 0 loose_store tied_store 0 []
      (scope_schema tree_objects (codes "tree")) new_tree loose-Resolvable

Described-types_example :
    Described floats (λ s. true) value_type (type_id (string_enum ((codes "a", none) ∷ [])))
    × ((new_map_schema (string_enum ((codes "a", none) ∷ [])) bool_schema none none
          ≡ ok (map_schema (string_enum ((codes "a", none) ∷ [])) bool_schema none none))
        ↔ MayBeKey (string_enum ((codes "a", none) ∷ [])))
    × (Offers map_key_type (type_id (string_enum ((codes "a", none) ∷ [])))
        ↔ HasKeyDescription (string_enum ((codes "a", none) ∷ [])))
Described-types_example =
    Described-types floats (λ s. true) (string_enum ((codes "a", none) ∷ [])) bool_schema none none

negative_bound-refused_example :
    (unserialize floats [] 2 (object_schema int_object) (bounded (codes "min") (negsuc 4))
      ≡ err (constraint (at_least (pos 0)) (name (codes "min") ∷ [])))
    × (unserialize floats [] 2 (object_schema int_object) (bounded (codes "max") (negsuc 4))
        ≡ err (constraint (at_least (pos 0)) (name (codes "max") ∷ [])))
negative_bound-refused_example = negative_bound-refused floats [] 0 4
