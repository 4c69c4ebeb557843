-- ===== src/Schema/Scope.antt =====
-- schema/scope.go and map.go: NewScopeSchema, whose objects are given by their addresses, and
-- NewMapSchema.
pub mod Ready
use arcaflow_plugin_sdk_go.Common.{
  ℕ, ℤ, Bytes, codes, str_eq, Bool, ◌||◌, any, List, [], ◌∷◌, Option, none, insert, get_elem?,
  if◌then◌else◌,
}
use arcaflow_plugin_sdk_go.Go.Result.{Result, ok, panic, ◌>>=◌}
use arcaflow_plugin_sdk_go.Schema.Types.{Schema, map_schema, scope_schema, Object, Store, object_id}
use arcaflow_plugin_sdk_go.Schema.Function.{type_id}
use arcaflow_plugin_sdk_go.Schema.Namespace.{Objects, at_address, apply_scope, self_namespace}

-- The loop that adds the further objects to `objectMap`.
unfoldable pub add_objects : Store → Objects → List ℕ → Result Objects
add_objects st m [] = ok m
add_objects st m (a ∷ others) =
    at_address st a λ o. add_objects st (insert (object_id o) a m) others

-- NewScopeSchema, with ApplySelf
unfoldable pub new_scope_schema : ℕ → Store → (root : ℕ) → List ℕ → Result (Store × Schema)
unfolding add_objects apply_scope
new_scope_schema f st root others = at_address st root λ o. do
  m ← add_objects st ((object_id o, root) ∷ []) others
  st' ← apply_scope f self_namespace [] st m
  ok (st', scope_schema m (object_id o))

abbrev pub key_type_ids : List Bytes
key_type_ids = codes "string" ∷ codes "integer" ∷ codes "enum_string" ∷ codes "enum_integer" ∷ []

-- NewMapSchema
unfoldable pub new_map_schema : (keys values : Schema) (min max : Option ℤ) → Result Schema
unfolding type_id
new_map_schema k v lo hi =
    if any (λ t. str_eq t (type_id k)) key_type_ids then ok (map_schema k v lo hi) else panic
