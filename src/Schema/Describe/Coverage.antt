-- ===== src/Schema/Describe/Coverage.antt =====
-- schema/schema_schema.go: which types the schema of schemas describes.
use arcaflow_plugin_sdk_go.Common.{
  ℕ, ℤ, Bytes, codes, str_eq, Bool, List, [], ◌∷◌, ◌↔◌, Option, some, lookup, get_elem?, insert,
  ◌≡◌, refl,
}
use arcaflow_plugin_sdk_go.Go.Result.{ok}
use arcaflow_plugin_sdk_go.Go.Convert.{Floats}
use arcaflow_plugin_sdk_go.Schema.Types.{
  Schema, int_schema, string_schema, int_enum, string_enum, map_schema, one_of_schema, int_keys,
  string_keys, string_key, Key, Object, object_id, choices,
}
use arcaflow_plugin_sdk_go.Schema.OneOf.{find_type}
use arcaflow_plugin_sdk_go.Schema.Function.{type_id}
use arcaflow_plugin_sdk_go.Schema.Scope.{add_objects, new_map_schema}
use arcaflow_plugin_sdk_go.Schema.Describe.Types.{value_type, map_key_type, new_ref_schema}
use arcaflow_plugin_sdk_go.Schema.Describe.Scopes.{
  described_objects, basic_addresses, scope_address,
}

-- The types that a one-of type offers, by their IDs.
abbrev pub offered : Schema → List (Key × Schema)
offered (one_of_schema kt cs d inlined) = choices cs
offered s = []

module _ (fl : Floats) (compiles : Bytes → Bool) where
  -- A reference among the types, to an object that the scope of DescribeScope has under its ID.
  abbrev pub Described : Schema → Bytes → Type 0
  Described types id =
      (target : Bytes) × (find_type (string_key id) (offered types) ≡ some (new_ref_schema target))
      × (m : List (Bytes × ℕ)) × (add_objects (described_objects fl compiles)
            ((codes "Scope", scope_address) ∷ []) basic_addresses
          ≡ ok m)
      × (a : ℕ) × (lookup target m ≡ some a)
      × (o : Object) × (get_elem? (described_objects fl compiles) a ≡ some o)
      × (object_id o ≡ target)

  value_type-Described : (s : Schema) → Described value_type (type_id s)
  unfolding type_id find_type add_objects described_objects lookup insert str_eq
  value_type-Described (int_schema lo hi u) = (_, refl, _, refl, _, refl, _, refl, refl)
  value_type-Described (one_of_schema int_keys cs d i) = (_, refl, _, refl, _, refl, _, refl, refl)
  value_type-Described (one_of_schema string_keys cs d i) =
      (_, refl, _, refl, _, refl, _, refl, refl)
  value_type-Described _ = (_, refl, _, refl, _, refl, _, refl, refl)

-- Integers, strings and enums
abbrev pub MayBeKey : Schema → Type 0
MayBeKey (int_schema lo hi u) = Unit
MayBeKey (string_schema lo hi p) = Unit
MayBeKey (int_enum vs u) = Unit
MayBeKey (string_enum vs) = Unit
MayBeKey s = ⊥

-- Integers and strings
abbrev pub HasKeyDescription : Schema → Type 0
HasKeyDescription (int_schema lo hi u) = Unit
HasKeyDescription (string_schema lo hi p) = Unit
HasKeyDescription s = ⊥

abbrev pub Offers : Schema → Bytes → Type 0
Offers types id = (s : Schema) × (find_type (string_key id) (offered types) ≡ some s)

-- NewMapSchema returns the map, or mapKeyType offers the type ID.
map_keys :
    (s values : Schema) (lo hi : Option ℤ)
    → ((new_map_schema s values lo hi ≡ ok (map_schema s values lo hi)) ↔ MayBeKey s)
      × (Offers map_key_type (type_id s) ↔ HasKeyDescription s)
unfolding new_map_schema type_id find_type str_eq
map_keys (int_schema a b u) v lo hi = ((λ h. tt, λ h. refl), (λ h. tt, λ h. (_, refl)))
map_keys (string_schema a b p) v lo hi = ((λ h. tt, λ h. refl), (λ h. tt, λ h. (_, refl)))
map_keys (int_enum vs u) v lo hi = ((λ h. tt, λ h. refl), (λ h. cc (h.1), λ h. elim h [ ]))
map_keys (string_enum vs) v lo hi = ((λ h. tt, λ h. refl), (λ h. cc (h.1), λ h. elim h [ ]))
map_keys (one_of_schema int_keys cs d i) v lo hi =
    ((λ h. cc, λ h. elim h [ ]), (λ h. cc (h.1), λ h. elim h [ ]))
map_keys (one_of_schema string_keys cs d i) v lo hi =
    ((λ h. cc, λ h. elim h [ ]), (λ h. cc (h.1), λ h. elim h [ ]))
map_keys _ v lo hi = ((λ h. cc, λ h. elim h [ ]), (λ h. cc (h.1), λ h. elim h [ ]))

-- For every schema, valueType has its type ID, with a reference whose object the scope of DescribeScope holds.
-- NewMapSchema returns a map with these keys exactly for integers, strings and enums, but mapKeyType,
-- by which the keys of a map are described, has the type ID exactly for integers and strings.
pub Described-types :
    (fl : Floats) (compiles : Bytes → Bool) (s values : Schema) (lo hi : Option ℤ)
    → Described fl compiles value_type (type_id s)
      × ((new_map_schema s values lo hi ≡ ok (map_schema s values lo hi)) ↔ MayBeKey s)
      × (Offers map_key_type (type_id s) ↔ HasKeyDescription s)
Described-types fl compiles s values lo hi =
    let keys = map_keys s values lo hi in (value_type-Described fl compiles s, keys.0, keys.1)
