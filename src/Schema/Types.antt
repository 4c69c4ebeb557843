-- ===== src/Schema/Types.antt =====
-- The data model of a schema: schema/types.go and the struct of each type. A pointer to a property or
-- a type is the tree below it. A RefSchema's cached object is an address in a store, since the objects
-- of a scope are shared by all references to them, and a scope holds such addresses.
use arcaflow_plugin_sdk_go.Common.{
  ℕ, ℤ, Bytes, str_eq, Bool, List, [], ◌∷◌, Option, none, some, get_elem?, if◌then◌else◌, lookup,
}
use arcaflow_plugin_sdk_go.Go.Value.{
  Value, GoType, any_type, bool_type, regexp_type, string_type, float64_type, int_type, int64,
  slice_type, map_type, string_map, comparable,
}
use arcaflow_plugin_sdk_go.Go.Result.{Result, ok, panic, ◌>>=◌}

-- What a number's schema needs of the UnitsDefinition it points to: `ParseInt` and
-- `ParseFloat`, which may panic.
pub record UnitsParser : Type 0 where
  pub parse_int : Bytes → Result ℤ
  pub parse_float : Bytes → Result ℕ

-- The fields of a PropertySchema but its type and its texts. The default is the value of the JSON text.
pub record Rules : Type 0 where
  pub required : Bool
  pub required_if : List Bytes
  pub required_if_not : List Bytes
  pub conflicts : List Bytes
  pub default_value : Option Value
  pub disabled : Bool

-- The key of a one-of type: `OneOfSchema[int64]` or `OneOfSchema[string]`.
pub data KeyType : Type 0 where
  int_keys string_keys : KeyType

pub data Key : Type 0 where
  int_key : ℤ → Key
  string_key : Bytes → Key

-- `compiles` says which texts `regexp.Compile` accepts. Lengths and bounds are `*int64`, where nil sets no bound. An enum's value has the name of its display,
-- where it has one.
mutual
  pub data Schema : Type 0 where
    int_schema : (min max : Option ℤ) → Option UnitsParser → Schema
    float_schema : (min max : Option ℕ) → Option UnitsParser → Schema
    string_schema : (min max : Option ℤ) → (pattern : Option (Bytes → Bool)) → Schema
    bool_schema : Schema
    pattern_schema : (compiles : Bytes → Bool) → Schema
    int_enum : List (ℤ × Option Bytes) → Option UnitsParser → Schema
    string_enum : List (Bytes × Option Bytes) → Schema
    list_schema : Schema → (min max : Option ℤ) → Schema
    map_schema : (keys values : Schema) (min max : Option ℤ) → Schema
    any_schema : Schema
    object_schema : Object → Schema
    ref_schema : (id namespace : Bytes) → Option ℕ → Schema
    scope_schema : List (Bytes × ℕ) → (root : Bytes) → Schema
    one_of_schema : KeyType → Choices → (discriminator : Bytes) (inlined : Bool) → Schema

  -- An ObjectSchema that is not tied to a struct (its `fieldCache` is nil).
  pub data Object : Type 0 where
    object : (id : Bytes) (id_unenforced : Bool) → Properties → Object

  pub data Properties : Type 0 where
    no_properties : Properties
    property : Bytes → Schema → Rules → Properties → Properties

  pub data Choices : Type 0 where
    no_choices : Choices
    choice : Key → Schema → Choices → Choices

pub record Property : Type 0 where
  pub type : Schema
  pub rules : Rules

abbrev pub properties : Properties → List (Bytes × Property)
properties no_properties = []
properties (property name t r ps) = (name, record { type = t; rules = r }) ∷ properties ps

-- The keys of ValidValuesMap.
abbrev pub enum_values {ℓ} : {A : Type ℓ} → List (A × Option Bytes) → List A
enum_values [] = []
enum_values ((a, display) ∷ vs) = a ∷ enum_values vs

abbrev pub choices : Choices → List (Key × Schema)
choices no_choices = []
choices (choice k s cs) = (k, s) ∷ choices cs

abbrev pub object_id : Object → Bytes
object_id (object id unenforced ps) = id

abbrev pub object_properties : Object → List (Bytes × Property)
object_properties (object id unenforced ps) = properties ps

abbrev pub Store : Type 0
Store = List Object

-- RootObject: it panics where the object is missing or has another ID than its key.
unfoldable pub root_object : Store → List (Bytes × ℕ) → Bytes → Result Object
root_object store objects root = elim (lookup root objects) [
  | none ↦ panic
  | some a ↦ elim (get_elem? store a) [
    | none ↦ panic
    | some o ↦ if str_eq (object_id o) root then ok o else panic
  ]
]

-- The object that a reference is linked to; every method of RefSchema panics where there is none.
unfoldable pub linked_object : Store → Option ℕ → Result Object
linked_object store none = panic
linked_object store (some a) = elim (get_elem? store a) [ none ↦ panic | some o ↦ ok o ]

-- reflect.MapOf
abbrev pub map_of : GoType → GoType → Result GoType
map_of tk tv = if comparable tk then ok (map_type tk tv) else panic

-- ReflectedType. That of an object is `map[string]any`, and a one-of type has no interface type.
unfoldable pub reflected_type : Store → Schema → Result GoType
unfolding root_object linked_object
reflected_type store (int_schema lo hi u) = ok (int_type int64)
reflected_type store (float_schema lo hi u) = ok float64_type
reflected_type store (string_schema lo hi p) = ok string_type
reflected_type store bool_schema = ok bool_type
reflected_type store (pattern_schema compiles) = ok regexp_type
reflected_type store (int_enum vs u) = ok (int_type int64)
reflected_type store (string_enum vs) = ok string_type
reflected_type store (list_schema s lo hi) = do t ← reflected_type store s; ok (slice_type t)
reflected_type store (map_schema k v lo hi) = do
  tk ← reflected_type store k
  tv ← reflected_type store v
  map_of tk tv
reflected_type store any_schema = ok any_type
reflected_type store (object_schema o) = ok string_map
reflected_type store (ref_schema id ns link) = do o ← linked_object store link; ok string_map
reflected_type store (scope_schema objects root) = do
  o ← root_object store objects root
  ok string_map
reflected_type store (one_of_schema k cs d inlined) = ok any_type
