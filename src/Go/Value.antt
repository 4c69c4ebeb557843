-- ===== src/Go/Value.antt =====
-- The values that an `any` of the program holds, with their dynamic types. Values of defined types
-- are taken at their underlying kind; a `*regexp.Regexp` is given by its text, and all other values (structs,
-- pointers, channels, functions) are `other`, which the code treats alike.
use arcaflow_plugin_sdk_go.Common.{
  ℕ, ℤ, eqb_ℤ, Bytes, str_eq, Bool, true, false, ◌&&◌, List, [], ◌∷◌, Option, none, some,
  if◌then◌else◌, ◌≡◌, ◌==◌, ==_iff, &&-eq-true, refl, sym, ap, ◌∙◌, arith,
}

-- reflect.Kind of the integers.
pub data IntKind : Type 0 where
  int int8 int16 int32 int64 uint uint8 uint16 uint32 uint64 : IntKind

pub data GoType : Type 0 where
  any_type bool_type string_type float32_type float64_type regexp_type other_type : GoType
  int_type : IntKind → GoType
  slice_type : GoType → GoType
  map_type : GoType → GoType → GoType

-- A float is given by its bits. The second argument of `slice` and the last of `map` hold the
-- elements and the entries, a map's in the order in which a range loop visits them.
mutual
  pub data Value : Type 0 where
    null : Value
    bool : Bool → Value
    str : Bytes → Value
    int : IntKind → ℤ → Value
    float32 float64 : ℕ → Value
    slice : GoType → Items → Value
    map : (key elem : GoType) → Entries → Value
    regexp : Bytes → Value
    other : ℕ → Value

  pub data Items : Type 0 where
    no_items : Items
    item : Value → Items → Items

  pub data Entries : Type 0 where
    no_entries : Entries
    entry : (key value : Value) → Entries → Entries

abbrev pub items : Items → List Value
items no_items = []
items (item v vs) = v ∷ items vs

abbrev pub of_items : List Value → Items
of_items [] = no_items
of_items (v ∷ vs) = item v (of_items vs)

abbrev pub entries : Entries → List (Value × Value)
entries no_entries = []
entries (entry k v es) = (k, v) ∷ entries es

abbrev pub of_entries : List (Value × Value) → Entries
of_entries [] = no_entries
of_entries ((k, v) ∷ es) = entry k v (of_entries es)

-- `map[string]any`
abbrev pub string_map : GoType
string_map = map_type string_type any_type

abbrev pub field_entries : List (Bytes × Value) → List (Value × Value)
field_entries [] = []
field_entries ((k, v) ∷ m) = (str k, v) ∷ field_entries m

-- A `map[string]any` with these fields.
abbrev pub of_fields : List (Bytes × Value) → Value
of_fields m = map string_type any_type (of_entries (field_entries m))

-- The fields of a `map[string]any`, whose keys are strings.
abbrev pub fields : List (Value × Value) → List (Bytes × Value)
fields [] = []
fields ((str k, v) ∷ es) = (k, v) ∷ fields es
fields (_ ∷ es) = fields es

-- reflect.TypeOf, which has no answer for nil.
abbrev pub type_of : Value → Option GoType
type_of null = none
type_of (bool b) = some bool_type
type_of (str s) = some string_type
type_of (int k z) = some (int_type k)
type_of (float32 x) = some float32_type
type_of (float64 x) = some float64_type
type_of (slice t vs) = some (slice_type t)
type_of (map k t es) = some (map_type k t)
type_of (regexp s) = some regexp_type
type_of (other n) = some other_type

abbrev pub int_kind_code : IntKind → ℕ
int_kind_code int = 0
int_kind_code int8 = 1
int_kind_code int16 = 2
int_kind_code int32 = 3
int_kind_code int64 = 4
int_kind_code uint = 5
int_kind_code uint8 = 6
int_kind_code uint16 = 7
int_kind_code uint32 = 8
int_kind_code uint64 = 9

unfoldable pub int_kind_eq : IntKind → IntKind → Bool
int_kind_eq a b = int_kind_code a == int_kind_code b

-- Identity of types.
unfoldable pub type_eq : GoType → GoType → Bool
unfolding int_kind_eq
type_eq any_type any_type = true
type_eq bool_type bool_type = true
type_eq string_type string_type = true
type_eq float32_type float32_type = true
type_eq float64_type float64_type = true
type_eq regexp_type regexp_type = true
type_eq other_type other_type = true
type_eq (int_type a) (int_type b) = int_kind_eq a b
type_eq (slice_type a) (slice_type b) = type_eq a b
type_eq (map_type a b) (map_type c d) = type_eq a c && type_eq b d
type_eq _ _ = false

pub type_eq_refl : (t : GoType) → type_eq t t ≡ true
unfolding type_eq
type_eq_refl any_type = refl
type_eq_refl (int_type int) = refl
type_eq_refl (int_type _) = refl
type_eq_refl (slice_type a) = type_eq_refl a
type_eq_refl (map_type a b) = ground (arith, type_eq_refl a, type_eq_refl b)
type_eq_refl _ = refl

-- Whether `==` is defined on the values of a type, as for the keys of a map.
abbrev pub comparable : GoType → Bool
comparable (slice_type t) = false
comparable (map_type a b) = false
comparable _ = true

-- The kind with this code.
abbrev of_code : ℕ → IntKind
of_code n =
    if n == 0
    then IntKind.int
    else if n == 1
    then IntKind.int8
    else if n == 2
    then IntKind.int16
    else if n == 3
    then IntKind.int32
    else if n == 4
    then IntKind.int64
    else if n == 5
    then IntKind.uint
    else if n == 6
    then IntKind.uint8
    else if n == 7
    then IntKind.uint16
    else if n == 8
    then IntKind.uint32
    else uint64

of_code-int_kind_code : (k : IntKind) → of_code (int_kind_code k) ≡ k
of_code-int_kind_code IntKind.int = refl
of_code-int_kind_code _ = refl

int_kind_eq→eq : (j k : IntKind) → int_kind_eq j k ≡ true → j ≡ k
unfolding int_kind_eq
int_kind_eq→eq j k h =
    sym (of_code-int_kind_code j)
    ∙ ap of_code ((==_iff (int_kind_code j) (int_kind_code k)).0 h)
    ∙ of_code-int_kind_code k

pub type_eq→eq : (a b : GoType) → type_eq a b ≡ true → a ≡ b
unfolding type_eq
type_eq→eq any_type any_type h = refl
type_eq→eq bool_type bool_type h = refl
type_eq→eq string_type string_type h = refl
type_eq→eq float32_type float32_type h = refl
type_eq→eq float64_type float64_type h = refl
type_eq→eq regexp_type regexp_type h = refl
type_eq→eq other_type other_type h = refl
type_eq→eq (int_type a) (int_type b) h = ap int_type (int_kind_eq→eq a b h)
type_eq→eq (slice_type a) (slice_type b) h = ap slice_type (type_eq→eq a b h)
type_eq→eq (map_type a b) (map_type c d) h =
    let both = &&-eq-true (type_eq a c) (type_eq b d) h in
    rw (type_eq→eq a c (both.0), type_eq→eq b d (both.1)) refl
type_eq→eq _ _ h = cc

-- Equality of the values that may be map keys. Two NaN are not equal, and the model's keys are never
-- slices or maps, which Go does not hash.
module _ (float_eq : ℕ → ℕ → Bool) where
  unfoldable pub key_eq : Value → Value → Bool
  key_eq null null = true
  key_eq (bool true) (bool true) = true
  key_eq (bool false) (bool false) = true
  key_eq (str s) (str t) = str_eq s t
  key_eq (int j a) (int k b) = int_kind_eq j k && eqb_ℤ a b
  key_eq (float32 x) (float32 y) = float_eq x y
  key_eq (float64 x) (float64 y) = float_eq x y
  key_eq (other m) (other n) = m == n
  key_eq _ _ = false

  -- `m[k] = v`
  unfoldable pub set_entry : Value → Value → List (Value × Value) → List (Value × Value)
  set_entry k v [] = (k, v) ∷ []
  set_entry k v ((j, w) ∷ m) = if key_eq j k then (j, v) ∷ m else (j, w) ∷ set_entry k v m
