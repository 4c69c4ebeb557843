-- ===== src/Schema/Scalar.antt =====
-- schema/int.go, float.go, string.go, bool.go, enum.go, enum_int.go, enum_string.go: the types that
-- hold a single value.
pub mod Exactness
pub mod Safety
pub mod Text
use arcaflow_plugin_sdk_go.Common.{
  ℕ, ◌+◌, ◌-◌, ◌^◌, ℤ, pos, negsuc, ltb_ℤ, eqb_ℤ, wrap_int64, Bytes, codes, str_eq, Bool, true,
  false, not, ◌&&◌, ◌||◌, List, [], ◌∷◌, any, length, Option, none, some, ltb, leb, ◌==◌,
  if◌then◌else◌, ◌≡◌, refl, lookup,
}
use arcaflow_plugin_sdk_go.Go.Value.{
  Value, null, bool, str, int, float32, float64, slice, map, other, IntKind, int64, uint64,
}
use arcaflow_plugin_sdk_go.Go.Result.{
  Result, ok, err, panic, ◌>>=◌, ◌>>◌, ensure, constraint, plain, at_least, at_most, at_least_float,
  at_most_float, too_short, too_long, pattern_mismatch, not_a_valid_type, invalid_enum_value,
}
use arcaflow_plugin_sdk_go.Go.Text.{format_int, parse_int}
use arcaflow_plugin_sdk_go.Go.Convert.{
  Floats, convert_int64, convert_float64, convert_string, convert_bool,
}
use arcaflow_plugin_sdk_go.Schema.Types.{UnitsParser}

-- The result of reading a text, where `none` is an error.
abbrev of_option {ℓ} : {A : Type ℓ} → Option A → Result A
of_option none = err plain
of_option (some a) = ok a

-- `dValue.CanConvert(t)` and `dValue.Convert(t)`; on a nil value `CanConvert` panics.
abbrev pub converted {ℓ} : {A : Type ℓ} → Value → Option A → Result A
converted null m = panic
converted v none = err (constraint not_a_valid_type [])
converted v (some a) = ok a

module _ (fl : Floats) where
  -- int.go: intInputMapper
  unfoldable pub int_input_mapper : Value → Option UnitsParser → Result ℤ
  int_input_mapper (str s) none = of_option (parse_int s)
  int_input_mapper (str s) (some u) = u.parse_int s
  int_input_mapper (int int64 z) u = ok z
  int_input_mapper (int uint64 z) u =
      if ltb_ℤ (pos (2 ^ 63 - 1)) z then err plain else ok (wrap_int64 z)
  int_input_mapper (int k z) u = ok (wrap_int64 z)
  int_input_mapper (float64 x) u =
      let i = fl.to_int x in if fl.eq x (fl.of_int i) then ok i else err plain
  int_input_mapper (float32 x) u =
      let i = fl.to_int32 x in if fl.eq x (fl.of_int32 i) then ok i else err plain
  int_input_mapper (bool true) u = ok (pos 1)
  int_input_mapper (bool false) u = ok (pos 0)
  int_input_mapper _ u = err plain

  -- int.go: asInt
  unfoldable pub as_int : Value → Result ℤ
  unfolding convert_int64
  as_int (int int64 z) = ok z
  as_int v = converted v (convert_int64 fl v)

  -- float.go: floatInputMapper
  unfoldable pub float_input_mapper : Value → Option UnitsParser → Result ℕ
  float_input_mapper (str s) none = of_option (fl.parse s)
  float_input_mapper (str s) (some u) = u.parse_float s
  float_input_mapper (int k z) u = ok (fl.of_int z)
  float_input_mapper (float64 x) u = ok x
  float_input_mapper (float32 x) u = ok (fl.widen x)
  float_input_mapper (bool true) u = ok (fl.of_int (pos 1))
  float_input_mapper (bool false) u = ok (fl.of_int (pos 0))
  float_input_mapper _ u = err plain

  -- float.go: asFloat
  unfoldable pub as_float : Value → Result ℕ
  unfolding convert_float64
  as_float (float64 x) = ok x
  as_float v = converted v (convert_float64 fl v)

  -- string.go: stringInputMapper
  unfoldable pub string_input_mapper : Value → Result Bytes
  string_input_mapper (str s) = ok s
  string_input_mapper (int k z) = ok (format_int z)
  string_input_mapper (float64 x) = ok (fl.format x)
  string_input_mapper (float32 x) = ok (fl.format32 x)
  string_input_mapper _ = err plain

-- string.go: asString
unfoldable pub as_string : Value → Result Bytes
unfolding convert_string
as_string (str s) = ok s
as_string v = converted v (convert_string v)

-- bool.go: asBool
unfoldable pub as_bool : Value → Result Bool
unfolding convert_bool
as_bool (bool b) = ok b
as_bool v = converted v (convert_bool v)

-- A bound that is nil admits everything.
abbrev pub within {ℓ} : {A : Type ℓ} → (A → Bool) → Option A → Bool
within p none = true
within p (some b) = p b

abbrev pub bound : Option ℤ → ℤ
bound none = pos 0
bound (some b) = b

abbrev pub bits : Option ℕ → ℕ
bits none = 0
bits (some b) = b

-- The checks of `IntSchema.Serialize`.
unfoldable pub check_int : Option ℤ → Option ℤ → ℤ → Result ℤ
check_int lo hi z = do
  ensure (within (λ b. not (ltb_ℤ z b)) lo) (at_least (bound lo))
  ensure (within (λ b. not (ltb_ℤ b z)) hi) (at_most (bound hi))
  ok z

-- The checks of `StringSchema.ValidateType` and `Serialize`: the length is in bytes.
unfoldable pub check_string : Option ℤ → Option ℤ → Option (Bytes → Bool) → Bytes → Result Bytes
check_string lo hi pattern s = do
  ensure (within (λ b. not (ltb_ℤ (pos (length s)) b)) lo) (too_short (bound lo))
  ensure (within (λ b. not (ltb_ℤ b (pos (length s)))) hi) (too_long (bound hi))
  ensure (within (λ m. m s) pattern) pattern_mismatch
  ok s

-- bool.go: boolStringValues
abbrev bool_string_values : List (Bytes × Bool)
bool_string_values =
    (codes "1", true)
    ∷ (codes "yes", true)
    ∷ (codes "y", true)
    ∷ (codes "on", true)
    ∷ (codes "true", true)
    ∷ (codes "enable", true)
    ∷ (codes "enabled", true)
    ∷ (codes "0", false)
    ∷ (codes "no", false)
    ∷ (codes "n", false)
    ∷ (codes "off", false)
    ∷ (codes "false", false)
    ∷ (codes "disable", false)
    ∷ (codes "disabled", false)
    ∷ []

abbrev lower : ℕ → ℕ
lower c = if leb b'A' c && leb c b'Z' then c + 32 else c

-- strings.ToLower, as far as a table of ASCII keys can tell: of the other letters only U+0130 and
-- U+212A have ASCII lower case, `i` and `k`.
unfoldable pub to_lower : Bytes → Bytes
to_lower [] = []
to_lower (c ∷ []) = lower c ∷ []
to_lower (c ∷ d ∷ []) = if c == 0xc4 && d == 0xb0 then b'i' ∷ [] else lower c ∷ lower d ∷ []
to_lower (c ∷ d ∷ e ∷ s) =
    let dotted_i = b'i' ∷ to_lower (e ∷ s) in
    let kelvin = b'k' ∷ to_lower s in
    let rest = lower c ∷ to_lower (d ∷ e ∷ s) in
    if c == 0xc4 && d == 0xb0
    then dotted_i
    else if c == 0xe2 && d == 0x84 && e == 0xaa
    then kelvin
    else rest

-- The closure `intConverter`.
unfoldable pub int_to_bool : ℤ → Result Bool
int_to_bool z = if eqb_ℤ z (pos 1) then ok true else if eqb_ℤ z (pos 0) then ok false else err plain

module _ (fl : Floats) where
  unfoldable pub unserialize_int : Option ℤ → Option ℤ → Option UnitsParser → Value → Result Value
  unserialize_int lo hi u v = do
    z ← int_input_mapper fl v u
    checked ← check_int lo hi z
    ok (int int64 z)

  unfoldable pub serialize_int : Option ℤ → Option ℤ → Value → Result Value
  serialize_int lo hi v = do z ← as_int fl v; checked ← check_int lo hi z; ok (int int64 checked)

  unfoldable pub serialize_float : Option ℕ → Option ℕ → Value → Result Value
  serialize_float lo hi v = do
    x ← as_float fl v
    ensure (within (λ b. not (fl.lt x b)) lo) (at_least_float (bits lo))
    ensure (within (λ b. not (fl.lt b x)) hi) (at_most_float (bits hi))
    ok (float64 x)

  unfoldable pub unserialize_float : Option ℕ → Option ℕ → Option UnitsParser → Value → Result Value
  unfolding serialize_float as_float
  unserialize_float lo hi u v = do
    x ← float_input_mapper fl v u
    checked ← serialize_float lo hi (float64 x)
    ok (float64 x)

  unfoldable pub unserialize_string :
      Option ℤ → Option ℤ → Option (Bytes → Bool) → Value → Result Value
  unserialize_string lo hi pattern v = do
    s ← string_input_mapper fl v
    checked ← check_string lo hi pattern s
    ok (str s)

unfoldable pub serialize_string : Option ℤ → Option ℤ → Option (Bytes → Bool) → Value → Result Value
serialize_string lo hi pattern v = do
  s ← as_string v
  checked ← check_string lo hi pattern s
  ok (str checked)

unfoldable pub unserialize_bool : Value → Result Value
unfolding to_lower int_to_bool
unserialize_bool (bool b) = ok (bool b)
unserialize_bool (str s) = elim (lookup (to_lower s) bool_string_values) [
  | none ↦ err plain
  | some b ↦ ok (bool b)
]
unserialize_bool (int k z) = do b ← int_to_bool (wrap_int64 z); ok (bool b)
unserialize_bool _ = err plain

unfoldable pub serialize_bool : Value → Result Value
serialize_bool v = do b ← as_bool v; ok (bool b)

-- enum.go: ValidateType, at both types of values
unfoldable pub check_int_enum : List ℤ → ℤ → Result (Unit {0})
check_int_enum valid z = ensure (any (λ a. eqb_ℤ a z) valid) (invalid_enum_value (int int64 z))

unfoldable pub check_string_enum : List Bytes → Bytes → Result (Unit {0})
check_string_enum valid s = ensure (any (λ a. str_eq a s) valid) (invalid_enum_value (str s))

-- An error of the mapper becomes a ConstraintError.
abbrev pub mapped {ℓ} : {A : Type ℓ} → Result A → Result A
mapped (err e) = err (constraint not_a_valid_type [])
mapped r = r

module _ (fl : Floats) where
  -- enum.go: asType and Validate, at int64
  unfoldable pub serialize_int_enum : List ℤ → Value → Result Value
  unfolding convert_int64
  serialize_int_enum valid v = do
    z ← converted v (convert_int64 fl v)
    check_int_enum valid z
    ok (int int64 z)

  unfoldable pub unserialize_int_enum : List ℤ → Option UnitsParser → Value → Result Value
  unserialize_int_enum valid u v = do
    z ← mapped (int_input_mapper fl v u)
    check_int_enum valid z
    ok (int int64 z)

  unfoldable pub unserialize_string_enum : List Bytes → Value → Result Value
  unserialize_string_enum valid v = do
    s ← mapped (string_input_mapper fl v)
    check_string_enum valid s
    ok (str s)

unfoldable pub serialize_string_enum : List Bytes → Value → Result Value
unfolding convert_string
serialize_string_enum valid v = do
  s ← converted v (convert_string v)
  check_string_enum valid s
  ok (str s)
