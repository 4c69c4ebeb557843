-- ===== src/Schema/Compatibility.antt =====
-- schema/int.go, float.go, string.go, bool.go, pattern.go: ValidateCompatibility of a scalar type with another schema,
-- which compares the bounds of the two. A bound is a pointer, and nil sets none.
pub mod Bounds
pub mod Enums
pub mod Whole
pub mod EnumNames
pub mod Objects
pub mod Reflexive
use arcaflow_plugin_sdk_go.Common.{
  ℕ, ℤ, ltb_ℤ, [], Bool, true, false, ◌&&◌, Option, none, some, is_some, if◌then◌else◌,
}
use arcaflow_plugin_sdk_go.Go.Result.{
  Result, ok, err, panic, ◌>>=◌, constraint, incompatible, mutually_exclusive,
}
use arcaflow_plugin_sdk_go.Go.Convert.{Floats}
use arcaflow_plugin_sdk_go.Schema.Types.{
  Schema, int_schema, float_schema, string_schema, bool_schema, pattern_schema, int_enum,
  string_enum,
}

-- `*p`
abbrev pub deref {ℓ} : {A : Type ℓ} → Option A → Result A
deref none = panic
deref (some a) = ok a

-- `lo != nil && hi != nil && (*a) < (*b)`
abbrev pub both_set_and_less {ℓ} :
    {A : Type ℓ} → (A → A → Bool) → (lo hi a b : Option A) → Result Bool
both_set_and_less less lo hi a b =
    if is_some lo && is_some hi then (deref a >>= λ x. deref b >>= λ y. ok (less x y)) else ok false

-- The condition on the bounds of a schema and those of the other, whose second half is read where the
-- first is false.
unfoldable pub exclusive {ℓ} :
    {A : Type ℓ} → (A → A → Bool) → (lo hi other_lo other_hi : Option A) → Result Bool
exclusive less lo hi other_lo other_hi = both_set_and_less less lo other_hi hi other_lo >>= λ first.
    if first then ok true else both_set_and_less less hi other_lo other_hi lo

abbrev pub refuse_exclusive : Result Bool → Result (Unit {0})
refuse_exclusive r = r >>= λ b. if b then err (constraint mutually_exclusive []) else ok tt

abbrev pub unsupported : Result (Unit {0})
unsupported = err (constraint incompatible [])

-- IntSchema.ValidateCompatibility of a schema
unfoldable pub compatible_int_schema : (lo hi : Option ℤ) → Schema → Result (Unit {0})
unfolding exclusive
compatible_int_schema lo hi (int_enum vs u) = ok tt
compatible_int_schema lo hi (int_schema a b u) = refuse_exclusive (exclusive ltb_ℤ lo hi a b)
compatible_int_schema lo hi _ = unsupported

-- StringSchema.ValidateCompatibility of a schema
unfoldable pub compatible_string_schema : (lo hi : Option ℤ) → Schema → Result (Unit {0})
unfolding exclusive
compatible_string_schema lo hi (string_enum vs) = ok tt
compatible_string_schema lo hi (string_schema a b p) = refuse_exclusive (exclusive ltb_ℤ lo hi a b)
compatible_string_schema lo hi _ = unsupported

-- FloatSchema.ValidateCompatibility of a schema
unfoldable pub compatible_float_schema : Floats → (lo hi : Option ℕ) → Schema → Result (Unit {0})
unfolding exclusive
compatible_float_schema fl lo hi (float_schema a b u) = refuse_exclusive (exclusive fl.lt lo hi a b)
compatible_float_schema fl lo hi _ = unsupported

-- BoolSchema.ValidateCompatibility of a schema
unfoldable pub compatible_bool_schema : Schema → Result (Unit {0})
compatible_bool_schema bool_schema = ok tt
compatible_bool_schema _ = unsupported

-- PatternSchema.ValidateCompatibility of a schema
unfoldable pub compatible_pattern_schema : Schema → Result (Unit {0})
compatible_pattern_schema (pattern_schema compiles) = ok tt
compatible_pattern_schema _ = unsupported
