-- ===== src/Schema/Scalar/Exactness.antt =====
-- schema/int.go, float.go, string.go, bool.go, enum.go: bounds, exactness of the input mapper, and
-- what a value that was unserialized satisfies.
use arcaflow_plugin_sdk_go.Common.{
  ℕ, ◌-◌, ◌^◌, ◌≤◌, ◌<◌, ℤ, pos, negsuc, ◌≤ℤ◌, wrap_int64, wrap_int64_id, IsInt64, Bytes, Bool,
  true, List, length, Option, none, some, ◌≡◌, refl, ◌↔◌, arith, lookup, pos_part, neg_part,
}
use arcaflow_plugin_sdk_go.Go.Value.{
  Value, bool, str, int, IntKind, int8, int16, int32, int64, uint, uint8, uint16, uint32, uint64,
}
use arcaflow_plugin_sdk_go.Go.Result.{ok, err, plain, >>=-eq-ok}
use arcaflow_plugin_sdk_go.Go.Convert.{Floats}
use arcaflow_plugin_sdk_go.Schema.Types.{UnitsParser}
use arcaflow_plugin_sdk_go.Schema.Scalar.{
  int_input_mapper, string_input_mapper, check_int, check_string, as_int, as_float, as_string,
  as_bool, unserialize_int, serialize_int, unserialize_float, serialize_float, unserialize_string,
  serialize_string, unserialize_bool, serialize_bool, unserialize_int_enum, serialize_int_enum,
  unserialize_string_enum, serialize_string_enum, check_int_enum, check_string_enum, mapped,
  to_lower, bool_string_values,
}

abbrev pub AtLeast : Option ℤ → ℤ → Type 0
AtLeast none z = Unit
AtLeast (some b) z = b ≤ℤ z

abbrev pub AtMost : Option ℤ → ℤ → Type 0
AtMost none z = Unit
AtMost (some b) z = z ≤ℤ b

abbrev pub Matches : Option (Bytes → Bool) → Bytes → Type 0
Matches none s = Unit
Matches (some m) s = m s ≡ true

-- The checks of an integer accept exactly the numbers that are at least the minimum and at most the
-- maximum, where these are set.
pub check_int_iff :
    (lo hi : Option ℤ) (z : ℤ) → (check_int lo hi z ≡ ok z) ↔ (AtLeast lo z × AtMost hi z)
unfolding check_int
check_int_iff none none z = ground arith
check_int_iff none (some b) z = ground arith
check_int_iff (some a) none z = ground arith
check_int_iff (some a) (some b) z = ground arith

pub check_int-eq-ok : (lo hi : Option ℤ) (z w : ℤ) → check_int lo hi z ≡ ok w → w ≡ z
unfolding check_int
check_int-eq-ok lo hi z w h = ground arith

pub check_string-eq-ok :
    (lo hi : Option ℤ) (p : Option (Bytes → Bool)) (s t : Bytes)
    → check_string lo hi p s ≡ ok t
    → t ≡ s
unfolding check_string
check_string-eq-ok lo hi p s t h = ground arith

-- The checks of a string accept exactly the strings whose length in bytes is within the bounds that are
-- set and that match the pattern, if there is one.
pub check_string_iff :
    (lo hi : Option ℤ) (p : Option (Bytes → Bool)) (s : Bytes)
    → (check_string lo hi p s ≡ ok s)
      ↔ (AtLeast lo (pos (length s)) × AtMost hi (pos (length s)) × Matches p s)
unfolding check_string
check_string_iff none none none s = ground arith
check_string_iff none none (some m) s = ground arith
check_string_iff none (some b) none s = ground arith
check_string_iff none (some b) (some m) s = ground arith
check_string_iff (some a) none none s = ground arith
check_string_iff (some a) none (some m) s = ground arith
check_string_iff (some a) (some b) none s = ground arith
check_string_iff (some a) (some b) (some m) s = ground arith

-- The values that an integer of the kind takes on a 64-bit machine.
abbrev pub InKind : IntKind → ℤ → Type 0
InKind IntKind.int z = IsInt64 z
InKind int8 z = (pos_part z < 2 ^ 7) × (neg_part z ≤ 2 ^ 7)
InKind int16 z = (pos_part z < 2 ^ 15) × (neg_part z ≤ 2 ^ 15)
InKind int32 z = (pos_part z < 2 ^ 31) × (neg_part z ≤ 2 ^ 31)
InKind int64 z = IsInt64 z
InKind uint z = (pos_part z < 2 ^ 64) × (neg_part z ≡ 0)
InKind uint8 z = (pos_part z < 2 ^ 8) × (neg_part z ≡ 0)
InKind uint16 z = (pos_part z < 2 ^ 16) × (neg_part z ≡ 0)
InKind uint32 z = (pos_part z < 2 ^ 32) × (neg_part z ≡ 0)
InKind uint64 z = (pos_part z < 2 ^ 64) × (neg_part z ≡ 0)

module _ (fl : Floats) where
  -- An integer of any kind whose value an int64 can hold is mapped to that value.
  pub int_input_mapper_exact :
      (k : IntKind) (z : ℤ) (u : Option UnitsParser)
      → InKind k z
      → IsInt64 z
      → int_input_mapper fl (int k z) u ≡ ok z
  unfolding int_input_mapper
  int_input_mapper_exact int64 z u h r = refl
  int_input_mapper_exact uint64 (pos n) u h r = ground (arith, wrap_int64_id (pos n))
  int_input_mapper_exact uint64 (negsuc n) u h r = absurd (omega arith)
  int_input_mapper_exact k z u h r = ground (arith, wrap_int64_id z)

  -- An unsigned integer from 2^63 on is refused as a uint64, but as a uint it becomes a negative number.
  int_input_mapper_unsigned :
      (n : ℕ) (u : Option UnitsParser)
      → 2 ^ 63 ≤ n
      → n < 2 ^ 64
      → (int_input_mapper fl (int uint64 (pos n)) u ≡ err plain)
        × (int_input_mapper fl (int uint (pos n)) u ≡ ok (negsuc (2 ^ 64 - 1 - n)))
  unfolding int_input_mapper wrap_int64
  int_input_mapper_unsigned n u h k = (ground arith, ground arith)

  -- What a scalar schema unserializes to passes its validation, and is serialized to itself.
  pub serialize_int-unserialize_int :
      (lo hi : Option ℤ) (u : Option UnitsParser) (v w : Value)
      → unserialize_int fl lo hi u v ≡ ok w
      → serialize_int fl lo hi w ≡ ok w
  unfolding unserialize_int serialize_int as_int
  serialize_int-unserialize_int lo hi u v w h =
      let (z, mapped, rest) = >>=-eq-ok (int_input_mapper fl v u) _ h in
      let (c, checked, result) = >>=-eq-ok (check_int lo hi z) _ rest in
      ground (arith, check_int-eq-ok lo hi z c checked)

  pub serialize_float-unserialize_float :
      (lo hi : Option ℕ) (u : Option UnitsParser) (v w : Value)
      → unserialize_float fl lo hi u v ≡ ok w
      → serialize_float fl lo hi w ≡ ok w
  unfolding unserialize_float serialize_float as_float
  serialize_float-unserialize_float lo hi u v w h = ground arith

  pub serialize_string-unserialize_string :
      (lo hi : Option ℤ) (p : Option (Bytes → Bool)) (v w : Value)
      → unserialize_string fl lo hi p v ≡ ok w
      → serialize_string lo hi p w ≡ ok w
  unfolding unserialize_string serialize_string as_string
  serialize_string-unserialize_string lo hi p v w h =
      let (s, mapped, rest) = >>=-eq-ok (string_input_mapper fl v) _ h in
      let (t, checked, result) = >>=-eq-ok (check_string lo hi p s) _ rest in
      ground (arith, check_string-eq-ok lo hi p s t checked)

  pub serialize_int_enum-unserialize_int_enum :
      (vs : List ℤ) (u : Option UnitsParser) (v w : Value)
      → unserialize_int_enum fl vs u v ≡ ok w
      → serialize_int_enum fl vs w ≡ ok w
  unfolding unserialize_int_enum serialize_int_enum
  serialize_int_enum-unserialize_int_enum vs u v w h =
      let (z, found, rest) = >>=-eq-ok (mapped (int_input_mapper fl v u)) _ h in
      let (t, checked, result) = >>=-eq-ok (check_int_enum vs z) _ rest in ground arith

  pub serialize_string_enum-unserialize_string_enum :
      (vs : List Bytes) (v w : Value)
      → unserialize_string_enum fl vs v ≡ ok w
      → serialize_string_enum vs w ≡ ok w
  unfolding unserialize_string_enum serialize_string_enum
  serialize_string_enum-unserialize_string_enum vs v w h =
      let (s, found, rest) = >>=-eq-ok (mapped (string_input_mapper fl v)) _ h in
      let (t, checked, result) = >>=-eq-ok (check_string_enum vs s) _ rest in ground arith

bool_result :
    (o : Option Bool) {w : Value}
    → (elim o [ none ↦ err plain | some b ↦ ok (bool b) ]) ≡ ok w
    → serialize_bool w ≡ ok w
unfolding serialize_bool as_bool
bool_result none h = cc
bool_result (some b) h = ground arith

pub serialize_bool-unserialize_bool :
    (v w : Value) → unserialize_bool v ≡ ok w → serialize_bool w ≡ ok w
unfolding unserialize_bool serialize_bool as_bool
serialize_bool-unserialize_bool (bool b) w h = ground arith
serialize_bool-unserialize_bool (str s) w h = bool_result (lookup (to_lower s) bool_string_values) h
serialize_bool-unserialize_bool (int k z) w h = ground arith
serialize_bool-unserialize_bool _ w h = cc
