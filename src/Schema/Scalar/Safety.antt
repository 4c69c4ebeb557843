-- ===== src/Schema/Scalar/Safety.antt =====
-- schema/int.go, float.go, string.go, bool.go, enum.go: unserialization of a scalar never panics, and
-- gives a value of the type's own Go type.
use arcaflow_plugin_sdk_go.Common.{
  ℕ, ℤ, wrap_int64, Bytes, Bool, List, Option, none, some, refl, inr, arith, lookup,
}
use arcaflow_plugin_sdk_go.Go.Value.{
  Value, bool, str, int, float64, int64, int_type, string_type, bool_type, float64_type,
}
use arcaflow_plugin_sdk_go.Go.Result.{Result, ok, err, IsSafe, ◌>>=◌, plain}
use arcaflow_plugin_sdk_go.Go.Convert.{Floats}
use arcaflow_plugin_sdk_go.Schema.Types.{UnitsParser}
use arcaflow_plugin_sdk_go.Schema.Scalar.{
  int_input_mapper, float_input_mapper, string_input_mapper, check_int, check_string, mapped,
  check_int_enum, check_string_enum, unserialize_int, serialize_float, unserialize_float, as_float,
  unserialize_string, unserialize_bool, unserialize_int_enum, unserialize_string_enum, to_lower,
  bool_string_values, of_option, int_to_bool,
}
use arcaflow_plugin_sdk_go.Schema.Sound.{Sound, Sound-bind}

check_int-IsSafe : (lo hi : Option ℤ) (z : ℤ) → IsSafe (check_int lo hi z)
unfolding check_int
check_int-IsSafe lo hi z = ground arith

check_string-IsSafe :
    (lo hi : Option ℤ) (p : Option (Bytes → Bool)) (s : Bytes) → IsSafe (check_string lo hi p s)
unfolding check_string
check_string-IsSafe lo hi p s = ground arith

mapped-IsSafe {ℓ} : {A : Type ℓ} (r : Result A) → IsSafe r → IsSafe (mapped r)
mapped-IsSafe (ok a) h = tt
mapped-IsSafe (err e) h = tt
mapped-IsSafe Result.panic h = elim h [ ]
mapped-IsSafe Result.out_of_fuel h = elim h [ ]

of_option-IsSafe {ℓ} : {A : Type ℓ} (o : Option A) → IsSafe (of_option o)
of_option-IsSafe none = tt
of_option-IsSafe (some a) = tt

-- Parsing with the units never panics.
abbrev pub UnitsSafe : Option UnitsParser → Type 0
UnitsSafe none = Unit
UnitsSafe (some u) = (s : Bytes) → IsSafe (u.parse_int s) × IsSafe (u.parse_float s)

module _ (fl : Floats) where
  pub int_input_mapper-IsSafe :
      (v : Value) (u : Option UnitsParser) → UnitsSafe u → IsSafe (int_input_mapper fl v u)
  unfolding int_input_mapper
  int_input_mapper-IsSafe (str s) none safe = of_option-IsSafe _
  int_input_mapper-IsSafe (str s) (some u) safe = (safe s).0
  int_input_mapper-IsSafe v u safe = ground arith

  pub float_input_mapper-IsSafe :
      (v : Value) (u : Option UnitsParser) → UnitsSafe u → IsSafe (float_input_mapper fl v u)
  unfolding float_input_mapper
  float_input_mapper-IsSafe (str s) none safe = of_option-IsSafe (fl.parse s)
  float_input_mapper-IsSafe (str s) (some u) safe = (safe s).1
  float_input_mapper-IsSafe v u safe = ground arith

  pub string_input_mapper-IsSafe : (v : Value) → IsSafe (string_input_mapper fl v)
  unfolding string_input_mapper
  string_input_mapper-IsSafe (str s) = tt
  string_input_mapper-IsSafe _ = tt

  pub unserialize_int-Sound :
      (lo hi : Option ℤ) (u : Option UnitsParser) (v : Value)
      → UnitsSafe u
      → Sound (int_type int64) (unserialize_int fl lo hi u v)
  unfolding unserialize_int
  unserialize_int-Sound lo hi u v safe =
      Sound-bind (int_type int64) (int_input_mapper fl v u) _ (int_input_mapper-IsSafe v u safe)
        λ z _.
          Sound-bind (int_type int64) (check_int lo hi z) _ (check_int-IsSafe lo hi z)
            λ c _. (int_type int64, refl, inr refl)

  serialize_float-IsSafe :
      (lo hi : Option ℕ) (x : ℕ) → IsSafe (serialize_float fl lo hi (float64 x))
  unfolding serialize_float as_float
  serialize_float-IsSafe lo hi x = ground arith

  pub unserialize_float-Sound :
      (lo hi : Option ℕ) (u : Option UnitsParser) (v : Value)
      → UnitsSafe u
      → Sound float64_type (unserialize_float fl lo hi u v)
  unfolding unserialize_float
  unserialize_float-Sound lo hi u v safe =
      Sound-bind float64_type (float_input_mapper fl v u)
        (λ x. serialize_float fl lo hi (float64 x) >>= λ _. ok (float64 x))
        (float_input_mapper-IsSafe v u safe)
        λ x _.
          Sound-bind float64_type (serialize_float fl lo hi (float64 x)) _
            (serialize_float-IsSafe lo hi x) λ c _. (float64_type, refl, inr refl)

  pub unserialize_string-Sound :
      (lo hi : Option ℤ) (p : Option (Bytes → Bool)) (v : Value)
      → Sound string_type (unserialize_string fl lo hi p v)
  unfolding unserialize_string
  unserialize_string-Sound lo hi p v =
      Sound-bind string_type (string_input_mapper fl v) _ (string_input_mapper-IsSafe v) λ s _.
        Sound-bind string_type (check_string lo hi p s) _ (check_string-IsSafe lo hi p s)
          λ c _. (string_type, refl, inr refl)

  pub unserialize_int_enum-Sound :
      (vs : List ℤ) (u : Option UnitsParser) (v : Value)
      → UnitsSafe u
      → Sound (int_type int64) (unserialize_int_enum fl vs u v)
  unfolding unserialize_int_enum check_int_enum
  unserialize_int_enum-Sound vs u v safe =
      Sound-bind (int_type int64) (mapped (int_input_mapper fl v u)) _
        (mapped-IsSafe _ (int_input_mapper-IsSafe v u safe))
        λ z _.
          Sound-bind (int_type int64) (check_int_enum vs z) _ (ground arith)
            λ c _. (int_type int64, refl, inr refl)

  pub unserialize_string_enum-Sound :
      (vs : List Bytes) (v : Value) → Sound string_type (unserialize_string_enum fl vs v)
  unfolding unserialize_string_enum check_string_enum
  unserialize_string_enum-Sound vs v =
      Sound-bind string_type (mapped (string_input_mapper fl v)) _
        (mapped-IsSafe _ (string_input_mapper-IsSafe v))
        λ s _.
          Sound-bind string_type (check_string_enum vs s) _ (ground arith)
            λ c _. (string_type, refl, inr refl)

bool_lookup-Sound :
    (o : Option Bool) → Sound bool_type (elim o [ none ↦ err plain | some b ↦ ok (bool b) ])
bool_lookup-Sound none = tt
bool_lookup-Sound (some b) = (bool_type, refl, inr refl)

pub unserialize_bool-Sound : (v : Value) → Sound bool_type (unserialize_bool v)
unfolding unserialize_bool
unserialize_bool-Sound (bool b) = (bool_type, refl, inr refl)
unserialize_bool-Sound (str s) = bool_lookup-Sound (lookup (to_lower s) bool_string_values)
unserialize_bool-Sound (int k z) =
    Sound-bind bool_type (int_to_bool (wrap_int64 z)) _ (ground arith)
      λ b _. (bool_type, refl, inr refl)
unserialize_bool-Sound _ = tt
