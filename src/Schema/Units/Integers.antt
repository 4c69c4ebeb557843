-- ===== src/Schema/Units/Integers.antt =====
-- schema/int.go with schema/units.go: an integer schema that has units.
use arcaflow_plugin_sdk_go.Common.{
  ℕ, ◌<◌, ◌^◌, ℤ, pos, Bytes, true, All, ◌++◌, Option, some, ◌≡◌, refl, ◌∙◌, ap,
}
use arcaflow_plugin_sdk_go.Go.Value.{str, int, int64}
use arcaflow_plugin_sdk_go.Go.Result.{ok, ◌>>=◌}
use arcaflow_plugin_sdk_go.Go.Text.{format_nat}
use arcaflow_plugin_sdk_go.Go.Convert.{Floats}
use arcaflow_plugin_sdk_go.Go.Strings.{trim_space}
use arcaflow_plugin_sdk_go.Go.Regex.{is_space, is_digit}
use arcaflow_plugin_sdk_go.Schema.Scalar.{unserialize_int, int_input_mapper, check_int}
use arcaflow_plugin_sdk_go.Schema.Units.{UnitsDefinition}
use arcaflow_plugin_sdk_go.Schema.Units.Parse.{compiles, units_parser, parse_units_int}
use arcaflow_plugin_sdk_go.Schema.Units.Matching.{Listed, base_names, StartsWithout}
use arcaflow_plugin_sdk_go.Schema.Units.RoundTrip.{parse_units_int-format_nat, DistinctGroup}

mapped_units :
    (fl : Floats) (u : UnitsDefinition) (s : Bytes) (z : ℤ)
    → parse_units_int fl u s ≡ ok z
    → int_input_mapper fl (str s) (some (units_parser fl u)) ≡ ok z
unfolding int_input_mapper units_parser
mapped_units fl u s z h = rw h refl

-- An integer schema with units unserializes the decimal text of a number below 2^63 and within its
-- bounds, that a name of the base unit follows, or nothing, with blanks around, to the number. The name
-- begins neither with a blank nor with a digit, the units' expression compiles, and
-- no multiplier is 1.
pub unserialize_int-format_nat :
    (fl : Floats) (u : UnitsDefinition) (lo hi : Option ℤ) (n : ℕ) (name data_text : Bytes)
    → compiles u ≡ true
    → All DistinctGroup u.multipliers
    → Listed name (base_names u.base_unit)
    → StartsWithout is_space name
    → StartsWithout is_digit name
    → n < 2 ^ 63
    → trim_space data_text ≡ format_nat n ++ name
    → check_int lo hi (pos n) ≡ ok (pos n)
    → unserialize_int fl lo hi (some (units_parser fl u)) (str data_text) ≡ ok (int int64 (pos n))
unfolding unserialize_int
unserialize_int-format_nat fl u lo hi n name s compiled distinct listed no_space no_digit small
      trimmed within =
    let parsed =
      parse_units_int-format_nat fl u n name s compiled distinct listed no_space no_digit small
        trimmed in
    ap (λ r. r >>= λ z. check_int lo hi z >>= λ c. ok (int int64 z))
      (mapped_units fl u s (pos n) parsed)
    ∙ ap (λ r. r >>= λ c. ok (int int64 (pos n))) within
