-- ===== src/Schema/Units/Safety.antt =====
-- schema/units.go: parsing with units whose expression compiles does not panic.
use arcaflow_plugin_sdk_go.Common.{
  ℕ, ℤ, pos, Bytes, Bool, true, [], ◌∷◌, Option, none, some, ◌≡◌, if◌then◌else◌,
}
use arcaflow_plugin_sdk_go.Go.Result.{Result, IsSafe}
use arcaflow_plugin_sdk_go.Go.Convert.{Floats}
use arcaflow_plugin_sdk_go.Go.Strings.{trim_space, contains}
use arcaflow_plugin_sdk_go.Go.Text.{parse_int}
use arcaflow_plugin_sdk_go.Go.Regex.{Captures, submatch, find_submatch}
use arcaflow_plugin_sdk_go.Schema.Sound.{IsSafe-bind}
use arcaflow_plugin_sdk_go.Schema.Scalar.Safety.{UnitsSafe}
use arcaflow_plugin_sdk_go.Schema.Units.{
  Multipliers, UnitsDefinition, Number, int_number, float_number, sorted,
}
use arcaflow_plugin_sdk_go.Schema.Units.Parse.{
  Total, add_float, add_int, handle_parse_multiplier, add_up, parse_match, parse_trimmed, parse,
  expression, unit_parse_error, compiles, number_as_int, parse_units_int, parse_units_float,
  units_parser,
}

IsSafe-if {ℓ} :
    {A : Type ℓ} (b : Bool) (r q : Result A) → IsSafe r → IsSafe q → IsSafe (if b then r else q)
IsSafe-if true r q h k = h
IsSafe-if Bool.false r q h k = k

module _ (fl : Floats) where
  add_float-IsSafe : (o : Option ℕ) (m : ℤ) (t : Total) → IsSafe (add_float fl o m t)
  add_float-IsSafe none m t = tt
  add_float-IsSafe (some x) m t = tt

  add_int-IsSafe : (o : Option ℤ) (m : ℤ) (t : Total) → IsSafe (add_int fl o m t)
  add_int-IsSafe none m t = tt
  add_int-IsSafe (some x) m t = tt

  handle_parse_multiplier-IsSafe :
      (s : Bytes) (m : ℤ) (t : Total) → IsSafe (handle_parse_multiplier fl s m t)
  unfolding handle_parse_multiplier
  handle_parse_multiplier-IsSafe [] m t = tt
  handle_parse_multiplier-IsSafe (c ∷ s) m t =
      IsSafe-if (contains b'.' (c ∷ s)) _ _ (add_float-IsSafe (fl.parse (c ∷ s)) m t)
        (add_int-IsSafe (parse_int (c ∷ s)) m t)

  add_up-IsSafe : (ms : Multipliers) (c : Captures) (t : Total) → IsSafe (add_up fl ms c t)
  unfolding add_up
  add_up-IsSafe [] c t = handle_parse_multiplier-IsSafe (submatch (pos 1) c) (pos 1) t
  add_up-IsSafe ((m, unit) ∷ ms) c t =
      IsSafe-bind (handle_parse_multiplier fl (submatch m c) m t) _
        (handle_parse_multiplier-IsSafe (submatch m c) m t) λ next _. add_up-IsSafe ms c next

  parse_match-IsSafe :
      (u : UnitsDefinition) (s : Bytes) (o : Option Captures) → IsSafe (parse_match fl u s o)
  unfolding parse_match unit_parse_error
  parse_match-IsSafe u s none = tt
  parse_match-IsSafe u s (some c) =
      IsSafe-bind (add_up fl (sorted u.multipliers) c _) _
        (add_up-IsSafe (sorted u.multipliers) c _) λ t _. tt

  parse_trimmed-IsSafe :
      (u : UnitsDefinition) (s : Bytes) → compiles u ≡ true → IsSafe (parse_trimmed fl u s)
  unfolding parse_trimmed
  parse_trimmed-IsSafe u [] h = tt
  parse_trimmed-IsSafe u (c ∷ s) h =
      rw h (parse_match-IsSafe u (c ∷ s) (find_submatch (expression u) (c ∷ s)))

  number_as_int-IsSafe : (n : Number) → IsSafe (number_as_int fl n)
  number_as_int-IsSafe (int_number z) = tt
  number_as_int-IsSafe (float_number x) = tt

  -- Where the expression of the units compiles, ParseInt and ParseFloat never panic.
  pub units_parser-UnitsSafe :
      (u : UnitsDefinition) → compiles u ≡ true → UnitsSafe (some (units_parser fl u))
  unfolding units_parser parse_units_int parse_units_float parse
  units_parser-UnitsSafe u h s =
      let safe = parse_trimmed-IsSafe u (trim_space s) h in
      (
        IsSafe-bind (parse_trimmed fl u (trim_space s)) _ safe λ n _. number_as_int-IsSafe n,
        IsSafe-bind (parse_trimmed fl u (trim_space s)) _ safe λ n _. tt,
      )
