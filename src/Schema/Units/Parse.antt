-- ===== src/Schema/Units/Parse.antt =====
-- schema/units.go: parse, handleParseMultiplier, updateReCache, buildUnitParseError, ParseInt and
-- ParseFloat.
use arcaflow_plugin_sdk_go.Common.{
  ℕ, ℤ, pos, negsuc, eqb_ℤ, wrap_int64, ◌+ℤ◌, ◌*ℤ◌, Bytes, codes, Bool, true, false, ◌&&◌, List, [],
  ◌∷◌, ◌++◌, Option, none, some, if◌then◌else◌,
}
use arcaflow_plugin_sdk_go.Go.Result.{Result, ok, err, panic, ◌>>=◌, bad_argument, unit_parse}
use arcaflow_plugin_sdk_go.Go.Text.{parse_int}
use arcaflow_plugin_sdk_go.Go.Strings.{trim_space, contains}
use arcaflow_plugin_sdk_go.Go.Regex.{
  Regex, literal, spaces, digits, any_char, alt, seq, group, Captures, find_submatch, submatch,
}
use arcaflow_plugin_sdk_go.Go.Utf8.{is_utf8}
use arcaflow_plugin_sdk_go.Go.Convert.{Floats}
use arcaflow_plugin_sdk_go.Schema.Types.{UnitsParser}
use arcaflow_plugin_sdk_go.Schema.Units.{
  UnitDefinition, Multipliers, UnitsDefinition, Number, int_number, float_number, sorted,
}

-- `%s|%s|%s|%s`
abbrev pub names : UnitDefinition → Regex
names u = alt (literal u.name_short_singular) (
    alt (literal u.name_short_plural)
      (alt (literal u.name_long_singular) (literal u.name_long_plural)))

-- `(?:|(?P<g%s>[0-9]+)\s*(%s|%s|%s|%s))`. Of two groups with one name, reSubExpNames has the last, so that
-- the group `g1` of a multiplier is not read, and `g1` is that of the base unit.
abbrev pub multiplier_number : ℤ → Regex
multiplier_number m = if eqb_ℤ m (pos 1) then digits else group m digits

abbrev pub multiplier_part : ℤ → UnitDefinition → Regex
multiplier_part m u = alt (literal []) (seq (multiplier_number m) (seq spaces (names u)))

-- `(?:|(?P<g1>[0-9]+(|.[0-9]+))\s*(|%s|%s|%s|%s))`, whose dot is not escaped.
abbrev pub base_part : UnitDefinition → Regex
base_part u = alt (literal []) (
    seq (group (pos 1) (seq digits (alt (literal []) (seq any_char digits))))
      (seq spaces (alt (literal []) (names u))))

-- The parts joined by `\s*`, and `\s*` at the end.
unfoldable pub parts : Multipliers → UnitDefinition → Regex
parts [] base = seq (base_part base) spaces
parts ((m, unit) ∷ ms) base = seq (multiplier_part m unit) (seq spaces (parts ms base))

-- updateReCache: the expression between `^` and `$`
unfoldable pub expression : UnitsDefinition → Regex
unfolding parts sorted
expression u = seq spaces (parts (sorted u.multipliers) u.base_unit)

-- regexp.MustCompile panics on a group with a minus sign in its name, and on bytes that are not UTF-8.
unfoldable pub valid_names : UnitDefinition → Bool
unfolding is_utf8
valid_names u =
    is_utf8 u.name_short_singular
    && is_utf8 u.name_short_plural
    && is_utf8 u.name_long_singular
    && is_utf8 u.name_long_plural

abbrev pub group_compiles : ℤ × UnitDefinition → Bool
unfolding valid_names
group_compiles (pos n, unit) = valid_names unit
group_compiles (negsuc n, unit) = false

unfoldable pub multipliers_compile : Multipliers → Bool
unfolding valid_names
multipliers_compile [] = true
multipliers_compile (m ∷ ms) = group_compiles m && multipliers_compile ms

unfoldable pub compiles : UnitsDefinition → Bool
unfolding multipliers_compile valid_names
compiles u = valid_names u.base_unit && multipliers_compile u.multipliers

-- What parse has added up: intNumber, floatNumber and isFloat.
pub record Total : Type 0 where
  pub int_total : ℤ
  pub float_total : ℕ
  pub is_float : Bool

-- The names of the unit and of its multiples, separated by "', '".
abbrev separated : List Bytes → Bytes
separated [] = []
separated (n ∷ []) = n
separated (n ∷ o ∷ ns) = n ++ codes "', '" ++ separated (o ∷ ns)

abbrev unit_names : UnitDefinition → List Bytes
unit_names u =
    u.name_short_singular ∷ u.name_short_plural ∷ u.name_long_singular ∷ u.name_long_plural ∷ []

unfoldable pub valid_units : Multipliers → List Bytes
valid_units [] = []
valid_units ((m, unit) ∷ ms) = unit_names unit ++ valid_units ms

-- buildUnitParseError
unfoldable pub unit_parse_error : UnitsDefinition → Bytes → Result Number
unfolding valid_units sorted
unit_parse_error u text = err (
    unit_parse (
      codes "Cannot parse '"
      ++ text
      ++ codes "' as '"
      ++ u.base_unit.name_long_plural
      ++ codes "': invalid format, valid UnitDefinition types are: '"
      ++ separated (unit_names u.base_unit ++ valid_units (sorted u.multipliers))))

module _ (fl : Floats) where
  abbrev pub add_float : Option ℕ → ℤ → Total → Result Total
  add_float none m t = err bad_argument
  add_float (some x) m t = ok (record {
    int_total = t.int_total;
    float_total = fl.add t.float_total (fl.mul x (fl.of_int m));
    is_float = true;
  })

  abbrev pub add_int : Option ℤ → ℤ → Total → Result Total
  add_int none m t = err bad_argument
  add_int (some i) m t =
      let n = wrap_int64 (i *ℤ m) in
      ok (record {
        int_total = if t.is_float then t.int_total else wrap_int64 (t.int_total +ℤ n);
        float_total = fl.add t.float_total (fl.of_int n);
        is_float = t.is_float;
      })

  -- handleParseMultiplier
  unfoldable pub handle_parse_multiplier : Bytes → ℤ → Total → Result Total
  handle_parse_multiplier [] m t = ok t
  handle_parse_multiplier (c ∷ s) m t =
      if contains b'.' (c ∷ s)
      then add_float (fl.parse (c ∷ s)) m t
      else add_int (parse_int (c ∷ s)) m t

  -- The loop of parse, and its line for the base unit.
  unfoldable pub add_up : Multipliers → Captures → Total → Result Total
  unfolding handle_parse_multiplier submatch
  add_up [] c t = handle_parse_multiplier (submatch (pos 1) c) (pos 1) t
  add_up ((m, unit) ∷ ms) c t = do
    next ← handle_parse_multiplier (submatch m c) m t
    add_up ms c next

  -- `return floatNumber`, or `return intNumber`
  abbrev pub total_number : Total → Number
  total_number t = if t.is_float then float_number t.float_total else int_number t.int_total

  -- The part of parse behind the test for an empty text.
  unfoldable pub parse_match : UnitsDefinition → Bytes → Option Captures → Result Number
  unfolding unit_parse_error add_up sorted
  parse_match u text none = unit_parse_error u text
  parse_match u text (some c) = do
    t ←
        add_up (sorted u.multipliers) c
          (record { int_total = pos 0; float_total = 0; is_float = false })
    ok (total_number t)

  unfoldable pub parse_trimmed : UnitsDefinition → Bytes → Result Number
  unfolding compiles parse_match expression find_submatch
  parse_trimmed u [] =
      err (unit_parse (codes "Empty string cannot be parsed as " ++ u.base_unit.name_long_plural))
  parse_trimmed u (c ∷ s) =
      if compiles u then parse_match u (c ∷ s) (find_submatch (expression u) (c ∷ s)) else panic

  -- UnitsDefinition.parse
  unfoldable pub parse : UnitsDefinition → Bytes → Result Number
  unfolding parse_trimmed trim_space
  parse u text = parse_trimmed u (trim_space text)

  abbrev pub number_as_int : Number → Result ℤ
  number_as_int (int_number z) = ok z
  number_as_int (float_number x) = err bad_argument

  abbrev number_as_float : Number → ℕ
  number_as_float (int_number z) = fl.of_int z
  number_as_float (float_number x) = x

  -- ParseInt and ParseFloat of UnitsDefinition
  unfoldable pub parse_units_int : UnitsDefinition → Bytes → Result ℤ
  unfolding parse
  parse_units_int u text = parse u text >>= number_as_int

  unfoldable pub parse_units_float : UnitsDefinition → Bytes → Result ℕ
  unfolding parse
  parse_units_float u text = do n ← parse u text; ok (number_as_float n)

  -- The parsers that a number's schema takes.
  unfoldable pub units_parser : UnitsDefinition → UnitsParser
  unfolding parse_units_int parse_units_float
  units_parser u = record {
    parse_int = λ s. parse_units_int u s;
    parse_float = λ s. parse_units_float u s;
  }
