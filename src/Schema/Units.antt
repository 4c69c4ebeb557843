-- ===== src/Schema/Units.antt =====
-- schema/units.go: units of measurement, with their multiples, how a number is written with them, and
-- how such a text is read. A map of multipliers is a list of its entries; the two caches hold what
-- `sorted` and `expression` compute.
pub mod Parse
pub mod Tables
pub mod Decomposition
pub mod Matching
pub mod Reading
pub mod RoundTrip
pub mod Integers
pub mod Ambiguity
pub mod Order
pub mod Safety
pub mod Sorting
pub mod Separator
use arcaflow_plugin_sdk_go.Common.{
  ◌-◌, ℤ, pos, negsuc, ltb_ℤ, eqb_ℤ, wrap_int64, ◌-ℤ◌, ◌*ℤ◌, ℕ, Bytes, Bool, true, false, not, ◌||◌,
  List, [], ◌∷◌, ◌++◌, ◌==◌, if◌then◌else◌,
}
use arcaflow_plugin_sdk_go.Go.Text.{format_int}
use arcaflow_plugin_sdk_go.Go.Strings.{trim_right}
use arcaflow_plugin_sdk_go.Go.Convert.{Floats}

pub record UnitDefinition : Type 0 where
  pub name_short_singular : Bytes
  pub name_short_plural : Bytes
  pub name_long_singular : Bytes
  pub name_long_plural : Bytes

abbrev pub Multipliers : Type 0
Multipliers = List (ℤ × UnitDefinition)

pub record UnitsDefinition : Type 0 where
  pub base_unit : UnitDefinition
  pub multipliers : Multipliers

-- An int64, or a float64.
pub data Number : Type 0 where
  int_number : ℤ → Number
  float_number : ℕ → Number

-- getSortedMultipliersCache: the largest multiplier first.
unfoldable pub insert_multiplier : ℤ × UnitDefinition → Multipliers → Multipliers
insert_multiplier m [] = m ∷ []
insert_multiplier m (n ∷ ms) =
    let rest = insert_multiplier m ms in if ltb_ℤ (m.0) (n.0) then n ∷ rest else m ∷ n ∷ ms

unfoldable pub sorted : Multipliers → Multipliers
unfolding insert_multiplier
sorted [] = []
sorted (m ∷ ms) = insert_multiplier m (sorted ms)

module _ (fl : Floats) where
  -- `amount == k`
  unfoldable pub number_is : Number → ℤ → Bool
  number_is (int_number z) k = eqb_ℤ z k
  number_is (float_number x) k = fl.eq x (fl.of_int k)

  -- fmt.Sprintf with "%d" or "%f"
  unfoldable pub format_number : Number → Bytes
  format_number (int_number z) = format_int z
  format_number (float_number x) = fl.format x

  -- strings.TrimRight(_, "0.")
  unfoldable pub trimmed_number : Number → Bytes
  trimmed_number n = trim_right (λ c. c == b'0' || c == b'.') (format_number n)

  -- formatNumberUnitShort
  unfoldable pub format_number_unit_short : Number → UnitDefinition → Bool → Bytes
  unfolding number_is trimmed_number
  format_number_unit_short n u display_zero =
      if number_is n (pos 1) || number_is n (negsuc 0)
      then trimmed_number n ++ u.name_short_singular
      else if not (number_is n (pos 0))
      then trimmed_number n ++ u.name_short_plural
      else if display_zero
      then trimmed_number n ++ u.name_short_plural
      else []

  -- formatNumberUnitLong
  unfoldable pub format_number_unit_long : Number → UnitDefinition → Bool → Bytes
  unfolding number_is format_number
  format_number_unit_long n u display_zero =
      if number_is n (pos 1) || number_is n (negsuc 0)
      then format_number n ++ u.name_long_singular
      else if not (number_is n (pos 0))
      then format_number n ++ u.name_long_plural
      else if display_zero
      then format_number n ++ u.name_long_plural
      else []

  -- int64(math.Floor(float64(remainder) / float64(multiplier)))
  unfoldable pub base_of_int : ℤ → ℤ → ℤ
  base_of_int r m = fl.to_int (fl.floor (fl.div (fl.of_int r) (fl.of_int m)))

  -- int64(math.Floor(remainder / float64(multiplier)))
  unfoldable pub base_of_float : ℕ → ℤ → ℤ
  base_of_float r m = fl.to_int (fl.floor (fl.div r (fl.of_int m)))

  -- remainder - base*multiplier
  unfoldable pub rest_of_int : ℤ → ℤ → ℤ → ℤ
  rest_of_int r b m = wrap_int64 (r -ℤ wrap_int64 (b *ℤ m))

  -- The loops over the multipliers, with the line after the loop.
  unfoldable pub short_int_loop : Multipliers → UnitDefinition → ℤ → Bytes
  unfolding format_number_unit_short base_of_int rest_of_int
  short_int_loop [] base r = format_number_unit_short (int_number r) base false
  short_int_loop ((m, unit) ∷ ms) base r =
      let b = base_of_int r m in
      format_number_unit_short (int_number b) unit false
      ++ short_int_loop ms base (rest_of_int r b m)

  unfoldable pub short_float_loop : Multipliers → UnitDefinition → ℕ → Bytes
  unfolding format_number_unit_short base_of_float
  short_float_loop [] base r = format_number_unit_short (float_number r) base false
  short_float_loop ((m, unit) ∷ ms) base r =
      let b = base_of_float r m in
      format_number_unit_short (float_number (fl.of_int b)) unit false
      ++ short_float_loop ms base (fl.sub r (fl.of_int (wrap_int64 (b *ℤ m))))

  -- The multiplier's name follows the remainder here, and not the base.
  unfoldable pub long_int_loop : Multipliers → UnitDefinition → ℤ → Bytes
  unfolding format_number_unit_long base_of_int rest_of_int
  long_int_loop [] base r = format_number_unit_long (int_number r) base false
  long_int_loop ((m, unit) ∷ ms) base r =
      let left = rest_of_int r (base_of_int r m) m in
      format_number_unit_long (int_number left) unit false ++ long_int_loop ms base left

  unfoldable pub long_float_loop : Multipliers → UnitDefinition → ℕ → Bytes
  unfolding format_number_unit_long base_of_float
  long_float_loop [] base r = format_number_unit_long (float_number r) base false
  long_float_loop ((m, unit) ∷ ms) base r =
      let b = base_of_float r m in
      format_number_unit_long (float_number (fl.of_int b)) unit false
      ++ long_float_loop ms base (fl.sub r (fl.of_int (wrap_int64 (b *ℤ m))))

  -- FormatShortInt, FormatShortFloat, FormatLongInt and FormatLongFloat of UnitsDefinition
  unfoldable pub format_short_int : UnitsDefinition → ℤ → Bytes
  unfolding short_int_loop sorted
  format_short_int u z =
      if eqb_ℤ z (pos 0)
      then format_number_unit_short (int_number z) u.base_unit true
      else short_int_loop (sorted u.multipliers) u.base_unit z

  unfoldable pub format_short_float : UnitsDefinition → ℕ → Bytes
  unfolding short_float_loop sorted
  format_short_float u x =
      if number_is (float_number x) (pos 0)
      then format_number_unit_short (float_number x) u.base_unit true
      else short_float_loop (sorted u.multipliers) u.base_unit x

  unfoldable pub format_long_int : UnitsDefinition → ℤ → Bytes
  unfolding long_int_loop sorted
  format_long_int u z =
      if eqb_ℤ z (pos 0)
      then format_number_unit_long (int_number z) u.base_unit true
      else long_int_loop (sorted u.multipliers) u.base_unit z

  unfoldable pub format_long_float : UnitsDefinition → ℕ → Bytes
  unfolding long_float_loop sorted
  format_long_float u x =
      if number_is (float_number x) (pos 0)
      then format_number_unit_long (float_number x) u.base_unit true
      else long_float_loop (sorted u.multipliers) u.base_unit x
