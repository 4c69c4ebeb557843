-- ===== src/Schema/Units/RoundTrip.antt =====
-- A number that is written with the name of the base unit is read back.
use arcaflow_plugin_sdk_go.Common.{
  ℕ, zero, suc, ◌+◌, ◌/◌, ◌%◌, ◌^◌, ◌<◌, ℤ, pos, negsuc, eqb_ℤ, wrap_int64, wrap_int64_id, ◌+ℤ◌,
  ◌*ℤ◌, Bytes, true, false, Bool-cases, inl, inr, [], ◌∷◌, ◌++◌, All, some, ◌==◌, if◌then◌else◌, ap,
  ◌∙◌, ◌≡◌, refl, arith,
}
use native.Mathlib.Nat.{mul-zero, mul-one}
use arcaflow_plugin_sdk_go.Go.Text.{write_digits, format_nat, format_int, parse_int}
use arcaflow_plugin_sdk_go.Go.Text.RoundTrip.{
  parse_int-format_int, format_nat-StartsWithDigit, StartsWithDigit,
}
use arcaflow_plugin_sdk_go.Go.Result.{ok, panic, ◌>>=◌}
use arcaflow_plugin_sdk_go.Go.Convert.{Floats}
use arcaflow_plugin_sdk_go.Go.Strings.{trim_space, contains}
use arcaflow_plugin_sdk_go.Go.Regex.{is_space, is_digit, find_submatch, submatch}
use arcaflow_plugin_sdk_go.Schema.Units.{
  UnitDefinition, Multipliers, UnitsDefinition, int_number, sorted,
}
use arcaflow_plugin_sdk_go.Schema.Units.Parse.{
  compiles, Total, handle_parse_multiplier, add_up, parse_match, parse_trimmed, expression, parse,
  parse_units_int, total_number, number_as_int,
}
use arcaflow_plugin_sdk_go.Schema.Units.Decomposition.{All-sorted}
use arcaflow_plugin_sdk_go.Schema.Units.Matching.{Digits, StartsWithout, Listed, base_names}
use arcaflow_plugin_sdk_go.Schema.Units.Reading.{find_submatch-expression, number_found-Digits}

-- No multiplier's group is that of the base unit.
abbrev pub DistinctGroup : ℤ × UnitDefinition → Type 0
DistinctGroup m = eqb_ℤ (pos 1) (m.0) ≡ false

pub contains-Digits : (d : Bytes) → Digits d → contains b'.' d ≡ false
contains-Digits [] h = refl
contains-Digits (b ∷ d) h = ground (arith, contains-Digits d (h.1))

write_digits-Digits : (f n : ℕ) (out : Bytes) → Digits out → Digits (write_digits f n out)
unfolding write_digits
write_digits-Digits zero n out h = h
write_digits-Digits (suc f) n out h = elim (Bool-cases (n == 0)) [
  | inl done ↦ rw done h
  | inr more ↦ rw more (write_digits-Digits f (n / 10) ((b'0' + n % 10) ∷ out) (ground arith, h))
]

format_nat-Digits : (n : ℕ) → Digits (format_nat n)
unfolding format_nat
format_nat-Digits n = elim (Bool-cases (n == 0)) [
  | inl nothing ↦ rw nothing (refl, tt)
  | inr more ↦ rw more (write_digits-Digits n n [] tt)
]

mul_one : (n : ℕ) → pos n *ℤ pos 1 ≡ pos n
unfolding ◌*ℤ◌
mul_one n = ground (arith, mul-zero n, mul-one n)

zero_add : (z : ℤ) → pos 0 +ℤ z ≡ z
unfolding ◌+ℤ◌
zero_add (pos n) = ground arith
zero_add (negsuc n) = ground arith

-- A number is added to nothing without a change.
times_one : (n : ℕ) → n < 2 ^ 63 → wrap_int64 (pos 0 +ℤ wrap_int64 (pos n *ℤ pos 1)) ≡ pos n
times_one n h =
    rw (mul_one n, wrap_int64_id (pos n) h, zero_add (pos n), wrap_int64_id (pos n) h) refl

parse_int-format_nat : (n : ℕ) → n < 2 ^ 63 → parse_int (format_nat n) ≡ some (pos n)
unfolding format_int
parse_int-format_nat n h = parse_int-format_int (pos n) h

module _ (fl : Floats) where
  abbrev pub no_total : Total
  no_total = record { int_total = pos 0; float_total = 0; is_float = false }

  -- With this text as the number of the base unit, and no other, the loop adds its value to nothing.
  pub add_up-base :
      (ms : Multipliers) (d : Bytes)
      → All DistinctGroup ms
      → add_up fl ms ((pos 1, d) ∷ []) no_total ≡ handle_parse_multiplier fl d (pos 1) no_total
  unfolding add_up submatch
  add_up-base [] d h = refl
  add_up-base ((m, unit) ∷ ms) d h = rw (h.0) (add_up-base ms d (h.1))

  handle_parse_multiplier-Digits :
      (b n : ℕ) (d : Bytes)
      → Digits (b ∷ d)
      → parse_int (b ∷ d) ≡ some (pos n)
      → n < 2 ^ 63
      → (handle_parse_multiplier fl (b ∷ d) (pos 1) no_total >>= λ t. ok (total_number fl t))
        ≡ ok (int_number (pos n))
  unfolding handle_parse_multiplier
  handle_parse_multiplier-Digits b n d h e small =
      rw (contains-Digits (b ∷ d) h, e, times_one n small) refl

  -- A text of digits and a name of the base unit.
  module _ (u : UnitsDefinition) (name : Bytes) (n : ℕ) (compiled : compiles u ≡ true)
      (distinct : All DistinctGroup u.multipliers) (listed : Listed name (base_names u.base_unit))
      (no_space : StartsWithout is_space name) (no_digit : StartsWithout is_digit name)
      (small : n < 2 ^ 63) where
    parse_trimmed-Digits :
        (d : Bytes)
        → StartsWithDigit d
        → Digits d
        → parse_int d ≡ some (pos n)
        → parse_trimmed fl u (d ++ name) ≡ ok (int_number (pos n))
    unfolding parse_trimmed parse_match
    parse_trimmed-Digits [] begins all_digits e = absurd begins
    parse_trimmed-Digits (b ∷ d) begins all_digits e =
        let text : Bytes = (b ∷ d) ++ name in
        ap (λ t. if t then parse_match fl u text (find_submatch (expression u) text) else panic)
          compiled
        ∙ ap (parse_match fl u text) (
            find_submatch-expression u.base_unit b d name (all_digits.0) listed no_space
              (number_found-Digits u.base_unit b d name (all_digits.0) listed no_space
                (all_digits.1) no_digit)
              u.multipliers)
        ∙ ap (λ r. r >>= λ t. ok (total_number fl t))
            (add_up-base (sorted u.multipliers) (b ∷ d)
              (All-sorted DistinctGroup u.multipliers distinct))
        ∙ handle_parse_multiplier-Digits b n d all_digits e small

-- ParseInt reads back the decimal text of a number below 2^63 that one of the four names of the base
-- unit follows, or nothing, with blanks around it, whatever multiples the unit has, but not one of the
-- multiplier 1. The name begins neither with a blank nor with a digit, and the units' expression compiles.
pub parse_units_int-format_nat :
    (fl : Floats) (u : UnitsDefinition) (n : ℕ) (name data_text : Bytes)
    → compiles u ≡ true
    → All DistinctGroup u.multipliers
    → Listed name (base_names u.base_unit)
    → StartsWithout is_space name
    → StartsWithout is_digit name
    → n < 2 ^ 63
    → trim_space data_text ≡ format_nat n ++ name
    → parse_units_int fl u data_text ≡ ok (pos n)
unfolding parse_units_int parse
parse_units_int-format_nat fl u n name s compiled distinct listed no_space no_digit small trimmed =
    ap (λ t. parse_trimmed fl u t >>= λ r. number_as_int fl r) trimmed
    ∙ ap (λ r. r >>= λ v. number_as_int fl v)
        (parse_trimmed-Digits fl u name n compiled distinct listed no_space no_digit small
          (format_nat n) (format_nat-StartsWithDigit n) (format_nat-Digits n)
          (parse_int-format_nat n small))
