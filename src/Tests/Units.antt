-- ===== src/Tests/Units.antt =====
-- Units on concrete numbers and texts.
use arcaflow_plugin_sdk_go.Common.{
  none, some, ℕ, pos, pos_part, wrap_int64, ◌-ℤ◌, ◌*ℤ◌, ◌+ℤ◌, ℤ, Bytes, codes, true, false, List,
  [], ◌∷◌, ◌++◌, All, inl, inr, ◌≡◌, refl, sym, ◌∙◌, ap, arith,
}
use mathlib.Core.List.{Memᴰ, Permᴰ}
use mathlib.Core.List.Memᴰ
use arcaflow_plugin_sdk_go.Go.Result.{ok, err, bad_argument}
use arcaflow_plugin_sdk_go.Go.Text.{format_nat, format_int, parse_int}
use arcaflow_plugin_sdk_go.Go.Strings.{trim_space, trim_right}
use arcaflow_plugin_sdk_go.Go.Regex.{find_submatch, submatch, consumed, drop_continuation}
use arcaflow_plugin_sdk_go.Schema.Units.{
  UnitDefinition, UnitsDefinition, format_short_int, format_long_int, format_short_float,
  format_long_float, sorted, insert_multiplier, format_number_unit_long, int_number, format_number,
}
use arcaflow_plugin_sdk_go.Schema.Units.Parse.{
  parse, parse_units_int, units_parser, compiles, expression, add_up, handle_parse_multiplier,
}
use arcaflow_plugin_sdk_go.Schema.Units.Tables.{
  unit_duration_nanoseconds, unit_duration_seconds, unit_bytes, unit_percentage,
}
use arcaflow_plugin_sdk_go.Schema.Units.Safety.{units_parser-UnitsSafe}
use arcaflow_plugin_sdk_go.Schema.Scalar.Safety.{UnitsSafe}
use arcaflow_plugin_sdk_go.Schema.Units.Order.{units, units_order_independent}
use arcaflow_plugin_sdk_go.Schema.Units.Sorting.{SingleValued}
use arcaflow_plugin_sdk_go.Schema.Units.Decomposition.{Multiplier, ExactFloor}
use arcaflow_plugin_sdk_go.Schema.Units.Ambiguity.{format_long_int_repeats, repeated}
use arcaflow_plugin_sdk_go.Schema.Units.Separator.{separated_number-refused}
use arcaflow_plugin_sdk_go.Schema.Scalar.{check_int}
use arcaflow_plugin_sdk_go.Schema.Units.RoundTrip.{parse_units_int-format_nat, DistinctGroup}
use arcaflow_plugin_sdk_go.Tests.Samples.{floats}

floats-ExactFloor : ExactFloor floats
floats-ExactFloor n m small positive small_m = refl

seconds-Multiplier : All Multiplier unit_duration_seconds.multipliers
seconds-Multiplier = ground arith

short_run : format_short_int floats unit_duration_seconds (pos 305) ≡ codes "5m5s"
unfolding format_short_int insert_multiplier format_int trim_right format_number wrap_int64 ◌-ℤ◌
    ◌*ℤ◌
short_run = refl

long_run :
    format_long_int floats unit_duration_seconds (pos 5) ≡ codes "5days5hours5minutes5seconds"
unfolding format_long_int insert_multiplier format_int wrap_int64 ◌-ℤ◌ ◌*ℤ◌
long_run = refl

format_long_int_repeats_example :
    format_long_int floats unit_duration_seconds (pos 5)
    ≡ repeated floats (sorted unit_duration_seconds.multipliers) (pos 5)
      ++ format_number_unit_long floats (int_number (pos 5)) unit_duration_seconds.base_unit false
format_long_int_repeats_example =
    format_long_int_repeats floats unit_duration_seconds 5 floats-ExactFloor seconds-Multiplier
      (omega arith, (omega arith, (omega arith, tt))) (omega arith) (omega arith)

seconds_compile : compiles unit_duration_seconds ≡ true
unfolding compiles
seconds_compile = refl

nanoseconds_compile : compiles unit_duration_nanoseconds ≡ true
unfolding compiles
nanoseconds_compile = refl

nanoseconds-UnitsSafe : UnitsSafe (some (units_parser floats unit_duration_nanoseconds))
nanoseconds-UnitsSafe = units_parser-UnitsSafe floats unit_duration_nanoseconds nanoseconds_compile

seconds_distinct : All DistinctGroup unit_duration_seconds.multipliers
seconds_distinct = (refl, (refl, (refl, tt)))

padded : trim_space (codes " 45seconds ") ≡ format_nat 45 ++ codes "seconds"
unfolding trim_space format_nat
padded = refl

parse_units_int-format_nat_example :
    parse_units_int floats unit_duration_seconds (codes " 45seconds ") ≡ ok (pos 45)
parse_units_int-format_nat_example =
    parse_units_int-format_nat floats unit_duration_seconds 45 (codes "seconds")
      (codes " 45seconds ") seconds_compile seconds_distinct (inr (inr (inr (inr (inl refl))))) refl
      refl (omega arith) padded

kilobyte_run : parse_units_int floats unit_bytes (codes "3kB 5B") ≡ ok (pos 3077)
unfolding parse_units_int parse trim_space compiles expression insert_multiplier find_submatch
    consumed drop_continuation add_up handle_parse_multiplier submatch parse_int wrap_int64 ◌+ℤ◌
    ◌*ℤ◌
kilobyte_run = refl

minute_run : parse_units_int floats unit_duration_seconds (codes "5m5s") ≡ err bad_argument
unfolding parse_units_int parse trim_space compiles expression insert_multiplier find_submatch
    consumed drop_continuation add_up handle_parse_multiplier submatch parse_int
minute_run = refl

-- A multiplier 1 is accepted, and its number is counted twice.
abbrev doubled : UnitsDefinition
doubled = record {
  base_unit = unit_bytes.base_unit;
  multipliers = (pos 1, unit_percentage.base_unit) ∷ [];
}

doubled_run : parse_units_int floats doubled (codes "5") ≡ ok (pos 10)
unfolding parse_units_int parse trim_space compiles expression insert_multiplier find_submatch
    consumed drop_continuation add_up handle_parse_multiplier submatch parse_int wrap_int64 ◌+ℤ◌
    ◌*ℤ◌
doubled_run = refl

-- The multipliers of two units, in both orders.
abbrev minute : ℤ × UnitDefinition
minute = (pos 60, unit_bytes.base_unit)

abbrev hour : ℤ × UnitDefinition
hour = (pos 3600, unit_percentage.base_unit)

different : pos 60 ≡ pos 3600 → ⊥
different e = omega (arith, ap pos_part e)

clash : {m n : ℤ × UnitDefinition} {A : Type 0} → m ≡ minute → n ≡ hour → m.0 ≡ n.0 → A
clash e f h = absurd (different (sym (ap (λ x. x.0) e) ∙ h ∙ ap (λ x. x.0) f))

two-SingleValued : SingleValued (minute ∷ hour ∷ [])
two-SingleValued m n (Memᴰ.head e) (Memᴰ.head f) h = e ∙ sym f
two-SingleValued m n (Memᴰ.head e) (Memᴰ.tail (Memᴰ.head f)) h = clash e f h
two-SingleValued m n (Memᴰ.head e) (Memᴰ.tail (Memᴰ.tail q)) h = absurd (Memᴰ.not-nil q)
two-SingleValued m n (Memᴰ.tail (Memᴰ.head e)) (Memᴰ.head f) h = clash f e (sym h)
two-SingleValued m n (Memᴰ.tail (Memᴰ.head e)) (Memᴰ.tail (Memᴰ.head f)) h = e ∙ sym f
two-SingleValued m n (Memᴰ.tail (Memᴰ.head e)) (Memᴰ.tail (Memᴰ.tail q)) h = absurd (Memᴰ.not-nil q)
two-SingleValued m n (Memᴰ.tail (Memᴰ.tail p)) q h = absurd (Memᴰ.not-nil p)

units_order_independent_example :
    ((z : ℤ)
      → (format_short_int floats (units minute.1 (minute ∷ hour ∷ [])) z
          ≡ format_short_int floats (units minute.1 (hour ∷ minute ∷ [])) z)
        × (format_long_int floats (units minute.1 (minute ∷ hour ∷ [])) z
            ≡ format_long_int floats (units minute.1 (hour ∷ minute ∷ [])) z))
    × ((x : ℕ)
        → (format_short_float floats (units minute.1 (minute ∷ hour ∷ [])) x
            ≡ format_short_float floats (units minute.1 (hour ∷ minute ∷ [])) x)
          × (format_long_float floats (units minute.1 (minute ∷ hour ∷ [])) x
              ≡ format_long_float floats (units minute.1 (hour ∷ minute ∷ [])) x))
    × ((s : Bytes)
        → parse floats (units minute.1 (minute ∷ hour ∷ [])) s
          ≡ parse floats (units minute.1 (hour ∷ minute ∷ [])) s)
units_order_independent_example =
    units_order_independent floats minute.1 (Permᴰ.swap refl refl) two-SingleValued

minute_trimmed : trim_space (codes "5m5s") ≡ codes "5m5s"
unfolding trim_space
minute_trimmed = refl

separated_number-refused_example :
    parse_units_int floats unit_duration_seconds (codes "5m5s") ≡ err bad_argument
separated_number-refused_example =
    separated_number-refused floats unit_duration_seconds b'5' b'm' b'5' [] [] (codes "s")
      (codes "5m5s") seconds_compile (refl, tt) (refl, refl, refl, refl) (refl, tt)
      (refl, (refl, (refl, (refl, tt)))) (inr (inl refl)) refl refl minute_trimmed

within_hour : check_int none (some (pos 3600)) (pos 45) ≡ ok (pos 45)
unfolding check_int
within_hour = refl
